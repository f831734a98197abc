-- ===== src/Service/World.antt =====
-- internal/service/job_service.go: what the methods of `JobService` work on. The store is known by its
-- methods; what the queue answers and which endpoints match are given, and every call is logged.
use task_queue_system.Webhooks.Types.{RegisteredWebhook}
use task_queue_system.Storage.Dual.{in_memory, StoreWrite, StoreReply, StoreRead, StoreMethods}
use task_queue_system.Storage.{InMemoryStore, StoreError}
use task_queue_system.Jobs.Types.{Job}
use task_queue_system.Prelude.{ℕ, ◌⊎◌, inl, inr, Bool, Option, List, [], ◌∷◌, ◌++◌, String}

-- The calls that change the store or the queue, or that tell others.
pub data ServiceCall : Type 0 where
  writes : StoreWrite → ServiceCall
  enqueues : Job → ServiceCall
  acks : String → ServiceCall
  broadcasts : String → ServiceCall
  shows : (id status type tenant : String) → ServiceCall
  notifies : (event url secret : String) → Job → ServiceCall

-- The store and its state, the queue's answer to an enqueued job after some calls, and what the webhook
-- store matches; `none` where that fails or is not there.
pub record Backend (S : Type 0) : Type 1 where
  pub store : StoreMethods S
  pub accepts : List ServiceCall → Job → Bool
  pub endpoints : (tenant event : String) → Option (List RegisteredWebhook)
  pub has_broker : Bool

-- The service over the memory store.
abbrev pub memory_backend :
    (List ServiceCall → Job → Bool)
    → ((tenant event : String) → Option (List RegisteredWebhook))
    → Bool
    → Backend InMemoryStore
memory_backend accepts endpoints has_broker = record {
  store = in_memory;
  accepts = accepts;
  endpoints = endpoints;
  has_broker = has_broker;
}

pub record World (S : Type 0) : Type 0 where
  pub state : S
  pub calls : List ServiceCall

abbrev pub M : Type 0 → Type 0 → Type 0
M S A = World S → A × World S

abbrev pub pure : {S A : Type 0} → A → M S A
pure a w = (a, w)

infixl 5 ◌>>=◌ ◌>>◌
abbrev pub ◌>>=◌ : {S A B : Type 0} → M S A → (A → M S B) → M S B
◌>>=◌ m f w = let (a, v) = m w in f a v

abbrev pub ◌>>◌ : {S A B : Type 0} → M S A → M S B → M S B
m >> k = m >>= λ _. k

abbrev pub logged : {S : Type 0} → ServiceCall → World S → World S
logged c w = record w { calls = w.calls ++ c ∷ [] }

abbrev pub tell : {S : Type 0} → ServiceCall → M S (Unit {0})
tell c w = (tt, logged c w)

-- The errors that the methods return.
pub data ServiceError : Type 0 where
  store_failed : StoreError → ServiceError
  odd_reply forbidden no_key bad_progress no_such_job query_failed not_persisted not_enqueued :
      ServiceError

abbrev pub Answer : Type 0 → Type 0
Answer A = ServiceError ⊎ A

-- The reply of a method that returns only an error, and of those that return jobs or a number.
abbrev pub as_done : StoreReply → Answer (Unit {0})
as_done (StoreReply.refused e) = inl (store_failed e)
as_done _ = inr tt

abbrev pub as_job : StoreReply → Answer Job
as_job (StoreReply.refused e) = inl (store_failed e)
as_job (StoreReply.job_reply j) = inr j
as_job _ = inl odd_reply

abbrev pub as_jobs : StoreReply → Answer (List Job)
as_jobs (StoreReply.refused e) = inl (store_failed e)
as_jobs (StoreReply.jobs_reply js) = inr js
as_jobs _ = inl odd_reply

abbrev pub as_count : StoreReply → Answer ℕ
as_count (StoreReply.refused e) = inl (store_failed e)
as_count (StoreReply.count_reply n) = inr n
as_count _ = inl odd_reply

module _ {S : Type 0} (b : Backend S) where
  abbrev pub write : StoreWrite → M S StoreReply
  write c w =
      let (r, s) = b.store.write c w.state in
      (r, record { state = s; calls = w.calls ++ writes c ∷ [] })

  abbrev pub read : StoreRead → M S StoreReply
  read c w = (b.store.read c w.state, w)

  -- `queue.Enqueue`: whether it succeeded.
  abbrev pub enqueue : Job → M S Bool
  enqueue j w = (b.accepts w.calls j, logged (enqueues j) w)
