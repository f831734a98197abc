-- ===== src/Queue/Settle/Rate.antt =====
-- `IsAllowed`: a counter for each tenant that expires one second after the first request.
use task_queue_system.Prelude.{
  ℕ, ◌+◌, ◌<◌, ◌≡◌, ◌≢◌, Bool, true, Option, none, some, [], ◌∷◌, arith, String, leb,
}
use task_queue_system.Redis.Data.{rate, Store}
use task_queue_system.Redis.Commands.{deadline_in, perform, string_at, number_in}
use task_queue_system.Redis.Client.{
  Call, Documented, by_document, Server, Result, ok, delivered, request_lost, send,
}
use task_queue_system.Queue.Partition.{RedisQueue}
use task_queue_system.Queue.Settle.{is_allowed}

-- The requests of a tenant that its counter holds.
abbrev pub hits : String → Store → ℕ
hits tenant d = number_in (string_at d (rate tenant))

-- When the counter expires; `none` if never.
abbrev pub expiry : String → Store → Option ℕ
expiry tenant d = deadline_in (string_at d (rate tenant))

-- A request counted, and the answer: `limit` requests in the window that the first one opens.
pub record Counted (q : RedisQueue) (tenant : String) (s : Server) (r : Result Bool) (t : Server)
    : Type 0 where
  pub answer : r ≡ ok (leb (hits tenant s.store + 1) q.rate_limit)
  pub one_more : hits tenant t.store ≡ hits tenant s.store + 1
  pub opened : hits tenant s.store ≡ 0 → expiry tenant t.store ≡ some (s.store.clock + 1000000000)
  pub kept : 0 < hits tenant s.store → expiry tenant t.store ≡ expiry tenant s.store

is_allowed_performed :
    (q : RedisQueue) (tenant : String) (s : Server)
    → 0 < q.rate_limit
    → tenant ≢ ""
    → s.faults ≡ []
    → let (r, t) = is_allowed perform q tenant s in Counted q tenant s r t
unfolding is_allowed send perform
is_allowed_performed q tenant s pos ne f = record {
  answer = ground arith;
  one_more = ground arith;
  opened = λ z. ground arith;
  kept = λ z. ground arith;
}

-- While every request is delivered, and for a named tenant and a positive limit, `IsAllowed` counts
-- each request of the tenant and admits it exactly if it is among the first `rate_limit` of its window; the first request of a window sets the
-- counter to expire one second later, and no other moves that moment.
pub is_allowed-Counted :
    (call : Call) (q : RedisQueue) (tenant : String) (s : Server)
    → Documented call
    → 0 < q.rate_limit
    → tenant ≢ ""
    → s.faults ≡ []
    → let (r, t) = is_allowed call q tenant s in Counted q tenant s r t
is_allowed-Counted call q tenant s doc pos ne f =
    by_document (λ c. let (r, t) = is_allowed c q tenant s in Counted q tenant s r t) doc
      (is_allowed_performed q tenant s pos ne f)

is_allowed-sticks_performed :
    (q : RedisQueue) (tenant : String) (s : Server)
    → 0 < q.rate_limit
    → tenant ≢ ""
    → string_at s.store (rate tenant) ≡ none
    → s.faults ≡ delivered ∷ request_lost ∷ []
    → let (r, t) = is_allowed perform q tenant s in
      (r ≡ ok true) × (hits tenant t.store ≡ 1) × (expiry tenant t.store ≡ none)
unfolding is_allowed send perform
is_allowed-sticks_performed q tenant s pos ne e f = (ground arith, ground arith, ground arith)

-- For a named tenant and a positive limit: if the EXPIRE after the first request of a window is lost,
-- the request is still admitted, and the counter has no moment at which it expires.
is_allowed-sticks :
    (call : Call) (q : RedisQueue) (tenant : String) (s : Server)
    → Documented call
    → 0 < q.rate_limit
    → tenant ≢ ""
    → string_at s.store (rate tenant) ≡ none
    → s.faults ≡ delivered ∷ request_lost ∷ []
    → let (r, t) = is_allowed call q tenant s in
      (r ≡ ok true) × (hits tenant t.store ≡ 1) × (expiry tenant t.store ≡ none)
is_allowed-sticks call q tenant s doc pos ne e f =
    by_document
      (λ c.
        let (r, t) = is_allowed c q tenant s in
        (r ≡ ok true) × (hits tenant t.store ≡ 1) × (expiry tenant t.store ≡ none))
      doc (is_allowed-sticks_performed q tenant s pos ne e f)
