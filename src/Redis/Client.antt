-- ===== src/Redis/Client.antt =====
-- The connection to the server, and the calls of github.com/redis/go-redis that return an error.
use task_queue_system.Prelude.{inl, arith, inr, ◌⊎◌, refl, ◌≡◌, sym, List, [], ◌∷◌}
use mathlib.Core.Path.{subst, fun_ext}
use task_queue_system.Redis.Data.{Store}
use task_queue_system.Redis.Commands.{Command, Reply, perform}

-- The server as the queue is given it, and what the queue relies on: the documented commands.
abbrev pub Call : Type 0
Call = Command → Store → Reply × Store

abbrev pub Documented : Call → Type 0
Documented call = (c : Command) (d : Store) → call c d ≡ perform c d

-- A theorem about every documented server follows from the one about `perform`.
pub by_document {ℓ} : {call : Call} (P : Call → Type ℓ) → Documented call → P perform → P call
by_document P doc h = subst P (sym (fun_ext λ c. fun_ext λ d. doc c d)) h

-- What the network does with one request: an error reaches the caller where the request or its reply
-- is lost. The queue meets a list of these, chosen by the environment; after it all are delivered.
pub data Fault : Type 0 where
  delivered request_lost reply_lost : Fault

pub record Server : Type 0 where
  pub store : Store
  pub faults : List Fault

pub data Error : Type 0 where
  io_failed timed_out not_found empty_id nil_job undecodable unencodable not_implemented no_fuel :
      Error

pub data Result {ℓ} (A : Type ℓ) : Type ℓ where
  ok : A → Result A
  err : Error → Result A

abbrev pub M : Type 0 → Type 0
M A = Server → Result A × Server

abbrev pub pure : {A : Type 0} → A → M A
pure a s = (ok a, s)

abbrev pub fail_with : {A : Type 0} → Error → M A
fail_with e s = (err e, s)

abbrev pub bind_result : {A B : Type 0} → Result A × Server → (A → M B) → Result B × Server
bind_result (ok a, s) f = f a s
bind_result (err e, s) f = (err e, s)

infixl 5 ◌>>=◌ ◌>>◌
abbrev pub ◌>>=◌ : {A B : Type 0} → M A → (A → M B) → M B
◌>>=◌ m f s = bind_result (m s) f

abbrev pub ◌>>◌ : {A B : Type 0} → M A → M B → M B
m >> k = m >>= λ _. k

-- Go's `v, _ := f()` and `_ = f()`: an error is dropped.
abbrev pub attempt_result : {A : Type 0} → Result A × Server → Result (Result A) × Server
attempt_result (r, s) = (ok r, s)

abbrev pub attempt : {A : Type 0} → M A → M (Result A)
attempt m s = attempt_result (m s)

transport : {A : Type 0} → List Fault → A × Store → M A
transport [] (r, d) s = (ok r, record { store = d; faults = [] })
transport (delivered ∷ fs) (r, d) s = (ok r, record { store = d; faults = fs })
transport (request_lost ∷ fs) (r, d) s = (err io_failed, record { store = s.store; faults = fs })
transport (reply_lost ∷ fs) (r, d) s = (err io_failed, record { store = d; faults = fs })

-- One command.
unfoldable pub send : Call → Command → M Reply
unfolding transport
send call c s = transport s.faults (call c s.store) s

-- TxPipeline: the commands queued between MULTI and EXEC, one request and executed atomically.
unfoldable pub perform_all : Call → List Command → Store → List Reply × Store
perform_all call [] d = ([], d)
perform_all call (c ∷ cs) d =
    let (r, d') = call c d in let (rs, d'') = perform_all call cs d' in (r ∷ rs, d'')

unfoldable pub exec : Call → List Command → M (List Reply)
unfolding transport perform_all
exec call cs s = transport s.faults (perform_all call cs s.store) s

-- A bind that succeeded, taken apart.
bind_result-ok :
    {A B : Type 0} (m : Result A × Server) (f : A → M B) {b : B} {t : Server}
    → bind_result m f ≡ (ok b, t)
    → (a : A) × (u : Server) × (m ≡ (ok a, u)) × (f a u ≡ (ok b, t))
bind_result-ok (ok a, u) f h = (a, u, refl, h)
bind_result-ok (err e, u) f h = cc

pub >>=-ok :
    {A B : Type 0} (m : M A) (f : A → M B) (s : Server) {b : B} {t : Server}
    → (m >>= f) s ≡ (ok b, t)
    → (a : A) × (u : Server) × (m s ≡ (ok a, u)) × (f a u ≡ (ok b, t))
>>=-ok m f s h = bind_result-ok (m s) f h

bind_result-err :
    {A B : Type 0} (m : Result A × Server) (f : A → M B) {e : Error} {t : Server}
    → bind_result m f ≡ (err e, t)
    → (m ≡ (err e, t)) ⊎ ((a : A) × (u : Server) × (m ≡ (ok a, u)) × (f a u ≡ (err e, t)))
bind_result-err (ok a, u) f h = inr (a, u, refl, h)
bind_result-err (err e', u) f {e} {t} h =
    let p : (e' ≡ e) × (u ≡ t) = ground arith in inl (rw (p.0, p.1) refl)

-- A bind that failed: in its first part, or in the rest.
pub >>=-err :
    {A B : Type 0} (m : M A) (f : A → M B) (s : Server) {e : Error} {t : Server}
    → (m >>= f) s ≡ (err e, t)
    → (m s ≡ (err e, t)) ⊎ ((a : A) × (u : Server) × (m s ≡ (ok a, u)) × (f a u ≡ (err e, t)))
>>=-err m f s h = bind_result-err (m s) f h
