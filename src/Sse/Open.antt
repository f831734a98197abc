-- ===== src/Sse/Open.antt =====
-- Sending keeps the channels open that are.
use task_queue_system.Prelude.{
  ℕ, ◌≡◌, refl, ap, ◌∙◌, ◌↔◌, ite, false, none, some, List, [], ◌∷◌, arith, ℕ_discrete, String,
  if◌then◌else◌,
}
use task_queue_system.Prelude.Map.{lookup, insert, lookup-insert}
use task_queue_system.Sse.{Channel, send, send_then, send_each, offer}

abbrev pub IsOpen : ℕ → List (ℕ × Channel) → Type 0
IsOpen ch m = (c : Channel) × (lookup ℕ_discrete ch m ≡ some c) × (c.closed ≡ false)

-- The same channels are open.
abbrev pub Alike : List (ℕ × Channel) → List (ℕ × Channel) → Type 0
Alike m n = (ch : ℕ) → IsOpen ch m ↔ IsOpen ch n

pub insert-Alike :
    (ch : ℕ) (c d : Channel) (m : List (ℕ × Channel))
    → lookup ℕ_discrete ch m ≡ some c
    → d.closed ≡ c.closed
    → Alike m (insert ℕ_discrete ch d m)
insert-Alike ch c d m found same j = elim (ℕ_discrete ch j) [
  | yes e ↦ (
    λ (x, p, q). (d, ground (arith, at, e), ground (arith, p, found, e, q, same)),
    λ (x, p, q). (c, ground (arith, found, e), ground (arith, at, p, e, q, same)),
  )
  | no n ↦
      (λ (x, p, q). (x, ground (arith, at, n, p), q), λ (x, p, q). (x, ground (arith, at, n, p), q))
]
  where
    at :
        lookup ℕ_discrete j (insert ℕ_discrete ch d m)
        ≡ ite (ℕ_discrete ch j) (some d) (lookup ℕ_discrete j m)
    at = lookup-insert ℕ_discrete ch j d m

pub offer-closed : (msg : String) (c : Channel) → (offer msg c).closed ≡ c.closed
unfolding offer
offer-closed msg c = ground arith

abbrev pub AllOpen : List (ℕ × Unit {0}) → List (ℕ × Channel) → Type 0
AllOpen [] m = Unit
AllOpen ((ch, _) ∷ cs) m = IsOpen ch m × AllOpen cs m

pub AllOpen-Alike :
    (cs : List (ℕ × Unit {0})) (m n : List (ℕ × Channel)) → Alike m n → AllOpen cs m → AllOpen cs n
AllOpen-Alike [] m n same h = tt
AllOpen-Alike ((ch, _) ∷ cs) m n same h = ((same ch).0 h.0, AllOpen-Alike cs m n same h.1)

abbrev Alike_trans : (m n o : List (ℕ × Channel)) → Alike m n → Alike n o → Alike m o
Alike_trans m n o p q ch = (λ h. (q ch).0 ((p ch).0 h), λ h. (p ch).1 ((q ch).1 h))

send_open :
    (msg : String) (ch : ℕ) (m : List (ℕ × Channel)) (c : Channel)
    → c.closed ≡ false
    → send msg ch m (some c) ≡ some (insert ℕ_discrete ch (offer msg c) m)
unfolding send
send_open msg ch m c live =
    ap (λ b. if b then none else some (insert ℕ_discrete ch (offer msg c) m)) live

-- The loop goes on past an open channel.
pub send_each-next :
    (msg : String) (ch : ℕ) (cs : List (ℕ × Unit {0})) (m : List (ℕ × Channel)) (c : Channel)
    → lookup ℕ_discrete ch m ≡ some c
    → c.closed ≡ false
    → send_each msg ((ch, tt) ∷ cs) m ≡ send_each msg cs (insert ℕ_discrete ch (offer msg c) m)
unfolding send_each send_then
send_each-next msg ch cs m c found live =
    ap (λ r. send_then (send msg ch m r) (λ m'. send_each msg cs m')) found
    ∙ ap (λ r. send_then r (λ m'. send_each msg cs m')) (send_open msg ch m c live)

pub send_each-Alike :
    (msg : String) (cs : List (ℕ × Unit {0})) (m : List (ℕ × Channel))
    → AllOpen cs m
    → (n : List (ℕ × Channel)) × (send_each msg cs m ≡ some n) × Alike m n
unfolding send_each send_then
send_each-Alike msg [] m h = (m, refl, λ ch. (λ k. k, λ k. k))
send_each-Alike msg ((ch, _) ∷ cs) m ((c, found, live), h) =
    let n = insert ℕ_discrete ch (offer msg c) m in
    let one = insert-Alike ch c (offer msg c) m found (offer-closed msg c) in
    let (o, done, rest) = send_each-Alike msg cs n (AllOpen-Alike cs m n one h) in
    (o, send_each-next msg ch cs m c found live ∙ done, Alike_trans m n o one rest)
