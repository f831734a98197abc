-- ===== src/Sse/Panics.antt =====
-- Which calls of the broker panic.
use task_queue_system.Prelude.{
  ℕ, ◌+◌, ◌≡◌, refl, sym, ◌∙◌, ◌≢◌, ◌↔◌, inl, inr, ite, Bool, true, false, Option, none, some, List,
  [], ◌∷◌, arith, ℕ_discrete, String, if◌then◌else◌,
}
use mathlib.Core.Path.{subst}
use task_queue_system.Prelude.Map.{lookup, lookup-insert, lookup-erase}
use task_queue_system.Sse.{Broker, new_broker, subscribe, unsubscribe, publish, receive}
use task_queue_system.Sse.Sound.{
  IsSound, subscribe-IsSound, receive-Within, publish-Within, unsubscribe-Unsubscribed,
}

-- The calls on a broker; `none` once one of them has panicked.
pub data Op : Type 0 where
  subscribes : Op
  unsubscribes receives : ℕ → Op
  publishes : Option String → Op

unfoldable pub step : Op → Broker → Option Broker
step subscribes b = some (subscribe b).1
step (unsubscribes ch) b = unsubscribe ch b
step (receives ch) b = some (receive ch b).1
step (publishes d) b = publish d b

-- The state after calls, the last one first.
unfoldable pub run : List Op → Option Broker
run [] = some new_broker
run (o ∷ os) = elim (run os) [ none ↦ none | some b ↦ step o b ]

-- How many channels the calls have given, and whether they left channel `ch` subscribed: it was given
-- by a `Subscribe`, and no `Unsubscribe` of it came after.
unfoldable pub given : List Op → ℕ
given [] = 0
given (subscribes ∷ os) = given os + 1
given (_ ∷ os) = given os

unfoldable pub subscribed : ℕ → List Op → Bool
unfolding given
subscribed ch [] = false
subscribed ch (subscribes ∷ os) =
    let before = subscribed ch os in ite (ℕ_discrete (given os) ch) true before
subscribed ch (unsubscribes j ∷ os) =
    let before = subscribed ch os in ite (ℕ_discrete j ch) false before
subscribed ch (_ ∷ os) = subscribed ch os

abbrev pub Follows : List Op → Broker → Type 0
Follows os b =
    IsSound b
    × (b.next ≡ given os)
    × ((ch : ℕ) → lookup ℕ_discrete ch b.clients ≡ (if subscribed ch os then some tt else none))

abbrev pub FollowsIfAny : List Op → Option Broker → Type 0
FollowsIfAny os none = Unit
FollowsIfAny os (some b) = Follows os b

step-FollowsIfAny :
    (o : Op) (os : List Op) (b : Broker) → Follows os b → FollowsIfAny (o ∷ os) (step o b)
unfolding step given subscribed subscribe
step-FollowsIfAny subscribes os b (h, n, s) = (
  subscribe-IsSound b h,
  omega (arith, n),
  λ ch. rw (← n) (ground (arith, lookup-insert ℕ_discrete b.next ch tt b.clients, s ch)),
)
step-FollowsIfAny (receives j) os b (h, n, s) =
    let (cs, m, sound) = receive-Within j b h in (sound, m ∙ n, λ ch. rw cs (s ch))
step-FollowsIfAny (publishes d) os b (h, n, s) =
    let (b', e, (cs, m, sound)) = publish-Within d b h in
    subst (FollowsIfAny (publishes d ∷ os)) (sym e) (sound, m ∙ n, λ ch. rw cs (s ch))
step-FollowsIfAny (unsubscribes j) os b (h, n, s) = elim (unsubscribe-Unsubscribed j b h) [
  | inl (e, _) ↦ subst (FollowsIfAny (unsubscribes j ∷ os)) (sym e) tt
  | inr (b', e, sound, _, cs, m) ↦
      subst (FollowsIfAny (unsubscribes j ∷ os)) (sym e)
        (sound, m ∙ n, λ ch. rw cs (ground (arith, lookup-erase ℕ_discrete j ch b.clients, s ch)))
]

pub run-FollowsIfAny : (os : List Op) → FollowsIfAny os (run os)
unfolding run new_broker lookup given subscribed
run-FollowsIfAny [] = ((λ ch. (λ e. ground arith, λ (c, e, _). ground arith)), refl, λ ch. refl)
run-FollowsIfAny (o ∷ os) = next (run os) (run-FollowsIfAny os)
  where
    next :
        (r : Option Broker)
        → FollowsIfAny os r
        → FollowsIfAny (o ∷ os) (elim r [ none ↦ none | some b ↦ step o b ])
    next none h = tt
    next (some b) h = step-FollowsIfAny o os b h

-- After any calls that did not panic, `Publish` does not panic, and `Unsubscribe` panics exactly if
-- these calls did not leave the channel subscribed.
pub run-panics :
    (os : List Op) (b : Broker)
    → run os ≡ some b
    → (data_ : Option String) (ch : ℕ)
    → (publish data_ b ≢ none) × ((unsubscribe ch b ≡ none) ↔ (subscribed ch os ≡ false))
run-panics os b e data_ ch =
    let (h, _, s) = subst (FollowsIfAny os) e (run-FollowsIfAny os) in
    let (b', done, _) = publish-Within data_ b h in
    (
      λ p. ground (arith, p, done),
      elim (unsubscribe-Unsubscribed ch b h) [
        | inl (p, q) ↦ (λ _. ground (arith, s ch, q), λ _. p)
        | inr (b'', p, _, q, _, _) ↦ (λ r. ground (arith, p, r), λ r. ground (arith, s ch, q, r))
      ],
    )
