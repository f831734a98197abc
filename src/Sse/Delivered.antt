-- ===== src/Sse/Delivered.antt =====
-- What a client has yet to read.
use task_queue_system.Prelude.{
  ℕ, ◌≤◌, ◌≡◌, refl, sym, ap, ◌∙◌, inl, inr, true, Option, none, some, List, [], ◌∷◌, arith, String,
  length, Option-cases,
}
use mathlib.Core.Path.{subst}
use task_queue_system.Prelude.{length-append}
use task_queue_system.Sse.Unread.{
  tail, unread, IsUnread, IsUnreadIfAny, subscribe-IsUnread, unsubscribe-IsUnread, receive-IsUnread,
  publish-IsUnread,
}
use task_queue_system.Sse.{
  Channel, Broker, new_broker, unsubscribe, publish, receive, first_of, taken, message,
}
use task_queue_system.Sse.Panics.{
  Op, subscribes, unsubscribes, receives, publishes, step, run, subscribed, Follows, FollowsIfAny,
  run-FollowsIfAny,
}

step-IsUnreadIfAny :
    (o : Op) (os : List Op) (b : Broker)
    → Follows os b
    → IsUnread os b
    → IsUnreadIfAny (o ∷ os) (step o b)
unfolding step
step-IsUnreadIfAny subscribes os b f h = subscribe-IsUnread os b f h
step-IsUnreadIfAny (receives j) os b f h = receive-IsUnread j os b h
step-IsUnreadIfAny (publishes none) os b f h = unfold publish unread subscribed in h
step-IsUnreadIfAny (publishes (some d)) os b f h = publish-IsUnread d os b f h
step-IsUnreadIfAny (unsubscribes j) os b f h = elim (Option-cases (unsubscribe j b)) [
  | inl e ↦ subst (IsUnreadIfAny (unsubscribes j ∷ os)) (sym e) tt
  | inr (b', e) ↦
      subst (IsUnreadIfAny (unsubscribes j ∷ os)) (sym e) (unsubscribe-IsUnread j os b b' e h)
]

run-IsUnreadIfAny : (os : List Op) → IsUnreadIfAny os (run os)
unfolding run new_broker subscribed
run-IsUnreadIfAny [] = (tt, λ ch e. ground arith)
run-IsUnreadIfAny (o ∷ os) = next (run os) (run-FollowsIfAny os) (run-IsUnreadIfAny os)
  where
    next :
        (r : Option Broker)
        → FollowsIfAny os r
        → IsUnreadIfAny os r
        → IsUnreadIfAny (o ∷ os) (elim r [ none ↦ none | some b ↦ step o b ])
    next none f h = tt
    next (some b) f h = step-IsUnreadIfAny o os b f h

tail-le : (ms : List String) → length (tail ms) ≤ length ms
unfolding tail
tail-le [] = omega arith
tail-le (m ∷ ms) = omega arith

unread-le : (os : List Op) (ch : ℕ) → length (unread ch os) ≤ 64
unfolding unread
unread-le [] ch = omega arith
unread-le (subscribes ∷ os) ch = ground (arith, unread-le os ch)
unread-le (unsubscribes j ∷ os) ch = unread-le os ch
unread-le (receives j ∷ os) ch = ground (arith, unread-le os ch, tail-le (unread ch os))
unread-le (publishes none ∷ os) ch = unread-le os ch
unread-le (publishes (some d) ∷ os) ch =
    ground (arith, unread-le os ch, length-append (unread ch os) (message d ∷ []))

abbrev pub first : List String → Option String
first [] = none
first (m ∷ ms) = some m

taken-first :
    (ch : ℕ) (b : Broker) (c : Channel) (ms : List String) → (taken ch b c ms).0 ≡ first ms
unfolding taken
taken-first ch b c [] = refl
taken-first ch b c (m ∷ ms) = refl

-- A client that is subscribed after the calls reads the first message that they left unread in its
-- channel, or nothing if there is none. These messages depend on the events published and on its own
-- reads alone, in the order of publication; an event is dropped only if 64 are unread, so there are
-- never more.
pub receive-unread :
    (os : List Op) (b : Broker) (ch : ℕ)
    → run os ≡ some b
    → subscribed ch os ≡ true
    → ((receive ch b).0 ≡ first (unread ch os)) × (length (unread ch os) ≤ 64)
unfolding receive first_of
receive-unread os b ch e s =
    let (c, q, r) = (subst (IsUnreadIfAny os) e (run-IsUnreadIfAny os)).1 ch s in
    (ap (λ o. (first_of ch b o).0) q ∙ taken-first ch b c c.buffer ∙ ap first r, unread-le os ch)
