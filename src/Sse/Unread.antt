-- ===== src/Sse/Unread.antt =====
-- What the calls leave unread in a channel.
use task_queue_system.Prelude.{
  ℕ, ◌≡◌, refl, sym, ap, ◌∙◌, ◌≢◌, ite, if_pos, true, false, Option, none, some, List, [], ◌∷◌,
  ◌++◌, arith, ℕ_discrete, String, ltb, if◌then◌else◌, length,
}
use mathlib.Core.Path.{subst}
use task_queue_system.Prelude.Map.{
  lookup, insert, Unique, lookup-insert, insert-Unique, erase-Unique,
}
use task_queue_system.Sse.{
  Channel, Broker, channel, subscribe, unsubscribe, close_channel, publish, receive, first_of,
  taken, send_then, send_each, with_channels, message, offer,
}
use task_queue_system.Sse.Open.{AllOpen, AllOpen-Alike, insert-Alike, offer-closed, send_each-next}
use task_queue_system.Sse.Sound.{AllOpen_lem}
use task_queue_system.Sse.Panics.{
  Op, subscribes, unsubscribes, receives, publishes, given, subscribed, Follows,
}

abbrev offered : String → Option (Unit {0}) → Option Channel → Option Channel
offered msg (some u) (some c) = some (offer msg c)
offered msg _ o = o

-- The loop of `Publish` offers the message to each client once.
send_each-offered :
    (msg : String) (cs : List (ℕ × Unit {0})) (m : List (ℕ × Channel))
    → Unique ℕ_discrete cs
    → AllOpen cs m
    → (n : List (ℕ × Channel)) × (send_each msg cs m ≡ some n)
      × ((j : ℕ)
          → lookup ℕ_discrete j n ≡ offered msg (lookup ℕ_discrete j cs) (lookup ℕ_discrete j m))
unfolding send_each send_then lookup
send_each-offered msg [] m u h = (m, refl, λ j. refl)
send_each-offered msg ((ch, _) ∷ cs) m (new, u) ((c, found, live), h) =
    let n = insert ℕ_discrete ch (offer msg c) m in
    let one = insert-Alike ch c (offer msg c) m found (offer-closed msg c) in
    let (o, done, rest) = send_each-offered msg cs n u (AllOpen-Alike cs m n one h) in
    (
      o,
      send_each-next msg ch cs m c found live ∙ done,
      λ j.
          let at = lookup-insert ℕ_discrete ch j (offer msg c) m in
          elim (ℕ_discrete ch j) [
            | yes e ↦ ground (arith, rest j, at, new, found, e)
            | no ne ↦ ground (arith, rest j, at, ne)
          ],
    )

unfoldable pub tail : List String → List String
tail [] = []
tail (m ∷ ms) = ms

-- The messages that the calls, the last one first, left unread in channel `ch`.
unfoldable pub unread : ℕ → List Op → List String
unfolding given
unread ch [] = []
unread ch (subscribes ∷ os) = let before = unread ch os in ite (ℕ_discrete (given os) ch) [] before
unread ch (unsubscribes j ∷ os) = unread ch os
unread ch (receives j ∷ os) =
    let before = unread ch os in ite (ℕ_discrete j ch) (tail before) before
unread ch (publishes none ∷ os) = unread ch os
unread ch (publishes (some d) ∷ os) =
    let before = unread ch os in if ltb (length before) 64 then before ++ message d ∷ [] else before

abbrev pub IsUnread : List Op → Broker → Type 0
IsUnread os b =
    Unique ℕ_discrete b.clients
    × ((ch : ℕ)
        → subscribed ch os ≡ true
        → (c : Channel) × (channel ch b ≡ some c) × (c.buffer ≡ unread ch os))

abbrev pub IsUnreadIfAny : List Op → Option Broker → Type 0
IsUnreadIfAny os none = Unit
IsUnreadIfAny os (some b) = IsUnread os b

close_channel-others :
    (j i : ℕ) (b b' : Broker) (o : Option Channel)
    → close_channel j b o ≡ some b'
    → j ≢ i
    → channel i b' ≡ channel i b
unfolding close_channel
close_channel-others j i b b' none e ne = ground arith
close_channel-others j i b b' (some c) e ne =
    ground (arith, e, ne, lookup-insert ℕ_discrete j i (record c { closed = true }) b.channels)

close_channel-clients :
    (j : ℕ) (b b' : Broker) (o : Option Channel)
    → close_channel j b o ≡ some b'
    → b'.clients ≡ b.clients
unfolding close_channel
close_channel-clients j b b' none e = ground arith
close_channel-clients j b b' (some c) e = ground (arith, e)

pub subscribe-IsUnread :
    (os : List Op) (b : Broker)
    → Follows os b
    → IsUnread os b
    → IsUnread (subscribes ∷ os) (subscribe b).1
unfolding subscribe subscribed unread
subscribe-IsUnread os b (_, n, _) (u, h) = (
  insert-Unique ℕ_discrete b.next tt b.clients u,
  λ ch e. elim (ℕ_discrete (given os) ch) [
    | yes p ↦
        (record { buffer = []; closed = false }, ground (arith, at ch, n, p), ground (arith, p))
    | no ne ↦
        let (c, q, r) = h ch (ground (arith, e, ne)) in
        (c, ground (arith, at ch, n, ne, q), ground (arith, r, ne))
  ],
)
  where
    at :
        (ch : ℕ)
        → lookup ℕ_discrete ch
            (insert ℕ_discrete b.next (record { buffer = []; closed = false }) b.channels)
          ≡ ite
              (ℕ_discrete b.next ch)
              (some (record { buffer = []; closed = false }))
              (lookup ℕ_discrete ch b.channels)
    at ch = lookup-insert ℕ_discrete b.next ch (record { buffer = []; closed = false }) b.channels

pub unsubscribe-IsUnread :
    (j : ℕ) (os : List Op) (b b' : Broker)
    → unsubscribe j b ≡ some b'
    → IsUnread os b
    → IsUnread (unsubscribes j ∷ os) b'
unfolding unsubscribe subscribed unread
unsubscribe-IsUnread j os b b' e (u, h) = (
  subst (Unique ℕ_discrete) (sym (close_channel-clients j _ b' (channel j b) e))
      (erase-Unique ℕ_discrete j b.clients u),
  λ ch s. elim (ℕ_discrete j ch) [
    | yes p ↦ ground (arith, s, p)
    | no ne ↦
        let (c, q, r) = h ch (ground (arith, s, ne)) in
        let same = close_channel-others j ch _ b' (channel j b) e ne in (c, same ∙ q, r)
  ],
)

-- What the reading of channel `j` leaves in channel `i`.
taken-channel :
    (j i : ℕ) (b : Broker) (c : Channel) (ms : List String)
    → channel j b ≡ some c
    → c.buffer ≡ ms
    → (channel i (taken j b c ms).1
        ≡ ite (ℕ_discrete j i) (some (record c { buffer = tail ms })) (channel i b))
      × ((taken j b c ms).1.clients ≡ b.clients)
unfolding taken tail
taken-channel j i b c [] e k =
    (elim (ℕ_discrete j i) [ yes p ↦ ground (arith, e, p, k) | no ne ↦ ground (arith, ne) ], refl)
taken-channel j i b c (m ∷ ms) e k =
    (lookup-insert ℕ_discrete j i (record c { buffer = ms }) b.channels, refl)

first_of-IsUnread :
    (j : ℕ) (os : List Op) (b : Broker) (o : Option Channel)
    → channel j b ≡ o
    → IsUnread os b
    → IsUnread (receives j ∷ os) (first_of j b o).1
unfolding first_of subscribed unread
first_of-IsUnread j os b none e (u, h) = (
  u,
  λ ch s.
      let (c, q, r) = h ch s in
      elim (ℕ_discrete j ch) [
        | yes p ↦ ground (arith, e, p, q)
        | no ne ↦ (c, q, ground (arith, r, ne))
      ],
)
first_of-IsUnread j os b (some c) e (u, h) = (
  subst (Unique ℕ_discrete) (sym (left 0).1) u,
  λ ch s.
      let (d, q, r) = h ch s in
      elim (ℕ_discrete j ch) [
        | yes p ↦
            let same : c ≡ d = ground (arith, e, p, q) in
            (
              record c { buffer = tail c.buffer },
              ground (arith, (left ch).0, p),
              ap (λ (x : Channel). tail x.buffer) same
                  ∙ ap tail r
                  ∙ sym (if_pos (ℕ_discrete j ch) p _ _),
            )
        | no ne ↦ (d, ground (arith, (left ch).0, ne, q), ground (arith, r, ne))
      ],
)
  where
    left :
        (i : ℕ)
        → (channel i (taken j b c c.buffer).1
            ≡ ite (ℕ_discrete j i) (some (record c { buffer = tail c.buffer })) (channel i b))
          × ((taken j b c c.buffer).1.clients ≡ b.clients)
    left i = taken-channel j i b c c.buffer e refl

pub receive-IsUnread :
    (j : ℕ) (os : List Op) (b : Broker) → IsUnread os b → IsUnread (receives j ∷ os) (receive j b).1
unfolding receive
receive-IsUnread j os b h = first_of-IsUnread j os b (channel j b) refl h

pub publish-IsUnread :
    (d : String) (os : List Op) (b : Broker)
    → Follows os b
    → IsUnread os b
    → IsUnreadIfAny (publishes (some d) ∷ os) (publish (some d) b)
unfolding publish with_channels subscribed unread offer
publish-IsUnread d os b (sound, n, s) (u, h) =
    let open_ = AllOpen_lem b.clients b.channels (λ ch e. (sound ch).0 e) in
    let (m, done, at) = send_each-offered (message d) b.clients b.channels u open_ in
    rw done (
      u,
      λ ch e.
          let (c, q, r) = h ch e in
          (offer (message d) c, ground (arith, at ch, s ch, e, q), ground (arith, r)),
    )
