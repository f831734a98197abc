-- ===== src/Sse/Sound.antt =====
-- The clients of the broker are the channels that are open.
use task_queue_system.Prelude.{
  ℕ, ◌≡◌, refl, ◌↔◌, ◌⊎◌, inl, inr, ite, true, false, Option, none, some, List, [], ◌∷◌, arith,
  ℕ_discrete, String, Bool-cases, Option-cases,
}
use task_queue_system.Prelude.Map.{lookup, insert, erase, lookup-insert, lookup-erase}
use task_queue_system.Sse.Open.{IsOpen, Alike, AllOpen, insert-Alike, send_each-Alike}
use task_queue_system.Sse.{
  Channel, Broker, channel, subscribe, unsubscribe, close_channel, publish, receive, first_of,
  taken, with_channels, message,
}

-- The clients of the broker are the open channels.
abbrev pub IsSound : Broker → Type 0
IsSound b = (ch : ℕ) → (lookup ℕ_discrete ch b.clients ≡ some tt) ↔ IsOpen ch b.channels

IsSound-Alike :
    (b : Broker) (m : List (ℕ × Channel))
    → Alike b.channels m
    → IsSound b
    → IsSound (record b { channels = m })
IsSound-Alike b m same h ch = (λ p. (same ch).0 ((h ch).0 p), λ p. (h ch).1 ((same ch).1 p))

pub AllOpen_lem :
    (cs : List (ℕ × Unit {0})) (m : List (ℕ × Channel))
    → ((ch : ℕ) → lookup ℕ_discrete ch cs ≡ some tt → IsOpen ch m)
    → AllOpen cs m
unfolding lookup
AllOpen_lem [] m h = tt
AllOpen_lem ((ch, u) ∷ cs) m h =
    (h ch (ground arith), AllOpen_lem cs m (λ j e. h j (ground (arith, e))))

pub subscribe-IsSound : (b : Broker) → IsSound b → IsSound (subscribe b).1
unfolding subscribe
subscribe-IsSound b h ch = elim (ℕ_discrete b.next ch) [
  | yes e ↦ (λ _. (fresh, ground (arith, at, e), refl), λ _. ground (arith, client, e))
  | no n ↦ (
    λ p.
        let (c, q, r) = (h ch).0 (ground (arith, client, n, p)) in (c, ground (arith, at, n, q), r),
    λ (c, q, r). let p = (h ch).1 (c, ground (arith, at, n, q), r) in ground (arith, client, n, p),
  )
]
  where
    fresh : Channel
    fresh = record { buffer = []; closed = false }

    client :
        lookup ℕ_discrete ch (insert ℕ_discrete b.next tt b.clients)
        ≡ ite (ℕ_discrete b.next ch) (some tt) (lookup ℕ_discrete ch b.clients)
    client = lookup-insert ℕ_discrete b.next ch tt b.clients

    at :
        lookup ℕ_discrete ch (insert ℕ_discrete b.next fresh b.channels)
        ≡ ite (ℕ_discrete b.next ch) (some fresh) (lookup ℕ_discrete ch b.channels)
    at = lookup-insert ℕ_discrete b.next ch fresh b.channels

-- A call that changes no more than what is in the channels.
abbrev pub Within : Broker → Broker → Type 0
Within b b' = (b'.clients ≡ b.clients) × (b'.next ≡ b.next) × IsSound b'

pub publish-Within :
    (data_ : Option String) (b : Broker)
    → IsSound b
    → (b' : Broker) × (publish data_ b ≡ some b') × Within b b'
unfolding publish with_channels
publish-Within none b h = (b, refl, (refl, refl, h))
publish-Within (some data_) b h =
    let open_ = AllOpen_lem b.clients b.channels (λ ch e. (h ch).0 e) in
    let (m, done, same) = send_each-Alike (message data_) b.clients b.channels open_ in
    (record b { channels = m }, rw done, (refl, refl, IsSound-Alike b m same h))

taken-Within :
    (ch : ℕ) (b : Broker) (c : Channel) (ms : List String)
    → channel ch b ≡ some c
    → IsSound b
    → Within b (taken ch b c ms).1
unfolding taken
taken-Within ch b c [] e h = (refl, refl, h)
taken-Within ch b c (m ∷ ms) e h = (
  refl,
  refl,
  IsSound-Alike b _ (insert-Alike ch c (record c { buffer = ms }) b.channels e refl) h,
)

first_of-Within :
    (ch : ℕ) (b : Broker) (o : Option Channel)
    → channel ch b ≡ o
    → IsSound b
    → Within b (first_of ch b o).1
unfolding first_of
first_of-Within ch b none e h = (refl, refl, h)
first_of-Within ch b (some c) e h = taken-Within ch b c c.buffer e h

pub receive-Within : (ch : ℕ) (b : Broker) → IsSound b → Within b (receive ch b).1
unfolding receive
receive-Within ch b h = first_of-Within ch b (channel ch b) refl h

not_open :
    (ch : ℕ) (b : Broker)
    → IsSound b
    → ¬ IsOpen ch b.channels
    → lookup ℕ_discrete ch b.clients ≡ none
not_open ch b h n = elim (Option-cases (lookup ℕ_discrete ch b.clients)) [
  | inl e ↦ e
  | inr (u, e) ↦ elim (n ((h ch).0 e)) [ ]
]

closed-IsSound :
    (ch : ℕ) (b : Broker) (c : Channel)
    → channel ch b ≡ some c
    → IsSound b
    → IsSound (record b {
      clients = erase ℕ_discrete ch b.clients;
      channels = insert ℕ_discrete ch (record c { closed = true }) b.channels;
    })
closed-IsSound ch b c e h j = elim (ℕ_discrete ch j) [
  | yes q ↦ (λ p. ground (arith, client, q, p), λ (d, p, r). ground (arith, at, q, p, r))
  | no n ↦ (
    λ p. let (d, q, r) = (h j).0 (ground (arith, client, n, p)) in (d, ground (arith, at, n, q), r),
    λ (d, q, r). let p = (h j).1 (d, ground (arith, at, n, q), r) in ground (arith, client, n, p),
  )
]
  where
    client :
        lookup ℕ_discrete j (erase ℕ_discrete ch b.clients)
        ≡ ite (ℕ_discrete ch j) none (lookup ℕ_discrete j b.clients)
    client = lookup-erase ℕ_discrete ch j b.clients

    at :
        lookup ℕ_discrete j (insert ℕ_discrete ch (record c { closed = true }) b.channels)
        ≡ ite (ℕ_discrete ch j) (some (record c { closed = true })) (lookup ℕ_discrete j b.channels)
    at = lookup-insert ℕ_discrete ch j (record c { closed = true }) b.channels

-- What `Unsubscribe` does on a sound broker.
abbrev pub Unsubscribed : ℕ → Broker → Option Broker → Type 0
Unsubscribed ch b o =
    ((o ≡ none) × (lookup ℕ_discrete ch b.clients ≡ none))
    ⊎ ((b' : Broker) × (o ≡ some b')
        × IsSound b'
        × (lookup ℕ_discrete ch b.clients ≡ some tt)
        × (b'.clients ≡ erase ℕ_discrete ch b.clients)
        × (b'.next ≡ b.next))

close_channel-Unsubscribed :
    (ch : ℕ) (b : Broker) (o : Option Channel)
    → channel ch b ≡ o
    → IsSound b
    → Unsubscribed ch b (close_channel ch (record b { clients = erase ℕ_discrete ch b.clients }) o)
unfolding close_channel
close_channel-Unsubscribed ch b none e h =
    inl (refl, not_open ch b h (λ (c, p, _). ground (arith, e, p)))
close_channel-Unsubscribed ch b (some c) e h = elim (Bool-cases c.closed) [
  | inl p ↦ inl (ground (arith, p), not_open ch b h (λ (d, q, r). ground (arith, e, q, r, p)))
  | inr p ↦ inr (
    record b {
      clients = erase ℕ_discrete ch b.clients;
      channels = insert ℕ_discrete ch (record c { closed = true }) b.channels;
    },
    ground (arith, p),
    closed-IsSound ch b c e h,
    (h ch).1 (c, e, p),
    refl,
    refl,
  )
]

pub unsubscribe-Unsubscribed :
    (ch : ℕ) (b : Broker) → IsSound b → Unsubscribed ch b (unsubscribe ch b)
unfolding unsubscribe
unsubscribe-Unsubscribed ch b h = close_channel-Unsubscribed ch b (channel ch b) refl h
