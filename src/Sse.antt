-- ===== src/Sse.antt =====
-- internal/sse/broker.go: the clients of the event stream. A channel is a number; its buffer and whether
-- it is closed are in `channels`. Each method holds the broker's lock, so it is one step; a client reads
-- its channel at any moment (`receive`). `none` is a panic. The text of an event is encoding/json's, an
-- argument of `publish`, `none` where it fails.
pub mod Open
pub mod Sound
pub mod Panics
pub mod Unread
pub mod Delivered
use task_queue_system.Prelude.{
  ℕ, zero, suc, ◌+◌, ◌-◌, ◌*◌, ◌/◌, ◌%◌, ◌^◌, ◌≤◌, ◌<◌, ◌≡◌, refl, sym, ap, ◌∙◌, ◌≢◌, ◌↔◌, ◌⊎◌, inl,
  inr, ite, if_pos, if_neg, Bool, true, false, not, ◌&&◌, ◌||◌, Option, none, some, List, [], ◌∷◌,
  ◌++◌, map, arith, dec_lt, dec_le, ℕ_discrete, String_discrete, String, ltb, leb, ◌==◌,
  if◌then◌else◌, length, Bool-cases, Option-cases, if-intro,
}
use task_queue_system.Prelude.{append_text}
use task_queue_system.Prelude.Map.{lookup, insert, erase}

pub record Channel : Type 0 where
  pub buffer : List String
  pub closed : Bool

pub record Broker : Type 0 where
  pub clients : List (ℕ × Unit {0})
  pub channels : List (ℕ × Channel)
  pub next : ℕ

unfoldable pub new_broker : Broker
new_broker = record { clients = []; channels = []; next = 0 }

abbrev pub channel : ℕ → Broker → Option Channel
channel ch b = lookup ℕ_discrete ch b.channels

abbrev pub capacity : ℕ
capacity = 64

-- `Subscribe`.
unfoldable pub subscribe : Broker → ℕ × Broker
subscribe b = (
  b.next,
  record {
    clients = insert ℕ_discrete b.next tt b.clients;
    channels = insert ℕ_discrete b.next (record { buffer = []; closed = false }) b.channels;
    next = b.next + 1;
  },
)

close_channel : ℕ → Broker → Option Channel → Option Broker
close_channel ch b none = none
close_channel ch b (some c) =
    if c.closed
    then none
    else some (record b { channels = insert ℕ_discrete ch (record c { closed = true }) b.channels })

-- `Unsubscribe`: closing a closed channel, or none, panics.
unfoldable pub unsubscribe : ℕ → Broker → Option Broker
unfolding close_channel
unsubscribe ch b =
    close_channel ch (record b { clients = erase ℕ_discrete ch b.clients }) (channel ch b)

-- The `select` of `Publish`: sending on a closed channel panics, a full buffer drops the message, and a
-- nil channel is never ready.
unfoldable pub offer : String → Channel → Channel
offer msg c =
    if ltb (length c.buffer) capacity then record c { buffer = c.buffer ++ msg ∷ [] } else c

pub send : String → ℕ → List (ℕ × Channel) → Option Channel → Option (List (ℕ × Channel))
send msg ch m none = some m
send msg ch m (some c) = if c.closed then none else some (insert ℕ_discrete ch (offer msg c) m)

send_then :
    Option (List (ℕ × Channel))
    → (List (ℕ × Channel) → Option (List (ℕ × Channel)))
    → Option (List (ℕ × Channel))
send_then none f = none
send_then (some m) f = f m

pub send_each : String → List (ℕ × Unit {0}) → List (ℕ × Channel) → Option (List (ℕ × Channel))
unfolding send send_then
send_each msg [] m = some m
send_each msg ((ch, _) ∷ cs) m =
    send_then (send msg ch m (lookup ℕ_discrete ch m)) (λ m'. send_each msg cs m')

with_channels : Broker → Option (List (ℕ × Channel)) → Option Broker
with_channels b none = none
with_channels b (some m) = some (record b { channels = m })

unfoldable pub message : String → String
message data_ = append_text "data: " (append_text data_ "\n\n")

-- `Publish`.
unfoldable pub publish : Option String → Broker → Option Broker
unfolding send_each with_channels message
publish none b = some b
publish (some data_) b = with_channels b (send_each (message data_) b.clients b.channels)

-- `ClientCount`.
unfoldable client_count : Broker → ℕ
client_count b = length b.clients

-- A read of the channel by its client; an empty buffer gives nothing yet.
taken : ℕ → Broker → Channel → List String → Option String × Broker
taken ch b c [] = (none, b)
taken ch b c (m ∷ ms) =
    (some m, record b { channels = insert ℕ_discrete ch (record c { buffer = ms }) b.channels })

first_of : ℕ → Broker → Option Channel → Option String × Broker
unfolding taken
first_of ch b none = (none, b)
first_of ch b (some c) = taken ch b c c.buffer

unfoldable pub receive : ℕ → Broker → Option String × Broker
unfolding first_of
receive ch b = first_of ch b (channel ch b)
