-- ===== src/Examples/Sse.antt =====
-- Two clients of the event stream, one of which reads.
use task_queue_system.Prelude.{
  ◌≤◌, ◌≡◌, refl, ◌≢◌, ◌↔◌, true, false, none, some, List, [], ◌∷◌, ℕ_discrete, length,
}
use task_queue_system.Prelude.Map.{insert, lookup}
use task_queue_system.Sse.{
  offer, Broker, new_broker, subscribe, unsubscribe, publish, receive, message,
}
use task_queue_system.Sse.Panics.{
  step, Op, subscribes, receives, publishes, run, subscribed, run-panics,
}
use task_queue_system.Sse.Unread.{unread}
use task_queue_system.Sse.Delivered.{first, receive-unread}

-- The last call first.
abbrev calls : List Op
calls =
    publishes (some "{}")
    ∷ publishes (some "{1}")
    ∷ receives 1
    ∷ publishes (some "{0}")
    ∷ subscribes
    ∷ subscribes
    ∷ []

abbrev two_clients : Broker
two_clients = record {
  clients = (0, tt) ∷ (1, tt) ∷ [];
  channels =
      (0, record { buffer = message "{0}" ∷ message "{1}" ∷ message "{}" ∷ []; closed = false })
      ∷ (1, record { buffer = message "{1}" ∷ message "{}" ∷ []; closed = false })
      ∷ [];
  next = 2;
}

calls-run : run calls ≡ some two_clients
unfolding run step publish subscribe insert new_broker ℕ_discrete lookup receive offer
calls-run = refl

run-panics_example :
    (publish (some "{}") two_clients ≢ none)
    × ((unsubscribe 5 two_clients ≡ none) ↔ (subscribed 5 calls ≡ false))
run-panics_example = run-panics calls two_clients calls-run (some "{}") 5

one-subscribed : subscribed 1 calls ≡ true
unfolding subscribed ℕ_discrete
one-subscribed = refl

receive-unread_example :
    ((receive 1 two_clients).0 ≡ first (unread 1 calls)) × (length (unread 1 calls) ≤ 64)
receive-unread_example = receive-unread calls two_clients 1 calls-run one-subscribed
