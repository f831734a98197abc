-- ===== src/Worker/Pool/Signalled.antt =====
-- What a signal cancels, and how often a pool is drained.
use task_queue_system.Prelude.{
  ℕ, ◌≡◌, ite, Bool, true, false, Option, none, some, List, [], ◌∷◌, String_discrete, String,
}
use task_queue_system.Prelude.Map.{lookup}
use task_queue_system.Worker.Pool.{
  Pool, start, initiate_drain, stop, register_active_job, unregister_active_job, on_cancellation,
}

pub data PoolCall : Type 0 where
  starts drains stops : PoolCall
  registers : String → ℕ → PoolCall
  unregisters signals : String → PoolCall

unfoldable pub step : PoolCall → Pool → Pool
step starts p = start p
step drains p = (initiate_drain p).1
step stops p = stop p
step (registers id cancel) p = register_active_job id cancel p
step (unregisters id) p = unregister_active_job id p
step (signals id) p = on_cancellation id p

-- The pool after the calls, the last one first.
unfoldable pub run : Pool → List PoolCall → Pool
run p [] = p
run p (c ∷ cs) = step c (run p cs)

-- The cancel function registered last for the job, if it was neither removed nor called since.
unfoldable pub registered : String → List PoolCall → Option ℕ
registered id [] = none
registered id (registers j cancel ∷ cs) =
    let before = registered id cs in ite (String_discrete j id) (some cancel) before
registered id (unregisters j ∷ cs) =
    let before = registered id cs in ite (String_discrete j id) none before
registered id (signals j ∷ cs) =
    let before = registered id cs in ite (String_discrete j id) none before
registered id (_ ∷ cs) = registered id cs

-- The functions that the signals have called.
abbrev called : Option ℕ → List ℕ → List ℕ
called none ns = ns
called (some n) ns = n ∷ ns

unfoldable pub calls_made : List PoolCall → List ℕ
unfolding registered
calls_made [] = []
calls_made (signals id ∷ cs) = called (registered id cs) (calls_made cs)
calls_made (_ ∷ cs) = calls_made cs

unfoldable pub is_drained : List PoolCall → Bool
is_drained [] = false
is_drained (drains ∷ cs) = true
is_drained (stops ∷ cs) = true
is_drained (_ ∷ cs) = is_drained cs

abbrev Tracks : List PoolCall → Pool → Type 0
Tracks cs p =
    ((id : String) → lookup String_discrete id p.active_jobs ≡ registered id cs)
    × (p.cancelled ≡ calls_made cs)
    × (p.shutting_down ≡ is_drained cs)
