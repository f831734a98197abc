-- ===== src/Webhooks/Deliveries.antt =====
-- internal/webhooks/deliveries.go: the history of the deliveries to one URL. A store without a client, for
-- which the two methods do nothing, is not modelled.
pub mod History
use task_queue_system.Webhooks.Types.{DeliveryRecord}
use task_queue_system.Prelude.Int.{negsuc, pos, ℤ}
use task_queue_system.Redis.Commands.{lrange_first, ltrim, lpush, entries, Reply}
use task_queue_system.Redis.Data.{deliveries, delivery_json, Entry}
use task_queue_system.Redis.Client.{send, ◌>>=◌, ◌>>◌, exec, io_failed, fail_with, pure, M, Call}
use task_queue_system.Prelude.{
  ℕ, zero, suc, ◌+◌, ◌-◌, ◌*◌, ◌/◌, ◌%◌, ◌^◌, ◌≤◌, ◌<◌, ◌≡◌, refl, sym, ap, ◌∙◌, ◌≢◌, ◌↔◌, ◌⊎◌, inl,
  inr, ite, if_pos, if_neg, Bool, true, false, not, ◌&&◌, ◌||◌, Option, none, some, List, [], ◌∷◌,
  ◌++◌, map, arith, dec_lt, dec_le, ℕ_discrete, String_discrete, String, ltb, leb, ◌==◌,
  if◌then◌else◌, length, Bool-cases, Option-cases, if-intro,
}

-- `MaxDeliveriesPerURL`.
abbrev pub max_deliveries_per_url : ℕ
max_deliveries_per_url = 50

-- `limit <= 0 || limit > MaxDeliveriesPerURL`.
abbrev pub effective_limit : ℤ → ℕ
effective_limit (pos n) =
    if ltb 0 n && leb n max_deliveries_per_url then n else max_deliveries_per_url
effective_limit (negsuc n) = max_deliveries_per_url

abbrev entries_of : Reply → M (List Entry)
entries_of (entries es) = pure es
entries_of _ = fail_with io_failed

abbrev delivery_in : Entry → Option DeliveryRecord
delivery_in (delivery_json r) = some r
delivery_in _ = none

unfoldable pub deliveries_in : List Entry → List DeliveryRecord
deliveries_in [] = []
deliveries_in (e ∷ es) =
    let rest = deliveries_in es in elim (delivery_in e) [ none ↦ rest | some r ↦ r ∷ rest ]

module _ (call : Call) where
  -- `RecordDelivery`.
  unfoldable pub record_delivery : DeliveryRecord → M (Unit {0})
  record_delivery rec =
      exec call (
        lpush (deliveries rec.url) (delivery_json rec)
        ∷ ltrim (deliveries rec.url) max_deliveries_per_url
        ∷ [])
      >> pure tt

  -- `ListDeliveries`.
  unfoldable pub list_deliveries : String → ℤ → M (List DeliveryRecord)
  unfolding deliveries_in
  list_deliveries url limit = do
    r ← send call (lrange_first (deliveries url) (effective_limit limit))
    es ← entries_of r
    pure (deliveries_in es)
