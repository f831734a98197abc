-- ===== src/Webhooks/Store.antt =====
-- internal/webhooks/store.go: `WebhookStore`, the endpoints as JSON in one hash.
pub mod Matched
use task_queue_system.Webhooks.Events.{normalize_events, normalize_event}
use task_queue_system.Redis.Commands.{hset, hgetall, hget, hdel, value, fields, Reply}
use task_queue_system.Webhooks.Types.{RegisteredWebhook}
use task_queue_system.Redis.Data.{webhooks_registered, webhook_json, Entry}
use task_queue_system.Redis.Client.{
  ◌>>◌, io_failed, undecodable, pure, not_found, ◌>>=◌, send, fail_with, M, Call,
}
use task_queue_system.Prelude.{
  ℕ, zero, suc, ◌+◌, ◌-◌, ◌*◌, ◌/◌, ◌%◌, ◌^◌, ◌≤◌, ◌<◌, ◌≡◌, refl, sym, ap, ◌∙◌, ◌≢◌, ◌↔◌, ◌⊎◌, inl,
  inr, ite, if_pos, if_neg, Bool, true, false, not, ◌&&◌, ◌||◌, Option, none, some, List, [], ◌∷◌,
  ◌++◌, map, arith, dec_lt, dec_le, ℕ_discrete, String_discrete, String, ltb, leb, ◌==◌,
  if◌then◌else◌, length, Bool-cases, Option-cases, if-intro,
}

abbrev pub webhook_in : Entry → Option RegisteredWebhook
webhook_in (webhook_json w) = some w
webhook_in _ = none

abbrev or_undecodable : Option RegisteredWebhook → M RegisteredWebhook
or_undecodable none = fail_with undecodable
or_undecodable (some w) = pure w

abbrev webhook_of : Reply → M RegisteredWebhook
webhook_of (value e) = or_undecodable (webhook_in e)
webhook_of Reply.nil = fail_with not_found
webhook_of _ = fail_with io_failed

abbrev pub of_tenant : String → RegisteredWebhook → Bool
of_tenant tenant w =
    ite (String_discrete tenant "") true (ite (String_discrete w.tenant_id tenant) true false)

-- The loop of `List`.
unfoldable pub listed : String → List (String × Entry) → List RegisteredWebhook
listed tenant [] = []
listed tenant ((id, e) ∷ fs) =
    let rest = listed tenant fs in
    elim (webhook_in e) [ none ↦ rest | some w ↦ if of_tenant tenant w then w ∷ rest else rest ]

abbrev fields_of : Reply → M (List (String × Entry))
fields_of (fields fs) = pure fs
fields_of _ = fail_with io_failed

-- The test of `Match`: one of the events has the same normal form, or is `*`.
unfoldable pub subscribes : String → List String → Bool
unfolding normalize_event
subscribes status [] = false
subscribes status (e ∷ es) =
    let rest = subscribes status es in
    ite (String_discrete (normalize_event e) (normalize_event status)) true
      (ite (String_discrete e "*") true rest)

unfoldable pub subscribers : String → List RegisteredWebhook → List RegisteredWebhook
unfolding subscribes
subscribers status [] = []
subscribers status (w ∷ ws) =
    let rest = subscribers status ws in if subscribes status w.events then w ∷ rest else rest

abbrev given_or : String → String → String
given_or given old = ite (String_discrete given "") old given

abbrev events_or : List String → List String → List String
events_or [] old = old
events_or (e ∷ es) old = normalize_events (e ∷ es)

module _ (call : Call) where
  put_webhook : RegisteredWebhook → M RegisteredWebhook
  put_webhook w = send call (hset webhooks_registered w.id (webhook_json w)) >> pure w

  -- `Create`; `id` is the new identifier.
  unfoldable pub create :
      (now : ℕ) (id tenant url secret : String) → List String → M RegisteredWebhook
  unfolding put_webhook normalize_events
  create now id tenant url secret events = put_webhook (record {
    id = id;
    tenant_id = tenant;
    url = url;
    secret = secret;
    events = normalize_events events;
    created_at = now;
  })

  -- `GetByID`.
  unfoldable pub get_by_id : String → M RegisteredWebhook
  get_by_id id = send call (hget webhooks_registered id) >>= webhook_of

  -- `List`.
  unfoldable pub list_webhooks : String → M (List RegisteredWebhook)
  unfolding listed
  list_webhooks tenant = do
    r ← send call (hgetall webhooks_registered)
    fs ← fields_of r
    pure (listed tenant fs)

  -- `Update`: what is empty is kept.
  unfoldable pub update_webhook : (id url secret : String) → List String → M RegisteredWebhook
  unfolding get_by_id put_webhook normalize_events
  update_webhook id url secret events = do
    w ← get_by_id id
    put_webhook (record w {
      url = given_or url w.url;
      secret = given_or secret w.secret;
      events = events_or events w.events;
    })

  -- `Delete`.
  unfoldable pub delete : String → M (Unit {0})
  delete id = send call (hdel webhooks_registered id) >> pure tt

  -- `Match`.
  unfoldable pub match_event : (tenant status : String) → M (List RegisteredWebhook)
  unfolding list_webhooks subscribers
  match_event tenant status = list_webhooks tenant >>= λ ws. pure (subscribers status ws)
