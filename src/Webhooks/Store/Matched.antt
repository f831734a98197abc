-- ===== src/Webhooks/Store/Matched.antt =====
-- Which endpoints `Match` gives.
use task_queue_system.Redis.Commands.{perform}
use task_queue_system.Redis.Client.{by_document, ok, send, Documented, Server, Call}
use task_queue_system.Redis.Data.{webhooks_registered, webhook_json, Entry}
use task_queue_system.Webhooks.Store.{
  list_webhooks, webhook_in, of_tenant, match_event, listed, subscribes, subscribers,
}
use task_queue_system.Webhooks.Events.{normalize_event}
use task_queue_system.Webhooks.Types.{RegisteredWebhook}
use task_queue_system.Prelude.{
  ◌≡◌, refl, sym, ap, ◌∙◌, ◌↔◌, ◌⊎◌, inl, inr, Bool, true, false, none, some, List, [], ◌∷◌, map,
  arith, String_discrete, String, if◌then◌else◌,
}

-- A member of a list.
abbrev pub In : {A : Type 0} → A → List A → Type 0
In a [] = ⊥
In a (x ∷ xs) = (a ≡ x) ⊎ In a xs

-- An endpoint among the values of the hash.
abbrev pub IsStored : RegisteredWebhook → List (String × Entry) → Type 0
IsStored w fs = In (webhook_json w) (map (λ f. f.1) fs)

-- One of its events has the normal form of the status, or is `*`.
abbrev pub IsSubscriber : String → RegisteredWebhook → Type 0
IsSubscriber status w =
    (e : String) × In e w.events × ((normalize_event e ≡ normalize_event status) ⊎ (e ≡ "*"))

abbrev pub IsOf : String → RegisteredWebhook → Type 0
IsOf tenant w = (tenant ≡ "") ⊎ (w.tenant_id ≡ tenant)

abbrev Subscribed : String → List String → Type 0
Subscribed status es =
    (e : String) × In e es × ((normalize_event e ≡ normalize_event status) ⊎ (e ≡ "*"))

subscribes_sound :
    (status : String) (es : List String) → subscribes status es ≡ true → Subscribed status es
unfolding subscribes
subscribes_sound status [] h = cc
subscribes_sound status (e ∷ es) h =
    elim (String_discrete (normalize_event e) (normalize_event status)) [
      | yes p ↦ (e, inl refl, inl p)
      | no n ↦ elim (String_discrete e "*") [
        | yes p ↦ (e, inl refl, inr p)
        | no k ↦ let (f, at, fits) = subscribes_sound status es (ground arith) in (f, inr at, fits)
      ]
    ]

subscribes_complete :
    (status : String) (es : List String) → Subscribed status es → subscribes status es ≡ true
unfolding subscribes
subscribes_complete status [] (e, at, fits) = absurd at
subscribes_complete status (d ∷ es) (e, inl p, inl q) = ground arith
subscribes_complete status (d ∷ es) (e, inl p, inr q) = ground arith
subscribes_complete status (d ∷ es) (e, inr at, fits) =
    ground (arith, subscribes_complete status es (e, at, fits))

-- A member of a list to which one element is added under a condition.
In-if :
    {A : Type 0} (b : Bool) (w v : A) (rest : List A)
    → In w (if b then v ∷ rest else rest) ↔ (((w ≡ v) × (b ≡ true)) ⊎ In w rest)
In-if true w v rest = (
  λ h. elim h [ inl p ↦ inl (p, refl) | inr q ↦ inr q ],
  λ h. elim h [ inl p ↦ inl p.0 | inr q ↦ inr q ],
)
In-if false w v rest = (λ h. inr h, λ h. elim h [ inl p ↦ absurd (cc (p.1)) | inr q ↦ q ])

subscribers-exact :
    (status : String) (ws : List RegisteredWebhook) (w : RegisteredWebhook)
    → In w (subscribers status ws) ↔ (In w ws × (subscribes status w.events ≡ true))
unfolding subscribers
subscribers-exact status [] w = (λ h. absurd h, λ h. absurd h.0)
subscribers-exact status (v ∷ ws) w =
    let step = In-if (subscribes status v.events) w v (subscribers status ws) in
    let rest = subscribers-exact status ws w in
    (
      λ h. elim (step.0 h) [
        | inl p ↦ (inl p.0, rw (p.0) (p.1))
        | inr q ↦ (inr (rest.0 q).0, (rest.0 q).1)
      ],
      λ h. elim h.0 [
        | inl p ↦ step.1 (inl (p, sym (ap (λ u. subscribes status u.events) p) ∙ h.1))
        | inr q ↦ step.1 (inr (rest.1 (q, h.1)))
      ],
    )

listed-cons :
    (tenant : String) (e : Entry) (rest : List RegisteredWebhook) (w : RegisteredWebhook)
    → In w (elim (webhook_in e) [
      | none ↦ rest
      | some v ↦ if of_tenant tenant v then v ∷ rest else rest
    ])
      ↔ (((webhook_json w ≡ e) × (of_tenant tenant w ≡ true)) ⊎ In w rest)
listed-cons tenant (webhook_json v) rest w =
    let step = In-if (of_tenant tenant v) w v rest in
    (
      λ h. elim (step.0 h) [
        | inl p ↦ inl (ap webhook_json p.0, ap (of_tenant tenant) p.0 ∙ p.1)
        | inr q ↦ inr q
      ],
      λ h. elim h [
        | inl p ↦
            let same : w ≡ v = cc (p.0) in
            step.1 (inl (same, sym (ap (of_tenant tenant) same) ∙ p.1))
        | inr q ↦ step.1 (inr q)
      ],
    )
listed-cons tenant _ rest w = (λ h. inr h, λ h. elim h [ inl p ↦ absurd (cc (p.0)) | inr q ↦ q ])

listed-exact :
    (tenant : String) (fs : List (String × Entry)) (w : RegisteredWebhook)
    → In w (listed tenant fs) ↔ (IsStored w fs × (of_tenant tenant w ≡ true))
unfolding listed
listed-exact tenant [] w = (λ h. absurd h, λ h. absurd h.0)
listed-exact tenant ((id, e) ∷ fs) w =
    let step = listed-cons tenant e (listed tenant fs) w in
    let rest = listed-exact tenant fs w in
    (
      λ h. elim (step.0 h) [ inl p ↦ (inl p.0, p.1) | inr q ↦ (inr (rest.0 q).0, (rest.0 q).1) ],
      λ h. elim h.0 [ inl p ↦ step.1 (inl (p, h.1)) | inr q ↦ step.1 (inr (rest.1 (q, h.1))) ],
    )

of_tenant-IsOf :
    (tenant : String) (w : RegisteredWebhook) → (of_tenant tenant w ≡ true) ↔ IsOf tenant w
of_tenant-IsOf tenant w = elim (String_discrete tenant "") [
  | yes p ↦ (λ h. inl p, λ h. ground arith)
  | no n ↦ (λ h. inr (ground arith), λ h. elim h [ inl p ↦ absurd (n p) | inr q ↦ ground arith ])
]

match_event-listed :
    (tenant status : String) (s : Server)
    → s.faults ≡ []
    → (match_event perform tenant status s).0
      ≡ ok (subscribers status (listed tenant (s.store.hashes webhooks_registered)))
unfolding match_event list_webhooks send perform
match_event-listed tenant status s f = ground arith

-- What `Match` answers: exactly the stored endpoints of the tenant that subscribe to the status.
pub record Matches (tenant status : String) (s : Server) (ws : List RegisteredWebhook)
    : Type 0 where
  pub only :
      (w : RegisteredWebhook)
      → In w ws
      → IsStored w (s.store.hashes webhooks_registered) × IsOf tenant w × IsSubscriber status w
  pub all :
      (w : RegisteredWebhook)
      → IsStored w (s.store.hashes webhooks_registered)
      → IsOf tenant w
      → IsSubscriber status w
      → In w ws

-- With a documented server, and while every request is delivered, `Match` gives exactly the stored endpoints
-- of the tenant that have an event with the normal form of the status or the event `*`; for the empty
-- tenant, those of every tenant.
pub match_event-Matches :
    (call : Call) (tenant status : String) (s : Server)
    → Documented call
    → s.faults ≡ []
    → (ws : List RegisteredWebhook) × ((match_event call tenant status s).0 ≡ ok ws)
      × Matches tenant status s ws
match_event-Matches call tenant status s doc f =
    let fs = s.store.hashes webhooks_registered in
    (
      subscribers status (listed tenant fs),
      by_document
          (λ c. (match_event c tenant status s).0 ≡ ok (subscribers status (listed tenant fs))) doc
          (match_event-listed tenant status s f),
      record {
        only = λ w h.
            let (in_list, sub) = (subscribers-exact status (listed tenant fs) w).0 h in
            let (at, own) = (listed-exact tenant fs w).0 in_list in
            (at, (of_tenant-IsOf tenant w).0 own, subscribes_sound status w.events sub);
        all = λ w at own sub. (subscribers-exact status (listed tenant fs) w).1 (
          (listed-exact tenant fs w).1 (at, (of_tenant-IsOf tenant w).1 own),
          subscribes_complete status w.events sub,
        );
      },
    )
