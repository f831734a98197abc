-- ===== src/Storage/Query/Matching.antt =====
-- What the filters of `ListJobs` and `SearchJobs` ask of a job.
use task_queue_system.Prelude.{
  ℕ, ◌≤◌, ◌≡◌, refl, ◌↔◌, ◌⊎◌, inl, inr, Bool, true, false, ◌&&◌, ◌||◌, some, List, arith,
  String_discrete, String, leb, ◌==◌, Option-cases,
}
use task_queue_system.Prelude.Map.{lookup}
use task_queue_system.Jobs.Types.{Job}
use task_queue_system.Storage.{JobFilter}
use task_queue_system.Storage.Query.{accepts, label_is, status_text, list_matches, selects}

-- What the conditions on a job ask for: a text that is empty asks for nothing.
abbrev Asks : (wanted actual : String) → Type 0
Asks wanted actual = (wanted ≡ "") ⊎ (actual ≡ wanted)

abbrev HasLabel : (key wanted : String) → List (String × String) → Type 0
HasLabel key wanted labels =
    (key ≡ "") ⊎ ((v : String) × (lookup String_discrete key labels ≡ some v) × Asks wanted v)

abbrev pub MatchesList : (tenant status type : String) → Job → Type 0
MatchesList tenant status type j =
    Asks tenant j.tenant_id × Asks status (status_text j.status) × Asks type j.type

abbrev pub MatchesFilter : JobFilter → Job → Type 0
MatchesFilter f j =
    Asks f.tenant_id j.tenant_id
    × Asks f.status (status_text j.status)
    × Asks f.type j.type
    × HasLabel f.label_key f.label_value j.labels
    × ((f.created_after ≡ 0) ⊎ (f.created_after ≤ j.created_at))
    × ((f.created_before ≡ 0) ⊎ (j.created_at ≤ f.created_before))

accepts-exact : (wanted actual : String) → (accepts wanted actual ≡ true) ↔ Asks wanted actual
accepts-exact wanted actual = (λ h. ground arith, λ h. ground arith)

pub list_matches-exact :
    (tenant status type : String) (j : Job)
    → (list_matches tenant status type j ≡ true) ↔ MatchesList tenant status type j
unfolding list_matches
list_matches-exact tenant status type j = (λ h. ground arith, λ h. ground arith)

label_is-exact :
    (key wanted : String) (labels : List (String × String))
    → (label_is key wanted labels ≡ true) ↔ HasLabel key wanted labels
label_is-exact key wanted labels = elim (Option-cases (lookup String_discrete key labels)) [
  | inl e ↦ rw e (λ h. ground arith, λ h. ground arith)
  | inr (v, e) ↦ rw e (
    λ h. elim (String_discrete key "") [ yes p ↦ inl p | no n ↦ inr (v, refl, ground arith) ],
    λ h. ground arith,
  )
]

after-exact : (t u : ℕ) → ((t == 0 || leb t u) ≡ true) ↔ ((t ≡ 0) ⊎ (t ≤ u))
after-exact t u = (λ h. ground arith, λ h. ground arith)

before-exact : (t u : ℕ) → ((t == 0 || leb u t) ≡ true) ↔ ((t ≡ 0) ⊎ (u ≤ t))
before-exact t u = (λ h. ground arith, λ h. ground arith)

and-exact :
    {X Y : Type 0} (a b : Bool) → (a ≡ true) ↔ X → (b ≡ true) ↔ Y → ((a && b) ≡ true) ↔ (X × Y)
and-exact true b h k = (λ e. (h.0 refl, k.0 e), λ e. k.1 e.1)
and-exact false b h k = (λ e. absurd (ground arith), λ e. absurd (ground (arith, h.1 e.0)))

pub selects-exact : (f : JobFilter) (j : Job) → (selects f j ≡ true) ↔ MatchesFilter f j
unfolding selects
selects-exact f j =
    let (to, of) =
      and-exact _ _
        (and-exact _ _
          (and-exact _ _
            (and-exact _ _
              (and-exact _ _ (accepts-exact f.tenant_id j.tenant_id)
                (accepts-exact f.status (status_text j.status)))
              (accepts-exact f.type j.type))
            (label_is-exact f.label_key f.label_value j.labels))
          (after-exact f.created_after j.created_at))
        (before-exact f.created_before j.created_at) in
    (
      λ h. let (((((t, u), v), w), x), y) = to h in (t, u, v, w, x, y),
      λ (t, u, v, w, x, y). of (((((t, u), v), w), x), y),
    )
