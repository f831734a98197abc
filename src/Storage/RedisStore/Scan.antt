-- ===== src/Storage/RedisStore/Scan.antt =====
-- The methods of `RedisStore` that walk the hash by HSCAN. What HSCAN answered is an argument: one list of
-- fields for each round until the cursor is 0, `none` where it failed.
pub mod Pages
use task_queue_system.Storage.RedisStore.{hdel, unmarshal}
use task_queue_system.Storage.Query.{or_zero, newest_first, list_matches}
use task_queue_system.Prelude.Int.{leb_ℤ, pos, ltb_ℤ, ℤ}
use task_queue_system.Storage.{JobFilter}
use task_queue_system.Jobs.Types.{Job}
use task_queue_system.Redis.Data.{job_store, Entry}
use task_queue_system.Redis.Client.{send, attempt, ◌>>=◌, io_failed, fail_with, pure, M, Call}
use task_queue_system.Prelude.{
  ℕ, zero, suc, ◌+◌, ◌-◌, ◌*◌, ◌/◌, ◌%◌, ◌^◌, ◌≤◌, ◌<◌, ◌≡◌, refl, sym, ap, ◌∙◌, ◌≢◌, ◌↔◌, ◌⊎◌, inl,
  inr, ite, if_pos, if_neg, Bool, true, false, not, ◌&&◌, ◌||◌, Option, none, some, List, [], ◌∷◌,
  ◌++◌, map, arith, dec_lt, dec_le, ℕ_discrete, String_discrete, String, ltb, leb, ◌==◌,
  if◌then◌else◌, length, Bool-cases, Option-cases, if-intro,
}

abbrev pub Page : Type 0
Page = Option (List (String × Entry))

-- The matches still to skip, and the jobs found so far.
abbrev pub Found : Type 0
Found = ℕ × List Job

-- `need > 0 && len(results) >= need`.
abbrev pub is_full : ℤ → List Job → Bool
is_full limit out = ltb_ℤ (pos 0) limit && leb_ℤ limit (pos (length out))

-- A match is skipped or found; the round ends where it fills the page.
abbrev pub on_match : ℤ → (Found → Found) → Job → Found → Found
on_match limit next j (suc skip, out) = next (skip, out)
on_match limit next j (zero, out) =
    if is_full limit (out ++ j ∷ []) then (0, out ++ j ∷ []) else next (0, out ++ j ∷ [])

abbrev pub on_entry : ℤ → (Job → Bool) → (Found → Found) → Option Job → Found → Found
on_entry limit p next none f = next f
on_entry limit p next (some j) f = if p j then on_match limit next j f else next f

-- One round of `ListJobs`.
pub scan_page : ℤ → (Job → Bool) → List (String × Entry) → Found → Found
scan_page limit p [] f = f
scan_page limit p ((id, e) ∷ es) f = on_entry limit p (scan_page limit p es) (unmarshal e) f

pub scan_pages : ℤ → (Job → Bool) → List Page → Found → Option Found
unfolding scan_page
scan_pages limit p [] f = some f
scan_pages limit p (none ∷ ps) f = none
scan_pages limit p (some es ∷ ps) f =
    let g = scan_page limit p es f in
    let rest = scan_pages limit p ps g in if is_full limit g.1 then some g else rest

abbrev pub sorted : Option Found → Option (List Job)
sorted none = none
sorted (some (skip, out)) = some (newest_first out)

-- `ListJobs` and `SearchJobs`.
unfoldable pub list_jobs :
    (tenant status type : String) (limit offset : ℤ) → List Page → Option (List Job)
unfolding scan_pages
list_jobs tenant status type limit offset ps =
    sorted (scan_pages limit (list_matches tenant status type) ps (or_zero offset, []))

unfoldable pub search_jobs : JobFilter → List Page → Option (List Job)
unfolding list_jobs
search_jobs f ps = list_jobs f.tenant_id f.status f.type f.limit f.offset ps

-- `CountJobs`.
count_page : (Job → Bool) → List (String × Entry) → ℕ
count_page p [] = 0
count_page p ((id, e) ∷ es) =
    let n = count_page p es in elim (unmarshal e) [ none ↦ n | some j ↦ if p j then n + 1 else n ]

count_pages : (Job → Bool) → List Page → Option ℕ
unfolding count_page
count_pages p [] = some 0
count_pages p (none ∷ ps) = none
count_pages p (some es ∷ ps) = elim (count_pages p ps) [
  | none ↦ none
  | some n ↦ some (count_page p es + n)
]

unfoldable pub count_jobs : JobFilter → List Page → Option ℕ
unfolding count_pages
count_jobs f ps = count_pages (list_matches f.tenant_id f.status f.type) ps

module _ (call : Call) where
  -- `DeleteJobsBefore`: the answer of each HDEL is dropped. With an error the source also returns the
  -- number reached.
  delete_page : (String → Job → Bool) → List (String × Entry) → M ℕ
  delete_page p [] = pure 0
  delete_page p ((id, e) ∷ es) =
      let rest = delete_page p es in
      elim (unmarshal e) [
        | none ↦ rest
        | some j ↦
            if p id j
            then (attempt (send call (hdel job_store id)) >>= λ _. rest >>= λ n. pure (n + 1))
            else rest
      ]

  delete_pages : (String → Job → Bool) → List Page → M ℕ
  unfolding delete_page
  delete_pages p [] = pure 0
  delete_pages p (none ∷ ps) = fail_with io_failed
  delete_pages p (some es ∷ ps) =
      let rest = delete_pages p ps in delete_page p es >>= λ n. rest >>= λ m. pure (n + m)

  abbrev is_before : (tenant status type : String) (before : ℕ) → String → Job → Bool
  is_before tenant status type before id j =
      ite (String_discrete id "") false
        (list_matches tenant status type j && ltb j.created_at before)

  unfoldable pub delete_jobs_before : (tenant status type : String) (before : ℕ) → List Page → M ℕ
  unfolding delete_pages
  delete_jobs_before tenant status type before ps =
      delete_pages (is_before tenant status type before) ps
