-- ===== src/Storage/Query/Order.antt =====
-- The jobs that `ListJobs` and `SearchJobs` return, and their order.
use task_queue_system.Storage.Query.Matching.{
  MatchesList, MatchesFilter, list_matches-exact, selects-exact,
}
use mathlib.Core.List.{Perm}
use mathlib.Core.List.Perm
use mathlib.Core.Path.{subst}
use task_queue_system.Prelude.{
  ◌^◌, ◌+◌, ap, inr, inl, Bool-cases, ◌∙◌, ◌↔◌, ◌<◌, sym, length, take, drop, ℕ, zero, suc, ◌≤◌,
  ◌≡◌, refl, Bool, true, false, List, [], ◌∷◌, arith, String, ltb, if◌then◌else◌, if-intro,
}
use task_queue_system.Prelude.Int.{ℤ, pos, negsuc}
use task_queue_system.Jobs.Types.{Job}
use task_queue_system.Storage.{InMemoryStore, JobFilter}
use task_queue_system.Storage.Query.{
  keep, limit_or, place, newest_first, page, selects, search_jobs, list_jobs, list_matches, or_zero,
}
use task_queue_system.Storage.Query.Paging.{limit_or-pos, page-take}

-- No job is newer than `b`.
abbrev AtMost : ℕ → List Job → Type 0
AtMost b [] = Unit {0}
AtMost b (k ∷ ks) = (k.created_at ≤ b) × AtMost b ks

-- Each job is at least as new as those after it.
abbrev pub NewestFirst : List Job → Type 0
NewestFirst [] = Unit {0}
NewestFirst (j ∷ js) = AtMost j.created_at js × NewestFirst js

AtMost-mono : (a b : ℕ) (js : List Job) → a ≤ b → AtMost a js → AtMost b js
AtMost-mono a b [] h o = tt
AtMost-mono a b (k ∷ ks) h o = (omega arith, AtMost-mono a b ks h o.1)

AtMost-place :
    (b : ℕ) (j : Job) (js : List Job) → j.created_at ≤ b → AtMost b js → AtMost b (place j js)
unfolding place
AtMost-place b j [] h o = (h, tt)
AtMost-place b j (k ∷ ks) h o =
    if-intro {A = List Job} (AtMost b) (ltb j.created_at k.created_at) (k ∷ place j ks) (j ∷ k ∷ ks)
      (o.0, AtMost-place b j ks h o.1) (h, o)

NewestFirst-place : (j : Job) (js : List Job) → NewestFirst js → NewestFirst (place j js)
unfolding place
NewestFirst-place j [] o = (tt, tt)
NewestFirst-place j (k ∷ ks) o =
    by_age (NewestFirst-place j ks o.1) (ltb j.created_at k.created_at) refl
  where
    by_age :
        NewestFirst (place j ks)
        → (b : Bool) → ltb j.created_at k.created_at ≡ b
        → NewestFirst (if b then k ∷ place j ks else j ∷ k ∷ ks)
    by_age ih true e = (AtMost-place k.created_at j ks (ground (arith, e)) o.0, ih)
    by_age ih false e =
        let h : k.created_at ≤ j.created_at = ground (arith, e) in
        ((h, AtMost-mono k.created_at j.created_at ks h o.0), o)

newest_first-NewestFirst : (js : List Job) → NewestFirst (newest_first js)
unfolding newest_first
newest_first-NewestFirst [] = tt
newest_first-NewestFirst (j ∷ js) =
    NewestFirst-place j (newest_first js) (newest_first-NewestFirst js)

-- The jobs of the records that satisfy a condition, in the order of the records.
pub data Selected (P : Job → Type 0) : List (String × Job) → List Job → Type 0 where
  no_records : Selected P [] []
  taken :
      {id : String} {j : Job} {m : List (String × Job)} {js : List Job}
      → P j
      → Selected P m js
      → Selected P ((id, j) ∷ m) (j ∷ js)
  left_out :
      {id : String} {j : Job} {m : List (String × Job)} {js : List Job}
      → ¬ P j
      → Selected P m js
      → Selected P ((id, j) ∷ m) js

keep-Selected :
    (P : Job → Type 0) (p : Job → Bool)
    → ((j : Job) → (p j ≡ true) ↔ P j)
    → (m : List (String × Job)) → Selected P m (keep p m)
unfolding keep
keep-Selected P p exact [] = no_records
keep-Selected P p exact ((id, j) ∷ m) = elim (Bool-cases (p j)) [
  | inl e ↦ rw e (taken ((exact j).0 e) (keep-Selected P p exact m))
  | inr e ↦ rw e (left_out (λ h. true_not_false ((exact j).1 h) e) (keep-Selected P p exact m))
]
  where
    true_not_false : {b : Bool} → b ≡ true → b ≡ false → ⊥
    true_not_false h k = ground arith

place-Perm : (j : Job) (js : List Job) → Perm (j ∷ js) (place j js)
unfolding place
place-Perm j [] = Perm.refl _
place-Perm j (k ∷ ks) =
    if-intro {A = List Job} (λ l. Perm (j ∷ k ∷ ks) l) (ltb j.created_at k.created_at)
      (k ∷ place j ks) (j ∷ k ∷ ks) (Perm.trans (Perm.swap k j ks) (Perm.cons k (place-Perm j ks)))
      (Perm.refl _)

newest_first-Perm : (js : List Job) → Perm js (newest_first js)
unfolding newest_first
newest_first-Perm [] = Perm.refl _
newest_first-Perm (j ∷ js) =
    Perm.trans (Perm.cons j (newest_first-Perm js)) (place-Perm j (newest_first js))

-- The jobs that satisfy the condition, each as often as it is stored, the newest first; `Shown` says what
-- is shown of them.
pub record IsListing (P : Job → Type 0) (m : List (String × Job)) (Shown : List Job → Type 0)
    : Type 0 where
  pub kept : List Job
  pub all : List Job
  pub selected : Selected P m kept
  pub same : Perm kept all
  pub ordered : NewestFirst all
  pub shown : Shown all

newest_first-IsListing :
    (P : Job → Type 0) (p : Job → Bool) (m : List (String × Job)) (Shown : List Job → Type 0)
    → ((j : Job) → (p j ≡ true) ↔ P j)
    → Shown (newest_first (keep p m))
    → IsListing P m Shown
newest_first-IsListing P p m Shown exact h = record {
  kept = keep p m;
  all = newest_first (keep p m);
  selected = keep-Selected P p exact m;
  same = newest_first-Perm (keep p m);
  ordered = newest_first-NewestFirst (keep p m);
  shown = h;
}

length-drop-le : (o : ℕ) (js : List Job) → length (drop o js) ≤ length js
length-drop-le zero js = omega arith
length-drop-le (suc o) [] = omega arith
length-drop-le (suc o) (j ∷ js) = omega (arith, length-drop-le o js)

take-all : (n : ℕ) (js : List Job) → length js ≤ n → take n js ≡ js
take-all zero [] h = refl
take-all zero (j ∷ js) h = absurd (omega arith)
take-all (suc n) [] h = refl
take-all (suc n) (j ∷ js) h = ap (λ l. j ∷ l) (take-all n js (omega arith))

page-all : (o : ℕ) (js : List Job) → page o (length js) js ≡ drop o js
page-all o js = page-take o (length js) js ∙ take-all (length js) (drop o js) (length-drop-le o js)

-- The place of a page's first job: a negative offset counts as 0.
abbrev pub StartsAt : ℤ → ℕ → Type 0
StartsAt (pos n) o = n ≡ o
StartsAt (negsuc n) o = o ≡ 0

abbrev pub NotPositive : ℤ → Type 0
NotPositive (pos n) = n ≡ 0
NotPositive (negsuc n) = Unit

or_zero-StartsAt : (offset : ℤ) (o : ℕ) → StartsAt offset o → or_zero offset ≡ o
or_zero-StartsAt (pos n) o h = h
or_zero-StartsAt (negsuc n) o h = sym h

limit_or-NotPositive : (limit : ℤ) (d : ℕ) → NotPositive limit → limit_or limit d ≡ d
limit_or-NotPositive (pos n) d h = ground (arith, h)
limit_or-NotPositive (negsuc n) d h = refl

page-at :
    (offset : ℤ) (o l n : ℕ) (js : List Job)
    → StartsAt offset o
    → l ≡ n
    → page (or_zero offset) l js ≡ take n (drop o js)
page-at offset o l n js start e =
    page-take (or_zero offset) l js
    ∙ ap (λ i. take l (drop i js)) (or_zero-StartsAt offset o start)
    ∙ ap (λ i. take i (drop o js)) e

page-from :
    (offset : ℤ) (o l : ℕ) (js : List Job)
    → StartsAt offset o
    → l ≡ length js
    → page (or_zero offset) l js ≡ drop o js
page-from offset o l js start e =
    ap (λ i. page (or_zero offset) i js) e
    ∙ page-all (or_zero offset) js
    ∙ ap (λ i. drop i js) (or_zero-StartsAt offset o start)

-- What `ListJobs` shows of the jobs `all`, from the place `o` on.
abbrev pub ListJobsShows :
    (tenant status type : String) (offset : ℤ) → InMemoryStore → ℕ → List Job → Type 0
ListJobsShows tenant status type offset s o all =
    ((n : ℕ)
      → 0 < n
      → o + n < 2 ^ 63
      → list_jobs tenant status type (pos n) offset s ≡ take n (drop o all))
    × ((limit : ℤ) → NotPositive limit → list_jobs tenant status type limit offset s ≡ drop o all)

abbrev pub SearchJobsShows : JobFilter → InMemoryStore → ℕ → List Job → Type 0
SearchJobsShows f s o all =
    ((n : ℕ) → 0 < n → o + n < 2 ^ 63 → f.limit ≡ pos n → search_jobs f s ≡ take n (drop o all))
    × (NotPositive f.limit → search_jobs f s ≡ take 20 (drop o all))

-- `ListJobs` and `SearchJobs` order all jobs that match, newest first, and show the part that starts at the
-- offset (0, if it is negative) and has as many jobs as the limit says, if there are so many; without a
-- positive limit, `ListJobs` shows all from the offset on and `SearchJobs` at most 20. The sum of offset
-- and limit is supposed to be in the range of a Go int.
pub pages-IsListing :
    (tenant status type : String) (offset : ℤ) (f : JobFilter) (s : InMemoryStore) (o : ℕ)
    → StartsAt offset o
    → f.offset ≡ offset
    → IsListing
        (MatchesList tenant status type)
        s.data_
        (ListJobsShows tenant status type offset s o)
      × IsListing (MatchesFilter f) s.data_ (SearchJobsShows f s o)
unfolding list_jobs search_jobs
pages-IsListing tenant status type offset f s o start same = (
  newest_first-IsListing _ (list_matches tenant status type) s.data_ _
      (list_matches-exact tenant status type)
      (
        λ n h fits. page-at offset o _ n _ start (limit_or-pos n _ h),
        λ limit h. page-from offset o _ _ start (limit_or-NotPositive limit _ h),
      ),
  newest_first-IsListing _ (selects f) s.data_ _ (selects-exact f) (
    λ n h fits e.
        page-at f.offset o _ n _ (subst (λ i. StartsAt i o) (sym same) start)
          (ap (λ l. limit_or l 20) e ∙ limit_or-pos n 20 h),
    λ h.
        page-at f.offset o _ 20 _ (subst (λ i. StartsAt i o) (sym same) start)
          (limit_or-NotPositive f.limit 20 h),
  ),
)
