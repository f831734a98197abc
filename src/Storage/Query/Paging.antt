-- ===== src/Storage/Query/Paging.antt =====
-- The pages of `ListJobs` and `SearchJobs`: their length, and how they join.
use Prim.Native.Nat.{min}
use task_queue_system.Prelude.{
  length-take, take, drop, ℕ, zero, suc, ◌+◌, ◌≤◌, ◌<◌, ◌≡◌, refl, sym, ap, ◌∙◌, inl, inr, Bool,
  List, [], ◌∷◌, ◌++◌, arith, String, leb, length, Bool-cases,
}
use task_queue_system.Prelude.Int.{pos}
use task_queue_system.Jobs.Types.{Job}
use task_queue_system.Storage.{InMemoryStore, JobFilter}
use task_queue_system.Storage.Query.{
  keep, place, newest_first, page, selects, search_jobs, count_jobs, count_all, limit_or,
}

pub limit_or-pos : (n d : ℕ) → 0 < n → limit_or (pos n) d ≡ n
limit_or-pos n d h = ground arith

module _ {ℓ} {A : Type ℓ} where
  drop-all : (n : ℕ) (xs : List A) → length xs ≤ n → drop n xs ≡ []
  drop-all zero [] h = refl
  drop-all zero (x ∷ xs) h = absurd (omega arith)
  drop-all (suc n) [] h = refl
  drop-all (suc n) (x ∷ xs) h = drop-all n xs (omega arith)

  drop-nil : (n : ℕ) → drop {A = A} n [] ≡ []
  drop-nil zero = refl
  drop-nil (suc n) = refl

  take-nil : (n : ℕ) → take {A = A} n [] ≡ []
  take-nil zero = refl
  take-nil (suc n) = refl

  drop-drop : (o n : ℕ) (xs : List A) → drop n (drop o xs) ≡ drop (o + n) xs
  drop-drop zero n xs = ap (λ i. drop i xs) (omega arith)
  drop-drop (suc o) n [] = drop-nil n ∙ sym (drop-nil (suc o + n))
  drop-drop (suc o) n (x ∷ xs) =
      let e : suc (o + n) ≡ suc o + n = omega arith in
      drop-drop o n xs ∙ ap (λ i. drop i (x ∷ xs)) e

  take-join : (n m : ℕ) (xs : List A) → take n xs ++ take m (drop n xs) ≡ take (n + m) xs
  take-join zero m xs = ap (λ i. take i xs) (omega arith)
  take-join (suc n) m [] = take-nil m ∙ sym (take-nil (suc n + m))
  take-join (suc n) m (x ∷ xs) =
      let e : suc (n + m) ≡ suc n + m = omega arith in
      ap (λ l. x ∷ l) (take-join n m xs) ∙ ap (λ i. take i (x ∷ xs)) e

pub page-take : (o l : ℕ) (js : List Job) → page o l js ≡ take l (drop o js)
page-take o l js = elim (Bool-cases (leb (length js) o)) [
  | inl e ↦ rw (e, drop-all o js (ground (arith, e)), take-nil {A = Job} l) refl
  | inr e ↦ rw e refl
]

page-join : (o n m : ℕ) (js : List Job) → page o n js ++ page (o + n) m js ≡ page o (n + m) js
page-join o n m js =
    rw (page-take o n js, page-take (o + n) m js, page-take o (n + m) js, ← drop-drop o n js)
      (take-join n m (drop o js))

-- Two pages of `SearchJobs`, the second from where the first ends, are the page of both.
search_jobs-join :
    (f : JobFilter) (s : InMemoryStore) (offset n m : ℕ)
    → 0 < n
    → 0 < m
    → search_jobs (record f { offset = pos offset; limit = pos n }) s
        ++ search_jobs (record f { offset = pos (offset + n); limit = pos m }) s
      ≡ search_jobs (record f { offset = pos offset; limit = pos (n + m) }) s
unfolding search_jobs selects
search_jobs-join f s offset n m hn hm =
    rw (limit_or-pos n 20 hn, limit_or-pos m 20 hm, limit_or-pos (n + m) 20 (omega arith))
      (page-join offset n m (newest_first (keep (selects f) s.data_)))

length-place : (j : Job) (js : List Job) → length (place j js) ≡ length js + 1
unfolding place
length-place j [] = omega arith
length-place j (k ∷ ks) = ground (arith, length-place j ks)

length-newest_first : (js : List Job) → length (newest_first js) ≡ length js
unfolding newest_first
length-newest_first [] = refl
length-newest_first (j ∷ js) =
    omega (arith, length-newest_first js, length-place j (newest_first js))

length-keep : (p : Job → Bool) (m : List (String × Job)) → length (keep p m) ≡ count_all p m
unfolding keep count_all
length-keep p [] = refl
length-keep p ((id, j) ∷ m) = ground (arith, length-keep p m)

-- `CountJobs` counts what `SearchJobs` finds: a first page of any positive size holds that many jobs,
-- or the size if it is less.
count_jobs-search_jobs :
    (f : JobFilter) (s : InMemoryStore) (n : ℕ)
    → 0 < n
    → length (search_jobs (record f { offset = pos 0; limit = pos n }) s) ≡ min n (count_jobs f s)
unfolding search_jobs count_jobs selects
count_jobs-search_jobs f s n h =
    let js = newest_first (keep (selects f) s.data_) in
    rw
      (
        limit_or-pos n 20 h,
        page-take 0 n js,
        length-take n js,
        length-newest_first (keep (selects f) s.data_),
        length-keep (selects f) s.data_,
      )
      refl
