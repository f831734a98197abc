-- ===== src/Storage/RedisStore/Scan/Pages.antt =====
-- Which jobs `ListJobs` of `RedisStore` returns.
use task_queue_system.Storage.RedisStore.{all_pages-cons, all_pages}
use mathlib.Core.List.{append-nil, append_assoc}
use task_queue_system.Storage.Query.{list_matches, or_zero, newest_first, limit_or}
use task_queue_system.Prelude.Int.{negsuc, pos, ltb_ℤ, ℤ}
use task_queue_system.Storage.RedisStore.Scan.{
  list_jobs, sorted, scan_pages, on_entry, is_full, unmarshal, Found, scan_page, Entry, Page,
}
use task_queue_system.Jobs.Types.{Job}
use task_queue_system.Prelude.{
  length-drop, length-append, drop, take, ℕ, zero, suc, ◌+◌, ◌≤◌, ◌≡◌, refl, sym, ap, ◌∙◌, Bool,
  true, false, Option, none, some, List, [], ◌∷◌, ◌++◌, arith, String, if◌then◌else◌, length,
}

-- The jobs that match, in the order of the scan.
unfoldable pub matches : (Job → Bool) → List (String × Entry) → List Job
matches p [] = []
matches p ((id, e) ∷ es) =
    let rest = matches p es in
    elim (unmarshal e) [ none ↦ rest | some j ↦ if p j then j ∷ rest else rest ]

-- `limit` jobs after the first `offset`; no positive limit stands for all.
abbrev pub window : ℤ → ℕ → List Job → List Job
window limit offset js = take (limit_or limit (length js)) (drop offset js)

if-some :
    (b : Bool) (x y : Found) (o : Option Found)
    → (b ≡ false → o ≡ some y)
    → (if b then some x else o) ≡ some (if b then x else y)
if-some true x y o h = refl
if-some false x y o h = h refl

module _ (limit : ℤ) (p : Job → Bool) where
  -- A full page ends the scan.
  scan_stop : List (String × Entry) → Found → Found
  scan_stop es g = if is_full limit g.1 then g else scan_page limit p es g

  scan_page-append :
      (es fs : List (String × Entry)) (f : Found)
      → is_full limit f.1 ≡ false
      → scan_page limit p (es ++ fs) f ≡ scan_stop fs (scan_page limit p es f)
  unfolding scan_page scan_stop
  scan_page-append [] fs f h = rw h
  scan_page-append ((id, e) ∷ es) fs (zero, out) h =
      elim (unmarshal e)
        as (λ o.
          on_entry limit p (scan_page limit p (es ++ fs)) o (zero, out)
          ≡ scan_stop fs (on_entry limit p (scan_page limit p es) o (zero, out))) [
            | none ↦ scan_page-append es fs (zero, out) h
            | some j ↦ ground (
              arith,
              scan_page-append es fs (zero, out),
              scan_page-append es fs (zero, out ++ j ∷ []),
            )
          ]
  scan_page-append ((id, e) ∷ es) fs (suc skip, out) h =
      elim (unmarshal e)
        as (λ o.
          on_entry limit p (scan_page limit p (es ++ fs)) o (suc skip, out)
          ≡ scan_stop fs (on_entry limit p (scan_page limit p es) o (suc skip, out))) [
            | none ↦ scan_page-append es fs (suc skip, out) h
            | some j ↦
                ground (
                  arith,
                  scan_page-append es fs (suc skip, out),
                  scan_page-append es fs (skip, out),
                )
          ]

  scan_pages-all_pages :
      (ps : List Page) (es : List (String × Entry)) (f : Found)
      → is_full limit f.1 ≡ false
      → all_pages ps ≡ some es
      → scan_pages limit p ps f ≡ some (scan_page limit p es f)
  unfolding scan_pages scan_page all_pages scan_stop
  scan_pages-all_pages [] es f h e = ground arith
  scan_pages-all_pages (none ∷ ps) es f h e = cc
  scan_pages-all_pages (some page ∷ ps) es f h e =
      let (rest, q, same) = all_pages-cons page ps e in
      let at_end = scan_pages-all_pages ps rest (scan_page limit p page f) in
      rw (← same, scan_page-append page rest f h)
        (if-some (is_full limit (scan_page limit p page f).1) _ _ _ (λ b. at_end b q))

module _ (p : Job → Bool) where
  scan_page-window :
      (es : List (String × Entry)) (skip : ℕ) (out : List Job) (k l : ℕ)
      → l ≡ length out + suc k
      → (scan_page (pos l) p es (skip, out)).1 ≡ out ++ take (suc k) (drop skip (matches p es))
  unfolding scan_page matches
  scan_page-window [] zero out k l e = sym (append-nil out)
  scan_page-window [] (suc skip) out k l e = sym (append-nil out)
  scan_page-window ((id, e) ∷ es) zero out zero l h =
      elim (unmarshal e)
        as (λ o.
          (on_entry (pos l) p (scan_page (pos l) p es) o (zero, out)).1
          ≡ out
            ++ take 1 (elim o [
              | none ↦ matches p es
              | some j ↦ if p j then j ∷ matches p es else matches p es
            ])) [
              | none ↦ scan_page-window es zero out zero l h
              | some j ↦
                  ground (arith, scan_page-window es zero out zero l h, length-append out (j ∷ []))
            ]
  scan_page-window ((id, e) ∷ es) zero out (suc k) l h =
      elim (unmarshal e)
        as (λ o.
          (on_entry (pos l) p (scan_page (pos l) p es) o (zero, out)).1
          ≡ out
            ++ take (suc (suc k)) (elim o [
              | none ↦ matches p es
              | some j ↦ if p j then j ∷ matches p es else matches p es
            ])) [
              | none ↦ scan_page-window es zero out (suc k) l h
              | some j ↦ ground (
                arith,
                scan_page-window es zero out (suc k) l h,
                scan_page-window es zero (out ++ j ∷ []) k l,
                length-append out (j ∷ []),
                append_assoc out (j ∷ []) (take (suc k) (matches p es)),
              )
            ]
  scan_page-window ((id, e) ∷ es) (suc skip) out k l h =
      elim (unmarshal e)
        as (λ o.
          (on_entry (pos l) p (scan_page (pos l) p es) o (suc skip, out)).1
          ≡ out
            ++ take (suc k) (
                drop (suc skip) (elim o [
                  | none ↦ matches p es
                  | some j ↦ if p j then j ∷ matches p es else matches p es
                ]))) [
                  | none ↦ scan_page-window es (suc skip) out k l h
                  | some j ↦ ground (
                    arith,
                    scan_page-window es (suc skip) out k l h,
                    scan_page-window es skip out k l h,
                  )
                ]

  scan_page-all :
      (es : List (String × Entry)) (skip : ℕ) (out : List Job) (limit : ℤ)
      → ltb_ℤ (pos 0) limit ≡ false
      → (scan_page limit p es (skip, out)).1 ≡ out ++ drop skip (matches p es)
  unfolding scan_page matches
  scan_page-all [] zero out limit h = sym (append-nil out)
  scan_page-all [] (suc skip) out limit h = sym (append-nil out)
  scan_page-all ((id, e) ∷ es) zero out limit h =
      elim (unmarshal e)
        as (λ o.
          (on_entry limit p (scan_page limit p es) o (zero, out)).1
          ≡ out ++ elim o [
            | none ↦ matches p es
            | some j ↦ if p j then j ∷ matches p es else matches p es
          ]) [
            | none ↦ scan_page-all es zero out limit h
            | some j ↦ ground (
              arith,
              scan_page-all es zero out limit h,
              scan_page-all es zero (out ++ j ∷ []) limit h,
              append_assoc out (j ∷ []) (matches p es),
            )
          ]
  scan_page-all ((id, e) ∷ es) (suc skip) out limit h =
      elim (unmarshal e)
        as (λ o.
          (on_entry limit p (scan_page limit p es) o (suc skip, out)).1
          ≡ out
            ++ drop (suc skip) (elim o [
              | none ↦ matches p es
              | some j ↦ if p j then j ∷ matches p es else matches p es
            ])) [
              | none ↦ scan_page-all es (suc skip) out limit h
              | some j ↦ ground (
                arith,
                scan_page-all es (suc skip) out limit h,
                scan_page-all es skip out limit h,
              )
            ]

take-enough : (n : ℕ) (js : List Job) → length js ≤ n → take n js ≡ js
take-enough zero [] h = refl
take-enough zero (j ∷ js) h = elim h [ ]
take-enough (suc n) [] h = refl
take-enough (suc n) (j ∷ js) h = ap (λ ks. j ∷ ks) (take-enough n js (omega arith))

not_full : (limit : ℤ) → is_full limit [] ≡ false
not_full (pos zero) = refl
not_full (pos (suc n)) = ground arith
not_full (negsuc n) = ground arith

module _ (p : Job → Bool) (es : List (String × Entry)) (offset : ℕ) where
  -- The scan finds the page of the matches.
  found-window :
      (limit : ℤ) → (scan_page limit p es (offset, [])).1 ≡ window limit offset (matches p es)
  found-window (pos zero) =
      scan_page-all p es offset [] (pos 0) refl
      ∙ sym (take-enough _ _ (omega (arith, length-drop offset (matches p es))))
  found-window (pos (suc n)) = ground (arith, scan_page-window p es offset [] n (suc n))
  found-window (negsuc n) =
      scan_page-all p es offset [] (negsuc n) (ground arith)
      ∙ sym (take-enough _ _ (omega (arith, length-drop offset (matches p es))))

-- If every round of HSCAN is answered, `ListJobs` of `RedisStore` gives the page of the matching jobs in
-- the order of the scan, from the offset on and up to the limit if that is positive, and only then
-- sorts it by the time of creation, newest first.
pub list_jobs-scanned :
    (tenant status type : String) (limit offset : ℤ) (ps : List Page) (es : List (String × Entry))
    → all_pages ps ≡ some es
    → list_jobs tenant status type limit offset ps
      ≡ some (
          newest_first
            (window limit (or_zero offset) (matches (list_matches tenant status type) es)))
unfolding list_jobs
list_jobs-scanned tenant status type limit offset ps es e =
    let p = list_matches tenant status type in
    ap sorted (scan_pages-all_pages limit p ps es (or_zero offset, []) (not_full limit) e)
    ∙ ap (λ js. some (newest_first js)) (found-window p es (or_zero offset) limit)
