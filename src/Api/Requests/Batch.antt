-- ===== src/Api/Requests/Batch.antt =====
-- What the validation of a batch answers.
use task_queue_system.Prelude.{
  ℕ, ◌+◌, ◌≤◌, ◌<◌, ◌≡◌, refl, ◌↔◌, ◌⊎◌, inl, inr, Bool, true, false, Option, none, some, List, [],
  ◌∷◌, arith, String, ltb, ◌==◌, if◌then◌else◌, length,
}
use task_queue_system.Api.Requests.{
  CreateJobRequest, RequestError, validate, BatchError, no_jobs, too_many_jobs, invalid_job,
  found_at, validate_from, validate_batch,
}
use task_queue_system.Api.Requests.Valid.{IsValid, validate_iff}

module _ (now : ℕ) (parse_time : String → Option ℕ) (parses_cron : String → Bool) where
  abbrev AllValid : List CreateJobRequest → Type 0
  AllValid [] = Unit
  AllValid (r ∷ rs) = IsValid now parse_time parses_cron r × AllValid rs

  -- The first request that fails, counted from `i`.
  abbrev FirstInvalid : ℕ → List CreateJobRequest → ℕ → RequestError → Type 0
  FirstInvalid i [] j e = ⊥
  FirstInvalid i (r ∷ rs) j e =
      ((validate now parse_time parses_cron r ≡ some e) × (j ≡ i))
      ⊎ (IsValid now parse_time parses_cron r × FirstInvalid (i + 1) rs j e)

  abbrev OfBatch : ℕ → List CreateJobRequest → Option BatchError → Type 0
  OfBatch i rs none = AllValid rs
  OfBatch i rs (some no_jobs) = ⊥
  OfBatch i rs (some too_many_jobs) = ⊥
  OfBatch i rs (some (invalid_job j e)) = FirstInvalid i rs j e

  abbrev pub BatchAnswer : List CreateJobRequest → Option BatchError → Type 0
  BatchAnswer rs (some no_jobs) = rs ≡ []
  BatchAnswer rs (some too_many_jobs) = 100 < length rs
  BatchAnswer rs o = (0 < length rs) × (length rs ≤ 100) × OfBatch 0 rs o

  next-OfBatch :
      (i : ℕ) (r : CreateJobRequest) (rs : List CreateJobRequest) (o : Option BatchError)
      → IsValid now parse_time parses_cron r
      → OfBatch (i + 1) rs o
      → OfBatch i (r ∷ rs) o
  next-OfBatch i r rs none v h = (v, h)
  next-OfBatch i r rs (some no_jobs) v h = h
  next-OfBatch i r rs (some too_many_jobs) v h = h
  next-OfBatch i r rs (some (invalid_job j e)) v h = inr (v, h)

  found_at-OfBatch :
      (i : ℕ) (r : CreateJobRequest) (rs : List CreateJobRequest) (rest : Option BatchError)
      (o : Option RequestError)
      → validate now parse_time parses_cron r ≡ o
      → OfBatch (i + 1) rs rest
      → OfBatch i (r ∷ rs) (found_at now parse_time parses_cron i rest o)
  unfolding found_at
  found_at-OfBatch i r rs rest none e h =
      next-OfBatch i r rs rest ((validate_iff now parse_time parses_cron r).0 e) h
  found_at-OfBatch i r rs rest (some x) e h = inl (e, refl)

  validate_from-OfBatch :
      (i : ℕ) (rs : List CreateJobRequest)
      → OfBatch i rs (validate_from now parse_time parses_cron i rs)
  unfolding validate_from
  validate_from-OfBatch i [] = tt
  validate_from-OfBatch i (r ∷ rs) =
      found_at-OfBatch i r rs _ (validate now parse_time parses_cron r) refl
        (validate_from-OfBatch (i + 1) rs)

  OfBatch-BatchAnswer :
      (rs : List CreateJobRequest) (o : Option BatchError)
      → 0 < length rs
      → length rs ≤ 100
      → OfBatch 0 rs o
      → BatchAnswer rs o
  OfBatch-BatchAnswer rs none p q h = (p, q, h)
  OfBatch-BatchAnswer rs (some no_jobs) p q h = elim h [ ]
  OfBatch-BatchAnswer rs (some too_many_jobs) p q h = elim h [ ]
  OfBatch-BatchAnswer rs (some (invalid_job j e)) p q h = (p, q, h)

  bounded-BatchAnswer :
      (rs : List CreateJobRequest) (b : Bool)
      → ltb 100 (length rs) ≡ b
      → 0 < length rs
      → BatchAnswer rs
          (if b then some too_many_jobs else validate_from now parse_time parses_cron 0 rs)
  bounded-BatchAnswer rs true e p = ground (arith, e)
  bounded-BatchAnswer rs false e p =
      OfBatch-BatchAnswer rs _ p (ground (arith, e)) (validate_from-OfBatch 0 rs)

  sized-BatchAnswer :
      (rs : List CreateJobRequest) (b : Bool)
      → (length rs == 0) ≡ b
      → BatchAnswer rs (
          if b
          then some no_jobs
          else if ltb 100 (length rs)
          then some too_many_jobs
          else validate_from now parse_time parses_cron 0 rs)
  sized-BatchAnswer [] true e = refl
  sized-BatchAnswer (r ∷ rs) true e = ground (arith, e)
  sized-BatchAnswer rs false e =
      bounded-BatchAnswer rs (ltb 100 (length rs)) refl (ground (arith, e))

  -- The validation of a batch answers that there are no jobs only for an empty batch, that there are
  -- too many only for more than 100; else it has between 1 and 100 jobs, and they are all valid if
  -- there is no error, and an error names the first that is not, by its index from 0, with its own
  -- error. A request is valid exactly if its type is given, its time to live is not negative, its
  -- payload holds the text that its type asks for, its cron expression and its backoff settings are
  -- empty or known, and its time is empty, or can be parsed and is not more than a minute past.
  pub validate_batch-Answer :
      (rs : List CreateJobRequest)
      → BatchAnswer rs (validate_batch now parse_time parses_cron rs)
        × ((r : CreateJobRequest)
            → (validate now parse_time parses_cron r ≡ none) ↔ IsValid now parse_time parses_cron r)
  unfolding validate_batch
  validate_batch-Answer rs =
      (sized-BatchAnswer rs (length rs == 0) refl, λ r. validate_iff now parse_time parses_cron r)
