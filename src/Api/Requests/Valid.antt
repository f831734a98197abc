-- ===== src/Api/Requests/Valid.antt =====
-- Which requests pass the validation.
use task_queue_system.Prelude.{
  ite-intro, ℕ, ◌+◌, ◌≤◌, ◌≡◌, refl, sym, ap, ◌∙◌, ◌≢◌, ◌↔◌, ◌⊎◌, inl, inr, ite, Bool, true, false,
  Option, none, some, List, arith, String_discrete, String, if◌then◌else◌,
}
use task_queue_system.Prelude.Map.{lookup}
use task_queue_system.Prelude.Int.{ℤ, pos, negsuc}
use task_queue_system.Jobs.Types.{Value}
use task_queue_system.Api.Requests.{
  CreateJobRequest, RequestError, required_key, text_in, minute, is_negative, is_algorithm,
  is_jitter, check_time, check_run_at, check_jitter, check_algorithm, check_cron, check_key,
  check_payload, validate, type_required, ttl_negative, field_required,
}

abbrev Passes : Option RequestError → Type 0
Passes o = o ≡ none

-- A check that is skipped at an empty text.
skip-Passes :
    {X Q P : Type 0} (d : Dec X) (b : Bool) (o : Option RequestError) (e : RequestError)
    → (b ≡ true) ↔ Q
    → Passes o ↔ P
    → Passes (ite d o (if b then o else some e)) ↔ ((X ⊎ Q) × P)
skip-Passes (yes x) b o e q p = (λ h. (inl x, p.0 h), λ k. p.1 k.1)
skip-Passes (no n) true o e q p = (λ h. (inr (q.0 refl), p.0 h), λ k. p.1 k.1)
skip-Passes (no n) false o e q p =
    (λ h. ground arith, λ k. elim k.0 [ inl x ↦ elim (n x) [ ] | inr y ↦ ground (arith, q.1 y) ])

-- A check that fails if the test holds.
fails-Passes :
    {X P : Type 0} (d : Dec X) (o : Option RequestError) (e : RequestError)
    → Passes o ↔ P
    → Passes (ite d (some e) o) ↔ ((¬ X) × P)
fails-Passes (yes x) o e p = (λ h. ground arith, λ k. elim (k.0 x) [ ])
fails-Passes (no n) o e p = (λ h. (n, p.0 h), λ k. p.1 k.1)

is_algorithm_iff :
    (a : String)
    → (is_algorithm a ≡ true) ↔ ((a ≡ "exponential") ⊎ ((a ≡ "linear") ⊎ (a ≡ "fixed")))
unfolding is_algorithm
is_algorithm_iff a = (λ e. ground arith, λ e. ground arith)

is_jitter_iff :
    (a : String) → (is_jitter a ≡ true) ↔ ((a ≡ "none") ⊎ ((a ≡ "full") ⊎ (a ≡ "equal")))
unfolding is_jitter
is_jitter_iff a = (λ e. ground arith, λ e. ground arith)

abbrev IsText : Option Value → Type 0
IsText o = (s : String) × (o ≡ some (Value.text s)) × (s ≢ "")

no_text :
    (o : Option Value)
    → text_in o ≡ ""
    → ((s : String) → o ≢ some (Value.text s))
    → (¬ (text_in o ≡ "")) ↔ IsText o
no_text o e n = (λ h. elim (h e) [ ], λ (s, k, _). elim (n s k) [ ])

text_in_iff : (o : Option Value) → (¬ (text_in o ≡ "")) ↔ IsText o
unfolding text_in
text_in_iff none = no_text _ refl (λ s e. ground arith)
text_in_iff (some (Value.text s)) = (λ h. (s, refl, h), λ (t, e, n) z. n (ap text_in (sym e) ∙ z))
text_in_iff (some Value.null) = no_text _ refl (λ s e. ground arith)
text_in_iff (some (Value.bool b)) = no_text _ refl (λ s e. ground arith)
text_in_iff (some (Value.number n)) = no_text _ refl (λ s e. ground arith)
text_in_iff (some (Value.array v)) = no_text _ refl (λ s e. ground arith)
text_in_iff (some (Value.object v)) = no_text _ refl (λ s e. ground arith)

module _ (now : ℕ) (parse_time : String → Option ℕ) (parses_cron : String → Bool) where
  abbrev IsSoon : Option ℕ → Type 0
  IsSoon o = (t : ℕ) × (o ≡ some t) × (now ≤ t + 60000000000)

  check_time_iff : (o : Option ℕ) → Passes (check_time now parse_time parses_cron o) ↔ IsSoon o
  unfolding check_time minute
  check_time_iff none = (λ h. ground arith, λ h. ground arith)
  check_time_iff (some t) = (
    λ h. (t, refl, ground (arith, h)),
    λ (u, e, le). let q : t ≡ u = ground (arith, e) in ground (arith, q, le),
  )

  abbrev IsTimely : String → Type 0
  IsTimely s = (s ≡ "") ⊎ IsSoon (parse_time s)

  check_run_at_iff :
      (r : CreateJobRequest)
      → Passes (check_run_at now parse_time parses_cron r) ↔ IsTimely r.run_at
  unfolding check_run_at
  check_run_at_iff r =
      ite-intro {A = Option RequestError} (λ o. Passes o ↔ IsTimely r.run_at)
        (String_discrete r.run_at "") _ _ (λ e. (λ _. inl e, λ _. refl))
        (λ n. (
          λ h. inr ((check_time_iff (parse_time r.run_at)).0 h),
          λ k. elim k [
            | inl e ↦ elim (n e) [ ]
            | inr s ↦ (check_time_iff (parse_time r.run_at)).1 s
          ],
        ))

  -- A known backoff, or none; the same of its jitter and of the time.
  abbrev IsBackoff : CreateJobRequest → Type 0
  IsBackoff r =
      ((r.backoff_algorithm ≡ "")
        ⊎ ((r.backoff_algorithm ≡ "exponential")
            ⊎ ((r.backoff_algorithm ≡ "linear") ⊎ (r.backoff_algorithm ≡ "fixed"))))
      × (((r.backoff_jitter ≡ "")
            ⊎ ((r.backoff_jitter ≡ "none")
                ⊎ ((r.backoff_jitter ≡ "full") ⊎ (r.backoff_jitter ≡ "equal"))))
          × IsTimely r.run_at)

  abbrev IsSchedule : CreateJobRequest → Type 0
  IsSchedule r = ((r.cron_expr ≡ "") ⊎ (parses_cron r.cron_expr ≡ true)) × IsBackoff r

  check_cron_iff :
      (r : CreateJobRequest) → Passes (check_cron now parse_time parses_cron r) ↔ IsSchedule r
  unfolding check_cron check_algorithm check_jitter
  check_cron_iff r =
      skip-Passes (String_discrete r.cron_expr "") (parses_cron r.cron_expr) _ _ (λ h. h, λ h. h)
        (skip-Passes (String_discrete r.backoff_algorithm "") (is_algorithm r.backoff_algorithm) _ _
          (is_algorithm_iff r.backoff_algorithm)
          (skip-Passes (String_discrete r.backoff_jitter "") (is_jitter r.backoff_jitter) _ _
            (is_jitter_iff r.backoff_jitter) (check_run_at_iff r)))

  -- The payload is given, with a text that is not empty under the key that the type asks for.
  abbrev HasPayload : CreateJobRequest → Option (List (String × Value)) → Type 0
  HasPayload r o =
      (p : List (String × Value)) × (o ≡ some p)
      × ((k : String) → required_key r.type ≡ some k → IsText (lookup String_discrete k p))

  check_key_iff :
      (r : CreateJobRequest) (p : List (String × Value)) (o : Option String)
      → Passes (check_key now parse_time parses_cron r p o)
        ↔ (((k : String) → o ≡ some k → IsText (lookup String_discrete k p)) × IsSchedule r)
  unfolding check_key
  check_key_iff r p none =
      (λ h. (λ k e. ground arith, (check_cron_iff r).0 h), λ h. (check_cron_iff r).1 h.1)
  check_key_iff r p (some k) =
      let parts =
        fails-Passes (String_discrete (text_in (lookup String_discrete k p)) "") _
          (field_required k) (check_cron_iff r) in
      let text = text_in_iff (lookup String_discrete k p) in
      (
        λ h. (
          λ j e. let q : k ≡ j = ground (arith, e) in rw (← q) (text.0 (parts.0 h).0),
          (parts.0 h).1,
        ),
        λ h. parts.1 (text.1 (h.0 k refl), h.1),
      )

  -- The request as the documentation of its fields has it.
  abbrev pub IsValid : CreateJobRequest → Type 0
  IsValid r =
      (r.type ≢ "") × ((n : ℕ) × (r.ttl_seconds ≡ pos n)) × HasPayload r r.payload × IsSchedule r

  check_payload_iff :
      (r : CreateJobRequest) (o : Option (List (String × Value)))
      → Passes (check_payload now parse_time parses_cron r o) ↔ (HasPayload r o × IsSchedule r)
  unfolding check_payload
  check_payload_iff r none = (λ h. ground arith, λ ((p, e, _), _). ground (arith, e))
  check_payload_iff r (some p) = (
    λ h. let (k, s) = (check_key_iff r p (required_key r.type)).0 h in ((p, refl, k), s),
    λ ((q, e, k), s).
        let same : p ≡ q = ground (arith, e) in
        (check_key_iff r p (required_key r.type)).1 (rw same k, s),
  )

  ttl_iff :
      (r : CreateJobRequest) (n : ℤ)
      → Passes (
          if is_negative n
          then some ttl_negative
          else check_payload now parse_time parses_cron r r.payload)
        ↔ (((m : ℕ) × (n ≡ pos m)) × HasPayload r r.payload × IsSchedule r)
  unfolding is_negative
  ttl_iff r (pos n) = (
    λ h. let (p, s) = (check_payload_iff r r.payload).0 h in ((n, refl), p, s),
    λ (_, p, s). (check_payload_iff r r.payload).1 (p, s),
  )
  ttl_iff r (negsuc n) = (λ h. ground arith, λ ((m, e), _, _). ground (arith, e))

  pub validate_iff :
      (r : CreateJobRequest) → (validate now parse_time parses_cron r ≡ none) ↔ IsValid r
  unfolding validate
  validate_iff r =
      let parts =
        fails-Passes (String_discrete r.type "") _ type_required (ttl_iff r r.ttl_seconds) in
      (λ h. let (t, (m, p, s)) = parts.0 h in (t, m, p, s), λ (t, m, p, s). parts.1 (t, (m, p, s)))
