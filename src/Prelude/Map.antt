-- ===== src/Prelude/Map.antt =====
-- Go's maps: association lists with one entry to a key, read by a decision of equality.
use mathlib.Core.Path.{◌≡◌, refl, sym, ◌∙◌}
use mathlib.Core.Logic.{ite, if_neg}
use mathlib.Core.Bool.{Bool, true, false}
use task_queue_system.Prelude.Tests.{if◌then◌else◌}
use mathlib.Core.Option.{Option, none, some}
use mathlib.Core.List.{List, [], ◌∷◌}
use native.Mathlib.Omega.{arith}

module _ {ℓ} {K V : Type ℓ} (dec : Discrete K) where
  -- `m[k]`, with the key's presence.
  unfoldable pub lookup : K → List (K × V) → Option V
  lookup k [] = none
  lookup k ((j, v) ∷ m) = ite (dec j k) (some v) (lookup k m)

  -- `m[k] = v`.
  unfoldable pub insert : K → V → List (K × V) → List (K × V)
  insert k v [] = (k, v) ∷ []
  insert k v ((j, w) ∷ m) = ite (dec j k) ((k, v) ∷ m) ((j, w) ∷ insert k v m)

  -- `delete(m, k)`.
  unfoldable pub erase : K → List (K × V) → List (K × V)
  erase k [] = []
  erase k ((j, w) ∷ m) = ite (dec j k) (erase k m) ((j, w) ∷ erase k m)

  pub lookup-insert :
      (k j : K) (v : V) (m : List (K × V))
      → lookup j (insert k v m) ≡ ite (dec k j) (some v) (lookup j m)
  unfolding lookup insert
  lookup-insert k j v [] = refl
  lookup-insert k j v ((i, w) ∷ m) = ground (arith, lookup-insert k j v m)

  pub lookup-erase :
      (k j : K) (m : List (K × V)) → lookup j (erase k m) ≡ ite (dec k j) none (lookup j m)
  unfolding lookup erase
  lookup-erase k j [] = ground arith
  lookup-erase k j ((i, w) ∷ m) = ground (arith, lookup-erase k j m)

  -- The entries that pass a test: a `range` over the map that deletes the others.
  unfoldable pub retain : (K → V → Bool) → List (K × V) → List (K × V)
  retain p [] = []
  retain p ((j, w) ∷ m) = let rest = retain p m in if p j w then (j, w) ∷ rest else rest

  -- One entry to a key.
  abbrev pub Unique : List (K × V) → Type ℓ
  Unique [] = Unit
  Unique ((j, w) ∷ m) = (lookup j m ≡ none) × Unique m

  pub insert-Unique : (k : K) (v : V) (m : List (K × V)) → Unique m → Unique (insert k v m)
  unfolding insert
  insert-Unique k v [] u = (unfold lookup in refl, tt)
  insert-Unique k v ((j, w) ∷ m) u = pick (insert-Unique k v m u.1) (dec j k)
    where
      pick :
          Unique (insert k v m)
          → (d : Dec (j ≡ k)) → Unique (ite d ((k, v) ∷ m) ((j, w) ∷ insert k v m))
      pick rest (yes e) = (rw (← e) u.0, u.1)
      pick rest (no n) = (lookup-insert k j v m ∙ if_neg (dec k j) (λ e. n (sym e)) _ _ ∙ u.0, rest)

  pub erase-Unique : (k : K) (m : List (K × V)) → Unique m → Unique (erase k m)
  unfolding erase
  erase-Unique k [] u = tt
  erase-Unique k ((j, w) ∷ m) u = pick (erase-Unique k m u.1) (dec j k)
    where
      pick :
          Unique (erase k m) → (d : Dec (j ≡ k)) → Unique (ite d (erase k m) ((j, w) ∷ erase k m))
      pick rest (yes e) = rest
      pick rest (no n) = (lookup-erase k j m ∙ if_neg (dec k j) (λ e. n (sym e)) _ _ ∙ u.0, rest)

  abbrev pub keep_if : (K → V → Bool) → K → Option V → Option V
  keep_if p k none = none
  keep_if p k (some v) = if p k v then some v else none

  pub lookup-retain-none :
      (p : K → V → Bool) (k : K) (m : List (K × V))
      → lookup k m ≡ none
      → lookup k (retain p m) ≡ none
  unfolding lookup retain
  lookup-retain-none p k [] h = refl
  lookup-retain-none p k ((j, w) ∷ m) h = ground (arith, lookup-retain-none p k m)

  pub lookup-retain :
      (p : K → V → Bool) (k : K) (m : List (K × V))
      → Unique m
      → lookup k (retain p m) ≡ keep_if p k (lookup k m)
  unfolding lookup retain
  lookup-retain p k [] u = refl
  lookup-retain p k ((j, w) ∷ m) u =
      ground (arith, lookup-retain p k m u.1, lookup-retain-none p j m u.0, u.0)

  pub retain-Unique : (p : K → V → Bool) (m : List (K × V)) → Unique m → Unique (retain p m)
  unfolding retain
  retain-Unique p [] u = tt
  retain-Unique p ((j, w) ∷ m) u = pick (retain-Unique p m u.1) (p j w)
    where
      pick :
          Unique (retain p m) → (b : Bool) → Unique (if b then (j, w) ∷ retain p m else retain p m)
      pick rest true = (lookup-retain-none p j m u.0, rest)
      pick rest false = rest
