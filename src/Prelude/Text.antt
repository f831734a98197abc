-- ===== src/Prelude/Text.antt =====
-- Texts: a decision of equality that computes, and the code points of a text.
use Prim.Native.Nat.{ℕ}
use Prim.Native.Char.{code}
use Prim.Native.String
use Prim.Native.String.{String}
use mathlib.Core.Path.{◌≡◌}
use mathlib.Core.Logic.{◌≢◌}
use mathlib.Core.Bool.{Bool, true, false}
use mathlib.Core.List.{List, [], ◌∷◌}
use text.Mathlib.Text.{◌==◌}
use text.Mathlib.TextEquality.{eq_iff}

decide_text : (s t : String) (b : Bool) → (s == t) ≡ b → Dec (s ≡ t)
decide_text s t true e = yes ((eq_iff s t).0 e)
decide_text s t false e = no (λ p. refute e ((eq_iff s t).1 p))
  where
    refute : (s == t) ≡ false → (s == t) ≡ true → ⊥
    refute e f = cc

-- Equality of texts, as Go's `==` on strings and as the keys of its maps.
unfoldable pub String_discrete : Discrete String
unfolding decide_text
String_discrete s t = decide_text s t (s == t) (λ _. s == t)

-- The runes of a text, which a `for range` over it yields.
abbrev pub codes : String → List ℕ
codes String.[] = []
codes (String.◌∷◌ c s) = code c ∷ codes s

-- Two texts that the test tells apart.
pub ne_of_test : (s t : String) → (s == t) ≡ false → s ≢ t
ne_of_test s t h p = refute ((eq_iff s t).1 p)
  where
    refute : (s == t) ≡ true → ⊥
    refute g = cc

-- Go's `+` on strings.
abbrev pub append_text : String → String → String
append_text s t = String.◌++◌ s t
