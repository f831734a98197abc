-- ===== src/Session/Login.antt =====
-- internal/api/session/session.go: `LoginLimiter`, a sliding window of attempts for each key.
pub mod Window
use task_queue_system.Prelude.{
  ℕ, ◌+◌, Bool, true, false, Option, none, some, List, [], ◌∷◌, ◌++◌, String_discrete, String, ltb,
  leb, if◌then◌else◌, length,
}
use task_queue_system.Prelude.Map.{lookup, insert}
use task_queue_system.Prelude.Int.{ℤ, pos, negsuc}

pub record LoginLimiter : Type 0 where
  pub max : ℕ
  pub window : ℕ
  pub hits : List (String × List ℕ)

abbrev or_default : ℤ → ℕ → ℕ
or_default (pos n) d = if ltb 0 n then n else d
or_default (negsuc n) d = d

unfoldable pub new_login_limiter : ℤ → ℤ → LoginLimiter
new_login_limiter max window = record {
  max = or_default max 5;
  window = or_default window 60000000000;
  hits = [];
}

-- A missing key reads as the nil slice.
abbrev or_nil : Option (List ℕ) → List ℕ
or_nil none = []
or_nil (some ts) = ts

abbrev hits_of : String → LoginLimiter → List ℕ
hits_of key l = or_nil (lookup String_discrete key l.hits)

-- The loop of `Allow`: the attempts after the cutoff `now - window`, in order.
recent : ℕ → ℕ → List ℕ → List ℕ
recent now window [] = []
recent now window (t ∷ ts) =
    let rest = recent now window ts in if ltb now (t + window) then t ∷ rest else rest

-- `Allow`.
unfoldable pub allow : LoginLimiter → ℕ → String → Bool × LoginLimiter
unfolding recent
allow l now key =
    let kept = recent now l.window (hits_of key l) in
    if leb l.max (length kept)
    then (false, record l { hits = insert String_discrete key kept l.hits })
    else (true, record l { hits = insert String_discrete key (kept ++ now ∷ []) l.hits })
