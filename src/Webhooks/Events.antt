-- ===== src/Webhooks/Events.antt =====
-- internal/webhooks/events.go: the canonical form of the events' names.
use Prim.Native.Char.{Char, code}
use task_queue_system.Prelude.{
  ℕ, ite, Bool, ◌&&◌, ◌||◌, Option, none, some, List, [], ◌∷◌, String_discrete, String, leb, ◌==◌,
  if◌then◌else◌,
}

-- `unicode.IsSpace`.
abbrev is_space : ℕ → Bool
is_space c =
    (leb 9 c && leb c 13)
    || (c == 32)
    || (c == 133)
    || (c == 160)
    || (c == 5760)
    || (leb 8192 c && leb c 8202)
    || (c == 8232)
    || (c == 8233)
    || (c == 8239)
    || (c == 8287)
    || (c == 12288)

-- `strings.TrimSpace`.
trim_left : String → String
trim_left String.[] = String.[]
trim_left (String.◌∷◌ c s) =
    let rest = trim_left s in if is_space (code c) then rest else String.◌∷◌ c s

abbrev keep_unless_blank : Char → String → String
keep_unless_blank c String.[] = if is_space (code c) then String.[] else String.◌∷◌ c String.[]
keep_unless_blank c (String.◌∷◌ d s) = String.◌∷◌ c (String.◌∷◌ d s)

trim_right : String → String
trim_right String.[] = String.[]
trim_right (String.◌∷◌ c s) = keep_unless_blank c (trim_right s)

unfoldable pub trim_space : String → String
unfolding trim_left trim_right
trim_space s = trim_right (trim_left s)

-- `strings.TrimPrefix`.
abbrev or_whole : String → Option String → String
or_whole s none = s
or_whole s (some t) = t

after_prefix : String → String → Option String
after_prefix String.[] s = some s
after_prefix (String.◌∷◌ p ps) String.[] = none
after_prefix (String.◌∷◌ p ps) (String.◌∷◌ c s) =
    let rest = after_prefix ps s in if code p == code c then rest else none

unfoldable pub trim_prefix : (prefix s : String) → String
unfolding after_prefix
trim_prefix prefix s = or_whole s (after_prefix prefix s)

-- `NormalizeEvent`.
unfoldable pub normalize_event : String → String
unfolding trim_space trim_prefix
normalize_event e = trim_prefix "job." (trim_space e)

-- `NormalizeEvents`.
unfoldable pub normalize_each : List String → List String
unfolding normalize_event
normalize_each [] = []
normalize_each (e ∷ es) =
    let rest = normalize_each es in
    ite (String_discrete (normalize_event e) "") rest (normalize_event e ∷ rest)

abbrev pub default_events : List String
default_events = "completed" ∷ "failed" ∷ []

abbrev pub or_default : List String → List String
or_default [] = default_events
or_default (e ∷ es) = e ∷ es

unfoldable pub normalize_events : List String → List String
unfolding normalize_each
normalize_events es = or_default (normalize_each es)
