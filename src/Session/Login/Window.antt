-- ===== src/Session/Login/Window.antt =====
-- The login limiter against a specification that keeps every admitted attempt for ever.
use task_queue_system.Prelude.Map.{lookup, lookup-insert}
use task_queue_system.Prelude.{
  some, if_pos, if_neg, ◌≢◌, ◌∙◌, leb, ℕ, ◌+◌, ◌≤◌, ◌≡◌, refl, ite, List, [], ◌∷◌, ◌++◌, arith,
  String_discrete, String, ltb, if◌then◌else◌, length,
}
use task_queue_system.Session.Login.{hits_of, LoginLimiter, allow, recent}

-- How many of the times lie in the window that ends now.
abbrev pub in_window : ℕ → ℕ → List ℕ → ℕ
in_window now window [] = 0
in_window now window (t ∷ ts) =
    let n = in_window now window ts in if ltb now (t + window) then n + 1 else n

-- The attempts made so far as times and keys, the latest first, and the limiter after them.
unfoldable pub run : LoginLimiter → List (ℕ × String) → LoginLimiter
run l [] = l
run l ((now, key) ∷ h) = (allow (run l h) now key).1

-- The times of the attempts for one key that are to be admitted: those made while fewer than the
-- limit had been admitted in the window.
unfoldable pub admitted : (max window : ℕ) → String → List (ℕ × String) → List ℕ
admitted max window key [] = []
admitted max window key ((now, k) ∷ h) =
    let before = admitted max window key h in
    ite (String_discrete k key)
      (if ltb (in_window now window before) max then now ∷ before else before) before

-- No attempt is later than `now`, and the times never fall.
abbrev pub Ordered : ℕ → List (ℕ × String) → Type 0
Ordered now [] = Unit {0}
Ordered now ((t, key) ∷ h) = (t ≤ now) × Ordered t h

length-recent :
    (now window : ℕ) (ts : List ℕ) → length (recent now window ts) ≡ in_window now window ts
unfolding recent
length-recent now window [] = refl
length-recent now window (t ∷ ts) = ground (arith, length-recent now window ts)

in_window-recent :
    (now later window : ℕ) (ts : List ℕ)
    → now ≤ later
    → in_window later window (recent now window ts) ≡ in_window later window ts
unfolding recent
in_window-recent now later window [] h = refl
in_window-recent now later window (t ∷ ts) h =
    ground (arith, in_window-recent now later window ts h)

in_window-snoc :
    (now window t : ℕ) (ts : List ℕ)
    → in_window now window (ts ++ t ∷ []) ≡ in_window now window (t ∷ ts)
in_window-snoc now window t [] = refl
in_window-snoc now window t (u ∷ ts) = ground (arith, in_window-snoc now window t ts)

hits_of-allow_self :
    (l : LoginLimiter) (k : String) (t : ℕ)
    → let kept = recent t l.window (hits_of k l) in
      hits_of k (allow l t k).1 ≡ (if leb l.max (length kept) then kept else kept ++ t ∷ [])
unfolding allow
hits_of-allow_self l k t =
    let kept = recent t l.window (hits_of k l) in
    let found = λ (v : List ℕ).
      lookup-insert String_discrete k k v l.hits ∙ if_pos (String_discrete k k) refl (some v) _ in
    ground (arith, found kept, found (kept ++ t ∷ []))

hits_of-allow_elsewhere :
    (l : LoginLimiter) (k key : String) (t : ℕ)
    → k ≢ key
    → hits_of key (allow l t k).1 ≡ hits_of key l
unfolding allow
hits_of-allow_elsewhere l k key t ne =
    let kept = recent t l.window (hits_of k l) in
    let same = λ (v : List ℕ).
      lookup-insert String_discrete k key v l.hits ∙ if_neg (String_discrete k key) ne (some v) _ in
    ground (arith, same kept, same (kept ++ t ∷ []))

-- One attempt, seen by its own key: the equation of the induction below.
allow-agrees :
    (l : LoginLimiter) (max window : ℕ) (k : String) (t now : ℕ) (before : List ℕ)
    → l.max ≡ max
    → l.window ≡ window
    → t ≤ now
    → in_window t window (hits_of k l) ≡ in_window t window before
    → in_window now window (hits_of k l) ≡ in_window now window before
    → in_window now window (hits_of k (allow l t k).1)
      ≡ in_window now window (if ltb (in_window t window before) max then t ∷ before else before)
allow-agrees l max window k t now before m w le at_t at_now =
    let kept = recent t l.window (hits_of k l) in
    ground (
      arith,
      hits_of-allow_self l k t,
      length-recent t l.window (hits_of k l),
      in_window-recent t now l.window (hits_of k l) le,
      in_window-snoc now l.window t kept,
    )

settings :
    (l : LoginLimiter) (h : List (ℕ × String))
    → ((run l h).max ≡ l.max) × ((run l h).window ≡ l.window)
unfolding run allow
settings l [] = (refl, refl)
settings l ((t, k) ∷ h) = ground (arith, settings l h)

Ordered-mono : (t now : ℕ) (h : List (ℕ × String)) → t ≤ now → Ordered t h → Ordered now h
Ordered-mono t now [] le o = tt
Ordered-mono t now ((u, k) ∷ h) le o = (omega arith, o.1)

module _ (l : LoginLimiter) (no_hits : l.hits ≡ []) where
  abbrev spec : String → List (ℕ × String) → List ℕ
  spec key h = admitted l.max l.window key h

  hits_of-run_step :
      (k key : String) (t now : ℕ) (h : List (ℕ × String))
      → t ≤ now
      → ((x : ℕ)
          → t ≤ x
          → (j : String)
          → in_window x l.window (hits_of j (run l h)) ≡ in_window x l.window (spec j h))
      → in_window now l.window (hits_of key (run l ((t, k) ∷ h)))
        ≡ in_window now l.window (spec key ((t, k) ∷ h))
  unfolding run admitted
  hits_of-run_step k key t now h le ih = pick (String_discrete k key)
    where
      own :
          in_window now l.window (hits_of k (allow (run l h) t k).1)
          ≡ in_window now l.window
              (if ltb (in_window t l.window (spec k h)) l.max then t ∷ spec k h else spec k h)
      own =
          let (m, w) = settings l h in
          allow-agrees (run l h) l.max l.window k t now (spec k h) m w le (ih t (omega arith) k)
            (ih now le k)

      pick :
          (d : Dec (k ≡ key))
          → in_window now l.window (hits_of key (allow (run l h) t k).1)
            ≡ in_window now l.window (
                ite d
                  (if ltb (in_window t l.window (spec key h)) l.max
                    then t ∷ spec key h
                    else spec key h)
                  (spec key h))
      pick (yes e) = rw (← e) own
      pick (no ne) = rw (hits_of-allow_elsewhere (run l h) k key t ne) (ih now le key)

  hits_of-run :
      (now : ℕ) (h : List (ℕ × String)) (key : String)
      → Ordered now h
      → in_window now l.window (hits_of key (run l h)) ≡ in_window now l.window (spec key h)
  unfolding run admitted lookup
  hits_of-run now [] key o = rw no_hits
  hits_of-run now ((t, k) ∷ h) key o =
      hits_of-run_step k key t now h o.0 (λ x le j. hits_of-run x h j (Ordered-mono t x h le o.1))

  -- An attempt is admitted exactly if fewer than the limit of the attempts admitted for its key lie
  -- in the window that ends with it, over any interleaving of keys whose times do not fall.
  pub allow-admits :
      (now : ℕ) (key : String) (h : List (ℕ × String))
      → Ordered now h
      → (allow (run l h) now key).0 ≡ ltb (in_window now l.window (spec key h)) l.max
  unfolding allow
  allow-admits now key h o = ground (
    arith,
    settings l h,
    length-recent now (run l h).window (hits_of key (run l h)),
    hits_of-run now h key o,
  )

in_window_mono :
    (t now window : ℕ) (ts : List ℕ) → t ≤ now → in_window now window ts ≤ in_window t window ts
in_window_mono t now window [] h = omega arith
in_window_mono t now window (u ∷ ts) h = ground (arith, in_window_mono t now window ts h)

admitted_bounded :
    (max window : ℕ) (key : String) (now : ℕ) (h : List (ℕ × String))
    → Ordered now h
    → in_window now window (admitted max window key h) ≤ max
unfolding admitted
admitted_bounded max window key now [] o = omega arith
admitted_bounded max window key now ((t, k) ∷ h) o = ground (
  arith,
  admitted_bounded max window key now h (Ordered-mono t now h o.0 o.1),
  in_window_mono t now window (admitted max window key h) o.0,
)

-- The times of the attempts for one key that `Allow` admitted.
unfoldable pub granted : LoginLimiter → String → List (ℕ × String) → List ℕ
granted l key [] = []
granted l key ((t, k) ∷ h) =
    let before = granted l key h in
    ite (String_discrete k key) (if (allow (run l h) t k).0 then t ∷ before else before) before

granted-admitted :
    (l : LoginLimiter) (key : String) (now : ℕ) (h : List (ℕ × String))
    → l.hits ≡ []
    → Ordered now h
    → granted l key h ≡ admitted l.max l.window key h
unfolding granted admitted
granted-admitted l key now [] e o = refl
granted-admitted l key now ((t, k) ∷ h) e o =
    ground (arith, granted-admitted l key t h e o.1, allow-admits l e t key h o.1)

-- On a new limiter, and where the times of the attempts do not fall, no window of the limiter's length
-- that ends at the last attempt or later holds more attempts admitted for a key than the limit.
allow-bounded :
    (l : LoginLimiter) (key : String) (now : ℕ) (h : List (ℕ × String))
    → l.hits ≡ []
    → Ordered now h
    → in_window now l.window (granted l key h) ≤ l.max
allow-bounded l key now h e o =
    rw (granted-admitted l key now h e o) (admitted_bounded l.max l.window key now h o)
