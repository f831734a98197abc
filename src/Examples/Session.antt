-- ===== src/Examples/Session.antt =====
-- A login limiter with two attempts in ten units of time.
use task_queue_system.Prelude.{ℕ, ◌≡◌, refl, List, [], ◌∷◌, arith, String, ltb}
use task_queue_system.Prelude.Int.{pos}
use task_queue_system.Session.Login.{LoginLimiter, new_login_limiter, allow}
use task_queue_system.Session.Login.Window.{run, allow-admits, admitted, in_window}

abbrev limiter : LoginLimiter
limiter = new_login_limiter (pos 2) (pos 10)

abbrev attempts : List (ℕ × String)
attempts = (7, "10.0.0.1") ∷ (6, "10.0.0.2") ∷ (3, "10.0.0.1") ∷ []

allow-admits_example :
    (allow (run limiter attempts) 9 "10.0.0.1").0
    ≡ ltb (in_window 9 10 (admitted 2 10 "10.0.0.1" attempts)) 2
unfolding new_login_limiter
allow-admits_example = allow-admits limiter refl 9 "10.0.0.1" attempts (omega arith)
