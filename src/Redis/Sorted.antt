-- ===== src/Redis/Sorted.antt =====
-- What the commands on sorted sets guarantee.
use task_queue_system.Prelude.{
  ℕ, ◌+◌, ◌≤◌, ◌≡◌, refl, ite, Option, none, some, List, [], ◌∷◌, arith, length,
}
use task_queue_system.Redis.Data.{Entry, Entry_discrete}
use task_queue_system.Redis.Commands.{zset_remove, zset_place, zset_add, upto, after}

-- ZSCORE.
unfoldable pub score : Entry → List (Entry × ℕ) → Option ℕ
score e [] = none
score e ((m, n) ∷ z) = let rest = score e z in ite (Entry_discrete m e) (some n) rest

length-zset_remove : (e : Entry) (z : List (Entry × ℕ)) → length (zset_remove e z) ≤ length z
unfolding zset_remove
length-zset_remove e [] = omega arith
length-zset_remove e ((m, n) ∷ z) = ground (arith, length-zset_remove e z)

length-zset_place :
    (n : ℕ) (e : Entry) (z : List (Entry × ℕ)) → length (zset_place n e z) ≡ length z + 1
unfolding zset_place
length-zset_place n e [] = omega arith
length-zset_place n e ((m, k) ∷ z) = ground (arith, length-zset_place n e z)

pub length-zset_add :
    (n : ℕ) (e : Entry) (z : List (Entry × ℕ)) → length (zset_add n e z) ≤ length z + 1
unfolding zset_add
length-zset_add n e z =
    omega (arith, length-zset_place n e (zset_remove e z), length-zset_remove e z)

pub score-zset_remove :
    (e f : Entry) (z : List (Entry × ℕ))
    → score f (zset_remove e z) ≡ ite (Entry_discrete e f) none (score f z)
unfolding score zset_remove
score-zset_remove e f [] = ground arith
score-zset_remove e f ((m, n) ∷ z) = ground (arith, score-zset_remove e f z)

score-zset_place :
    (n : ℕ) (e f : Entry) (z : List (Entry × ℕ))
    → score e z ≡ none
    → score f (zset_place n e z) ≡ ite (Entry_discrete e f) (some n) (score f z)
unfolding score zset_place
score-zset_place n e f [] h = refl
score-zset_place n e f ((m, k) ∷ z) h = ground (arith, score-zset_place n e f z)

pub score-zset_add :
    (n : ℕ) (e f : Entry) (z : List (Entry × ℕ))
    → score f (zset_add n e z) ≡ ite (Entry_discrete e f) (some n) (score f z)
unfolding zset_add
score-zset_add n e f z = ground (
  arith,
  score-zset_remove e e z,
  score-zset_remove e f z,
  score-zset_place n e f (zset_remove e z),
)

pub score-after :
    (n : ℕ) (e : Entry) (z : List (Entry × ℕ))
    → score e (upto n z) ≡ none
    → score e (after n z) ≡ score e z
unfolding score upto after
score-after n e [] h = refl
score-after n e ((m, k) ∷ z) h = ground (arith, score-after n e z)
