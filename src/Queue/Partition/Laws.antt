-- ===== src/Queue/Partition/Laws.antt =====
-- Every consumer looks at every producer's list; the Go and the Lua hash on the same identifier.
use native.Mathlib.Nat.{zero-add, mod-lt}
use mathlib.Core.List.{Mem, mem-cons_self, mem-cons_of_mem, mem-append_left, mem-append_right}
use task_queue_system.Prelude.{
  lt→ltb, codes, ℕ, zero, suc, ◌+◌, ◌/◌, ◌%◌, ◌≤◌, ◌<◌, ◌≡◌, refl, ap, ◌≢◌, ◌⊎◌, inl, inr, List, [],
  ◌∷◌, arith, String,
}
use task_queue_system.Jobs.Types.{JobPriority}
use task_queue_system.Redis.Data.{Tier, high, medium, low, Key}
use task_queue_system.Queue.Partition.{
  new_with_rate_limit, RedisQueue, sum, tier_of, get_partitioned_key, keys_of_tier, tier_order,
  get_fair_partition_keys, bytes, lua_partition_key,
}

mem-keys_of_tier :
    (i j n : ℕ) (t : Tier) → j < n → Mem (Key.partition t (j + i)) (keys_of_tier i n t)
unfolding keys_of_tier
mem-keys_of_tier i j zero t h = elim h [ ]
mem-keys_of_tier i zero (suc n) t h = rw zero-add mem-cons_self
mem-keys_of_tier i (suc j) (suc n) t h =
    let e : suc j + i ≡ j + (i + 1) = omega arith in
    rw e (mem-cons_of_mem _ (mem-keys_of_tier (i + 1) j n t (omega arith)))

tier_order-total :
    (r : ℕ) (t : Tier) → let (a, b, c) = tier_order r in (t ≡ a) ⊎ ((t ≡ b) ⊎ (t ≡ c))
unfolding tier_order
tier_order-total r high = ground arith
tier_order-total r medium = ground arith
tier_order-total r low = ground arith

-- Where there is a partition and whatever number is drawn, the key that a job is pushed to is one of
-- those that `Dequeue` reads.
mem-get_fair_partition_keys :
    (q : RedisQueue) (id : String) (priority : JobPriority) (r : ℕ)
    → 0 < q.num_partitions
    → Mem (get_partitioned_key q id priority) (get_fair_partition_keys q r)
unfolding get_partitioned_key get_fair_partition_keys
mem-get_fair_partition_keys q id priority r h =
    let (a, b, c) = tier_order r in
    elim (tier_order-total r (tier_of priority)) [
      | inl e ↦ mem-append_left _ (own a e)
      | inr (inl e) ↦ mem-append_right (keys a) (mem-append_left _ (own b e))
      | inr (inr e) ↦ mem-append_right (keys a) (mem-append_right (keys b) (own c e))
    ]
  where
    keys : Tier → List Key
    keys = keys_of_tier 1 q.num_partitions

    own : (t : Tier) → tier_of priority ≡ t → Mem (get_partitioned_key q id priority) (keys t)
    own t e = rw (← e) (
        mem-keys_of_tier 1 (sum (codes id) % q.num_partitions) q.num_partitions (tier_of priority)
          (mod-lt _ h))

abbrev All : (ℕ → Type 0) → List ℕ → Type 0
All P [] = Unit {0}
All P (x ∷ xs) = P x × All P xs

bytes-ascii : (cs : List ℕ) → All (λ c. c < 128) cs → bytes cs ≡ cs
unfolding bytes
bytes-ascii [] h = refl
bytes-ascii (c ∷ cs) h = rw (bytes-ascii cs h.1, lt→ltb c 128 h.0)

-- On an identifier of ASCII characters, as those of `NewJob` are, the scripts' key is Go's.
pub lua_partition_key-ascii :
    (q : RedisQueue) (id : String) (priority : JobPriority)
    → All (λ c. c < 128) (codes id)
    → lua_partition_key q.num_partitions id priority ≡ get_partitioned_key q id priority
unfolding lua_partition_key get_partitioned_key
lua_partition_key-ascii q id priority h = rw (bytes-ascii (codes id) h)

abbrev index_in : Key → ℕ
index_in (Key.partition t n) = n
index_in _ = 0

sum-two_bytes : (c : ℕ) → 128 ≤ c → c < 2048 → sum (bytes (c ∷ [])) ≡ 320 + c / 64 + c % 64
unfolding sum bytes
sum-two_bytes c lo hi = ground arith

sum-singleton : (c : ℕ) → sum (c ∷ []) ≡ c
unfolding sum
sum-singleton c = omega arith

same_hash :
    (limit : ℕ) (id : String) (priority : JobPriority)
    → lua_partition_key 3 id priority ≡ get_partitioned_key (new_with_rate_limit limit) id priority
    → sum (bytes (codes id)) % 3 ≡ sum (codes id) % 3
unfolding lua_partition_key get_partitioned_key new_with_rate_limit
same_hash limit id priority same =
    let e : sum (bytes (codes id)) % 3 + 1 ≡ sum (codes id) % 3 + 1 = ap index_in same in
    omega arith

-- With the three partitions of the constructors, an identifier of one character that UTF-8 spells in
-- two bytes has another key in the scripts than in Go.
lua_partition_key-two_bytes :
    (limit : ℕ) (id : String) (priority : JobPriority) (c : ℕ)
    → codes id ≡ c ∷ []
    → 128 ≤ c
    → c < 2048
    → lua_partition_key 3 id priority ≢ get_partitioned_key (new_with_rate_limit limit) id priority
lua_partition_key-two_bytes limit id priority c e lo hi same =
    let hash : sum (bytes (c ∷ [])) % 3 ≡ sum (c ∷ []) % 3 =
      rw (← e) (same_hash limit id priority same) in
    absurd (omega (arith, hash, sum-two_bytes c lo hi, sum-singleton c))
