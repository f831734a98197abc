-- ===== src/Queue/Partition.antt =====
-- internal/queue/redis/redis.go: the keys of the priority partitions, in Go and in the Lua scripts.
pub mod Laws
use task_queue_system.Prelude.{
  codes, ℕ, zero, suc, ◌+◌, ◌/◌, ◌%◌, ite, List, [], ◌∷◌, ◌++◌, String_discrete, String, ltb,
  if◌then◌else◌,
}
use task_queue_system.Jobs.Types.{JobPriority, priority_high, priority_low}
use task_queue_system.Redis.Data.{Tier, high, medium, low, Key}

-- `RedisQueue`, as far as it is not the names of its keys.
pub record RedisQueue : Type 0 where
  pub num_partitions : ℕ
  pub rate_limit : ℕ

-- `NewWithRateLimit` and `New`.
unfoldable pub new_with_rate_limit : ℕ → RedisQueue
new_with_rate_limit limit = record { num_partitions = 3; rate_limit = limit }

unfoldable pub new : RedisQueue
unfolding new_with_rate_limit
new = new_with_rate_limit 10

unfoldable pub sum : List ℕ → ℕ
sum [] = 0
sum (n ∷ ns) = n + sum ns

unfoldable pub tier_of : JobPriority → Tier
tier_of p =
    ite (String_discrete p priority_high) high (ite (String_discrete p priority_low) low medium)

-- `getPartitionedKey`: the sum over the runes of the identifier.
unfoldable pub get_partitioned_key : RedisQueue → String → JobPriority → Key
unfolding sum tier_of
get_partitioned_key q id priority =
    Key.partition (tier_of priority) (sum (codes id) % q.num_partitions + 1)

-- `getFairPartitionKeys`, for the number `r` that `rand.Intn(100)` gave.
unfoldable pub keys_of_tier : ℕ → ℕ → Tier → List Key
keys_of_tier i zero t = []
keys_of_tier i (suc n) t = Key.partition t i ∷ keys_of_tier (i + 1) n t

unfoldable pub tier_order : ℕ → Tier × Tier × Tier
tier_order r =
    if ltb r 70
    then (high, medium, low)
    else if ltb r 90
    then (medium, high, low)
    else (low, high, medium)

unfoldable pub get_fair_partition_keys : RedisQueue → ℕ → List Key
unfolding keys_of_tier tier_order
get_fair_partition_keys q r =
    let (a, b, c) = tier_order r in
    keys_of_tier 1 q.num_partitions a
    ++ (keys_of_tier 1 q.num_partitions b ++ keys_of_tier 1 q.num_partitions c)

-- The bytes of a code point in UTF-8, which the scripts' `string.byte` yields one by one.
unfoldable pub utf8 : ℕ → List ℕ
utf8 c =
    if ltb c 128
    then c ∷ []
    else if ltb c 2048
    then (192 + c / 64) ∷ (128 + c % 64) ∷ []
    else if ltb c 65536
    then (224 + c / 4096) ∷ (128 + c / 64 % 64) ∷ (128 + c % 64) ∷ []
    else (240 + c / 262144) ∷ (128 + c / 4096 % 64) ∷ (128 + c / 64 % 64) ∷ (128 + c % 64) ∷ []

unfoldable pub bytes : List ℕ → List ℕ
unfolding utf8
bytes [] = []
bytes (c ∷ cs) = utf8 c ++ bytes cs

-- The same key in `promoteScheduledJobsScript` and `reclaimTimedOutJobsScript`.
unfoldable pub lua_partition_key : ℕ → String → JobPriority → Key
unfolding sum tier_of bytes
lua_partition_key num_partitions id priority =
    Key.partition (tier_of priority) (sum (bytes (codes id)) % num_partitions + 1)
