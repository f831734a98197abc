-- ===== src/Queue/Operate.antt =====
-- internal/queue/redis/redis.go: what operators read and switch.
pub mod Paused
use task_queue_system.Prelude.{
  codes, ℕ, zero, suc, ◌+◌, ◌-◌, ◌*◌, ◌/◌, ◌%◌, ◌^◌, ◌≤◌, ◌<◌, ◌≡◌, refl, sym, ap, ◌∙◌, ◌≢◌, ◌↔◌,
  ◌⊎◌, inl, inr, ite, if_pos, if_neg, Bool, true, false, not, ◌&&◌, ◌||◌, Option, none, some, List,
  [], ◌∷◌, ◌++◌, map, arith, dec_lt, dec_le, ℕ_discrete, String_discrete, String, ltb, leb, ◌==◌,
  if◌then◌else◌, length, Bool-cases, Option-cases, if-intro,
}
use task_queue_system.Prelude.Int.{ℤ}
use task_queue_system.Redis.Data.{
  Key, Tier, high, medium, low, heartbeat, tenants_registered, tenants, rate, paused_job_types,
  webhook_stream, Entry, settings, counter,
}
use task_queue_system.Redis.Commands.{
  Command, set_ex, hset, smembers, get, llen, xadd, sadd, srem, sismember, Reply, names, value,
  count,
}
use task_queue_system.Redis.Client.{
  Call, undecodable, Result, ok, err, M, pure, fail_with, attempt, ◌>>=◌, ◌>>◌, send,
}
use task_queue_system.Queue.Partition.{RedisQueue}

-- `queue.TenantRateStatus`; the window is one second.
pub record TenantRateStatus : Type 0 where
  pub tenant : String
  pub current : ℕ
  pub limit : ℕ
  pub limited : Bool

abbrev names_in : Reply → List String
names_in (names ns) = ns
names_in _ = []

abbrev count_or_zero : Result Reply → ℕ
count_or_zero (ok (value (counter n))) = n
count_or_zero _ = 0

abbrev count_of : Reply → M ℕ
count_of (count n) = pure n
count_of _ = fail_with undecodable

abbrev is_member : Reply → Bool
is_member (count (suc n)) = true
is_member _ = false

-- Go's `<` on strings, whose bytes in UTF-8 are in the order of the code points.
less : List ℕ → List ℕ → Bool
less [] [] = false
less [] (y ∷ ys) = true
less (x ∷ xs) [] = false
less (x ∷ xs) (y ∷ ys) = let rest = less xs ys in if x == y then rest else ltb x y

-- `sort.Slice` by the tenant's name.
place : TenantRateStatus → List TenantRateStatus → List TenantRateStatus
unfolding less
place t [] = t ∷ []
place t (u ∷ us) =
    let rest = place t us in if less (codes u.tenant) (codes t.tenant) then u ∷ rest else t ∷ u ∷ us

by_tenant : List TenantRateStatus → List TenantRateStatus
unfolding place
by_tenant [] = []
by_tenant (t ∷ ts) = place t (by_tenant ts)

module _ (call : Call) where
  -- `RegisterHeartbeat`, for the text of the time.
  unfoldable pub register_heartbeat : Entry → String → M (Unit {0})
  register_heartbeat time worker = send call (set_ex (heartbeat worker) time 30000000000) >> pure tt

  -- `UpdateTenantConfig`.
  unfoldable pub update_tenant_config : String → ℤ → M (Unit {0})
  update_tenant_config tenant limit =
      send call (hset tenants_registered tenant (settings limit false)) >> pure tt

  -- The loop of `RateLimitStatus`; the empty name is passed over.
  status_of : ℕ → List String → M (List TenantRateStatus)
  status_of limit [] = pure []
  status_of limit (t ∷ ts) =
      let rest = status_of limit ts in
      ite (String_discrete t "") rest (
        attempt (send call (get (rate t))) >>= λ r.
        let n = count_or_zero r in
        let status : TenantRateStatus = record {
          tenant = t;
          current = n;
          limit = limit;
          limited = leb limit n;
        } in
        rest >>= λ sts. pure (status ∷ sts))

  unfoldable pub rate_limit_status : RedisQueue → M (List TenantRateStatus)
  unfolding status_of by_tenant
  rate_limit_status q =
      if q.rate_limit == 0
      then pure []
      else (send call (smembers tenants) >>= λ r.
          status_of q.rate_limit (names_in r) >>= λ sts. pure (by_tenant sts))

  -- `PriorityPartitionDepths`: the lengths by partition, and their sum, for one tier.
  tier_depths : ℕ → ℕ → Tier → M (List (ℕ × ℕ) × ℕ)
  tier_depths i zero t = pure ([], 0)
  tier_depths i (suc n) t =
      let rest = tier_depths (i + 1) n t in
      send call (llen (Key.partition t i)) >>= λ r.
      count_of r >>= λ l. rest >>= λ d. pure ((i, l) ∷ d.0, l + d.1)

  unfoldable pub priority_partition_depths : RedisQueue → M (List (Tier × (List (ℕ × ℕ) × ℕ)))
  unfolding tier_depths
  priority_partition_depths q = do
    h ← tier_depths 1 q.num_partitions high
    m ← tier_depths 1 q.num_partitions medium
    l ← tier_depths 1 q.num_partitions low
    pure ((high, h) ∷ (medium, m) ∷ (low, l) ∷ [])

  -- `PublishWebhookEvent`, for an event in JSON.
  unfoldable pub publish_webhook_event : Entry → M (Unit {0})
  publish_webhook_event event = send call (xadd webhook_stream event) >> pure tt

  -- `PauseJobType`, `ResumeJobType`, `IsJobTypePaused` and `GetPausedJobTypes`.
  unfoldable pub pause_job_type : String → M (Unit {0})
  pause_job_type type = send call (sadd paused_job_types type) >> pure tt

  unfoldable pub resume_job_type : String → M (Unit {0})
  resume_job_type type = send call (srem paused_job_types type) >> pure tt

  unfoldable pub is_job_type_paused : String → M Bool
  is_job_type_paused type = send call (sismember paused_job_types type) >>= λ r. pure (is_member r)

  unfoldable pub get_paused_job_types : M (List String)
  get_paused_job_types = send call (smembers paused_job_types) >>= λ r. pure (names_in r)
