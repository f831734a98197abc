-- ===== src/Redis/Commands.antt =====
-- The commands that the queue and the stores send, and what Redis documents that they do.
use task_queue_system.Prelude.{
  map, take, ℕ, ◌+◌, ite, Bool, true, false, Option, none, some, List, [], ◌∷◌, ◌++◌,
  String_discrete, String, ltb, leb, if◌then◌else◌, length,
}
use task_queue_system.Prelude.Map.{lookup, insert, erase}
use task_queue_system.Redis.Data.{Key, Key_discrete, Entry, counter, Entry_discrete, Cell, Store}

pub data Command : Type 0 where
  lpush : Key → Entry → Command
  rpop : Key → Command
  brpop : List Key → Command
  llen : Key → Command
  lrange : Key → Command
  lrange_first : Key → ℕ → Command
  ltrim : Key → ℕ → Command
  zadd : Key → ℕ → Entry → Command
  zrem : Key → Entry → Command
  zrem_upto : Key → ℕ → Command
  zcard : Key → Command
  zrange_upto : Key → ℕ → Command
  hset : Key → String → Entry → Command
  hget : Key → String → Command
  hdel : Key → String → Command
  hgetall : Key → Command
  hvals : Key → Command
  hmget : Key → List String → Command
  hdel_all : Key → List String → Command
  get : Key → Command
  set_ex : Key → Entry → ℕ → Command
  set_key : Key → Entry → Command
  set_nx : Key → Entry → ℕ → Command
  mget : List Key → Command
  del : Key → Command
  incr : Key → Command
  expire : Key → ℕ → Command
  sadd : Key → String → Command
  srem : Key → String → Command
  sismember : Key → String → Command
  smembers : Key → Command
  xadd : Key → Entry → Command
  -- EVALSHA: the script's function of the store, executed atomically; `none` where it raises an error,
  -- which undoes nothing.
  eval : (Store → Option ℕ × Store) → Command

pub data Reply : Type 0 where
  done nil script_failed wrong_arguments : Reply
  count : ℕ → Reply
  value : Entry → Reply
  popped : Key → Entry → Reply
  entries : List Entry → Reply
  options : List (Option Entry) → Reply
  fields : List (String × Entry) → Reply
  names : List String → Reply

-- A function from keys with one value changed.
abbrev pub update {ℓ} : {A : Type ℓ} → (Key → A) → Key → A → Key → A
update f k v j = ite (Key_discrete k j) v (f j)

abbrev pub onto {ℓ} : {A : Type ℓ} → A → Option (List A × A) → Option (List A × A)
onto x none = some ([], x)
onto x (some (ys, y)) = some (x ∷ ys, y)

-- The list without its last element, and that element.
unfoldable pub unsnoc {ℓ} : {A : Type ℓ} → List A → Option (List A × A)
unsnoc [] = none
unsnoc (x ∷ xs) = onto x (unsnoc xs)

-- Sorted sets, lowest score first.
unfoldable pub zset_remove : Entry → List (Entry × ℕ) → List (Entry × ℕ)
zset_remove e [] = []
zset_remove e ((m, n) ∷ z) =
    let rest = zset_remove e z in ite (Entry_discrete m e) rest ((m, n) ∷ rest)

unfoldable pub zset_place : ℕ → Entry → List (Entry × ℕ) → List (Entry × ℕ)
zset_place n e [] = (e, n) ∷ []
zset_place n e ((m, k) ∷ z) =
    let rest = zset_place n e z in if ltb n k then (e, n) ∷ (m, k) ∷ z else (m, k) ∷ rest

unfoldable pub zset_add : ℕ → Entry → List (Entry × ℕ) → List (Entry × ℕ)
zset_add n e z = zset_place n e (zset_remove e z)

-- The members with a score of at most `n`, and the others.
unfoldable pub upto : ℕ → List (Entry × ℕ) → List (Entry × ℕ)
upto n [] = []
upto n ((m, k) ∷ z) = let rest = upto n z in if leb k n then (m, k) ∷ rest else rest

unfoldable pub after : ℕ → List (Entry × ℕ) → List (Entry × ℕ)
after n [] = []
after n ((m, k) ∷ z) = let rest = after n z in if leb k n then rest else (m, k) ∷ rest

unfoldable pub set_add : String → List String → List String
set_add x [] = x ∷ []
set_add x (y ∷ ys) = let rest = set_add x ys in ite (String_discrete y x) (y ∷ ys) (y ∷ rest)

unfoldable pub set_remove : String → List String → List String
set_remove x [] = []
set_remove x (y ∷ ys) = let rest = set_remove x ys in ite (String_discrete y x) rest (y ∷ rest)

unfoldable pub set_has : String → List String → Bool
set_has x [] = false
set_has x (y ∷ ys) = let rest = set_has x ys in ite (String_discrete y x) true rest

-- A string value that has not expired.
abbrev pub alive : ℕ → Option Cell → Option Cell
alive now none = none
alive now (some c) = elim c.deadline [ none ↦ some c | some d ↦ if leb d now then none else some c ]

abbrev pub string_at : Store → Key → Option Cell
string_at d k = alive d.clock (d.strings k)

abbrev pub put_list : Store → Key → List Entry → Store
put_list d k l = record d { lists = update d.lists k l }

abbrev pub put_zset : Store → Key → List (Entry × ℕ) → Store
put_zset d k z = record d { zsets = update d.zsets k z }

abbrev pub put_hash : Store → Key → List (String × Entry) → Store
put_hash d k h = record d { hashes = update d.hashes k h }

abbrev pub put_set : Store → Key → List String → Store
put_set d k l = record d { sets = update d.sets k l }

abbrev pub put_string : Store → Key → Option Cell → Store
put_string d k c = record d { strings = update d.strings k c }

pop_from : Store → Key → Option (List Entry × Entry) → Reply × Store
pop_from d k none = (nil, d)
pop_from d k (some (l, e)) = (value e, put_list d k l)

abbrev pop_or : Reply × Store → Store → Key → Option (List Entry × Entry) → Reply × Store
pop_or rest d k none = rest
pop_or rest d k (some (l, e)) = (popped k e, put_list d k l)

-- BRPOP takes from the first list that is not empty; `nil` is its timeout.
unfoldable pub pop_first : Store → List Key → Reply × Store
pop_first d [] = (nil, d)
pop_first d (k ∷ ks) = pop_or (pop_first d ks) d k (unsnoc (d.lists k))

abbrev reply_of : Option Entry → Reply
reply_of none = nil
reply_of (some e) = value e

abbrev cell_entry : Option Cell → Option Entry
cell_entry none = none
cell_entry (some c) = some c.entry

-- SET with NX: only a key without a value is set.
set_if_new : Key → Entry → ℕ → Store → Option Cell → Reply × Store
set_if_new k e ttl d none =
    (count 1, put_string d k (some (record { entry = e; deadline = some (d.clock + ttl) })))
set_if_new k e ttl d (some c) = (count 0, d)

-- HMGET and MGET; without a field or a key they are refused.
abbrev values_of : List (Option Entry) → Reply
values_of [] = wrong_arguments
values_of (o ∷ os) = options (o ∷ os)

-- HDEL of many fields.
erase_all : List String → List (String × Entry) → List (String × Entry)
erase_all [] h = h
erase_all (f ∷ fs) h = erase_all fs (erase String_discrete f h)

-- INCR on a missing key starts from 0; a value that is not a number would be an error, and the queue
-- has none under its counters.
abbrev pub number_in : Option Cell → ℕ
number_in none = 0
number_in (some c) = elim c.entry [ counter n ↦ n | _ ↦ 0 ]

abbrev pub deadline_in : Option Cell → Option ℕ
deadline_in none = none
deadline_in (some c) = c.deadline

abbrev with_deadline : ℕ → Option Cell → Option Cell
with_deadline at none = none
with_deadline at (some c) = some (record c { deadline = some at })

abbrev bool_count : Bool → ℕ
bool_count true = 1
bool_count false = 0

abbrev present : Option Entry → ℕ
present none = 0
present (some _) = 1

abbrev script_reply : Option ℕ → Reply
script_reply none = script_failed
script_reply (some n) = count n

unfoldable pub perform : Command → Store → Reply × Store
unfolding unsnoc pop_from pop_first set_if_new erase_all
perform (lpush k e) d = (count (length (d.lists k) + 1), put_list d k (e ∷ d.lists k))
perform (rpop k) d = pop_from d k (unsnoc (d.lists k))
perform (brpop ks) d = pop_first d ks
perform (llen k) d = (count (length (d.lists k)), d)
perform (lrange k) d = (entries (d.lists k), d)
perform (lrange_first k n) d = (entries (take n (d.lists k)), d)
perform (ltrim k n) d = (done, put_list d k (take n (d.lists k)))
perform (zadd k n e) d = (done, put_zset d k (zset_add n e (d.zsets k)))
perform (zrem k e) d = (done, put_zset d k (zset_remove e (d.zsets k)))
perform (zrem_upto k n) d = (done, put_zset d k (after n (d.zsets k)))
perform (zcard k) d = (count (length (d.zsets k)), d)
perform (zrange_upto k n) d = (entries (map (λ e. e.0) (upto n (d.zsets k))), d)
perform (hset k f e) d = (done, put_hash d k (insert String_discrete f e (d.hashes k)))
perform (hget k f) d = (reply_of (lookup String_discrete f (d.hashes k)), d)
perform (hdel k f) d = (
  count (present (lookup String_discrete f (d.hashes k))),
  put_hash d k (erase String_discrete f (d.hashes k)),
)
perform (hgetall k) d = (fields (d.hashes k), d)
perform (hvals k) d = (entries (map (λ e. e.1) (d.hashes k)), d)
perform (hmget k fs) d = (values_of (map (λ f. lookup String_discrete f (d.hashes k)) fs), d)
perform (hdel_all k fs) d = (done, put_hash d k (erase_all fs (d.hashes k)))
perform (get k) d = (reply_of (cell_entry (string_at d k)), d)
perform (set_ex k e ttl) d =
    (done, put_string d k (some (record { entry = e; deadline = some (d.clock + ttl) })))
perform (set_key k e) d = (done, put_string d k (some (record { entry = e; deadline = none })))
perform (set_nx k e ttl) d = set_if_new k e ttl d (string_at d k)
perform (mget ks) d = (values_of (map (λ k. cell_entry (string_at d k)) ks), d)
perform (del k) d = (done, put_string d k none)
perform (incr k) d =
    let n = number_in (string_at d k) + 1 in
    (
      count n,
      put_string d k (some (record { entry = counter n; deadline = deadline_in (string_at d k) })),
    )
perform (expire k ttl) d = (done, put_string d k (with_deadline (d.clock + ttl) (string_at d k)))
perform (sadd k x) d = (done, put_set d k (set_add x (d.sets k)))
perform (srem k x) d = (done, put_set d k (set_remove x (d.sets k)))
perform (sismember k x) d = (count (bool_count (set_has x (d.sets k))), d)
perform (smembers k) d = (names (d.sets k), d)
perform (xadd k e) d = (done, record d { streams = update d.streams k (d.streams k ++ e ∷ []) })
perform (eval f) d = let (n, d') = f d in (script_reply n, d')
