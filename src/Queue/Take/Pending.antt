-- ===== src/Queue/Take/Pending.antt =====
-- The jobs in the lists that `Dequeue` reads: a round that puts one aside leaves fewer.
use task_queue_system.Prelude.{
  ℕ, suc, ◌+◌, ◌≤◌, ◌<◌, ◌≡◌, refl, sym, ap, ◌∙◌, inl, inr, true, Option, none, some, List, [], ◌∷◌,
  arith, length, Option-cases,
}
use task_queue_system.Jobs.Types.{Job}
use task_queue_system.Redis.Data.{Key, Entry, Store}
use task_queue_system.Redis.Commands.{perform, Reply, brpop, onto, unsnoc, pop_first, put_list}
use task_queue_system.Redis.Client.{Server, ok, send, >>=-ok}
use task_queue_system.Queue.Take.{round, get_job_type_state, popped_entry, decode_job}
use task_queue_system.Queue.Take.Granted.{get_job_type_state-reads}
use task_queue_system.Queue.Take.Loop.{is_ready, admit-Aside, SameReady}

-- How many jobs lie in the lists that a call reads.
abbrev pub pending : List Key → Store → ℕ
pending [] d = 0
pending (k ∷ ks) d = length (d.lists k) + pending ks d

abbrev pub AllReady : List Key → Type 0
AllReady [] = Unit {0}
AllReady (k ∷ ks) = (is_ready k ≡ true) × AllReady ks

abbrev front_length : Option (List Entry × Entry) → ℕ
front_length none = 0
front_length (some (ys, y)) = length ys + 1

length-onto :
    (x : Entry) (o : Option (List Entry × Entry)) → front_length (onto x o) ≡ suc (front_length o)
length-onto x none = omega arith
length-onto x (some (ys, y)) = omega arith

front_length-unsnoc : (l : List Entry) → front_length (unsnoc l) ≡ length l
unfolding unsnoc
front_length-unsnoc [] = refl
front_length-unsnoc (x ∷ l) = length-onto x (unsnoc l) ∙ ap suc (front_length-unsnoc l)

length-unsnoc : (l ys : List Entry) (y : Entry) → unsnoc l ≡ some (ys, y) → length l ≡ length ys + 1
length-unsnoc l ys y h = sym (front_length-unsnoc l) ∙ ap front_length h

pending-put_list :
    (ks : List Key) (d : Store) (k : Key) (l : List Entry)
    → length l ≤ length (d.lists k)
    → pending ks (put_list d k l) ≤ pending ks d
pending-put_list [] d k l h = omega arith
pending-put_list (i ∷ ks) d k l h = ground (arith, pending-put_list ks d k l h)

pending-put_list_strict :
    (ks : List Key) (d : Store) (k : Key) (l : List Entry)
    → length l < length (d.lists k)
    → pending (k ∷ ks) (put_list d k l) < pending (k ∷ ks) d
pending-put_list_strict ks d k l h = ground (arith, pending-put_list ks d k l (omega arith))

pop_first-shrinks :
    (ks : List Key) (d d' : Store) (r : Reply) (i : Key)
    → pop_first d ks ≡ (r, d')
    → length (d'.lists i) ≤ length (d.lists i)
unfolding pop_first
pop_first-shrinks [] d d' r i h = ground arith
pop_first-shrinks (k ∷ ks) d d' r i h = elim (Option-cases (unsnoc (d.lists k))) [
  | inl e ↦ pop_first-shrinks ks d d' r i (ground (arith, e))
  | inr (p, e) ↦ ground (arith, e, length-unsnoc (d.lists k) p.0 p.1 e)
]

pending-pop_first :
    (ks : List Key) (d d' : Store) (k : Key) (e : Entry)
    → pop_first d ks ≡ (Reply.popped k e, d')
    → pending ks d' < pending ks d
unfolding pop_first
pending-pop_first [] d d' k e h = cc
pending-pop_first (i ∷ ks) d d' k e h = elim (Option-cases (unsnoc (d.lists i))) [
  | inl empty ↦
      let rest : pop_first d ks ≡ (Reply.popped k e, d') = ground (arith, empty) in
      omega (
        arith,
        pending-pop_first ks d d' k e rest,
        pop_first-shrinks ks d d' (Reply.popped k e) i rest,
      )
  | inr (p, found) ↦
      let same : put_list d i p.0 ≡ d' = ground (arith, found) in
      rw (← same) (
        pending-put_list_strict ks d i p.0 (omega (arith, length-unsnoc (d.lists i) p.0 p.1 found)))
]

popped_entry-pending :
    (keys : List Key) (r : Reply) (e : Entry) (s u v : Server)
    → send perform (brpop keys) s ≡ (ok r, u)
    → popped_entry r u ≡ (ok e, v)
    → pending keys v.store < pending keys s.store
unfolding send perform
popped_entry-pending keys (Reply.popped k x) e s u v h g =
    let d : pop_first s.store keys ≡ (Reply.popped k x, u.store) = ground arith in
    let same : u ≡ v = ground arith in rw (← same) (pending-pop_first keys s.store u.store k x d)
popped_entry-pending keys Reply.nil e s u v h g = cc
popped_entry-pending keys _ e s u v h g = cc

pending-SameReady :
    (ks : List Key) (s t : Server)
    → AllReady ks
    → SameReady s t
    → pending ks t.store ≡ pending ks s.store
pending-SameReady [] s t a h = refl
pending-SameReady (Key.partition tier i ∷ ks) s t a h =
    omega (arith, ap length (h tier i), pending-SameReady ks s t a.1 h)
pending-SameReady (Key.delayed ∷ ks) s t a h = cc (a.0)
pending-SameReady (_ ∷ ks) s t a h = cc (a.0)

decode_job-same : (e : Entry) (j : Job) (s u : Server) → decode_job e s ≡ (ok j, u) → s ≡ u
decode_job-same e j s u h = ground arith

-- A round that ends in `continue` leaves fewer jobs to read.
pub round-pending :
    (now : ℕ) (keys : List Key) (s t : Server)
    → AllReady keys
    → round perform now keys s ≡ (ok none, t)
    → pending keys t.store < pending keys s.store
unfolding round
round-pending now keys s t a h =
    let (r, u, m, h1) = >>=-ok (send perform (brpop keys)) _ s h in
    let (e, v, n, h2) = >>=-ok (popped_entry r) _ u h1 in
    let (j, w, d, h3) = >>=-ok (decode_job e) _ v h2 in
    let (st, x, g, h4) = >>=-ok (get_job_type_state perform j.type) _ w h3 in
    let less = popped_entry-pending keys r e s u v m n in
    let same = ap (λ y. pending keys y.store) (decode_job-same e j v w d) in
    let same' = ap (pending keys) (get_job_type_state-reads j.type st w x g).1 in
    let aside = pending-SameReady keys x t a (admit-Aside now e j st x t h4).ready in
    omega (arith, less, same, same', aside)
