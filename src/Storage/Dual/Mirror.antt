-- ===== src/Storage/Dual/Mirror.antt =====
-- `DualStore` answers as its primary, and keeps two stores of one kind equal.
use mathlib.Core.Path.{subst}
use task_queue_system.Storage.{InMemoryStore}
use task_queue_system.Prelude.{◌≡◌, refl, sym, ap, Bool, true, false, List, [], ◌∷◌}
use task_queue_system.Storage.Dual.{
  refused, job_reply, in_memory, taken_after, in_memory_write, batch_after, StoreWrite, StoreRead,
  StoreReply, StoreMethods, dual_write, dual_read, dual_store, recover_orphans_of, save_batch_of,
  dequeue_of,
}

module _ {S T : Type 0} (primary : StoreMethods S) (secondary : StoreMethods T) where
  batch_after-primary :
      (c : StoreWrite) (x : StoreReply × S) (t : T)
      → ((batch_after primary secondary c x t).0 ≡ x.0)
        × ((batch_after primary secondary c x t).1.0 ≡ x.1)
  unfolding batch_after
  batch_after-primary c (refused e, s) t = (refl, refl)
  batch_after-primary c (_, s) t = (refl, refl)

  taken_after-primary :
      (x : StoreReply × S) (t : T)
      → ((taken_after primary secondary x t).0 ≡ x.0)
        × ((taken_after primary secondary x t).1.0 ≡ x.1)
  unfolding taken_after
  taken_after-primary (job_reply j, s) t = (refl, refl)
  taken_after-primary (_, s) t = (refl, refl)

  dual_write-primary :
      (c : StoreWrite) (s : S) (t : T)
      → ((dual_write primary secondary c (s, t)).0 ≡ (primary.write c s).0)
        × ((dual_write primary secondary c (s, t)).1.0 ≡ (primary.write c s).1)
  unfolding dual_write
  dual_write-primary (save_batch_of js) s t =
      batch_after-primary (save_batch_of js) (primary.write (save_batch_of js) s) t
  dual_write-primary (dequeue_of tenant shard) s t =
      taken_after-primary (primary.write (dequeue_of tenant shard) s) t
  dual_write-primary (recover_orphans_of now timeout) s t = (refl, refl)
  dual_write-primary _ s t = (refl, refl)

-- Whatever the secondary store is and does, every write of `DualStore` returns what the primary
-- returns and leaves the primary as the primary's own write does, and every read is the primary's.
pub dual_store-refines :
    {S T : Type 0} (primary : StoreMethods S) (secondary : StoreMethods T) (s : S) (t : T)
    → ((c : StoreWrite) → ((dual_store primary secondary).write c (s, t)).0 ≡ (primary.write c s).0)
      × ((c : StoreWrite)
          → ((dual_store primary secondary).write c (s, t)).1.0 ≡ (primary.write c s).1)
      × ((c : StoreRead) → (dual_store primary secondary).read c (s, t) ≡ primary.read c s)
unfolding dual_read
dual_store-refines primary secondary s t = (
  λ c. (dual_write-primary primary secondary c s t).0,
  λ c. (dual_write-primary primary secondary c s t).1,
  λ c. refl,
)

abbrev recovers : StoreWrite → Bool
recovers (recover_orphans_of now timeout) = true
recovers _ = false

abbrev pub NoRecovery : List StoreWrite → Type 0
NoRecovery [] = Unit {0}
NoRecovery (c ∷ cs) = (recovers c ≡ false) × NoRecovery cs

unfoldable pub write_all :
    List StoreWrite → InMemoryStore × InMemoryStore → InMemoryStore × InMemoryStore
write_all [] st = st
write_all (c ∷ cs) st = write_all cs ((dual_store in_memory in_memory).write c st).1

dual_write-same :
    (c : StoreWrite) (s : InMemoryStore)
    → recovers c ≡ false
    → let (a, b) = (dual_write in_memory in_memory c (s, s)).1 in a ≡ b
unfolding dual_write in_memory_write
dual_write-same (save_batch_of js) s h = refl
dual_write-same (dequeue_of tenant shard) s h = refl
dual_write-same (recover_orphans_of now timeout) s h = cc
dual_write-same _ s h = refl

-- Two in-memory stores that begin equal are equal after any writes through `DualStore` other than
-- `RecoverOrphans`, which is for the primary alone.
write_all-mirrors :
    (cs : List StoreWrite) (s : InMemoryStore)
    → NoRecovery cs
    → (write_all cs (s, s)).0 ≡ (write_all cs (s, s)).1
unfolding write_all
write_all-mirrors [] s h = refl
write_all-mirrors (c ∷ cs) s h =
    let st = (dual_write in_memory in_memory c (s, s)).1 in
    let same : st ≡ (st.0, st.0) = ap (λ b. (st.0, b)) (sym (dual_write-same c s h.0)) in
    subst (λ x. (write_all cs x).0 ≡ (write_all cs x).1) (sym same) (write_all-mirrors cs st.0 h.1)
