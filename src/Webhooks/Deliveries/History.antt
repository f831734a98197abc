-- ===== src/Webhooks/Deliveries/History.antt =====
-- What `ListDeliveries` gives after `RecordDelivery`.
use task_queue_system.Redis.Commands.{perform}
use task_queue_system.Prelude.Int.{ℤ, pos, negsuc}
use task_queue_system.Redis.Client.{
  by_document, send, Documented, perform_all, ok, exec, Call, Server,
}
use task_queue_system.Redis.Data.{deliveries, delivery_json}
use task_queue_system.Webhooks.Deliveries.{
  effective_limit, list_deliveries, max_deliveries_per_url, record_delivery, deliveries_in,
}
use task_queue_system.Webhooks.Types.{DeliveryRecord}
use task_queue_system.Prelude.{
  take, ℕ, zero, suc, ◌≡◌, refl, sym, ap, ◌∙◌, ◌≢◌, ◌⊎◌, ◌<◌, ◌≤◌, List, [], ◌∷◌, map, arith,
  String,
}

-- The history of a URL: these records, newest first.
abbrev pub Holds : String → List DeliveryRecord → Server → Type 0
Holds url rs s = s.store.lists (deliveries url) ≡ map delivery_json rs

deliveries_in-map : (rs : List DeliveryRecord) → deliveries_in (map delivery_json rs) ≡ rs
unfolding deliveries_in
deliveries_in-map [] = refl
deliveries_in-map (r ∷ rs) = ap (λ l. r ∷ l) (deliveries_in-map rs)

take-map :
    (n : ℕ) (rs : List DeliveryRecord)
    → take n (map delivery_json rs) ≡ map delivery_json (take n rs)
take-map zero rs = refl
take-map (suc n) [] = refl
take-map (suc n) (r ∷ rs) = ap (λ l. delivery_json r ∷ l) (take-map n rs)

-- No number from 1 to 50.
abbrev pub OutOfRange : ℤ → Type 0
OutOfRange (pos n) = (n ≡ 0) ⊎ (50 < n)
OutOfRange (negsuc n) = Unit

-- After one more delivery.
pub record Recorded (rec : DeliveryRecord) (rs : List DeliveryRecord) (s : Server) (c : Call)
    : Type 0 where
  pub held : Holds rec.url (take 50 (rec ∷ rs)) (record_delivery c rec s).1
  pub listed :
      (n : ℕ)
      → 0 < n
      → n ≤ 50
      → (list_deliveries c rec.url (pos n) (record_delivery c rec s).1).0 ≡ ok (take n (rec ∷ rs))
  pub all_listed :
      (limit : ℤ)
      → OutOfRange limit
      → (list_deliveries c rec.url limit (record_delivery c rec s).1).0 ≡ ok (take 50 (rec ∷ rs))
  pub others :
      (url : String) (limit : ℤ)
      → rec.url ≢ url
      → (list_deliveries c url limit (record_delivery c rec s).1).0
        ≡ (list_deliveries c url limit s).0

module _ (rec : DeliveryRecord) (rs : List DeliveryRecord) (s : Server) (f : s.faults ≡ [])
    (h : Holds rec.url rs s) where
  list_after :
      (record_delivery perform rec s).1.store.lists (deliveries rec.url)
      ≡ take max_deliveries_per_url (delivery_json rec ∷ s.store.lists (deliveries rec.url))
  unfolding record_delivery exec perform perform_all
  list_after = ground arith

  held_after :
      Holds rec.url (take max_deliveries_per_url (rec ∷ rs)) (record_delivery perform rec s).1
  held_after =
      list_after
      ∙ ap (λ l. take max_deliveries_per_url (delivery_json rec ∷ l)) h
      ∙ take-map max_deliveries_per_url (rec ∷ rs)

  others_after :
      (url : String)
      → rec.url ≢ url
      → (record_delivery perform rec s).1.store.lists (deliveries url)
        ≡ s.store.lists (deliveries url)
  unfolding record_delivery exec perform perform_all
  others_after url ne = ground arith

  faults_after : (record_delivery perform rec s).1.faults ≡ []
  unfolding record_delivery exec
  faults_after = ground arith

list_deliveries-entries :
    (url : String) (limit : ℤ) (s : Server)
    → s.faults ≡ []
    → (list_deliveries perform url limit s).0
      ≡ ok (deliveries_in (take (effective_limit limit) (s.store.lists (deliveries url))))
unfolding list_deliveries send perform
list_deliveries-entries url limit s f = ground arith

take-take : (n m : ℕ) (rs : List DeliveryRecord) → n ≤ m → take n (take m rs) ≡ take n rs
take-take zero m rs h = refl
take-take (suc n) zero rs h = absurd (omega arith)
take-take (suc n) (suc m) [] h = refl
take-take (suc n) (suc m) (r ∷ rs) h = ap (λ l. r ∷ l) (take-take n m rs (omega arith))

effective_limit-le : (n : ℕ) → 0 < n → n ≤ 50 → effective_limit (pos n) ≡ n
effective_limit-le n p q = ground arith

effective_limit-OutOfRange : (limit : ℤ) → OutOfRange limit → effective_limit limit ≡ 50
effective_limit-OutOfRange (pos n) h = ground (arith, h)
effective_limit-OutOfRange (negsuc n) h = refl

module _ (rec : DeliveryRecord) (rs : List DeliveryRecord) (s : Server) (f : s.faults ≡ [])
    (h : Holds rec.url rs s) where
  listed_as :
      (limit : ℤ) (n : ℕ)
      → effective_limit limit ≡ n
      → n ≤ 50
      → (list_deliveries perform rec.url limit (record_delivery perform rec s).1).0
        ≡ ok (take n (rec ∷ rs))
  listed_as limit n e le =
      list_deliveries-entries rec.url limit (record_delivery perform rec s).1
        (faults_after rec rs s f h)
      ∙ ap (λ l. ok (deliveries_in (take (effective_limit limit) l))) (held_after rec rs s f h)
      ∙ ap (λ l. ok (deliveries_in l)) (take-map (effective_limit limit) _)
      ∙ ap ok (deliveries_in-map _)
      ∙ ap (λ k. ok (take k (take 50 (rec ∷ rs)))) e
      ∙ ap ok (take-take n 50 (rec ∷ rs) le)

  record_performed : Recorded rec rs s perform
  record_performed = record {
    held = held_after rec rs s f h;
    listed = λ n p q. listed_as (pos n) n (effective_limit-le n p q) q;
    all_listed =
        λ limit out. listed_as limit 50 (effective_limit-OutOfRange limit out) (omega arith);
    others = λ url limit ne.
        list_deliveries-entries url limit (record_delivery perform rec s).1
          (faults_after rec rs s f h)
        ∙ ap (λ l. ok (deliveries_in (take (effective_limit limit) l)))
            (others_after rec rs s f h url ne)
        ∙ sym (list_deliveries-entries url limit s f);
  }

  -- With a documented server, and while every request is delivered: `RecordDelivery` puts a record before
  -- those of its URL and keeps the first 50; `ListDeliveries` then gives these, newest first, as many as
  -- are asked for by a limit from 1 to 50, and all of them for any other limit; for another URL it gives
  -- what it gave.
  pub record_delivery-Recorded : (call : Call) → Documented call → Recorded rec rs s call
  record_delivery-Recorded call doc = by_document (Recorded rec rs s) doc record_performed
