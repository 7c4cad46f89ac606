-- ===== src/Queue/Place.antt =====
-- The place of a delivery in flight, and the copies that leave with it.
use mathlib.Core.Path.{subst}
use native.Mathlib.Nat.{add_comm}
use wilanis_js.Common.{ℕ, zero, suc, ◌+◌, ◌-◌, ◌≡◌, refl, sym, Bool-cases, inl, inr}
use wilanis_js.Common.{arith, some, List, [], ◌∷◌, ◌++◌, length, String, nat_eq, get_elem?}
use wilanis_js.Queue.{Kept, Consumer, Queue}
use wilanis_js.Queue.{ack, dead, threw, retry, Answer, pump, wake_all, put, settle, at_consumer}
use wilanis_js.Queue.{finish, remove_at, delivery_at, redeliver}
use wilanis_js.Queue.Pump.{pump_loop_inv, pump-cases}
use wilanis_js.Queue.Count.{copies, in_flight_copies, one, pump-copies}

-- A delivery keeps its place while its consumer hands more messages out.
pub get_elem?-append :
    (xs ys : List Kept) (j : ℕ) (kept : Kept)
    → get_elem? xs j ≡ some kept
    → get_elem? (xs ++ ys) j ≡ some kept
get_elem?-append [] ys j kept h = cc
get_elem?-append (x ∷ xs) ys zero kept h = h
get_elem?-append (x ∷ xs) ys (suc j) kept h = get_elem?-append xs ys j kept h

pub pump-get_elem? :
    (now : ℕ) (c : Consumer) (waiting : List Kept) (j : ℕ) (kept : Kept)
    → get_elem? c.in_flight j ≡ some kept
    → get_elem? (pump now c waiting).0.in_flight j ≡ some kept
pump-get_elem? now c waiting j kept h = elim (pump-cases now c waiting) [
  | inl e ↦ subst (λ (r : Consumer × List Kept). get_elem? r.0.in_flight j ≡ some kept) (sym e) h
  | inr e ↦
      subst (λ (r : Consumer × List Kept). get_elem? r.0.in_flight j ≡ some kept) (sym e)
        (pump_loop_inv (λ f w. get_elem? f j ≡ some kept) now c.concurrency
          (λ f w due rest room e' h'. get_elem?-append f (due ∷ []) j kept h') (length waiting)
          c.in_flight waiting h)
]

pub wake_all-delivery_at :
    (now : ℕ) (cs : List Consumer) (waiting : List Kept) (i j : ℕ) (kept : Kept)
    → delivery_at i j cs ≡ some kept
    → delivery_at i j (wake_all now cs waiting).0 ≡ some kept
unfolding wake_all delivery_at
wake_all-delivery_at now [] waiting i j kept h = h
wake_all-delivery_at now (c ∷ cs) waiting zero j kept h = pump-get_elem? now c waiting j kept h
wake_all-delivery_at now (c ∷ cs) waiting (suc i) j kept h =
    wake_all-delivery_at now cs (pump now c waiting).1 i j kept h

pub put-delivery_at :
    (now : ℕ) (new : Kept) (q : Queue) (i j : ℕ) (kept : Kept)
    → delivery_at i j q.consumers ≡ some kept
    → delivery_at i j (put now new q).consumers ≡ some kept
unfolding put
put-delivery_at now new q i j kept h =
    wake_all-delivery_at now q.consumers (q.waiting ++ new ∷ []) i j kept h

pub settle-delivery_at :
    (now : ℕ) (new : Kept) (answer : Answer) (q : Queue) (i j : ℕ) (kept : Kept)
    → delivery_at i j q.consumers ≡ some kept
    → delivery_at i j (settle now new answer q).consumers ≡ some kept
unfolding settle redeliver
settle-delivery_at now new dead q i j kept h = h
settle-delivery_at now new (retry backoff) q i j kept h = put-delivery_at now _ q i j kept h
settle-delivery_at now new threw q i j kept h = put-delivery_at now _ q i j kept h
settle-delivery_at now new ack q i j kept h = elim (Bool-cases (nat_eq q.acks_to_drop 0)) [
  | inl kept_ack ↦ rw (kept_ack, settle) h
  | inr lost ↦
      rw (lost, settle)
        (put-delivery_at now _ (record q { acks_to_drop = q.acks_to_drop - 1 }) i j kept h)
]

module _ (id : String) where
  pub copies-remove_at :
      (j : ℕ) (xs : List Kept) (kept : Kept)
      → get_elem? xs j ≡ some kept
      → copies id (remove_at j xs) + one id kept ≡ copies id xs
  unfolding remove_at copies
  copies-remove_at j [] kept h = cc
  copies-remove_at zero (x ∷ xs) kept h = ground (arith, add_comm (copies id xs) (one id x))
  copies-remove_at (suc j) (x ∷ xs) kept h = omega (arith, copies-remove_at j xs kept h)

  pub finish-copies :
      (now j : ℕ) (c : Consumer) (waiting : List Kept) (kept : Kept)
      → get_elem? c.in_flight j ≡ some kept
      → copies id (finish now j c waiting).0.in_flight
          + copies id (finish now j c waiting).1
          + one id kept
        ≡ copies id c.in_flight + copies id waiting
  unfolding finish
  finish-copies now j c waiting kept h = omega (
    arith,
    pump-copies id now (record c { in_flight = remove_at j c.in_flight }) waiting,
    copies-remove_at j c.in_flight kept h,
  )

  pub at_consumer-finish :
      (now i j : ℕ) (cs : List Consumer) (waiting : List Kept) (kept : Kept)
      → delivery_at i j cs ≡ some kept
      → in_flight_copies id (at_consumer (finish now j) i cs waiting).0
          + copies id (at_consumer (finish now j) i cs waiting).1
          + one id kept
        ≡ in_flight_copies id cs + copies id waiting
  unfolding at_consumer delivery_at in_flight_copies
  at_consumer-finish now i j [] waiting kept h = cc
  at_consumer-finish now zero j (c ∷ cs) waiting kept h =
      omega (arith, finish-copies now j c waiting kept h)
  at_consumer-finish now (suc i) j (c ∷ cs) waiting kept h =
      omega (arith, at_consumer-finish now i j cs waiting kept h)

  pub at_consumer-copies :
      (f : Consumer → List Kept → Consumer × List Kept) (i : ℕ) (cs : List Consumer)
      (waiting : List Kept)
      → ((c : Consumer) (w : List Kept)
          → copies id (f c w).0.in_flight + copies id (f c w).1
            ≡ copies id c.in_flight + copies id w)
      → in_flight_copies id (at_consumer f i cs waiting).0
          + copies id (at_consumer f i cs waiting).1
        ≡ in_flight_copies id cs + copies id waiting
  unfolding at_consumer in_flight_copies
  at_consumer-copies f i [] waiting same = refl
  at_consumer-copies f zero (c ∷ cs) waiting same = omega (arith, same c waiting)
  at_consumer-copies f (suc i) (c ∷ cs) waiting same =
      omega (arith, at_consumer-copies f i cs waiting same)

  pub in_flight_copies-append :
      (cs ds : List Consumer)
      → in_flight_copies id (cs ++ ds) ≡ in_flight_copies id cs + in_flight_copies id ds
  unfolding in_flight_copies
  in_flight_copies-append [] ds = omega arith
  in_flight_copies-append (c ∷ cs) ds = omega (arith, in_flight_copies-append cs ds)
