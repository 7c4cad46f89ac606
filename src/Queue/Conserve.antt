-- ===== src/Queue/Conserve.antt =====
-- No message is lost or made but where the events say so.
use wilanis_js.Common.{ℕ, ◌+◌, ◌-◌, ◌≡◌, refl, ap, true, false, Bool-cases, inl, inr}
use wilanis_js.Common.{
  arith, none, some, Option, List, [], ◌∷◌, length, String, nat_eq, if-true, if-false,
}
use wilanis_js.Queue.{
  Kept, Consumer, Queue, Event, publish, answered, consume, fired, stop, drop_acks,
}
use wilanis_js.Queue.{ack, dead, threw, retry, Answer, pump_loop, pump, put, settle}
use wilanis_js.Queue.{with_consumer, finish, step, run, delivery_at, empty, redeliver}
use wilanis_js.Queue.Pump.{pumped}
use wilanis_js.Queue.Count.{copies, in_flight_copies, one, held, published, forgotten, acknowledged}
use wilanis_js.Queue.Count.{pump-copies, put-held, copies-append, copies-single, pump_loop-copies}
use wilanis_js.Queue.Place.{
  at_consumer-copies, at_consumer-finish, in_flight_copies-append, settle-delivery_at,
}

step-gone :
    (now i j : ℕ) (answer : Answer) (q : Queue)
    → delivery_at i j q.consumers ≡ none
    → step now (answered i j answer) q ≡ q
unfolding step
step-gone now i j answer q h = rw (h, step)

step-answered :
    (now i j : ℕ) (answer : Answer) (q : Queue) (kept : Kept)
    → delivery_at i j q.consumers ≡ some kept
    → step now (answered i j answer) q ≡ with_consumer (finish now j) i (settle now kept answer q)
unfolding step
step-answered now i j answer q kept h = rw (h, step)

-- The consumer that a `consume` makes, once it has looked.
abbrev fresh : ℕ → ℕ → Queue → Consumer
fresh now concurrency q =
    (pumped now
      (record { concurrency = concurrency; in_flight = []; stopping = false; timer = none })
      q.waiting).0

settle-acked :
    (now : ℕ) (kept : Kept) (q : Queue) → nat_eq q.acks_to_drop 0 ≡ true → settle now kept ack q ≡ q
unfolding settle
settle-acked now kept q h = if-true _ _ h

settle-lost :
    (now : ℕ) (kept : Kept) (q : Queue)
    → nat_eq q.acks_to_drop 0 ≡ false
    → settle now kept ack q
      ≡ put now
          (record kept { attempt = kept.attempt + 1; available_at = now + 0 })
          (record q { acks_to_drop = q.acks_to_drop - 1 })
unfolding settle redeliver
settle-lost now kept q h = if-false _ _ h

module _ (id : String) where
  held-acks : (q : Queue) (n : ℕ) → held id (record q { acks_to_drop = n }) ≡ held id q
  unfolding held
  held-acks q n = refl

  forgotten-last :
      (o : Option Kept) (kept : Kept) (acks : ℕ)
      → o ≡ some kept
      → nat_eq acks 0 ≡ true
      → forgotten id o acks ≡ one id kept
  unfolding forgotten
  forgotten-last none kept acks h e = cc
  forgotten-last (some other) kept acks h e = ground arith

  forgotten-lost : (o : Option Kept) (acks : ℕ) → nat_eq acks 0 ≡ false → forgotten id o acks ≡ 0
  unfolding forgotten
  forgotten-lost none acks e = refl
  forgotten-lost (some other) acks e = ground arith

  acknowledged-gone :
      (i j : ℕ) (answer : Answer) (q : Queue)
      → delivery_at i j q.consumers ≡ none
      → acknowledged id (answered i j answer) q ≡ 0
  unfolding acknowledged
  acknowledged-gone i j ack q h = ap (λ (o : Option Kept). forgotten id o q.acks_to_drop) h
  acknowledged-gone i j dead q h = refl
  acknowledged-gone i j threw q h = refl
  acknowledged-gone i j (retry backoff) q h = refl

  -- What an answer adds to the queue while the delivery is still in flight: a copy, but for an
  -- acknowledgement that is not lost.
  settle-held :
      (now : ℕ) (kept : Kept) (answer : Answer) (q : Queue) (i j : ℕ)
      → delivery_at i j q.consumers ≡ some kept
      → held id (settle now kept answer q) + acknowledged id (answered i j answer) q
        ≡ held id q + one id kept
  unfolding acknowledged
  settle-held now kept dead q i j h =
      unfold settle held acknowledged in
      omega (arith, copies-append id q.parked (kept ∷ []), copies-single id kept)
  settle-held now kept (retry backoff) q i j h =
      unfold settle redeliver acknowledged in omega (arith, put-held id now _ q)
  settle-held now kept threw q i j h =
      unfold settle redeliver acknowledged in omega (arith, put-held id now _ q)
  settle-held now kept ack q i j h = elim (Bool-cases (nat_eq q.acks_to_drop 0)) [
    | inl last ↦ omega (
      arith,
      ap (held id) (settle-acked now kept q last),
      forgotten-last (delivery_at i j q.consumers) kept q.acks_to_drop h last,
    )
    | inr lost ↦
        let fewer = record q { acks_to_drop = q.acks_to_drop - 1 } in
        omega (
          arith,
          ap (held id) (settle-lost now kept q lost),
          put-held id now (record kept { attempt = kept.attempt + 1; available_at = now + 0 })
              fewer,
          held-acks q (q.acks_to_drop - 1),
          forgotten-lost (delivery_at i j q.consumers) q.acks_to_drop lost,
        )
  ]

  fresh-copies :
      (now concurrency : ℕ) (q : Queue)
      → in_flight_copies id (fresh now concurrency q ∷ [])
          + copies id (pump_loop (length q.waiting) now concurrency [] q.waiting).1
        ≡ copies id q.waiting
  unfolding in_flight_copies
  fresh-copies now concurrency q =
      omega (arith, pump_loop-copies id (length q.waiting) now concurrency [] q.waiting)

  with_consumer-held :
      (f : Consumer → List Kept → Consumer × List Kept) (i : ℕ) (q : Queue)
      → ((c : Consumer) (w : List Kept)
          → copies id (f c w).0.in_flight + copies id (f c w).1
            ≡ copies id c.in_flight + copies id w)
      → held id (with_consumer f i q) + 0 ≡ held id q + 0
  unfolding with_consumer held
  with_consumer-held f i q same =
      omega (arith, at_consumer-copies id f i q.consumers q.waiting same)

  with_consumer-finish :
      (now i j : ℕ) (q : Queue) (kept : Kept)
      → delivery_at i j q.consumers ≡ some kept
      → held id (with_consumer (finish now j) i q) + one id kept ≡ held id q
  unfolding with_consumer held
  with_consumer-finish now i j q kept h =
      omega (arith, at_consumer-finish id now i j q.consumers q.waiting kept h)

  answered-held :
      (now i j : ℕ) (answer : Answer) (q : Queue) (o : Option Kept)
      → delivery_at i j q.consumers ≡ o
      → held id (step now (answered i j answer) q) + acknowledged id (answered i j answer) q
        ≡ held id q + 0
  answered-held now i j answer q none h =
      omega (arith, ap (held id) (step-gone now i j answer q h), acknowledged-gone i j answer q h)
  answered-held now i j answer q (some kept) h = omega (
    arith,
    ap (held id) (step-answered now i j answer q kept h),
    settle-held now kept answer q i j h,
    with_consumer-finish now i j (settle now kept answer q) kept
        (settle-delivery_at now kept answer q i j kept h),
  )

  -- One event: the copies of a message that the queue holds after it, with those it acknowledged,
  -- are the copies it held before, with those it published.
  pub step-held :
      (now : ℕ) (e : Event) (q : Queue)
      → held id (step now e q) + acknowledged id e q ≡ held id q + published id e
  unfolding step
  step-held now (publish other headers body delay) q =
      unfold acknowledged in omega (arith, put-held id now _ q)
  step-held now (answered i j answer) q =
      answered-held now i j answer q (delivery_at i j q.consumers) refl
  step-held now (consume concurrency) q =
      unfold held acknowledged in
      omega (
        arith,
        in_flight_copies-append id q.consumers (fresh now concurrency q ∷ []),
        fresh-copies now concurrency q,
      )
  step-held now (fired i) q =
      unfold acknowledged in with_consumer-held (pump now) i q (pump-copies id now)
  step-held now (stop i) q =
      unfold acknowledged in
      with_consumer-held (λ c waiting. (record c { stopping = true; timer = none }, waiting)) i q
        (λ c w. refl)
  step-held now (drop_acks count) q = unfold held acknowledged in refl

  -- What the events of a run bring, and what they acknowledge.
  unfoldable pub published_by : List (ℕ × Event) → ℕ
  published_by [] = 0
  published_by ((now, e) ∷ es) = published id e + published_by es

  unfoldable pub acknowledged_by : List (ℕ × Event) → Queue → ℕ
  acknowledged_by [] q = 0
  acknowledged_by ((now, e) ∷ es) q = acknowledged id e q + acknowledged_by es (step now e q)

  run-held :
      (es : List (ℕ × Event)) (q : Queue)
      → held id (run es q) + acknowledged_by es q ≡ held id q + published_by es
  unfolding run published_by acknowledged_by
  run-held [] q = refl
  run-held ((now, e) ∷ es) q = omega (arith, step-held now e q, run-held es (step now e q))

  held-empty : held id empty ≡ 0
  unfolding held in_flight_copies
  held-empty = refl

-- From an empty queue, whatever the events, each message published is waiting, in flight or parked
-- as often as it was published and not yet acknowledged: none is lost, and none is made twice.
pub run-conserves :
    (id : String) (es : List (ℕ × Event))
    → held id (run es empty) + acknowledged_by id es empty ≡ published_by id es
run-conserves id es = omega (arith, run-held id es empty, held-empty id)
