-- ===== src/Queue/Keeps.antt =====
-- No consumer of a queue has more deliveries in flight than it asked for, and after a put none
-- that has room sleeps over a due message.
use mathlib.Core.Path.{subst}
use native.Mathlib.Nat.{le_refl}
use wilanis_js.Common.{ap, ◌∙◌}
use wilanis_js.Common.{
  ℕ, zero, suc, ◌≤◌, ◌<◌, ◌≡◌, refl, sym, Bool, true, false, Bool-cases, Option-cases, inl, inr,
}
use wilanis_js.Common.{arith, none, List, [], ◌∷◌, ◌++◌, length, All, All-append}
use wilanis_js.Queue.{
  Kept, Consumer, Queue, Event, publish, answered, consume, fired, stop, drop_acks,
}
use wilanis_js.Queue.{
  ack, dead, threw, retry, Answer, take, pump, wake_all, put, settle, at_consumer,
}
use wilanis_js.Common.{if◌then◌else◌, nat_eq, ◌-◌}
use wilanis_js.Queue.{redeliver, with_consumer, finish, remove_at, step, run, delivery_at, empty}
use wilanis_js.Queue.Pump.{
  pump-stopped, pump-running, pump-cases, pump_loop-le, pump_loop-full, pump_loop-none,
}

-- A consumer within its bound.
pub record IsWithin (c : Consumer) : Type 0 where
  pub bounded : length c.in_flight ≤ c.concurrency

pump-IsWithin :
    (now : ℕ) (c : Consumer) (waiting : List Kept) → IsWithin c → IsWithin (pump now c waiting).0
unfolding pump
pump-IsWithin now c waiting w = elim (pump-cases now c waiting) [
  | inl e ↦ subst (λ (r : Consumer × List Kept). IsWithin r.0) (sym e) w
  | inr e ↦
      subst (λ (r : Consumer × List Kept). IsWithin r.0) (sym e)
        (record {
          bounded = pump_loop-le (length waiting) now c.concurrency c.in_flight waiting w.bounded;
        })
]

wake_all-IsWithin :
    (now : ℕ) (cs : List Consumer) (waiting : List Kept)
    → All IsWithin cs
    → All IsWithin (wake_all now cs waiting).0
unfolding wake_all
wake_all-IsWithin now [] waiting h = tt
wake_all-IsWithin now (c ∷ cs) waiting h =
    (pump-IsWithin now c waiting h.0, wake_all-IsWithin now cs (pump now c waiting).1 h.1)

at_consumer-IsWithin :
    (f : Consumer → List Kept → Consumer × List Kept) (i : ℕ) (cs : List Consumer)
    (waiting : List Kept)
    → ((c : Consumer) (w : List Kept) → IsWithin c → IsWithin (f c w).0)
    → All IsWithin cs
    → All IsWithin (at_consumer f i cs waiting).0
unfolding at_consumer
at_consumer-IsWithin f i [] waiting keep h = tt
at_consumer-IsWithin f zero (c ∷ cs) waiting keep h = (keep c waiting h.0, h.1)
at_consumer-IsWithin f (suc i) (c ∷ cs) waiting keep h =
    (h.0, at_consumer-IsWithin f i cs waiting keep h.1)

length-remove_at-le : (j : ℕ) (xs : List Kept) → length (remove_at j xs) ≤ length xs
unfolding remove_at
length-remove_at-le j [] = omega arith
length-remove_at-le zero (x ∷ xs) = omega arith
length-remove_at-le (suc j) (x ∷ xs) = omega (arith, length-remove_at-le j xs)

finish-IsWithin :
    (now j : ℕ) (c : Consumer) (waiting : List Kept)
    → IsWithin c
    → IsWithin (finish now j c waiting).0
unfolding finish
finish-IsWithin now j c waiting w =
    pump-IsWithin now (record c { in_flight = remove_at j c.in_flight }) waiting
      (record { bounded = omega (arith, w.bounded, length-remove_at-le j c.in_flight) })

abbrev pub AllWithin : Queue → Type 0
AllWithin q = All IsWithin q.consumers

put-AllWithin : (now : ℕ) (kept : Kept) (q : Queue) → AllWithin q → AllWithin (put now kept q)
unfolding put
put-AllWithin now kept q h = wake_all-IsWithin now q.consumers (q.waiting ++ kept ∷ []) h

settle-AllWithin :
    (now : ℕ) (kept : Kept) (answer : Answer) (q : Queue)
    → AllWithin q
    → AllWithin (settle now kept answer q)
settle-AllWithin now kept dead q h = unfold settle in h
settle-AllWithin now kept (retry backoff) q h = unfold settle redeliver in put-AllWithin now _ q h
settle-AllWithin now kept threw q h = unfold settle redeliver in put-AllWithin now _ q h
settle-AllWithin now kept ack q h =
    unfold settle redeliver in ack-AllWithin (nat_eq q.acks_to_drop 0)
  where
    lost : Queue
    lost = record q { acks_to_drop = q.acks_to_drop - 1 }

    ack-AllWithin : (b : Bool) → AllWithin (if b then q else redeliver now kept 0 lost)
    ack-AllWithin true = h
    ack-AllWithin false = unfold redeliver in put-AllWithin now _ lost h

-- Whatever happens to the queue, no consumer has more deliveries in flight than it asked for.
pub step-AllWithin : (now : ℕ) (e : Event) (q : Queue) → AllWithin q → AllWithin (step now e q)
unfolding step with_consumer
step-AllWithin now (publish id headers body delay) q h = put-AllWithin now _ q h
step-AllWithin now (answered i j answer) q h = elim (Option-cases (delivery_at i j q.consumers)) [
  | inl gone ↦ rw (gone, step) h
  | inr (kept, e) ↦
      rw (e, step)
        (at_consumer-IsWithin (finish now j) i _ _ (finish-IsWithin now j)
          (settle-AllWithin now kept answer q h))
]
step-AllWithin now (consume concurrency) q h = All-append IsWithin q.consumers _ h (
  record { bounded = pump_loop-le (length q.waiting) now concurrency [] q.waiting (omega arith) },
  tt,
)
step-AllWithin now (fired i) q h =
    at_consumer-IsWithin (pump now) i q.consumers q.waiting (pump-IsWithin now) h
step-AllWithin now (stop i) q h =
    at_consumer-IsWithin _ i q.consumers q.waiting (λ c w p. record { bounded = p.bounded }) h
step-AllWithin now (drop_acks count) q h = h

pub run-AllWithin : (es : List (ℕ × Event)) (q : Queue) → AllWithin q → AllWithin (run es q)
unfolding run
run-AllWithin [] q h = h
run-AllWithin ((now, e) ∷ es) q h = run-AllWithin es (step now e q) (step-AllWithin now e q h)

-- From an empty queue, whatever the events and their moments, no consumer ever has more
-- deliveries in flight than the `concurrency` it asked for.
pub run-IsWithin : (es : List (ℕ × Event)) → All IsWithin (run es empty).consumers
run-IsWithin es = run-AllWithin es empty tt

-- A consumer that has room, and runs, has nothing due to hand out.
pub record IsBusy (now : ℕ) (waiting : List Kept) (c : Consumer) : Type 0 where
  pub busy : c.stopping ≡ false → length c.in_flight < c.concurrency → take now waiting ≡ none

pump-IsBusy :
    (now : ℕ) (c : Consumer) (waiting : List Kept)
    → IsBusy now (pump now c waiting).1 (pump now c waiting).0
pump-IsBusy now c waiting = elim (Bool-cases c.stopping) [
  | inl over ↦
      subst (λ (r : Consumer × List Kept). IsBusy now r.1 r.0)
        (sym (pump-stopped now c waiting over)) (record { busy = λ on room. cc (over, on) })
  | inr on ↦
      subst (λ (r : Consumer × List Kept). IsBusy now r.1 r.0) (sym (pump-running now c waiting on))
        (record {
          busy = λ _ room.
              pump_loop-full (length waiting) now c.concurrency c.in_flight waiting (le_refl _)
                room;
        })
]

pump-none :
    (now : ℕ) (c : Consumer) (waiting : List Kept)
    → take now waiting ≡ none
    → (pump now c waiting).1 ≡ waiting
pump-none now c waiting h = elim (pump-cases now c waiting) [
  | inl e ↦ ap (λ (r : Consumer × List Kept). r.1) e
  | inr e ↦
      ap (λ (r : Consumer × List Kept). r.1) e
      ∙ ap (λ (r : List Kept × List Kept). r.1)
          (pump_loop-none (length waiting) now c.concurrency c.in_flight waiting h)
]

wake_all-none :
    (now : ℕ) (cs : List Consumer) (waiting : List Kept)
    → take now waiting ≡ none
    → (wake_all now cs waiting).1 ≡ waiting
unfolding wake_all
wake_all-none now [] waiting h = refl
wake_all-none now (c ∷ cs) waiting h =
    let same = pump-none now c waiting h in
    wake_all-none now cs (pump now c waiting).1 (rw same h) ∙ same

wake_all-IsBusy :
    (now : ℕ) (cs : List Consumer) (waiting : List Kept)
    → All (IsBusy now (wake_all now cs waiting).1) (wake_all now cs waiting).0
unfolding wake_all
wake_all-IsBusy now [] waiting = tt
wake_all-IsBusy now (c ∷ cs) waiting =
    let here = pump-IsBusy now c waiting in
    let rest = (pump now c waiting).1 in
    (
      record {
        busy = λ on room. let dry = here.busy on room in rw (wake_all-none now cs rest dry) dry;
      },
      wake_all-IsBusy now cs rest,
    )

-- After a put, no consumer that runs and has room is left with a message due at that moment.
pub put-IsBusy :
    (now : ℕ) (kept : Kept) (q : Queue)
    → All (IsBusy now (put now kept q).waiting) (put now kept q).consumers
unfolding put
put-IsBusy now kept q = wake_all-IsBusy now q.consumers (q.waiting ++ kept ∷ [])
