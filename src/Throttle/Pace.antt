-- ===== src/Throttle/Pace.antt =====
-- packages/plugin-http/src/throttle.ts: how many requests start within one second.
use mathlib.Core.Path.{subst}
use wilanis_js.Common.{◌≡◌, refl, sym, ◌∙◌, ℕ, zero, suc, ◌≤◌, ◌<◌, Option, some}
use wilanis_js.Common.{List, [], ◌∷◌, ◌++◌, length, leb, nat_eq, some_of, arith}
use wilanis_js.Common.{Bool-cases, inl, inr, if◌then◌else◌, ltb, ◌+◌}
use wilanis_js.Throttle.{
  Throttle, Gate, Delay, ready, slot_taken, later, delay, rate_delay, is_full,
}
use wilanis_js.Throttle.{recent, start, settle_turn, turn, settled, Event, arrives, looks, settles}
use wilanis_js.Throttle.{step, run, fresh}

-- How many of some starts were less than a second before a moment.
abbrev pub started_within : ℕ → List ℕ → ℕ
started_within now [] = 0
started_within now (at ∷ rest) = (if ltb now (at + 1000) then 1 else 0) + started_within now rest

length-recent : (now : ℕ) (xs : List ℕ) → length (recent now xs) ≡ started_within now xs
unfolding recent
length-recent now [] = refl
length-recent now (x ∷ xs) = ground (arith, length-recent now xs)

count-append :
    (t at : ℕ) (xs : List ℕ) → started_within t (xs ++ at ∷ []) ≡ started_within t (at ∷ xs)
unfolding recent
count-append t at [] = refl
count-append t at (x ∷ xs) = ground (arith, count-append t at xs)

count-recent :
    (now t : ℕ) (xs : List ℕ) → now ≤ t → started_within t (recent now xs) ≡ started_within t xs
unfolding recent
count-recent now t [] h = refl
count-recent now t (x ∷ xs) h = ground (arith, count-recent now t xs h)

count-later : (now t : ℕ) (xs : List ℕ) → now ≤ t → started_within t xs ≤ started_within now xs
unfolding recent
count-later now t [] h = omega arith
count-later now t (x ∷ xs) h = ground (arith, count-later now t xs h)

count-cons :
    (t at : ℕ) (xs ys : List ℕ)
    → started_within t xs ≡ started_within t ys
    → started_within t (at ∷ xs) ≡ started_within t (at ∷ ys)
unfolding recent
count-cons t at xs ys h = ground arith

-- Fewer than `limit` requests started in the second before each.
abbrev pub IsPaced : ℕ → List ℕ → Type 0
IsPaced limit [] = Unit
IsPaced limit (at ∷ older) = (started_within at older < limit) × IsPaced limit older

-- The clock never goes back.
abbrev pub InOrder : ℕ → List Event → Type 0
InOrder clock [] = Unit
InOrder clock (looks id now at ∷ events) = (clock ≤ now) × (now ≤ at) × InOrder at events
InOrder clock (arrives id ∷ events) = InOrder clock events
InOrder clock (settles ∷ events) = InOrder clock events

-- What a look at the delay leaves of the starts.
abbrev LookedAt : ℕ → ℕ → Throttle → Throttle × Delay → Type 0
LookedAt limit now t p =
    (p.0.per_second ≡ t.per_second)
    × ((u : ℕ) → now ≤ u → started_within u p.0.started ≡ started_within u t.started)
    × (p.1 ≡ ready → started_within now t.started < limit)

rate_delay-LookedAt :
    (limit now : ℕ) (t : Throttle)
    → t.per_second ≡ some limit
    → LookedAt limit now t (rate_delay now t)
unfolding rate_delay
rate_delay-LookedAt limit now t e = elim (Bool-cases (leb limit (length (recent now t.started)))) [
  | inl e' ↦ rw (rate_delay, e, e') (e, λ u h. count-recent now u t.started h, λ h. cc)
  | inr e' ↦
      let room : started_within now t.started < limit =
        subst (λ n. n < limit) (length-recent now t.started) (ground arith) in
      rw (rate_delay, e, e') (e, λ u h. count-recent now u t.started h, λ h. room)
]

delay-LookedAt :
    (limit now : ℕ) (t : Throttle) → t.per_second ≡ some limit → LookedAt limit now t (delay now t)
unfolding delay
delay-LookedAt limit now t e = elim (Bool-cases (is_full t.concurrency t.in_flight)) [
  | inl e' ↦ rw (delay, e') (refl, λ u h. refl, λ h. cc)
  | inr e' ↦
      let looks_on : delay now t ≡ rate_delay now t = rw (delay, e') refl in
      subst (LookedAt limit now t) (sym looks_on) (rate_delay-LookedAt limit now t e)
]

-- The starts that the gate remembers are the recent ones of the log, from the clock on.
abbrev IsTold : ℕ → ℕ → Gate → Type 0
IsTold limit clock g =
    (g.throttle.per_second ≡ some limit)
    × ((u : ℕ) → clock ≤ u → started_within u g.throttle.started ≡ started_within u g.log)
    × IsPaced limit g.log

settle_turn-IsTold :
    (limit clock id now at : ℕ) (g : Gate) (p : Throttle × Delay)
    → clock ≤ now
    → now ≤ at
    → LookedAt limit now g.throttle p
    → IsTold limit clock g
    → IsTold limit at (settle_turn id at g p)
unfolding settle_turn start
settle_turn-IsTold limit clock id now at g (t, ready) c n (ep, counts, room) (e, told, paced) =
    let fewer = room refl in
    let log_at = told at (omega arith) in
    let dropped = count-later now at g.throttle.started n in
    (
      ep ∙ e,
      λ u h.
          count-append u at t.started
          ∙ count-cons u at t.started g.log (counts u (omega arith) ∙ told u (omega arith)),
      (omega arith, paced),
    )
settle_turn-IsTold limit clock id now at g (t, slot_taken) c n (ep, counts, room) (e, told, paced) =
    (ep ∙ e, λ u h. counts u (omega arith) ∙ told u (omega arith), paced)
settle_turn-IsTold limit clock id now at g (t, later ms) c n (ep, counts, room) (e, told, paced) =
    (ep ∙ e, λ u h. counts u (omega arith) ∙ told u (omega arith), paced)

turn-IsTold :
    (limit clock id now at : ℕ) (g : Gate)
    → clock ≤ now
    → now ≤ at
    → IsTold limit clock g
    → IsTold limit at (turn id now at g)
unfolding turn
turn-IsTold limit clock id now at g c n (e, told, paced) =
    elim (Bool-cases (some_of (λ one. nat_eq one id) g.awake)) [
      | inr absent ↦ rw (turn, absent) (e, λ u h. told u (omega arith), paced)
      | inl here ↦
          let looked : turn id now at g ≡ settle_turn id at g (delay now g.throttle) =
            rw (turn, here) refl in
          subst (IsTold limit at) (sym looked) (
            settle_turn-IsTold limit clock id now at g (delay now g.throttle) c n
              (delay-LookedAt limit now g.throttle e) (e, told, paced))
    ]

settled-IsTold :
    (limit clock n : ℕ) (g : Gate)
    → g.throttle.in_flight ≡ n
    → IsTold limit clock g
    → IsTold limit clock (settled g)
unfolding settled
settled-IsTold limit clock zero g e told = rw (settled, e) told
settled-IsTold limit clock (suc n) g e told = rw (settled, e) told

run-IsTold :
    (limit clock : ℕ) (events : List Event) (g : Gate)
    → InOrder clock events
    → IsTold limit clock g
    → IsPaced limit (run events g).log
unfolding run step
run-IsTold limit clock [] g order told = told.2
run-IsTold limit clock (looks id now at ∷ events) g order told =
    run-IsTold limit at events (turn id now at g) order.2
      (turn-IsTold limit clock id now at g order.0 order.1 told)
run-IsTold limit clock (arrives id ∷ events) g order told =
    run-IsTold limit clock events (step (arrives id) g) order told
run-IsTold limit clock (settles ∷ events) g order told =
    run-IsTold limit clock events (settled g) order
      (settled-IsTold limit clock g.throttle.in_flight g refl told)

-- Over any events in the order of a clock, from a gate as it is built: before each start of a
-- request, fewer than `perSecond` others had started less than a second ago.
pub run-IsPaced :
    (events : List Event) (concurrency : Option ℕ) (limit : ℕ)
    → InOrder 0 events
    → IsPaced limit (run events (fresh concurrency (some limit))).log
run-IsPaced events concurrency limit order =
    run-IsTold limit 0 events (fresh concurrency (some limit)) order (refl, λ u h. refl, tt)
