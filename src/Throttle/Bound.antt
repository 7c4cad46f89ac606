-- ===== src/Throttle/Bound.antt =====
-- packages/plugin-http/src/throttle.ts: how many requests are in flight, and that none waits for a slot
-- that nobody will free.
use mathlib.Core.Path.{subst}
use mathlib.Core.Option.{some-injective}
use wilanis_js.Common.{
  ◌≡◌, refl, sym, ap, ◌∙◌, ℕ, zero, suc, ◌+◌, ◌≤◌, ◌<◌, true, false, Option, none, some,
}
use wilanis_js.Common.{List, [], ◌∷◌, ◌++◌, length, length-append, leb, nat_eq, some_of, arith}
use wilanis_js.Common.{Bool-cases, Option-cases, inl, inr}
use wilanis_js.Throttle.{
  Throttle, Gate, Delay, ready, slot_taken, later, delay, rate_delay, is_full,
}
use wilanis_js.Throttle.{
  recent, without, start, settle_turn, turn, settled, Event, arrives, looks, settles,
}
use wilanis_js.Throttle.{step, run, fresh, wake_first}

-- What a look at the delay leaves of the gate, and what its answer says.
abbrev Looked : Throttle → Throttle × Delay → Type 0
Looked t p =
    (p.0.concurrency ≡ t.concurrency)
    × (p.0.in_flight ≡ t.in_flight)
    × (p.0.waiting ≡ t.waiting)
    × (p.1 ≡ ready → is_full t.concurrency t.in_flight ≡ false)
    × (p.1 ≡ slot_taken → is_full t.concurrency t.in_flight ≡ true)

rate_delay-Looked :
    (now : ℕ) (t : Throttle)
    → is_full t.concurrency t.in_flight ≡ false
    → Looked t (rate_delay now t)
unfolding rate_delay
rate_delay-Looked now t free = elim (Option-cases t.per_second) [
  | inl e ↦ rw (rate_delay, e) (refl, refl, refl, λ _. free, λ h. cc)
  | inr (limit, e) ↦ elim (Bool-cases (leb limit (length (recent now t.started)))) [
    | inl e' ↦ rw (rate_delay, e, e') (refl, refl, refl, λ _. free, λ h. cc)
    | inr e' ↦ rw (rate_delay, e, e') (refl, refl, refl, λ _. free, λ h. cc)
  ]
]

delay-Looked : (now : ℕ) (t : Throttle) → Looked t (delay now t)
unfolding delay
delay-Looked now t = elim (Bool-cases (is_full t.concurrency t.in_flight)) [
  | inl e ↦ rw (delay, e) (refl, refl, refl, λ h. cc, λ h. cc)
  | inr e ↦
      let looks_on : delay now t ≡ rate_delay now t = rw (delay, e) refl in
      subst (Looked t) (sym looks_on) (rate_delay-Looked now t e)
]

-- At most so many are in flight; and where one waits, so many are in flight or are about to look.
abbrev pub IsOrderly : Gate → Type 0
IsOrderly g =
    (limit : ℕ)
    → g.throttle.concurrency ≡ some limit
    → (g.throttle.in_flight ≤ limit)
      × (0 < length g.throttle.waiting → limit ≤ g.throttle.in_flight + length g.awake)

length-without :
    (id : ℕ) (awake : List ℕ)
    → some_of (λ one. nat_eq one id) awake ≡ true
    → suc (length (without id awake)) ≡ length awake
unfolding without
length-without id [] h = cc
length-without id (one ∷ rest) h = ground (arith, length-without id rest)

free-below :
    (concurrency : Option ℕ) (n limit : ℕ)
    → is_full concurrency n ≡ false
    → concurrency ≡ some limit
    → n < limit
unfolding is_full
free-below none n limit h e = cc
free-below (some c) n limit h e =
    let one = some-injective c limit e in subst (λ x. n < x) one (ground arith)

full-reached :
    (concurrency : Option ℕ) (n limit : ℕ)
    → is_full concurrency n ≡ true
    → concurrency ≡ some limit
    → limit ≤ n
unfolding is_full
full-reached none n limit h e = cc
full-reached (some c) n limit h e =
    let one = some-injective c limit e in subst (λ x. x ≤ n) one (ground arith)

settle_turn-IsOrderly :
    (id at : ℕ) (g : Gate) (p : Throttle × Delay)
    → Looked g.throttle p
    → some_of (λ one. nat_eq one id) g.awake ≡ true
    → IsOrderly g
    → IsOrderly (settle_turn id at g p)
unfolding settle_turn start
settle_turn-IsOrderly id at g (t, ready) (ec, ei, ew, free, full) here orderly limit e =
    let before = sym ec ∙ e in
    let (within, waits) = orderly limit before in
    let below = free-below g.throttle.concurrency g.throttle.in_flight limit (free refl) before in
    let gone = length-without id g.awake here in
    (
      omega arith,
      λ w. let enough = waits (subst (λ (x : List ℕ). 0 < length x) ew w) in omega arith,
    )
settle_turn-IsOrderly id at g (t, slot_taken) (ec, ei, ew, free, full) here orderly limit e =
    let before = sym ec ∙ e in
    let (within, waits) = orderly limit before in
    let reached =
      full-reached g.throttle.concurrency g.throttle.in_flight limit (full refl) before in
    (omega arith, λ w. omega arith)
settle_turn-IsOrderly id at g (t, later ms) (ec, ei, ew, free, full) here orderly limit e =
    let (within, waits) = orderly limit (sym ec ∙ e) in
    (
      omega arith,
      λ w. let enough = waits (subst (λ (x : List ℕ). 0 < length x) ew w) in omega arith,
    )

turn-IsOrderly : (id now at : ℕ) (g : Gate) → IsOrderly g → IsOrderly (turn id now at g)
unfolding turn
turn-IsOrderly id now at g orderly = elim (Bool-cases (some_of (λ one. nat_eq one id) g.awake)) [
  | inr e ↦ rw (turn, e) orderly
  | inl e ↦
      let looked : turn id now at g ≡ settle_turn id at g (delay now g.throttle) =
        rw (turn, e) refl in
      subst IsOrderly (sym looked) (
        settle_turn-IsOrderly id at g (delay now g.throttle) (delay-Looked now g.throttle) e
          orderly)
]

-- One slot freed: the first that waits looks again.
freed :
    (n limit : ℕ) (waiting awake : List ℕ)
    → (suc n ≤ limit) × (0 < length waiting → limit ≤ suc n + length awake)
    → (n ≤ limit)
      × (0 < length (wake_first waiting).1 → limit ≤ n + length (awake ++ (wake_first waiting).0))
unfolding wake_first
freed n limit [] awake (within, waits) = (omega arith, λ w. omega arith)
freed n limit (id ∷ rest) awake (within, waits) =
    let enough = waits (omega arith) in
    (omega arith, λ w. omega (arith, length-append awake (id ∷ [])))

settled-IsOrderly :
    (n : ℕ) (g : Gate) → g.throttle.in_flight ≡ n → IsOrderly g → IsOrderly (settled g)
unfolding settled
settled-IsOrderly zero g e orderly = rw (settled, e) orderly
settled-IsOrderly (suc n) g e orderly =
    rw (settled, e)
      (λ limit h. freed n limit g.throttle.waiting g.awake (rw e at (orderly limit h)))

step-IsOrderly : (e : Event) (g : Gate) → IsOrderly g → IsOrderly (step e g)
unfolding step
step-IsOrderly (arrives id) g orderly = λ limit e.
    let (within, waits) = orderly limit e in
    (within, λ w. let enough = waits w in omega (arith, length-append g.awake (id ∷ [])))
step-IsOrderly (looks id now at) g orderly = turn-IsOrderly id now at g orderly
step-IsOrderly settles g orderly = settled-IsOrderly g.throttle.in_flight g refl orderly

run-IsOrderly : (events : List Event) (g : Gate) → IsOrderly g → IsOrderly (run events g)
unfolding run
run-IsOrderly [] g orderly = orderly
run-IsOrderly (e ∷ events) g orderly = run-IsOrderly events (step e g) (step-IsOrderly e g orderly)

settle_turn-concurrency :
    (id at : ℕ) (g : Gate) (p : Throttle × Delay)
    → (settle_turn id at g p).throttle.concurrency ≡ p.0.concurrency
unfolding settle_turn start
settle_turn-concurrency id at g (t, ready) = refl
settle_turn-concurrency id at g (t, slot_taken) = refl
settle_turn-concurrency id at g (t, later ms) = refl

turn-concurrency :
    (id now at : ℕ) (g : Gate) → (turn id now at g).throttle.concurrency ≡ g.throttle.concurrency
unfolding turn
turn-concurrency id now at g = elim (Bool-cases (some_of (λ one. nat_eq one id) g.awake)) [
  | inr e ↦ rw (turn, e) refl
  | inl e ↦
      let looked : turn id now at g ≡ settle_turn id at g (delay now g.throttle) =
        rw (turn, e) refl in
      ap (λ h. h.throttle.concurrency) looked
      ∙ settle_turn-concurrency id at g (delay now g.throttle)
      ∙ (delay-Looked now g.throttle).0
]

settled-concurrency :
    (n : ℕ) (g : Gate)
    → g.throttle.in_flight ≡ n
    → (settled g).throttle.concurrency ≡ g.throttle.concurrency
unfolding settled
settled-concurrency zero g e = rw (settled, e) refl
settled-concurrency (suc n) g e = rw (settled, e) refl

step-concurrency : (e : Event) (g : Gate) → (step e g).throttle.concurrency ≡ g.throttle.concurrency
unfolding step
step-concurrency (arrives id) g = refl
step-concurrency (looks id now at) g = turn-concurrency id now at g
step-concurrency settles g = settled-concurrency g.throttle.in_flight g refl

run-concurrency :
    (events : List Event) (g : Gate) → (run events g).throttle.concurrency ≡ g.throttle.concurrency
unfolding run
run-concurrency [] g = refl
run-concurrency (e ∷ events) g = run-concurrency events (step e g) ∙ step-concurrency e g

-- Over any calls of `run`, looks at the clock and settlements from a gate as it is built: no more
-- requests are in flight than its concurrency, and where a request waits to be woken, those in
-- flight and those that are about to look are at least so many.
pub run-bounds :
    (events : List Event) (limit : ℕ) (per_second : Option ℕ)
    → let g = run events (fresh (some limit) per_second) in
      (g.throttle.in_flight ≤ limit)
      × (0 < length g.throttle.waiting → limit ≤ g.throttle.in_flight + length g.awake)
run-bounds events limit per_second =
    run-IsOrderly events (fresh (some limit) per_second) (λ l e. (omega arith, λ w. omega arith))
      limit (run-concurrency events (fresh (some limit) per_second))
