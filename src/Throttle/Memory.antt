-- ===== src/Throttle/Memory.antt =====
-- packages/plugin-http/src/throttle.ts: what a gate without `perSecond` remembers of the starts.
use mathlib.Core.Path.{subst}
use wilanis_js.Common.{◌≡◌, refl, sym, ap, ◌∙◌, ℕ, zero, suc, Option, none}
use wilanis_js.Common.{List, [], ◌∷◌, ◌++◌, nat_eq, some_of}
use wilanis_js.Common.{Bool-cases, inl, inr}
use wilanis_js.Throttle.{
  Throttle, Gate, Delay, ready, slot_taken, later, delay, rate_delay, is_full,
}
use wilanis_js.Throttle.{start, settle_turn, turn, settled, Event, arrives, looks, settles}
use wilanis_js.Throttle.{step, run, fresh}

delay-unpaced : (now : ℕ) (t : Throttle) → t.per_second ≡ none → (delay now t).0 ≡ t
unfolding delay rate_delay
delay-unpaced now t e = elim (Bool-cases (is_full t.concurrency t.in_flight)) [
  | inl e' ↦ rw (delay, e') refl
  | inr e' ↦ rw (delay, e', rate_delay, e) (ap (λ o. record t { per_second = o }) e)
]

-- The moments of a log from the first on.
abbrev pub from_first : List ℕ → List ℕ
from_first [] = []
from_first (at ∷ log) = from_first log ++ at ∷ []

-- Every start is remembered, by its moment.
abbrev IsWhole : Gate → Type 0
IsWhole g = (g.throttle.per_second ≡ none) × (g.throttle.started ≡ from_first g.log)

settle_turn-IsWhole :
    (id at : ℕ) (g : Gate) (p : Throttle × Delay)
    → p.0 ≡ g.throttle
    → IsWhole g
    → IsWhole (settle_turn id at g p)
unfolding settle_turn start
settle_turn-IsWhole id at g (t, ready) same (e, whole) =
    let kept = ap (λ (x : Throttle). x.started) same in
    (ap (λ (x : Throttle). x.per_second) same ∙ e, ap (λ starts. starts ++ at ∷ []) (kept ∙ whole))
settle_turn-IsWhole id at g (t, slot_taken) same (e, whole) =
    (ap (λ (x : Throttle). x.per_second) same ∙ e, ap (λ (x : Throttle). x.started) same ∙ whole)
settle_turn-IsWhole id at g (t, later ms) same (e, whole) =
    (ap (λ (x : Throttle). x.per_second) same ∙ e, ap (λ (x : Throttle). x.started) same ∙ whole)

turn-IsWhole : (id now at : ℕ) (g : Gate) → IsWhole g → IsWhole (turn id now at g)
unfolding turn
turn-IsWhole id now at g whole = elim (Bool-cases (some_of (λ one. nat_eq one id) g.awake)) [
  | inr absent ↦ rw (turn, absent) whole
  | inl here ↦
      let looked : turn id now at g ≡ settle_turn id at g (delay now g.throttle) =
        rw (turn, here) refl in
      subst IsWhole (sym looked) (
        settle_turn-IsWhole id at g (delay now g.throttle) (delay-unpaced now g.throttle whole.0)
          whole)
]

settled-IsWhole : (n : ℕ) (g : Gate) → g.throttle.in_flight ≡ n → IsWhole g → IsWhole (settled g)
unfolding settled
settled-IsWhole zero g e whole = rw (settled, e) whole
settled-IsWhole (suc n) g e whole = rw (settled, e) whole

run-IsWhole : (events : List Event) (g : Gate) → IsWhole g → IsWhole (run events g)
unfolding run step
run-IsWhole [] g whole = whole
run-IsWhole (looks id now at ∷ events) g whole =
    run-IsWhole events (turn id now at g) (turn-IsWhole id now at g whole)
run-IsWhole (arrives id ∷ events) g whole = run-IsWhole events (step (arrives id) g) whole
run-IsWhole (settles ∷ events) g whole =
    run-IsWhole events (settled g) (settled-IsWhole g.throttle.in_flight g refl whole)

-- A gate without `perSecond` remembers, after any events, the moment of every start there was, from the
-- first on, however long ago.
pub run-started :
    (events : List Event) (concurrency : Option ℕ)
    → (run events (fresh concurrency none)).throttle.started
      ≡ from_first (run events (fresh concurrency none)).log
run-started events concurrency = (run-IsWhole events (fresh concurrency none) (refl, refl)).1
