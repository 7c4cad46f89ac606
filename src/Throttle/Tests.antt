-- ===== src/Throttle/Tests.antt =====
-- A run of the gate: one slot, one start a second, and three requests.
use wilanis_js.Common.{◌≡◌, refl, none, some, List, [], ◌∷◌, ◌≤◌, ◌<◌, ◌+◌, length, arith}
use wilanis_js.Throttle.{Gate, Event, arrives, looks, settles, run, fresh}
use wilanis_js.Throttle.Bound.{run-bounds}
use wilanis_js.Throttle.Memory.{from_first, run-started}
use wilanis_js.Throttle.Pace.{IsPaced, InOrder, run-IsPaced}

-- The first starts at 5; the second waits for the slot, is woken, and waits out the second.
abbrev three : List Event
three =
    arrives 1
    ∷ looks 1 5 5
    ∷ arrives 2
    ∷ looks 2 6 6
    ∷ settles
    ∷ looks 2 40 40
    ∷ arrives 3
    ∷ looks 2 1005 1006
    ∷ looks 3 1007 1007
    ∷ []

three-starts : (run three (fresh (some 1) (some 1))).log ≡ 1006 ∷ 5 ∷ []
unfolding run
three-starts = refl

three-waiting : (run three (fresh (some 1) (some 1))).throttle.waiting ≡ 3 ∷ []
unfolding run
three-waiting = refl

three-InOrder : InOrder 0 three
three-InOrder = (
  omega arith,
  omega arith,
  (
    omega arith,
    omega arith,
    (omega arith, omega arith, (omega arith, omega arith, (omega arith, omega arith, tt))),
  ),
)

abbrev after_three : Gate
after_three = run three (fresh (some 1) (some 1))

run-bounds_example :
    (after_three.throttle.in_flight ≤ 1)
    × (0 < length after_three.throttle.waiting
        → 1 ≤ after_three.throttle.in_flight + length after_three.awake)
run-bounds_example = run-bounds three 1 (some 1)

run-IsPaced_example : IsPaced 1 (run three (fresh (some 1) (some 1))).log
run-IsPaced_example = run-IsPaced three (some 1) 1 three-InOrder

-- Without `perSecond` the starts of minutes ago are kept.
long_ago :
    (run
      (arrives 1 ∷ looks 1 5 5 ∷ arrives 2 ∷ looks 2 90000 90000 ∷ [])
      (fresh none none)).throttle.started
    ≡ 5 ∷ 90000 ∷ []
unfolding run
long_ago = refl

run-started_example :
    (run three (fresh (some 1) none)).throttle.started
    ≡ from_first (run three (fresh (some 1) none)).log
run-started_example = run-started three (some 1)
