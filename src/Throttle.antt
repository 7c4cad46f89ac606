-- ===== src/Throttle.antt =====
-- packages/plugin-http/src/throttle.ts: the gate of one connection, and the requests before it.
pub mod Bound
pub mod Pace
pub mod Memory
mod Tests
use wilanis_js.Common.{
  ℕ, zero, suc, ◌+◌, ◌-◌, Bool, true, false, Option, none, some, List, [], ◌∷◌, ◌++◌,
}
use wilanis_js.Common.{if◌then◌else◌, ltb, leb, nat_eq, length, some_of}

-- `Throttle`; `none` is Infinity.
pub record Throttle : Type 0 where
  pub concurrency : Option ℕ
  pub per_second : Option ℕ
  pub in_flight : ℕ
  pub waiting : List ℕ
  pub started : List ℕ

-- What `delay` answers: 0, Infinity, or so many milliseconds (`none` where it is NaN).
pub data Delay : Type 0 where
  ready slot_taken : Delay
  later : Option ℕ → Delay

-- The requests that called `run`, by a number each: `awake` are those whose loop looks again, being
-- new, woken, or on a timer. `log` are the moments requests started at, the last first.
pub record Gate : Type 0 where
  pub throttle : Throttle
  pub awake : List ℕ
  pub log : List ℕ

-- `this.started.filter(at => now - at < 1000)`
unfoldable pub recent : ℕ → List ℕ → List ℕ
recent now [] = []
recent now (at ∷ rest) =
    let kept = recent now rest in if ltb (now - at) 1000 then at ∷ kept else kept

unfoldable pub is_full : Option ℕ → ℕ → Bool
is_full none n = false
is_full (some limit) n = leb limit n

-- `this.started[0] + 1000 - now`
until_oldest : ℕ → List ℕ → Option ℕ
until_oldest now [] = none
until_oldest now (at ∷ rest) = some (at + 1000 - now)

unfoldable pub rate_delay : ℕ → Throttle → Throttle × Delay
unfolding recent until_oldest
rate_delay now t = elim t.per_second [
  | none ↦ (t, ready)
  | some limit ↦
      let started = recent now t.started in
      (
        record t { started = started },
        if leb limit (length started) then later (until_oldest now started) else ready,
      )
]

unfoldable pub delay : ℕ → Throttle → Throttle × Delay
unfolding rate_delay is_full
delay now t = if is_full t.concurrency t.in_flight then (t, slot_taken) else rate_delay now t

-- A request leaves those that are awake.
unfoldable pub without : ℕ → List ℕ → List ℕ
without id [] = []
without id (one ∷ rest) = if nat_eq one id then rest else one ∷ without id rest

-- The slot taken, at the moment `at`.
unfoldable pub start : ℕ → Throttle → Throttle
start at t = record t { in_flight = t.in_flight + 1; started = t.started ++ at ∷ [] }

-- What one turn of the loop in `run` does once the delay is known.
unfoldable pub settle_turn : ℕ → ℕ → Gate → Throttle × Delay → Gate
unfolding without start
settle_turn id at g (t, ready) = record {
  throttle = start at t;
  awake = without id g.awake;
  log = at ∷ g.log;
}
settle_turn id at g (t, slot_taken) = record g {
  throttle = record t { waiting = t.waiting ++ id ∷ [] };
  awake = without id g.awake;
}
settle_turn id at g (t, later ms) = record g { throttle = t }

-- One turn of the loop in `run`: `now` and `at` are what its two reads of the clock answer.
unfoldable pub turn : ℕ → ℕ → ℕ → Gate → Gate
unfolding settle_turn delay
turn id now at g =
    if some_of (λ one. nat_eq one id) g.awake then settle_turn id at g (delay now g.throttle) else g

-- `this.waiting.shift()?.()`
unfoldable pub wake_first : List ℕ → List ℕ × List ℕ
wake_first [] = ([], [])
wake_first (id ∷ rest) = (id ∷ [], rest)

-- `finally`: the slot freed, and the first that waits woken. Nothing settles that is not in flight.
unfoldable pub settled : Gate → Gate
unfolding wake_first
settled g = elim g.throttle.in_flight [
  | zero ↦ g
  | suc n ↦
      let (woken, waiting) = wake_first g.throttle.waiting in
      record g {
        throttle = record g.throttle { in_flight = n; waiting = waiting };
        awake = g.awake ++ woken;
      }
]

pub data Event : Type 0 where
  -- a call of `run`
  arrives : ℕ → Event
  looks : ℕ → ℕ → ℕ → Event
  settles : Event

unfoldable pub step : Event → Gate → Gate
unfolding turn settled
step (arrives id) g = record g { awake = g.awake ++ id ∷ [] }
step (looks id now at) g = turn id now at g
step settles g = settled g

unfoldable pub run : List Event → Gate → Gate
unfolding step
run [] g = g
run (e ∷ events) g = run events (step e g)

-- `new Throttle(settings)`
abbrev pub fresh : Option ℕ → Option ℕ → Gate
fresh concurrency per_second = record {
  throttle = record {
    concurrency = concurrency;
    per_second = per_second;
    in_flight = 0;
    waiting = [];
    started = [];
  };
  awake = [];
  log = [];
}
