-- ===== src/Queue.antt =====
-- packages/plugin-queue-memory/src/queue.ts and consumer.ts: one queue of the memory broker and
-- the consumers that hand its messages out. Time is in milliseconds; a moment `now` is an argument.
pub mod Take
pub mod Pump
pub mod Count
pub mod Place
pub mod Conserve
pub mod Keeps
mod Tests
use mathlib.Core.Option
use mathlib.Core.Option.{get_or}
use wilanis_js.Common.{
  ℕ, zero, suc, ◌+◌, ◌-◌, String, Bool, true, false, not, ◌&&◌, Option, none, some,
}
use wilanis_js.Common.{List, [], ◌∷◌, ◌++◌, if◌then◌else◌, ltb, leb, nat_eq, length, get_elem?}
use wilanis_js.Common.Dict.{Dict}
use Prim.Native.Nat.{min}

-- One message as the queue keeps it; the body is its JSON text.
pub record Kept : Type 0 where
  pub id : String
  pub attempt : ℕ
  pub headers : Dict String
  pub body : String
  pub available_at : ℕ

-- What a handle answers for a delivery; a handle that throws is a retry with no wait.
pub data Answer : Type 0 where
  ack dead threw : Answer
  retry : Option ℕ → Answer

-- One `consume` of the queue: its deliveries in flight, whether it is stopping, and what its timer
-- was last armed to wait.
pub record Consumer : Type 0 where
  pub concurrency : ℕ
  pub in_flight : List Kept
  pub stopping : Bool
  pub timer : Option ℕ

-- The queue, with those who are woken by a put, in the order they asked; and the acknowledgements
-- that the broker was told to lose.
pub record Queue : Type 0 where
  pub waiting : List Kept
  pub parked : List Kept
  pub consumers : List Consumer
  pub acks_to_drop : ℕ

-- IDLE_MS
abbrev pub idle_ms : ℕ
idle_ms = 1000

-- `take`: the first message that may be handed out now, and what then waits.
unfoldable pub take : ℕ → List Kept → Option (Kept × List Kept)
take now [] = none
take now (one ∷ rest) =
    let later =
      Option.map (λ (found : Kept × List Kept). (found.0, one ∷ found.1)) (take now rest) in
    if leb one.available_at now then some (one, rest) else later

-- `nextAt`: the soonest moment a message waiting here may be handed out.
unfoldable pub next_at : List Kept → Option ℕ
next_at [] = none
next_at (one ∷ rest) = elim (next_at rest) [
  | none ↦ some one.available_at
  | some soonest ↦ some (min one.available_at soonest)
]

-- The loop of `pump`, over the messages in flight and those waiting. Each round takes one of the
-- waiting, so as many rounds as there are waiting are enough.
unfoldable pub pump_loop : ℕ → ℕ → ℕ → List Kept → List Kept → List Kept × List Kept
pump_loop zero now concurrency in_flight waiting = (in_flight, waiting)
pump_loop (suc rounds) now concurrency in_flight waiting =
    elim (ltb (length in_flight) concurrency) [
      | false ↦ (in_flight, waiting)
      | true ↦ elim (take now waiting) [
        | none ↦ (in_flight, waiting)
        | some (due, rest) ↦ pump_loop rounds now concurrency (in_flight ++ due ∷ []) rest
      ]
    ]

-- `sleep`: how long the timer is armed for.
unfoldable pub sleep : ℕ → ℕ → List Kept → List Kept → ℕ
sleep now concurrency in_flight waiting =
    if ltb (length in_flight) concurrency
    then (elim (next_at waiting) [ none ↦ idle_ms | some next ↦ min idle_ms (next - now) ])
    else idle_ms

-- `pump`: hand out every message that is due, while there is room, then sleep.
unfoldable pub pump : ℕ → Consumer → List Kept → Consumer × List Kept
unfolding pump_loop sleep
pump now c waiting =
    let (in_flight, rest) = pump_loop (length waiting) now c.concurrency c.in_flight waiting in
    if c.stopping then (c, waiting) else (
      record c { in_flight = in_flight; timer = some (sleep now c.concurrency in_flight rest) },
      rest,
    )

-- `for (const wake of this.wakers) wake()`; a consumer that stops is woken no more.
unfoldable pub wake_all : ℕ → List Consumer → List Kept → List Consumer × List Kept
unfolding pump
wake_all now [] waiting = ([], waiting)
wake_all now (c ∷ cs) waiting =
    let (c', rest) = pump now c waiting in
    let (cs', left) = wake_all now cs rest in (c' ∷ cs', left)

-- `put`: keep a message until it is taken, and wake whoever consumes this queue.
unfoldable pub put : ℕ → Kept → Queue → Queue
unfolding wake_all
put now kept q =
    let (consumers, waiting) = wake_all now q.consumers (q.waiting ++ kept ∷ []) in
    record q { waiting = waiting; consumers = consumers }

-- `redeliver`: put a message back, one attempt higher, no sooner than `after` from now.
unfoldable pub redeliver : ℕ → Kept → ℕ → Queue → Queue
unfolding put
redeliver now kept after q =
    put now (record kept { attempt = kept.attempt + 1; available_at = now + after }) q

-- `settle`: forget, redeliver or park one message as its answer says, and an acknowledgement that
-- the broker loses (`dropsAck`) as a redelivery.
unfoldable pub settle : ℕ → Kept → Answer → Queue → Queue
unfolding redeliver
settle now kept dead q = record q { parked = q.parked ++ kept ∷ [] }
settle now kept (retry backoff) q = redeliver now kept (get_or backoff 0) q
settle now kept threw q = redeliver now kept 0 q
settle now kept ack q =
    if nat_eq q.acks_to_drop 0
    then q
    else redeliver now kept 0 (record q { acks_to_drop = q.acks_to_drop - 1 })

-- `this.inFlight.delete(running)`, by its place.
unfoldable pub remove_at : ℕ → List Kept → List Kept
remove_at i [] = []
remove_at zero (one ∷ rest) = rest
remove_at (suc i) (one ∷ rest) = one ∷ remove_at i rest

-- One consumer, by its place, changed along with what waits.
unfoldable pub at_consumer :
    (Consumer → List Kept → Consumer × List Kept)
    → ℕ
    → List Consumer
    → List Kept
    → List Consumer × List Kept
at_consumer f i [] waiting = ([], waiting)
at_consumer f zero (c ∷ cs) waiting = let (c', rest) = f c waiting in (c' ∷ cs, rest)
at_consumer f (suc i) (c ∷ cs) waiting =
    let (cs', rest) = at_consumer f i cs waiting in (c ∷ cs', rest)

unfoldable pub with_consumer : (Consumer → List Kept → Consumer × List Kept) → ℕ → Queue → Queue
unfolding at_consumer
with_consumer f i q =
    let (consumers, waiting) = at_consumer f i q.consumers q.waiting in
    record q { consumers = consumers; waiting = waiting }

-- The delivery `j` of consumer `i`.
unfoldable pub delivery_at : ℕ → ℕ → List Consumer → Option Kept
delivery_at i j cs = elim (get_elem? cs i) [ none ↦ none | some c ↦ get_elem? c.in_flight j ]

-- The `finally` of a delivery: it leaves the deliveries in flight, and the consumer looks again.
unfoldable pub finish : ℕ → ℕ → Consumer → List Kept → Consumer × List Kept
unfolding remove_at pump
finish now j c waiting = pump now (record c { in_flight = remove_at j c.in_flight }) waiting

-- What happens to a queue, one event at a time.
pub data Event : Type 0 where
  -- `publish` of the broker, once it has made the message's id
  publish : String → Dict String → String → Option ℕ → Event
  -- delivery `j` of consumer `i` is answered (`handOut`)
  answered : ℕ → ℕ → Answer → Event
  -- a new consumer (`consume`), its timer firing, its `stop`
  consume : ℕ → Event
  fired : ℕ → Event
  stop : ℕ → Event
  drop_acks : ℕ → Event

-- One event at a moment.
unfoldable pub step : ℕ → Event → Queue → Queue
unfolding settle with_consumer finish delivery_at pump put
step now (publish id headers body delay) q =
    put now
      (record {
        id = id;
        attempt = 1;
        headers = headers;
        body = body;
        available_at = now + get_or delay 0;
      })
      q
step now (answered i j answer) q = elim (delivery_at i j q.consumers) [
  | none ↦ q
  | some kept ↦ with_consumer (finish now j) i (settle now kept answer q)
]
step now (consume concurrency) q =
    let (c, waiting) =
      pump now
        (record { concurrency = concurrency; in_flight = []; stopping = false; timer = none })
        q.waiting in
    record q { consumers = q.consumers ++ c ∷ []; waiting = waiting }
step now (fired i) q = with_consumer (pump now) i q
step now (stop i) q =
    with_consumer (λ c waiting. (record c { stopping = true; timer = none }, waiting)) i q
step now (drop_acks count) q = record q { acks_to_drop = q.acks_to_drop + count }

-- A run of the queue: events, each at its moment.
unfoldable pub run : List (ℕ × Event) → Queue → Queue
unfolding step
run [] q = q
run ((now, e) ∷ es) q = run es (step now e q)

abbrev pub empty : Queue
empty = record { waiting = []; parked = []; consumers = []; acks_to_drop = 0 }
