-- ===== src/Kernel/Run/State.antt =====
-- packages/engine/src/run.ts with spec.ts and report.ts: what a run keeps.
use wilanis_js.Common.{ℕ, suc, String, Bool, true, false, ◌==◌}
use wilanis_js.Common.{Option, none, some, List, [], ◌∷◌, if◌then◌else◌}
use wilanis_js.Common.Dict.{Dict}
use wilanis_js.Types.{Value, Members}
use wilanis_js.Kernel.Plan.{Node}

pub data Status : Type 0 where
  pending running done failed cancelled seeded : Status

pub data Ending : Type 0 where
  run_failed run_cancelled : Ending

-- What a handler throws: a refusal where it has a reason, a fault where it has none.
pub record Thrown (F : Type 0) : Type 0 where
  pub message : String
  pub reason : Option String
  pub detail : Option (Value F)

pub record NodeReport (F : Type 0) : Type 0 where
  pub status : Status
  pub selected : Option String
  pub caught : Option String
  pub error : Option String
  pub reason : Option String
  pub detail : Option (Value F)
  pub ended_at : Option ℕ
  pub order : Option ℕ

-- `KernelSpec`; `when` is the rule of a switch at an index, and `spell` is `String`.
pub record Graph (F : Type 0) : Type 0 where
  pub nodes : Dict (Node F)
  pub output : Option (List String)
  pub when : String → ℕ → Members F → Bool
  pub spell : Value F → String

-- `Run`; a value that is undefined is `none`, and `aborted` is the signal's.
pub record Run (F : Type 0) : Type 0 where
  pub values : Dict (Option (Value F))
  pub reports : Dict (NodeReport F)
  pub ending : Option Ending
  pub running : ℕ
  pub settles : ℕ
  pub aborted : Bool

-- What reaches a run: its signal fires, its loop goes on, a node in flight answers or breaks, and the
-- `finally` of one that did, at a moment.
pub data Event (F : Type 0) : Type 0 where
  aborts looks : Event F
  answers : String → Option (Value F) → Event F
  breaks : String → Thrown F → Event F
  retires : String → ℕ → Event F

unfoldable pub is_pending : Status → Bool
is_pending pending = true
is_pending running = false
is_pending s = false

unfoldable pub is_running : Status → Bool
is_running running = true
is_running pending = false
is_running s = false

unfoldable pub has_answered : Status → Bool
has_answered done = true
has_answered seeded = true
has_answered pending = false
has_answered s = false

-- `===` of a name and one that may not be there.
abbrev pub names_it : String → Option String → Bool
names_it name none = false
names_it name (some other) = other == name

abbrev pub is_there {ℓ} : {A : Type ℓ} → Option A → Bool
is_there none = false
is_there (some a) = true

-- `??=` and `??`
abbrev pub or_else {ℓ} : {A : Type ℓ} → Option A → Option A → Option A
or_else none b = b
or_else (some a) b = some a

-- A report written in its place.
unfoldable pub change : {V : Type 0} → String → (V → V) → Dict V → Dict V
change key f [] = []
change key f ((j, v) ∷ rest) = if j == key then (j, f v) ∷ rest else (j, v) ∷ change key f rest

abbrev pub each_value : {V W : Type 0} → (V → W) → Dict V → Dict W
each_value f [] = []
each_value f ((key, v) ∷ rest) = (key, f v) ∷ each_value f rest

-- The first rule that holds, by its index.
unfoldable pub first_rule : (ℕ → Bool) → ℕ → List String → Option String
first_rule holds i [] = none
first_rule holds i (target ∷ rest) =
    let later = first_rule holds (suc i) rest in if holds i then some target else later

-- `for (const each of list)`
abbrev pub in_turn {ℓ} : {A : Type 0} {S : Type ℓ} → (A → S → S) → List A → S → S
in_turn f [] s = s
in_turn f (a ∷ rest) s = in_turn f rest (f a s)

-- The values that are not undefined.
unfoldable pub defined : {V : Type 0} → Dict (Option V) → Dict V
defined [] = []
defined ((key, none) ∷ rest) = defined rest
defined ((key, some v) ∷ rest) = (key, v) ∷ defined rest
