-- ===== src/Queue/Take.antt =====
-- Which message `take` hands out.
use mathlib.Core.Option
use mathlib.Core.Path.{subst₂}
use wilanis_js.Common.{
  ℕ, ◌≡◌, ap, true, false, Bool-cases, Option-cases, inl, inr, arith, none, some,
}
use wilanis_js.Common.{List, [], ◌∷◌, ◌++◌, leb, All}
use wilanis_js.Queue.{Kept, take}

abbrev pub NotDue : ℕ → Kept → Type 0
NotDue now one = leb one.available_at now ≡ false

-- What it is to be the first message due: those before it are not, and the others keep their order.
pub record IsFirstDue (now : ℕ) (waiting : List Kept) (due : Kept) (rest : List Kept) : Type 0 where
  pub before : List Kept
  pub after : List Kept
  pub split : waiting ≡ before ++ due ∷ after
  pub left : rest ≡ before ++ after
  pub skipped : All (NotDue now) before
  pub is_due : leb due.available_at now ≡ true

IsFirstDue-cons :
    {now : ℕ} {waiting rest : List Kept} {due : Kept} (one : Kept)
    → NotDue now one
    → IsFirstDue now waiting due rest
    → IsFirstDue now (one ∷ waiting) due (one ∷ rest)
IsFirstDue-cons one n f = record {
  before = one ∷ f.before;
  after = f.after;
  split = ap (λ (l : List Kept). one ∷ l) f.split;
  left = ap (λ (l : List Kept). one ∷ l) f.left;
  skipped = (n, f.skipped);
  is_due = f.is_due;
}

take-late :
    (now : ℕ) (one : Kept) (waiting : List Kept)
    → leb one.available_at now ≡ false
    → take now (one ∷ waiting)
      ≡ Option.map (λ (found : Kept × List Kept). (found.0, one ∷ found.1)) (take now waiting)
unfolding take
take-late now one waiting h = rw h

-- A message taken is the first that is due, and the others are left as they stood.
pub take-IsFirstDue :
    (now : ℕ) (waiting : List Kept) (due : Kept) (rest : List Kept)
    → take now waiting ≡ some (due, rest)
    → IsFirstDue now waiting due rest
unfolding take
take-IsFirstDue now [] due rest h = cc
take-IsFirstDue now (one ∷ waiting) due rest h = elim (Bool-cases (leb one.available_at now)) [
  | inl ready ↦ record {
    before = [];
    after = waiting;
    split = ground arith;
    left = ground arith;
    skipped = tt;
    is_due = ground arith;
  }
  | inr late ↦ elim (Option-cases (take now waiting)) [
    | inl nothing ↦ cc (take-late now one waiting late, nothing)
    | inr (found, e) ↦
        let same : (found.0 ≡ due) × (◌≡◌ {A = List Kept} (one ∷ found.1) rest) = (
          ground (arith, take-late now one waiting late),
          ground (arith, take-late now one waiting late),
        ) in
        subst₂ (IsFirstDue now (one ∷ waiting)) same.0 same.1
          (IsFirstDue-cons one late (take-IsFirstDue now waiting found.0 found.1 e))
  ]
]

-- Nothing is taken exactly when nothing is due.
pub take-none : (now : ℕ) (waiting : List Kept) → take now waiting ≡ none → All (NotDue now) waiting
unfolding take
take-none now [] h = tt
take-none now (one ∷ waiting) h = ground (arith, take-none now waiting)
