-- ===== src/Expr/Sound.antt =====
-- packages/core/src/expr: an expression that `check` types reads, over inputs that are as typed,
-- only what is there.
use mathlib.Core.Path.{subst}
use wilanis_js.Common.{ℕ, String, Bool, true, false, ◌≡◌, refl, inl, inr}
use wilanis_js.Common.{Option, none, some, List, ◌++◌, ◌||◌, arith, take, drop, All-take}
use wilanis_js.Common.{if◌then◌else◌, Bool-cases, Option-cases}
use wilanis_js.Common.Dict.{Dict, get}
use wilanis_js.Types.{Value, Members, member?, Floats, Ty}
use wilanis_js.Types.TypeAt.{Read, type_at}
use wilanis_js.Types.Conform.{problem_of}
use wilanis_js.Expr.{Coercions, Expr, lit, path, has, len, negate, bin, conj, disj}
use wilanis_js.Expr.{contains, evaluate, truthy, is_there, read_value, read_segments}
use wilanis_js.Expr.Check.{
  Input, Checked, typed, refused, and_then, ExprError, check, ReadAt, located, nowhere,
}
use wilanis_js.Expr.Check.{
  read_at, read_past, proved_by, proved_from, word_type, contains_type, path_type,
}
use wilanis_js.Expr.BlobFree.{IsBlobFree}
use wilanis_js.Expr.Turns.{Fits, ReadResult-cases}
use wilanis_js.Expr.Reads.{type_at-conforms, type_at-there}
use wilanis_js.Expr.Reads.{type_at-IsBlobFree, read_segments-split}
use wilanis_js.Expr.Guard.{IsDotless, ArePathsDotless, AreThere, AreThere-append, evaluate-AreThere}
use wilanis_js.Expr.Guard.{proved_from-includes}

located-injective : (a b : Read) → located a ≡ located b → a ≡ b
located-injective a b h = cc

typed-injective : (t u : Ty) → typed t ≡ typed u → t ≡ u
typed-injective t u h = cc

pub and_then-typed :
    (c : Checked) (next : Ty → Checked) (t : Ty)
    → and_then c next ≡ typed t
    → (u : Ty) × (c ≡ typed u) × (next u ≡ typed t)
unfolding and_then
and_then-typed (typed u) next t h = (u, refl, h)
and_then-typed (refused why) next t h = cc

-- A check under a test that refuses otherwise.
pub allowed :
    (c : Bool) (checked : Checked) (why : ExprError) (t : Ty)
    → (if c then checked else refused why) ≡ typed t
    → checked ≡ typed t
allowed true checked why t h = h
allowed false checked why t h = cc

pub path_type-typed :
    (root : String) (rest : List String) (found : ReadAt) (t : Ty)
    → path_type root rest found ≡ typed t
    → (r : Read) × (found ≡ located r) × (r.optional ≡ false) × (r.type ≡ t)
unfolding path_type
path_type-typed root rest (nowhere why) t h = cc
path_type-typed root rest (located r) t h = elim (Bool-cases r.optional) [
  | inl e ↦ let wrong = rw (path_type, e) at h in cc
  | inr e ↦ (r, refl, e, typed-injective r.type t (rw (path_type, e) at h))
]

module _ {F : Type 0} ⦃fl : Floats F⦄ ⦃js : Coercions F⦄ where
  -- A value for each input, as the input is typed; no input's type has a blob in it.
  abbrev pub AreAsTyped : Dict Input → Members F → Type 0
  AreAsTyped inputs values =
      (root : String) (input : Input)
      → get root inputs ≡ some input
      → Fits (member? root values) input.type input.optional × IsBlobFree input.type

  read_past-Fits :
      (input : Input) (start : ℕ) (optional : Bool) (root : String) (rest : List String) (r : Read)
      (current : Option (Value F))
      → ((v : Value F) → current ≡ some v → problem_of v input.type ≡ none)
      → IsBlobFree input.type
      → (optional ≡ false → is_there (read_segments current (take start rest)) ≡ true)
      → read_past input start optional root rest ≡ located r
      → Fits (read_segments current rest) r.type r.optional
  unfolding read_past
  read_past-Fits input start optional root rest r current conforms free there h =
      elim (ReadResult-cases (type_at input.type (take start rest))) [
        | inr (why, e) ↦ let wrong = rw (read_past, e) at h in cc
        | inl (base, e) ↦ elim (ReadResult-cases (type_at base.type (drop start rest))) [
          | inr (why, e') ↦ let wrong = rw (read_past, e, e') at h in cc
          | inl (s, e') ↦
              let same = located-injective _ r (rw (read_past, e, e') at h) in
              let prefix = read_segments current (take start rest) in
              let base_conforms =
                type_at-conforms current input.type (take start rest) base conforms free e in
              let base_free = type_at-IsBlobFree current input.type (take start rest) base free e in
              subst (λ (q : Read). Fits (read_segments current rest) q.type q.optional) same
                (subst (λ c. Fits c s.type (optional || s.optional))
                  (read_segments-split start current rest)
                  (
                    type_at-conforms prefix base.type (drop start rest) s base_conforms base_free
                        e',
                    λ sure.
                        type_at-there prefix base.type (drop start rest) s
                          (base_conforms, λ _. there (ground arith)) base_free e' (ground arith),
                  ))
        ]
      ]

  pub read_at-Fits :
      (root : String) (rest : List String) (inputs : Dict Input) (proved : List String)
      (values : Members F) (r : Read)
      → AreAsTyped inputs values
      → AreThere proved values
      → IsDotless root rest
      → read_at root rest inputs proved ≡ located r
      → Fits (read_value values root rest) r.type r.optional
  unfolding read_at read_value
  read_at-Fits root rest inputs proved values r fit there dotless h =
      elim (Option-cases (get root inputs)) [
        | inl e ↦ let wrong = rw (read_at, e) at h in cc
        | inr (input, e) ↦
            let (conforms, free) = fit root input e in
            elim (Option-cases (proved_from root rest proved)) [
              | inl e' ↦
                  read_past-Fits input 0 input.optional root rest r (member? root values) conforms.0
                    free conforms.1 (rw (read_at, e, e') at h)
              | inr (start, e') ↦
                  read_past-Fits input start false root rest r (member? root values) conforms.0 free
                    (λ _.
                      there root (take start rest) (dotless.0, All-take _ start rest dotless.1)
                        (proved_from-includes root rest proved start e'))
                    (rw (read_at, e, e') at h)
            ]
      ]

  -- Every path that evaluation reads is there: the right of `&&` is read where the left holds, and
  -- the right of `||` where it does not. `has` asks, and reads nothing.
  abbrev pub IsSafe : Expr F → Members F → Type 0
  IsSafe (lit l) values = Unit
  IsSafe (has root rest) values = Unit
  IsSafe (path root rest) values = is_there (read_value values root rest) ≡ true
  IsSafe (len arg) values = IsSafe arg values
  IsSafe (negate arg) values = IsSafe arg values
  IsSafe (bin conj left right) values =
      IsSafe left values × (truthy (evaluate left values) ≡ true → IsSafe right values)
  IsSafe (bin disj left right) values =
      IsSafe left values × (truthy (evaluate left values) ≡ false → IsSafe right values)
  IsSafe (bin op left right) values = IsSafe left values × IsSafe right values

  word_type-IsSafe :
      (right : Expr F) (values : Members F) (t : Ty)
      → word_type right ≡ typed t
      → IsSafe right values
  unfolding word_type
  word_type-IsSafe (lit l) values t h = tt
  word_type-IsSafe right values t h = cc

  word-IsSafe :
      (left : Ty) (right : Expr F) (values : Members F) (t : Ty)
      → contains_type left right ≡ typed t
      → IsSafe right values
  unfolding contains_type
  word-IsSafe left right values t h = word_type-IsSafe right values t (allowed _ _ _ t h)

  -- Where an expression is typed, its paths are of segments without a dot, the values are as their
  -- inputs are typed (no type with a blob in it), and what was taken as proved is there, evaluation
  -- reads only what is there.
  pub check-IsSafe :
      (e : Expr F) (inputs : Dict Input) (proved : List String) (values : Members F) (t : Ty)
      → AreAsTyped inputs values
      → AreThere proved values
      → ArePathsDotless e
      → check e inputs proved ≡ typed t
      → IsSafe e values
  unfolding check
  check-IsSafe (lit l) inputs proved values t fit there dotless h = tt
  check-IsSafe (has root rest) inputs proved values t fit there dotless h = tt
  check-IsSafe (path root rest) inputs proved values t fit there dotless h =
      let (r, e, sure, _) = path_type-typed root rest (read_at root rest inputs proved) t h in
      (read_at-Fits root rest inputs proved values r fit there dotless e).1 sure
  check-IsSafe (len arg) inputs proved values t fit there dotless h =
      let (u, e, _) = and_then-typed (check arg inputs proved) _ t h in
      check-IsSafe arg inputs proved values u fit there dotless e
  check-IsSafe (negate arg) inputs proved values t fit there dotless h =
      let (u, e, _) = and_then-typed (check arg inputs proved) _ t h in
      check-IsSafe arg inputs proved values u fit there dotless e
  check-IsSafe (bin contains left right) inputs proved values t fit there dotless h =
      let (u, e, e') = and_then-typed (check left inputs proved) _ t h in
      (
        check-IsSafe left inputs proved values u fit there dotless.0 e,
        word-IsSafe u right values t e',
      )
  check-IsSafe (bin conj left right) inputs proved values t fit there dotless h =
      let (u, e, e') = and_then-typed (check left inputs proved) _ t h in
      let (w, e'', _) = and_then-typed (check right inputs (proved ++ proved_by left)) _ t e' in
      (
        check-IsSafe left inputs proved values u fit there dotless.0 e,
        λ holds.
            check-IsSafe right inputs (proved ++ proved_by left) values w fit
              (AreThere-append proved (proved_by left) values there
                (evaluate-AreThere left values dotless.0 holds))
              dotless.1 e'',
      )
  check-IsSafe (bin disj left right) inputs proved values t fit there dotless h =
      let (u, e, e') = and_then-typed (check left inputs proved) _ t h in
      let (w, e'', _) = and_then-typed (check right inputs proved) _ t e' in
      (
        check-IsSafe left inputs proved values u fit there dotless.0 e,
        λ _. check-IsSafe right inputs proved values w fit there dotless.1 e'',
      )
  check-IsSafe (bin op left right) inputs proved values t fit there dotless h =
      let (u, e, e') = and_then-typed (check left inputs proved) _ t h in
      let (w, e'', _) = and_then-typed (check right inputs proved) _ t e' in
      (
        check-IsSafe left inputs proved values u fit there dotless.0 e,
        check-IsSafe right inputs proved values w fit there dotless.1 e'',
      )
