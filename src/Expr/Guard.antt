-- ===== src/Expr/Guard.antt =====
-- packages/core/src/expr/check.ts: what `provedBy` collects, and that an expression that holds
-- proves it.
use mathlib.Core.Path.{subst, subst₂}
use mathlib.Core.Option.{some-injective}
use text.Mathlib.TextLemmas.{append-nil}
use wilanis_js.Common.{ℕ, zero, suc, String, Bool, true, false, ◌≡◌, refl, sym, ◌⊎◌, inl, inr}
use wilanis_js.Common.{Option, none, some, List, [], ◌∷◌, ◌++◌, eq_iff, arith, All}
use wilanis_js.Common.{if◌then◌else◌, includes, includes-append, take, length}
use wilanis_js.Types.{Members, Floats}
use wilanis_js.Expr.{Coercions, Expr, lit, path, has, len, negate, bin, conj}
use wilanis_js.Expr.{binary_value, evaluate, truthy, is_there, read_value}
use wilanis_js.Expr.Check.{proved_by, proved_from, proved_from_at}
use wilanis_js.Expr.Keys.{join, dotted, is_dotless, join-injective}

abbrev pub IsDotless : String → List String → Type 0
IsDotless root rest = All (λ s. is_dotless s ≡ true) (root ∷ rest)

-- Every path of an expression is of segments without a dot, as the lexer reads them.
abbrev pub ArePathsDotless : {F : Type 0} → Expr F → Type 0
ArePathsDotless (lit l) = Unit
ArePathsDotless (path root rest) = IsDotless root rest
ArePathsDotless (has root rest) = IsDotless root rest
ArePathsDotless (len arg) = ArePathsDotless arg
ArePathsDotless (negate arg) = ArePathsDotless arg
ArePathsDotless (bin op left right) = ArePathsDotless left × ArePathsDotless right

if-some :
    (c : Bool) (j k : ℕ) (later : Option ℕ)
    → (if c then some j else later) ≡ some k
    → ((c ≡ true) × (j ≡ k)) ⊎ (later ≡ some k)
if-some true j k later h = inl (refl, some-injective j k h)
if-some false j k later h = inr h

-- A key that was found proved is that of a prefix of the path.
proved_from_at-includes :
    (n : ℕ) (root : String) (rest proved : List String) (k : ℕ)
    → proved_from_at n root rest proved ≡ some k
    → includes proved (join root (take k rest)) ≡ true
unfolding proved_from_at join dotted
proved_from_at-includes zero root rest proved k h =
    elim (if-some (includes proved root) 0 k none h) [
      | inl (c, e) ↦
          subst (λ n. includes proved (join root (take n rest)) ≡ true) e
            (subst (λ r. includes proved r ≡ true) (sym (append-nil root)) c)
      | inr e ↦ cc
    ]
proved_from_at-includes (suc n) root rest proved k h =
    elim (if-some (includes proved (join root (take (suc n) rest))) (suc n) k
      (proved_from_at n root rest proved) h) [
        | inl (c, e) ↦ subst (λ i. includes proved (join root (take i rest)) ≡ true) e c
        | inr e ↦ proved_from_at-includes n root rest proved k e
      ]

pub proved_from-includes :
    (root : String) (rest proved : List String) (k : ℕ)
    → proved_from root rest proved ≡ some k
    → includes proved (join root (take k rest)) ≡ true
unfolding proved_from
proved_from-includes root rest proved k h =
    proved_from_at-includes (length rest) root rest proved k h

module _ {F : Type 0} ⦃fl : Floats F⦄ ⦃js : Coercions F⦄ where
  -- Every path whose key is among those proved is there.
  abbrev pub AreThere : List String → Members F → Type 0
  AreThere proved values =
      (root : String) (rest : List String)
      → IsDotless root rest
      → includes proved (join root rest) ≡ true
      → is_there (read_value values root rest) ≡ true

  AreThere-has :
      (root : String) (rest : List String) (values : Members F)
      → IsDotless root rest
      → is_there (read_value values root rest) ≡ true
      → AreThere (join root rest ∷ []) values
  AreThere-has root rest values d h other others d' i =
      let one_key : join root rest ≡ join other others =
        (eq_iff (join root rest) (join other others)).0 (ground arith) in
      let (front, back) = join-injective root other rest others d d' one_key in
      subst₂ (λ r s. is_there (read_value values r s) ≡ true) front back h

  pub AreThere-append :
      (left right : List String) (values : Members F)
      → AreThere left values
      → AreThere right values
      → AreThere (left ++ right) values
  AreThere-append left right values l r root rest d i =
      elim (includes-append left right (join root rest) i) [
        | inl e ↦ l root rest d e
        | inr e ↦ r root rest d e
      ]

  -- Where an expression holds, and its paths are of segments without a dot, every path that
  -- `provedBy` collects from it is there.
  pub evaluate-AreThere :
      (e : Expr F) (values : Members F)
      → ArePathsDotless e
      → truthy (evaluate e values) ≡ true
      → AreThere (proved_by e) values
  unfolding proved_by evaluate truthy binary_value
  evaluate-AreThere (has root rest) values d h = AreThere-has root rest values d h
  evaluate-AreThere (bin conj left right) values d h =
      AreThere-append (proved_by left) (proved_by right) values
        (evaluate-AreThere left values d.0 (ground arith))
        (evaluate-AreThere right values d.1 (ground arith))
  evaluate-AreThere e values d h = λ root rest dotless i. cc
