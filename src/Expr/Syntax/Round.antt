-- ===== src/Expr/Syntax/Round.antt =====
-- packages/core/src/expr/parse.ts: the parse of an expression's tokens is the expression.
use mathlib.Core.Path.{subst}
use wilanis_js.Common.{
  ℕ, suc, ◌+◌, ◌-◌, ◌*◌, ◌≤◌, ◌≡◌, refl, ap, sym, String, true, false, arith, length, List, [], ◌∷◌,
}
use wilanis_js.Expr.{
  Expr, lit, path, has, len, negate, bin, quoted, numeral, truth, BinaryOp, conj, disj,
}
use wilanis_js.Expr.{member_of, contains, compare, eq, ne, lt, le, gt, ge, Literal}
use wilanis_js.Expr.Syntax.{Token, op, parsed, ◌>>=◌, or_rule, primary_rule, or_more}
use wilanis_js.Expr.Syntax.{and_more, Numerals, descend, parse, whole, close_op, operator_at}
use wilanis_js.Expr.Syntax.Print.{
  operator, segments, shown, IsPrintable, size, shown-read, unary-read,
}

module _ {F : Type 0} where
  length-operator : (o : BinaryOp) (ts : List (Token F)) → length (operator o ts) ≡ suc (length ts)
  unfolding operator
  length-operator conj ts = refl
  length-operator disj ts = refl
  length-operator member_of ts = refl
  length-operator contains ts = refl
  length-operator (compare eq) ts = refl
  length-operator (compare ne) ts = refl
  length-operator (compare lt) ts = refl
  length-operator (compare le) ts = refl
  length-operator (compare gt) ts = refl
  length-operator (compare ge) ts = refl

  length-segments : (ws : List String) (ts : List (Token F)) → length ts ≤ length (segments ws ts)
  unfolding segments
  length-segments [] ts = omega arith
  length-segments (w ∷ ws) ts = let tail = length-segments ws ts in omega arith

  length-literal :
      (l : Literal F) (ts : List (Token F)) → length (shown (lit l) ts) ≡ suc (length ts)
  unfolding shown
  length-literal (quoted s) ts = refl
  length-literal (numeral v) ts = refl
  length-literal (truth true) ts = refl
  length-literal (truth false) ts = refl

  -- The tokens of a tree are fuel enough for it.
  shown-size : (e : Expr F) (ts : List (Token F)) → size e + 6 * length ts ≤ 6 * length (shown e ts)
  unfolding shown
  shown-size (lit l) ts = let long = length-literal l ts in omega arith
  shown-size (path root ws) ts = let long = length-segments ws ts in omega arith
  shown-size (has root ws) ts = let long = length-segments ws (op close_op ∷ ts) in omega arith
  shown-size (len e) ts = let inner = shown-size e (op close_op ∷ ts) in omega arith
  shown-size (negate e) ts = let inner = shown-size e (op close_op ∷ ts) in omega arith
  shown-size (bin o left right) ts =
      let after = shown right (op close_op ∷ ts) in
      let first = shown-size left (operator o after) in
      let second = shown-size right (op close_op ∷ ts) in
      let long = length-operator o after in omega arith

module _ {F : Type 0} ⦃numerals : Numerals F⦄ where
  -- A primary that ends the tokens.
  or-last :
      (m : ℕ) (e : Expr F)
      → descend m primary_rule (shown e []) ≡ parsed (e, [])
      → descend (suc (suc (suc (suc m)))) or_rule (shown e []) ≡ parsed (e, [])
  unfolding descend operator_at
  or-last m e h =
      ap
        (λ p.
          (p >>= (λ (left, rest). descend (suc (suc m)) (and_more left) rest))
          >>= (λ (left, rest). descend (suc (suc (suc m))) (or_more left) rest))
        (unary-read m e [] h refl)

  -- The parse of a tree's tokens, every operator between brackets, is the tree: where no path in it begins
  -- with `true` or `false`.
  pub parse-shown : (e : Expr F) → IsPrintable e → parse (shown e []) ≡ parsed e
  unfolding parse
  parse-shown e printable =
      let enough = shown-size e [] in
      let n = 6 * length (shown e []) + 6 in
      let same : n ≡ suc (suc (suc (suc (n - 4)))) = omega arith in
      let read = or-last (n - 4) e (shown-read e (n - 4) [] (omega arith) printable tt) in
      ap (λ p. p >>= whole)
        (subst (λ f. descend f or_rule (shown e []) ≡ parsed (e, [])) (sym same) read)
