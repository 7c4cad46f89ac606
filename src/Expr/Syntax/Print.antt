-- ===== src/Expr/Syntax/Print.antt =====
-- packages/core/src/expr/parse.ts: an expression written as tokens, bracketed throughout, is read back.
pub mod Forms
pub mod Pieces
use mathlib.Core.Path.{subst}
use wilanis_js.Common.{
  ℕ, suc, ◌+◌, ◌-◌, ◌≤◌, ◌≡◌, refl, ap, ◌∙◌, sym, String, Bool, true, false, ◌||◌, ◌&&◌, ◌==◌,
  arith, if-false,
}
use wilanis_js.Common.{List, [], ◌∷◌, none, some, Option}
use wilanis_js.Expr.{
  Expr, lit, path, has, len, negate, bin, quoted, numeral, truth, BinaryOp, conj, disj,
}
use wilanis_js.Expr.{member_of, contains, compare, eq, ne, lt, le, gt, ge, Literal}
use wilanis_js.Expr.Syntax.{Token, number, quote, word, op, Parse, parsed, ◌>>=◌}
use wilanis_js.Expr.Syntax.{
  eq_op, ne_op, le_op, ge_op, lt_op, gt_op, or_op, and_op, not_op, open_op, close_op,
}
use wilanis_js.Expr.Syntax.{
  dot_op, or_rule, and_rule, unary_rule, comparison_rule, primary_rule, or_more,
}
use wilanis_js.Expr.Syntax.{
  and_more, Numerals, expect_close, operator_at, path_more, path_as, descend, is_open,
}
pub use wilanis_js.Expr.Syntax.Print.Forms.{IsPrintable, size, unary-read}
unfoldable pub use wilanis_js.Expr.Syntax.Print.Forms.{operator, segments, shown}
use wilanis_js.Expr.Syntax.Print.Forms.{Closes, operator-Closes}
use wilanis_js.Expr.Syntax.Print.Pieces.{
  and-read, at_fuel, compared-read, has-read, len-read, literal-read, negate-read, or-read,
  path-read,
}

module _ {F : Type 0} ⦃numerals : Numerals F⦄ where
  compared-far :
      (m : ℕ) (o : BinaryOp) (left right : Expr F) (ts : List (Token F))
      → operator_at (operator o (shown right (op close_op ∷ ts)))
        ≡ some (o, shown right (op close_op ∷ ts))
      → ((n : ℕ) (us : List (Token F))
          → m ≤ n
          → Closes us
          → descend n primary_rule (shown left us) ≡ parsed (left, us))
      → ((n : ℕ) (us : List (Token F))
          → m ≤ n
          → Closes us
          → descend n primary_rule (shown right us) ≡ parsed (right, us))
      → (n : ℕ) → m + 10 ≤ n
      → descend n primary_rule (shown (bin o left right) ts) ≡ parsed (bin o left right, ts)
  compared-far m o left right ts at h k n enough =
      at_fuel n (suc (suc (suc (suc (suc (n - 5)))))) _ _ ts (omega arith) (
        compared-read (n - 5) o left right ts
          (h (n - 5) _ (omega arith) (operator-Closes o (shown right (op close_op ∷ ts)))) at
          (k (n - 5) _ (omega arith) tt))

  -- The two sides of an operator, each read with enough fuel.
  bin-read :
      (m : ℕ) (o : BinaryOp) (left right : Expr F) (ts : List (Token F))
      → ((n : ℕ) (us : List (Token F))
          → m ≤ n
          → Closes us
          → descend n primary_rule (shown left us) ≡ parsed (left, us))
      → ((n : ℕ) (us : List (Token F))
          → m ≤ n
          → Closes us
          → descend n primary_rule (shown right us) ≡ parsed (right, us))
      → (n : ℕ) → m + 10 ≤ n
      → descend n primary_rule (shown (bin o left right) ts) ≡ parsed (bin o left right, ts)
  unfolding operator operator_at
  bin-read m conj left right ts h k n enough =
      at_fuel n (suc (suc (suc (suc (suc (suc (n - 6))))))) _ _ ts (omega arith) (
        and-read (n - 6) left right ts (h (suc (n - 6)) _ (omega arith) tt)
          (k (n - 6) _ (omega arith) tt))
  bin-read m disj left right ts h k n enough =
      at_fuel n (suc (suc (suc (suc (suc (suc (n - 6))))))) _ _ ts (omega arith) (
        or-read (n - 6) left right ts (h (suc (n - 6)) _ (omega arith) tt)
          (k (n - 6) _ (omega arith) tt))
  bin-read m member_of left right ts h k n enough =
      compared-far m member_of left right ts refl h k n enough
  bin-read m contains left right ts h k n enough =
      compared-far m contains left right ts refl h k n enough
  bin-read m (compare eq) left right ts h k n enough =
      compared-far m (compare eq) left right ts refl h k n enough
  bin-read m (compare ne) left right ts h k n enough =
      compared-far m (compare ne) left right ts refl h k n enough
  bin-read m (compare lt) left right ts h k n enough =
      compared-far m (compare lt) left right ts refl h k n enough
  bin-read m (compare le) left right ts h k n enough =
      compared-far m (compare le) left right ts refl h k n enough
  bin-read m (compare gt) left right ts h k n enough =
      compared-far m (compare gt) left right ts refl h k n enough
  bin-read m (compare ge) left right ts h k n enough =
      compared-far m (compare ge) left right ts refl h k n enough

  -- A tree whose paths do not begin with `true` or `false`, written as tokens with every operator between
  -- brackets and followed by tokens that go on neither a path nor a call, is read back as a primary with
  -- those tokens left.
  pub shown-read :
      (e : Expr F) (n : ℕ) (ts : List (Token F))
      → size e ≤ n
      → IsPrintable e
      → Closes ts
      → descend n primary_rule (shown e ts) ≡ parsed (e, ts)
  shown-read (lit l) n ts enough printable closes =
      at_fuel n (suc (n - 1)) _ _ ts (omega arith) (literal-read (n - 1) l ts)
  shown-read (path root ws) n ts enough printable closes =
      at_fuel n (suc (n - 1)) _ _ ts (omega arith) (path-read (n - 1) root ws ts printable closes)
  shown-read (has root ws) n ts enough printable closes =
      at_fuel n (suc (n - 1)) _ _ ts (omega arith) (has-read (n - 1) root ws ts)
  shown-read (len e) n ts enough printable closes =
      at_fuel n (suc (suc (suc (suc (suc (n - 5)))))) _ _ ts (omega arith)
        (len-read (n - 5) e ts (shown-read e (n - 5) (op close_op ∷ ts) (omega arith) printable tt))
  shown-read (negate e) n ts enough printable closes =
      at_fuel n (suc (suc (suc (suc (suc (suc (n - 6))))))) _ _ ts (omega arith) (
        negate-read (n - 6) e ts
          (shown-read e (n - 6) (op close_op ∷ ts) (omega arith) printable tt))
  shown-read (bin o left right) n ts enough printable closes =
      bin-read (size left + size right) o left right ts
        (λ k us most shut. shown-read left k us (omega arith) printable.0 shut)
        (λ k us most shut. shown-read right k us (omega arith) printable.1 shut) n enough
