-- ===== src/Expr/Syntax/Print/Pieces.antt =====
-- packages/core/src/expr/parse.ts: each form of expression, written as tokens, is read back.
use mathlib.Core.Path.{subst}
use wilanis_js.Common.{ℕ, suc, ◌≡◌, refl, ap, ◌∙◌, sym, String, true, false, ◌||◌, ◌==◌, if-false}
use wilanis_js.Common.{List, ◌∷◌, some}
use wilanis_js.Expr.{
  Expr, lit, path, has, len, negate, bin, quoted, numeral, truth, BinaryOp, conj, disj,
}
use wilanis_js.Expr.{Literal}
use wilanis_js.Expr.Syntax.{Token, op, parsed, ◌>>=◌}
use wilanis_js.Expr.Syntax.{or_op, and_op, not_op, open_op, close_op}
use wilanis_js.Expr.Syntax.{or_rule, and_rule, unary_rule, primary_rule, or_more}
use wilanis_js.Expr.Syntax.{
  and_more, Numerals, expect_close, operator_at, path_as, descend, is_open,
}
use wilanis_js.Expr.Syntax.Print.Forms.{
  Closes, and-closed, and_shut, comparison-read, continued, operator, or-closed, path_more-read,
  segments-shut, shown, unary-read, unary-shown,
}

module _ {F : Type 0} ⦃numerals : Numerals F⦄ where
  bracketed :
      (m : ℕ) (us : List (Token F)) (e : Expr F) (ts : List (Token F))
      → descend (suc (suc m)) or_rule us ≡ parsed (e, op close_op ∷ ts)
      → descend (suc (suc (suc m))) primary_rule (op open_op ∷ us) ≡ parsed (e, ts)
  unfolding descend expect_close
  bracketed m us e ts h = ap (λ o. o >>= expect_close) h

  compared :
      (m : ℕ) (o : BinaryOp) (left right : Expr F) (ts : List (Token F))
      → descend m primary_rule (shown left (operator o (shown right (op close_op ∷ ts))))
        ≡ parsed (left, operator o (shown right (op close_op ∷ ts)))
      → operator_at (operator o (shown right (op close_op ∷ ts)))
        ≡ some (o, shown right (op close_op ∷ ts))
      → descend m primary_rule (shown right (op close_op ∷ ts)) ≡ parsed (right, op close_op ∷ ts)
      → descend (suc (suc m)) unary_rule (shown left (operator o (shown right (op close_op ∷ ts))))
        ≡ parsed (bin o left right, op close_op ∷ ts)
  unfolding descend
  compared m o left right ts h at k =
      let after = operator o (shown right (op close_op ∷ ts)) in
      unary-shown (suc m) left after
      ∙ comparison-read m (shown left after) left after h
      ∙ ap (continued m left after) at
      ∙ ap (λ p. p >>= (λ (right, rest'). parsed (bin o left right, rest'))) k

  joined_and :
      (m : ℕ) (left right : Expr F) (ts : List (Token F))
      → descend (suc m) primary_rule (shown left (op and_op ∷ shown right (op close_op ∷ ts)))
        ≡ parsed (left, op and_op ∷ shown right (op close_op ∷ ts))
      → descend m primary_rule (shown right (op close_op ∷ ts)) ≡ parsed (right, op close_op ∷ ts)
      → descend
          (suc (suc (suc (suc m))))
          and_rule
          (shown left (op and_op ∷ shown right (op close_op ∷ ts)))
        ≡ parsed (bin conj left right, op close_op ∷ ts)
  unfolding descend operator_at
  joined_and m left right ts h k =
      let first = unary-read (suc m) left (op and_op ∷ shown right (op close_op ∷ ts)) h refl in
      let second = unary-read m right (op close_op ∷ ts) k refl in
      ap (λ p. p >>= (λ (one, rest). descend (suc (suc (suc m))) (and_more one) rest)) first
      ∙ ap (λ p. p >>= (λ (one, rest). descend (suc (suc m)) (and_more (bin conj left one)) rest))
          second

  joined_or :
      (m : ℕ) (left right : Expr F) (ts : List (Token F))
      → descend (suc m) primary_rule (shown left (op or_op ∷ shown right (op close_op ∷ ts)))
        ≡ parsed (left, op or_op ∷ shown right (op close_op ∷ ts))
      → descend m primary_rule (shown right (op close_op ∷ ts)) ≡ parsed (right, op close_op ∷ ts)
      → descend
          (suc (suc (suc (suc (suc m)))))
          or_rule
          (shown left (op or_op ∷ shown right (op close_op ∷ ts)))
        ≡ parsed (bin disj left right, op close_op ∷ ts)
  unfolding descend operator_at
  joined_or m left right ts h k =
      let first = unary-read (suc m) left (op or_op ∷ shown right (op close_op ∷ ts)) h refl in
      let second =
        and-closed m (shown right (op close_op ∷ ts)) right ts
          (unary-read m right (op close_op ∷ ts) k refl) in
      ap
        (λ p.
          (p >>= (λ (one, rest). descend (suc (suc (suc m))) (and_more one) rest))
          >>= (λ (one, rest). descend (suc (suc (suc (suc m)))) (or_more one) rest))
        first
      ∙ ap
          (λ p.
            p >>= (λ (one, rest). descend (suc (suc (suc m))) (or_more (bin disj left one)) rest))
          second

  -- A comparison between brackets.
  pub compared-read :
      (m : ℕ) (o : BinaryOp) (left right : Expr F) (ts : List (Token F))
      → descend m primary_rule (shown left (operator o (shown right (op close_op ∷ ts))))
        ≡ parsed (left, operator o (shown right (op close_op ∷ ts)))
      → operator_at (operator o (shown right (op close_op ∷ ts)))
        ≡ some (o, shown right (op close_op ∷ ts))
      → descend m primary_rule (shown right (op close_op ∷ ts)) ≡ parsed (right, op close_op ∷ ts)
      → descend (suc (suc (suc (suc (suc m))))) primary_rule (shown (bin o left right) ts)
        ≡ parsed (bin o left right, ts)
  unfolding shown
  compared-read m o left right ts h at k =
      let us = shown left (operator o (shown right (op close_op ∷ ts))) in
      bracketed (suc (suc m)) us (bin o left right) ts (
        or-closed (suc (suc m)) us (bin o left right) ts
          (and-closed m us (bin o left right) ts (compared m o left right ts h at k)))

  pub and-read :
      (m : ℕ) (left right : Expr F) (ts : List (Token F))
      → descend (suc m) primary_rule (shown left (op and_op ∷ shown right (op close_op ∷ ts)))
        ≡ parsed (left, op and_op ∷ shown right (op close_op ∷ ts))
      → descend m primary_rule (shown right (op close_op ∷ ts)) ≡ parsed (right, op close_op ∷ ts)
      → descend (suc (suc (suc (suc (suc (suc m)))))) primary_rule (shown (bin conj left right) ts)
        ≡ parsed (bin conj left right, ts)
  unfolding shown operator
  and-read m left right ts h k =
      let us = shown left (op and_op ∷ shown right (op close_op ∷ ts)) in
      bracketed (suc (suc (suc m))) us (bin conj left right) ts
        (or-closed (suc (suc (suc m))) us (bin conj left right) ts (joined_and m left right ts h k))

  pub or-read :
      (m : ℕ) (left right : Expr F) (ts : List (Token F))
      → descend (suc m) primary_rule (shown left (op or_op ∷ shown right (op close_op ∷ ts)))
        ≡ parsed (left, op or_op ∷ shown right (op close_op ∷ ts))
      → descend m primary_rule (shown right (op close_op ∷ ts)) ≡ parsed (right, op close_op ∷ ts)
      → descend (suc (suc (suc (suc (suc (suc m)))))) primary_rule (shown (bin disj left right) ts)
        ≡ parsed (bin disj left right, ts)
  unfolding shown operator
  or-read m left right ts h k =
      let us = shown left (op or_op ∷ shown right (op close_op ∷ ts)) in
      bracketed (suc (suc (suc m))) us (bin disj left right) ts (joined_or m left right ts h k)

  pub negate-read :
      (m : ℕ) (e : Expr F) (ts : List (Token F))
      → descend m primary_rule (shown e (op close_op ∷ ts)) ≡ parsed (e, op close_op ∷ ts)
      → descend (suc (suc (suc (suc (suc (suc m)))))) primary_rule (shown (negate e) ts)
        ≡ parsed (negate e, ts)
  unfolding shown descend operator_at
  negate-read m e ts h =
      let us = op not_op ∷ shown e (op close_op ∷ ts) in
      let inner = unary-read m e (op close_op ∷ ts) h refl in
      let turned : descend (suc (suc (suc m))) unary_rule us ≡ parsed (negate e, op close_op ∷ ts) =
        ap (λ p. p >>= (λ (arg, rest). parsed (negate arg, rest))) inner in
      bracketed (suc (suc (suc m))) us (negate e) ts (
        or-closed (suc (suc (suc m))) us (negate e) ts (and-closed (suc m) us (negate e) ts turned))

  pub len-read :
      (m : ℕ) (e : Expr F) (ts : List (Token F))
      → descend m primary_rule (shown e (op close_op ∷ ts)) ≡ parsed (e, op close_op ∷ ts)
      → descend (suc (suc (suc (suc (suc m))))) primary_rule (shown (len e) ts) ≡ parsed (len e, ts)
  unfolding shown descend operator_at is_open expect_close
  len-read m e ts h =
      let us = shown e (op close_op ∷ ts) in
      let inner =
        or-closed (suc (suc m)) us e ts
          (and-closed m us e ts (unary-read m e (op close_op ∷ ts) h refl)) in
      ap (λ p. p >>= (λ (arg, rest). expect_close (len arg, rest))) inner

  pub path-read :
      (m : ℕ) (root : String) (ws : List String) (ts : List (Token F))
      → (root == "true" || root == "false") ≡ false
      → Closes ts
      → descend (suc m) primary_rule (shown (path root ws) ts) ≡ parsed (path root ws, ts)
  unfolding shown descend path_as
  path-read m root ws ts plain closes =
      let shut = segments-shut ws ts closes in
      if-false _ _ plain
      ∙ if-false _ _ (and_shut (root == "has") _ shut)
      ∙ if-false _ _ (and_shut (root == "len") _ shut)
      ∙ ap (λ p. p >>= (λ (found, after). parsed (path root found, after)))
          (path_more-read ws ts closes)

  pub has-read :
      (m : ℕ) (root : String) (ws : List String) (ts : List (Token F))
      → descend (suc m) primary_rule (shown (has root ws) ts) ≡ parsed (has root ws, ts)
  unfolding shown descend path_as is_open expect_close
  has-read m root ws ts =
      ap (λ p. (p >>= (λ (found, after). parsed (has root found, after))) >>= expect_close)
        (path_more-read ws (op close_op ∷ ts) tt)

  -- Fuel counted back from what a lemma asks for.
  pub at_fuel :
      (n m : ℕ) (us : List (Token F)) (e : Expr F) (ts : List (Token F))
      → n ≡ m
      → descend m primary_rule us ≡ parsed (e, ts)
      → descend n primary_rule us ≡ parsed (e, ts)
  at_fuel n m us e ts same h = subst (λ f. descend f primary_rule us ≡ parsed (e, ts)) (sym same) h

  pub literal-read :
      (n : ℕ) (l : Literal F) (ts : List (Token F))
      → descend (suc n) primary_rule (shown (lit l) ts) ≡ parsed (lit l, ts)
  unfolding shown descend
  literal-read n (quoted s) ts = refl
  literal-read n (numeral v) ts = refl
  literal-read n (truth true) ts = refl
  literal-read n (truth false) ts = refl
