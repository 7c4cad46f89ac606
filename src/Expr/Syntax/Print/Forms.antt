-- ===== src/Expr/Syntax/Print/Forms.antt =====
-- packages/core/src/expr/parse.ts: expressions as tokens, and what each loop of the parser stops at.
use wilanis_js.Common.{
  ℕ, suc, ◌+◌, ◌≡◌, refl, ap, ◌∙◌, String, Bool, true, false, ◌||◌, ◌&&◌, ◌==◌, arith,
}
use wilanis_js.Common.{List, [], ◌∷◌, none, some, Option}
use wilanis_js.Expr.{
  Expr, lit, path, has, len, negate, bin, quoted, numeral, truth, BinaryOp, conj, disj,
}
use wilanis_js.Expr.{member_of, contains, compare, eq, ne, lt, le, gt, ge}
use wilanis_js.Expr.Syntax.{Token, number, quote, word, op, Parse, parsed, ◌>>=◌}
use wilanis_js.Expr.Syntax.{
  eq_op, ne_op, le_op, ge_op, lt_op, gt_op, or_op, and_op, not_op, open_op, close_op,
}
use wilanis_js.Expr.Syntax.{
  dot_op, or_rule, and_rule, unary_rule, comparison_rule, primary_rule, or_more,
}
use wilanis_js.Expr.Syntax.{and_more, Numerals, operator_at, path_more, descend, is_open}

module _ {F : Type 0} where
  -- An operator's token, before others.
  unfoldable pub operator : BinaryOp → List (Token F) → List (Token F)
  operator conj ts = op and_op ∷ ts
  operator disj ts = op or_op ∷ ts
  operator member_of ts = word "in" ∷ ts
  operator contains ts = word "contains" ∷ ts
  operator (compare eq) ts = op eq_op ∷ ts
  operator (compare ne) ts = op ne_op ∷ ts
  operator (compare lt) ts = op lt_op ∷ ts
  operator (compare le) ts = op le_op ∷ ts
  operator (compare gt) ts = op gt_op ∷ ts
  operator (compare ge) ts = op ge_op ∷ ts

  unfoldable pub segments : List String → List (Token F) → List (Token F)
  segments [] ts = ts
  segments (w ∷ ws) ts = op dot_op ∷ word w ∷ segments ws ts

  -- An expression's tokens, before others.
  unfoldable pub shown : Expr F → List (Token F) → List (Token F)
  unfolding operator segments
  shown (lit (quoted s)) ts = quote s ∷ ts
  shown (lit (numeral n)) ts = number n ∷ ts
  shown (lit (truth true)) ts = word "true" ∷ ts
  shown (lit (truth false)) ts = word "false" ∷ ts
  shown (path root ws) ts = word root ∷ segments ws ts
  shown (has root ws) ts = word "has" ∷ op open_op ∷ word root ∷ segments ws (op close_op ∷ ts)
  shown (len e) ts = word "len" ∷ op open_op ∷ shown e (op close_op ∷ ts)
  shown (negate e) ts = op open_op ∷ op not_op ∷ shown e (op close_op ∷ ts)
  shown (bin o left right) ts =
      op open_op ∷ shown left (operator o (shown right (op close_op ∷ ts)))

  -- No path begins with a word that reads as a literal.
  abbrev pub IsPrintable : Expr F → Type 0
  IsPrintable (lit l) = Unit
  IsPrintable (path root ws) = (root == "true" || root == "false") ≡ false
  IsPrintable (has root ws) = Unit
  IsPrintable (len e) = IsPrintable e
  IsPrintable (negate e) = IsPrintable e
  IsPrintable (bin o left right) = IsPrintable left × IsPrintable right

  -- Tokens that go on neither a path nor a call.
  abbrev pub Closes : List (Token F) → Type 0
  Closes (op dot_op ∷ ts) = ⊥
  Closes (op open_op ∷ ts) = ⊥
  Closes ts = Unit

  abbrev pub size : Expr F → ℕ
  size (lit l) = 1
  size (path root ws) = 1
  size (has root ws) = 1
  size (len e) = size e + 10
  size (negate e) = size e + 10
  size (bin o left right) = size left + size right + 10

  pub operator-Closes : (o : BinaryOp) (ts : List (Token F)) → Closes (operator o ts)
  unfolding operator
  operator-Closes conj ts = tt
  operator-Closes disj ts = tt
  operator-Closes member_of ts = tt
  operator-Closes contains ts = tt
  operator-Closes (compare eq) ts = tt
  operator-Closes (compare ne) ts = tt
  operator-Closes (compare lt) ts = tt
  operator-Closes (compare le) ts = tt
  operator-Closes (compare gt) ts = tt
  operator-Closes (compare ge) ts = tt

  closed_call : (ts : List (Token F)) → Closes ts → is_open ts ≡ false
  unfolding is_open
  closed_call (op open_op ∷ ts) h = absurd h
  closed_call ts h = refl

  pub segments-shut :
      (ws : List String) (ts : List (Token F)) → Closes ts → is_open (segments ws ts) ≡ false
  unfolding segments is_open
  segments-shut [] ts h = closed_call ts h
  segments-shut (w ∷ ws) ts h = refl

pub and_shut : (a b : Bool) → b ≡ false → (a && b) ≡ false
and_shut a b h = ground arith

module _ {F : Type 0} ⦃numerals : Numerals F⦄ where
  pub path_more-read :
      (ws : List String) (ts : List (Token F))
      → Closes ts
      → path_more (segments ws ts) ≡ parsed (ws, ts)
  unfolding path_more segments
  path_more-read [] (op dot_op ∷ ts) h = absurd h
  path_more-read [] ts h = refl
  path_more-read (w ∷ ws) ts h = rw (path_more-read ws ts h) refl

  pub unary-shown :
      (k : ℕ) (e : Expr F) (ts : List (Token F))
      → descend (suc k) unary_rule (shown e ts) ≡ descend k comparison_rule (shown e ts)
  unfolding descend shown
  unary-shown k (lit (quoted s)) ts = refl
  unary-shown k (lit (numeral n)) ts = refl
  unary-shown k (lit (truth true)) ts = refl
  unary-shown k (lit (truth false)) ts = refl
  unary-shown k (path root ws) ts = refl
  unary-shown k (has root ws) ts = refl
  unary-shown k (len e) ts = refl
  unary-shown k (negate e) ts = refl
  unary-shown k (bin o left right) ts = refl

  -- What a comparison does once its left is read.
  abbrev pub continued :
      ℕ
      → Expr F
      → List (Token F)
      → Option (BinaryOp × List (Token F))
      → Parse (Expr F × List (Token F))
  continued m left rest none = parsed (left, rest)
  continued m left rest (some (o, after)) =
      descend m primary_rule after >>= (λ (right, rest'). parsed (bin o left right, rest'))

  pub comparison-read :
      (m : ℕ) (us : List (Token F)) (left : Expr F) (rest : List (Token F))
      → descend m primary_rule us ≡ parsed (left, rest)
      → descend (suc m) comparison_rule us ≡ continued m left rest (operator_at rest)
  unfolding descend
  comparison-read m us left rest h =
      ap (λ p. p >>= (λ (left, rest). continued m left rest (operator_at rest))) h

  -- A primary that no operator follows.
  pub unary-read :
      (m : ℕ) (e : Expr F) (ts : List (Token F))
      → descend m primary_rule (shown e ts) ≡ parsed (e, ts)
      → operator_at ts ≡ none
      → descend (suc (suc m)) unary_rule (shown e ts) ≡ parsed (e, ts)
  unfolding descend
  unary-read m e ts h alone =
      unary-shown (suc m) e ts ∙ comparison-read m (shown e ts) e ts h ∙ ap (continued m e ts) alone

  -- What closes: no operator goes on after it.
  pub and-closed :
      (m : ℕ) (us : List (Token F)) (e : Expr F) (ts : List (Token F))
      → descend (suc (suc m)) unary_rule us ≡ parsed (e, op close_op ∷ ts)
      → descend (suc (suc (suc m))) and_rule us ≡ parsed (e, op close_op ∷ ts)
  unfolding descend
  and-closed m us e ts h =
      ap (λ o. o >>= (λ (left, rest). descend (suc (suc m)) (and_more left) rest)) h

  pub or-closed :
      (m : ℕ) (us : List (Token F)) (e : Expr F) (ts : List (Token F))
      → descend (suc m) and_rule us ≡ parsed (e, op close_op ∷ ts)
      → descend (suc (suc m)) or_rule us ≡ parsed (e, op close_op ∷ ts)
  unfolding descend
  or-closed m us e ts h = ap (λ o. o >>= (λ (left, rest). descend (suc m) (or_more left) rest)) h
