-- ===== src/Expr/Syntax/Fuel.antt =====
-- packages/core/src/expr/parse.ts: the descent comes to an end.
use wilanis_js.Common.{ℕ, zero, suc, ◌+◌, ◌*◌, ◌≤◌, ◌<◌, ◌≡◌, ◌≢◌, String, ◌||◌, ◌&&◌, ◌==◌, arith}
use wilanis_js.Common.{length, drop, some, List, [], ◌∷◌, Bool-cases, Option-cases, inl, inr}
use wilanis_js.Expr.{Expr, path, has, len, BinaryOp}
use wilanis_js.Expr.Syntax.{Token, number, quote, word, op, Parse, parsed, wrong, out_of_fuel}
use wilanis_js.Expr.Syntax.{
  eq_op, ne_op, le_op, ge_op, lt_op, gt_op, or_op, and_op, not_op, open_op, close_op, dot_op, Rule,
  or_rule, and_rule, unary_rule,
}
use wilanis_js.Expr.Syntax.{
  comparison_rule, primary_rule, or_more, and_more, Numerals, ◌>>=◌, expect_close,
}
use wilanis_js.Expr.Syntax.{operator_at, is_open, path_more, path_as, descend, whole, parse}

module _ {F : Type 0} where
  -- The fuel a nonterminal takes beyond six for each token.
  abbrev rank : Rule F → ℕ
  rank or_rule = 5
  rank and_rule = 4
  rank unary_rule = 3
  rank comparison_rule = 2
  rank primary_rule = 1
  rank (or_more left) = 1
  rank (and_more left) = 1

  -- Fewer tokens are left than this, if the descent reads a tree, and it does not run out of fuel.
  abbrev Within : {A : Type 0} → ℕ → Parse (A × List (Token F)) → Type 0
  Within m (parsed (a, rest)) = length rest < m
  Within m (wrong why) = Unit
  Within m out_of_fuel = ⊥

  abbrev limit : Rule F → ℕ → ℕ
  limit (or_more left) n = suc n
  limit (and_more left) n = suc n
  limit rule n = n

  Within-more :
      {A : Type 0} (m k : ℕ) (o : Parse (A × List (Token F))) → m ≤ k → Within m o → Within k o
  Within-more m k (parsed (a, rest)) h less = omega arith
  Within-more m k (wrong why) h less = tt
  Within-more m k out_of_fuel h less = absurd less

  bind-Within :
      {A B : Type 0} (m k : ℕ) (o : Parse (A × List (Token F)))
      (f : A × List (Token F) → Parse (B × List (Token F)))
      → Within m o
      → ((a : A) (rest : List (Token F)) → length rest < m → Within k (f (a, rest)))
      → Within k (o >>= f)
  bind-Within m k (parsed (a, rest)) f h next = next a rest h
  bind-Within m k (wrong why) f h next = tt
  bind-Within m k out_of_fuel f h next = absurd h

  expect_close-Within :
      (k : ℕ) (e : Expr F) (rest : List (Token F))
      → length rest < k
      → Within k (expect_close (e, rest))
  unfolding expect_close
  expect_close-Within k e (op close_op ∷ rest) h = omega arith
  expect_close-Within k e rest h = tt

  operator_at-shorter :
      (ts : List (Token F)) (o : BinaryOp) (rest : List (Token F))
      → operator_at ts ≡ some (o, rest)
      → length rest < length ts
  unfolding operator_at
  operator_at-shorter (op eq_op ∷ ts) o rest h = let same : ts ≡ rest = cc in rw same (omega arith)
  operator_at-shorter (op ne_op ∷ ts) o rest h = let same : ts ≡ rest = cc in rw same (omega arith)
  operator_at-shorter (op le_op ∷ ts) o rest h = let same : ts ≡ rest = cc in rw same (omega arith)
  operator_at-shorter (op ge_op ∷ ts) o rest h = let same : ts ≡ rest = cc in rw same (omega arith)
  operator_at-shorter (op lt_op ∷ ts) o rest h = let same : ts ≡ rest = cc in rw same (omega arith)
  operator_at-shorter (op gt_op ∷ ts) o rest h = let same : ts ≡ rest = cc in rw same (omega arith)
  operator_at-shorter (word w ∷ ts) o rest h = elim (Bool-cases (w == "in")) [
    | inl e ↦ let found = rw e at h in let same : ts ≡ rest = cc in rw same (omega arith)
    | inr e ↦ elim (Bool-cases (w == "contains")) [
      | inl e' ↦ let found = rw (e, e') at h in let same : ts ≡ rest = cc in rw same (omega arith)
      | inr e' ↦ (let gone = rw (e, e') at h in cc)
    ]
  ]
  operator_at-shorter ts o rest h = cc

  drop-shorter : (ts : List (Token F)) → length (drop 1 ts) ≤ length ts
  drop-shorter [] = omega arith
  drop-shorter (t ∷ ts) = omega arith

module _ {F : Type 0} ⦃numerals : Numerals F⦄ where
  path_more-Within : (ts : List (Token F)) → Within (suc (length ts)) (path_more ts)
  unfolding path_more
  path_more-Within (op dot_op ∷ word w ∷ ts) =
      bind-Within (suc (length ts)) (suc (suc (suc (length ts)))) (path_more ts) _
        (path_more-Within ts) (λ a rest less. omega arith)
  path_more-Within (op dot_op ∷ number n ∷ ts) =
      bind-Within (suc (length ts)) (suc (suc (suc (length ts)))) (path_more ts) _
        (path_more-Within ts) (λ a rest less. omega arith)
  path_more-Within (op dot_op ∷ ts) = tt
  path_more-Within ts = omega arith

  path_as-Within :
      (made : String → List String → Expr F) (ts : List (Token F))
      → Within (length ts) (path_as made ts)
  unfolding path_as
  path_as-Within made (word w ∷ rest) =
      bind-Within (suc (length rest)) (suc (length rest)) (path_more rest) _ (path_more-Within rest)
        (λ a r h. h)
  path_as-Within made ts = tt

  -- A word, given what `len` reads after its bracket.
  word-Within :
      (n : ℕ) (w : String) (ts : List (Token F))
      → Within (length (drop 1 ts)) (descend n or_rule (drop 1 ts))
      → Within (suc (length ts)) (descend (suc n) primary_rule (word w ∷ ts))
  unfolding descend
  word-Within n w ts inner =
      let shorter = drop-shorter ts in
      elim (Bool-cases (w == "true" || w == "false")) [
        | inl e ↦ rw (descend, e) (omega arith)
        | inr e ↦ elim (Bool-cases (w == "has" && is_open ts)) [
          | inl e' ↦
              rw (descend, e, e')
                (bind-Within (length (drop 1 ts)) (suc (length ts)) (path_as has (drop 1 ts))
                  expect_close (path_as-Within has (drop 1 ts))
                  (λ a rest less. expect_close-Within (suc (length ts)) a rest (omega arith)))
          | inr e' ↦ elim (Bool-cases (w == "len" && is_open ts)) [
            | inl e'' ↦
                rw (descend, e, e', e'')
                  (bind-Within (length (drop 1 ts)) (suc (length ts))
                    (descend n or_rule (drop 1 ts)) _ inner
                    (λ a rest less.
                      expect_close-Within (suc (length ts)) (len a) rest (omega arith)))
            | inr e'' ↦ rw (descend, e, e', e'') (path_as-Within path (word w ∷ ts))
          ]
        ]
      ]

  descend-Within :
      (n : ℕ) (rule : Rule F) (ts : List (Token F))
      → 6 * length ts + rank rule ≤ n
      → Within (limit rule (length ts)) (descend n rule ts)
  unfolding descend
  descend-Within zero or_rule ts h = absurd (omega arith)
  descend-Within zero and_rule ts h = absurd (omega arith)
  descend-Within zero unary_rule ts h = absurd (omega arith)
  descend-Within zero comparison_rule ts h = absurd (omega arith)
  descend-Within zero primary_rule ts h = absurd (omega arith)
  descend-Within zero (or_more left) ts h = absurd (omega arith)
  descend-Within zero (and_more left) ts h = absurd (omega arith)
  descend-Within (suc n) or_rule ts h =
      bind-Within (length ts) (length ts) (descend n and_rule ts) _
        (descend-Within n and_rule ts (omega arith))
        (λ left rest less.
          Within-more (suc (length rest)) (length ts) (descend n (or_more left) rest) less
            (descend-Within n (or_more left) rest (omega arith)))
  descend-Within (suc n) (or_more left) (op or_op ∷ ts) h =
      bind-Within (length ts) (suc (suc (length ts))) (descend n and_rule ts) _
        (descend-Within n and_rule ts (omega arith))
        (λ right rest less.
          Within-more (suc (length rest)) (suc (suc (length ts))) (descend n (or_more _) rest)
            (omega arith) (descend-Within n (or_more _) rest (omega arith)))
  descend-Within (suc n) (or_more left) ts h = omega arith
  descend-Within (suc n) and_rule ts h =
      bind-Within (length ts) (length ts) (descend n unary_rule ts) _
        (descend-Within n unary_rule ts (omega arith))
        (λ left rest less.
          Within-more (suc (length rest)) (length ts) (descend n (and_more left) rest) less
            (descend-Within n (and_more left) rest (omega arith)))
  descend-Within (suc n) (and_more left) (op and_op ∷ ts) h =
      bind-Within (length ts) (suc (suc (length ts))) (descend n unary_rule ts) _
        (descend-Within n unary_rule ts (omega arith))
        (λ right rest less.
          Within-more (suc (length rest)) (suc (suc (length ts))) (descend n (and_more _) rest)
            (omega arith) (descend-Within n (and_more _) rest (omega arith)))
  descend-Within (suc n) (and_more left) ts h = omega arith
  descend-Within (suc n) unary_rule (op not_op ∷ ts) h =
      bind-Within (length ts) (suc (length ts)) (descend n unary_rule ts) _
        (descend-Within n unary_rule ts (omega arith)) (λ arg rest less. omega arith)
  descend-Within (suc n) unary_rule ts h = descend-Within n comparison_rule ts (omega arith)
  descend-Within (suc n) comparison_rule ts h =
      bind-Within (length ts) (length ts) (descend n primary_rule ts) _
        (descend-Within n primary_rule ts (omega arith))
        (λ left rest less. elim (Option-cases (operator_at rest)) [
          | inl e ↦ rw e less
          | inr ((operator, after), e) ↦
              let shorter = operator_at-shorter rest operator after e in
              rw e (
                bind-Within (length after) (length ts) (descend n primary_rule after) _
                  (descend-Within n primary_rule after (omega arith))
                  (λ right rest' less'. omega arith))
        ])
  descend-Within (suc n) primary_rule [] h = tt
  descend-Within (suc n) primary_rule (number v ∷ ts) h = omega arith
  descend-Within (suc n) primary_rule (quote s ∷ ts) h = omega arith
  descend-Within (suc n) primary_rule (op open_op ∷ ts) h =
      bind-Within (length ts) (suc (length ts)) (descend n or_rule ts) expect_close
        (descend-Within n or_rule ts (omega arith))
        (λ e rest less. expect_close-Within (suc (length ts)) e rest (omega arith))
  descend-Within (suc n) primary_rule (op other ∷ ts) h = tt
  descend-Within (suc n) primary_rule (word w ∷ ts) h =
      let shorter = drop-shorter ts in
      word-Within n w ts (descend-Within n or_rule (drop 1 ts) (omega arith))

  whole-answered :
      (o : Parse (Expr F × List (Token F))) (m : ℕ) → Within m o → (o >>= whole) ≢ out_of_fuel
  whole-answered (parsed (e, [])) m h same = cc
  whole-answered (parsed (e, t ∷ rest)) m h same = cc
  whole-answered (wrong why) m h same = cc
  whole-answered out_of_fuel m h same = absurd h

  -- Whatever its tokens, the parse of an expression comes to a tree or to a refusal: it never runs out of fuel.
  pub parse-answered : (ts : List (Token F)) → parse ts ≢ out_of_fuel
  unfolding parse
  parse-answered ts =
      whole-answered (descend (6 * length ts + 6) or_rule ts) (length ts)
        (descend-Within (6 * length ts + 6) or_rule ts (omega arith))
