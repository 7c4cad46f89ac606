-- ===== src/Expr/Syntax.antt =====
-- packages/core/src/expr/parse.ts: the descent over the tokens of an expression.
pub mod Lex
pub mod Reads
mod LexTests
pub mod Fuel
pub mod Print
pub mod Round
mod Tests
use wilanis_js.Common.{
  ℕ, zero, suc, ◌+◌, ◌*◌, String, Bool, true, false, not, ◌&&◌, ◌||◌, ◌==◌, length, drop,
}
use wilanis_js.Common.{Option, none, some, List, [], ◌∷◌, if◌then◌else◌}
use wilanis_js.Expr.{
  Expr, lit, path, has, len, negate, bin, quoted, numeral, truth, BinaryOp, conj, disj,
}
use wilanis_js.Expr.{member_of, contains, compare, eq, ne, lt, le, gt, ge}

-- OPS
pub data Op : Type 0 where
  eq_op ne_op le_op ge_op and_op or_op lt_op gt_op not_op open_op close_op dot_op : Op

-- `Token`
pub data Token (F : Type 0) : Type 0 where
  number : F → Token F
  quote : String → Token F
  word : String → Token F
  op : Op → Token F

-- What the grammar refuses, and where it stops being an expression.
pub data SyntaxError : Type 0 where
  trailing_tokens unexpected_end unexpected_token expected_path bad_path expected_close :
      SyntaxError

-- What a descent comes to: a tree and the tokens after it, or a refusal.
pub data Parse {ℓ} (A : Type ℓ) : Type ℓ where
  parsed : A → Parse A
  wrong : SyntaxError → Parse A
  out_of_fuel : Parse A

-- The nonterminals of the grammar, and its two loops with the tree that is read so far.
pub data Rule (F : Type 0) : Type 0 where
  or_rule and_rule unary_rule comparison_rule primary_rule : Rule F
  or_more and_more : Expr F → Rule F

-- What the language makes of a number in a path: `String`.
pub record Numerals (F : Type 0) : Type 0 where
  pub spelled_number : F → String

infixl 1 ◌>>=◌
abbrev pub ◌>>=◌ : {A B : Type 0} → Parse A → (A → Parse B) → Parse B
parsed a >>= f = f a
wrong why >>= f = wrong why
out_of_fuel >>= f = out_of_fuel

module _ {F : Type 0} where
  -- `expect(')')`
  unfoldable pub expect_close : Expr F × List (Token F) → Parse (Expr F × List (Token F))
  expect_close (e, op close_op ∷ rest) = parsed (e, rest)
  expect_close (e, rest) = wrong expected_close

  -- COMPARISONS, then WORDS: the operator that follows a value, and the tokens after it.
  unfoldable pub operator_at : List (Token F) → Option (BinaryOp × List (Token F))
  operator_at (op eq_op ∷ rest) = some (compare eq, rest)
  operator_at (op ne_op ∷ rest) = some (compare ne, rest)
  operator_at (op le_op ∷ rest) = some (compare le, rest)
  operator_at (op ge_op ∷ rest) = some (compare ge, rest)
  operator_at (op lt_op ∷ rest) = some (compare lt, rest)
  operator_at (op gt_op ∷ rest) = some (compare gt, rest)
  operator_at (word w ∷ rest) =
      if w == "in"
      then some (member_of, rest)
      else if w == "contains"
      then some (contains, rest)
      else none
  operator_at rest = none

  unfoldable pub is_open : List (Token F) → Bool
  is_open (op open_op ∷ rest) = true
  is_open rest = false

module _ {F : Type 0} ⦃numerals : Numerals F⦄ where
  -- The loop of `path`, after the segments read so far, the last first.
  unfoldable pub path_more : List (Token F) → Parse (List String × List (Token F))
  path_more (op dot_op ∷ word w ∷ rest) =
      path_more rest >>= (λ (segments, after). parsed (w ∷ segments, after))
  path_more (op dot_op ∷ number n ∷ rest) =
      path_more rest >>= (λ (segments, after). parsed (numerals.spelled_number n ∷ segments, after))
  path_more (op dot_op ∷ rest) = wrong bad_path
  path_more rest = parsed ([], rest)

  -- `path`, as a read or as what `has` asks for.
  unfoldable pub path_as :
      (String → List String → Expr F) → List (Token F) → Parse (Expr F × List (Token F))
  unfolding path_more
  path_as made (word w ∷ rest) =
      path_more rest >>= (λ (segments, after). parsed (made w segments, after))
  path_as made rest = wrong expected_path

  -- `or`, `and`, `unary`, `comparison` and `primary`, `word` included; each call costs a unit of fuel.
  unfoldable pub descend : ℕ → Rule F → List (Token F) → Parse (Expr F × List (Token F))
  unfolding expect_close operator_at is_open path_as
  descend zero rule ts = out_of_fuel
  descend (suc n) or_rule ts =
      descend n and_rule ts >>= (λ (left, rest). descend n (or_more left) rest)
  descend (suc n) (or_more left) (op or_op ∷ ts) =
      descend n and_rule ts >>= (λ (right, rest). descend n (or_more (bin disj left right)) rest)
  descend (suc n) (or_more left) ts = parsed (left, ts)
  descend (suc n) and_rule ts =
      descend n unary_rule ts >>= (λ (left, rest). descend n (and_more left) rest)
  descend (suc n) (and_more left) (op and_op ∷ ts) =
      descend n unary_rule ts >>= (λ (right, rest). descend n (and_more (bin conj left right)) rest)
  descend (suc n) (and_more left) ts = parsed (left, ts)
  descend (suc n) unary_rule (op not_op ∷ ts) =
      descend n unary_rule ts >>= (λ (arg, rest). parsed (negate arg, rest))
  descend (suc n) unary_rule ts = descend n comparison_rule ts
  descend (suc n) comparison_rule ts = descend n primary_rule ts >>= (λ (left, rest).
      elim (operator_at rest) [
        | none ↦ parsed (left, rest)
        | some (operator, after) ↦
            descend n primary_rule after
            >>= (λ (right, rest'). parsed (bin operator left right, rest'))
      ])
  descend (suc n) primary_rule [] = wrong unexpected_end
  descend (suc n) primary_rule (number v ∷ ts) = parsed (lit (numeral v), ts)
  descend (suc n) primary_rule (quote s ∷ ts) = parsed (lit (quoted s), ts)
  descend (suc n) primary_rule (op open_op ∷ ts) = descend n or_rule ts >>= expect_close
  descend (suc n) primary_rule (op other ∷ ts) = wrong unexpected_token
  descend (suc n) primary_rule (word w ∷ ts) =
      let call = descend n or_rule (drop 1 ts) >>= (λ (arg, rest). expect_close (len arg, rest)) in
      if w == "true" || w == "false"
      then parsed (lit (truth (w == "true")), ts)
      else if w == "has" && is_open ts
      then path_as has (drop 1 ts) >>= expect_close
      else if w == "len" && is_open ts
      then call
      else path_as path (word w ∷ ts)

  abbrev pub whole : Expr F × List (Token F) → Parse (Expr F)
  whole (e, []) = parsed e
  whole (e, t ∷ rest) = wrong trailing_tokens

  -- `parse`, of the tokens of an expression.
  unfoldable pub parse : List (Token F) → Parse (Expr F)
  unfolding descend
  parse ts = descend (6 * length ts + 6) or_rule ts >>= whole
