-- ===== src/Expr/Syntax/Tests.antt =====
-- Expressions read from their tokens.
use wilanis_js.Common.{ℕ, ◌≡◌, ◌≢◌, refl, List, [], ◌∷◌}
use wilanis_js.Expr.{
  Expr, lit, path, has, len, negate, bin, quoted, numeral, conj, disj, member_of, compare, lt,
}
use wilanis_js.Expr.Syntax.{Token, number, word, op, Numerals, parsed, wrong, out_of_fuel, parse}
use wilanis_js.Expr.Syntax.{or_op, and_op, open_op, close_op, dot_op, lt_op, trailing_tokens}
use wilanis_js.Expr.Syntax.Fuel.{parse-answered}
use wilanis_js.Expr.Syntax.Print.{shown}
use wilanis_js.Expr.Syntax.Round.{parse-shown}

instance abbrev nat_numerals : Numerals ℕ
nat_numerals = record { spelled_number = λ n. "a number" }

-- `a || b.c && 3 < len(d)`
abbrev tokens : List (Token ℕ)
tokens =
    word "a"
    ∷ op or_op
    ∷ word "b"
    ∷ op dot_op
    ∷ word "c"
    ∷ op and_op
    ∷ number 3
    ∷ op lt_op
    ∷ word "len"
    ∷ op open_op
    ∷ word "d"
    ∷ op close_op
    ∷ []

tree :
    parse tokens
    ≡ parsed (
        bin disj
          (path "a" [])
          (bin conj (path "b" ("c" ∷ [])) (bin (compare lt) (lit (numeral 3)) (len (path "d" [])))))
unfolding parse
tree = refl

-- A comparison does not chain.
chained :
    parse {F = ℕ} (number 1 ∷ op lt_op ∷ number 2 ∷ op lt_op ∷ number 3 ∷ [])
    ≡ wrong trailing_tokens
unfolding parse
chained = refl

parse-answered_example : parse tokens ≢ out_of_fuel
parse-answered_example = parse-answered tokens

abbrev guarded : Expr ℕ
guarded =
    bin conj (has "user" ("roles" ∷ []))
      (negate (bin member_of (lit (quoted "admin")) (path "user" ("roles" ∷ []))))

parse-shown_example : parse (shown guarded []) ≡ parsed guarded
parse-shown_example = parse-shown guarded (tt, (tt, refl))
