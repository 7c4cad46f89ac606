-- ===== src/Expr/Syntax/LexTests.antt =====
-- Texts of expressions and their tokens.
use wilanis_js.Common.{◌≡◌, ◌≢◌, refl, [], ◌∷◌, String}
use wilanis_js.Expr.Syntax.{number, quote, word, op, dot_op, ge_op, eq_op, not_op}
use wilanis_js.Expr.Syntax.Lex.{tokens, refused, out_of_fuel, unterminated, unexpected, lex}
use wilanis_js.Expr.Syntax.Reads.{lex-answered}

abbrev as_written : String → String
as_written text = text

spaced :
    lex as_written "!a.b >= -1.5"
    ≡ tokens (op not_op ∷ word "a" ∷ op dot_op ∷ word "b" ∷ op ge_op ∷ number "-1.5" ∷ [])
unfolding lex
spaced = refl

quoted : lex as_written "\"it's\"==name" ≡ tokens (quote "it's" ∷ op eq_op ∷ word "name" ∷ [])
unfolding lex
quoted = refl

unclosed : lex as_written "a == 'b" ≡ refused (unterminated "'b")
unfolding lex
unclosed = refl

unknown : lex as_written "a @ b" ≡ refused (unexpected "@ b")
unfolding lex
unknown = refl

-- Two numeric segments in a row are one number.
nested_index : lex as_written "rows.0.1" ≡ tokens (word "rows" ∷ op dot_op ∷ number "0.1" ∷ [])
unfolding lex
nested_index = refl

lex-answered_example : lex as_written "rows.0 >= 'b" ≢ out_of_fuel
lex-answered_example = lex-answered as_written "rows.0 >= 'b"
