-- ===== src/Expr/Syntax/Lex.antt =====
-- packages/core/src/expr/lex.ts: the tokens of an expression's text. A position in the text is the text from
-- there on.
use Prim.Native.Char.{Char, code}
use Prim.Native.String.{◌++◌}
use wilanis_js.Common.{
  ℕ, zero, suc, String, Bool, false, ◌&&◌, ◌||◌, Option, none, some, List, [], ◌∷◌,
}
use wilanis_js.Common.{if◌then◌else◌, leb, nat_eq}
use wilanis_js.Expr.Syntax.{
  Token, number, quote, word, op, Op, eq_op, ne_op, le_op, ge_op, and_op, or_op, lt_op,
}
use wilanis_js.Expr.Syntax.{gt_op, not_op, open_op, close_op, dot_op}

-- What no token begins with, and a text that is not closed, from where each stands.
pub data LexError : Type 0 where
  unterminated unexpected : String → LexError

pub data Lexed (F : Type 0) : Type 0 where
  tokens : List (Token F) → Lexed F
  refused : LexError → Lexed F
  out_of_fuel : Lexed F

-- `Step`: a token and the text after it.
abbrev pub Step : Type 0 → Type 0
Step F = Token F × String

abbrev pub is_digit : ℕ → Bool
is_digit c = leb b'0' c && leb c b'9'

-- WORD_START
abbrev pub starts_word : ℕ → Bool
starts_word c = (leb b'A' c && leb c b'Z') || (leb b'a' c && leb c b'z') || nat_eq c b'_'

abbrev pub in_word : ℕ → Bool
in_word c = starts_word c || is_digit c

-- SPACE
abbrev pub is_space : ℕ → Bool
is_space c =
    (leb 9 c && leb c 13)
    || nat_eq c 32
    || nat_eq c 160
    || nat_eq c 5760
    || (leb 8192 c && leb c 8202)
    || nat_eq c 8232
    || nat_eq c 8233
    || nat_eq c 8239
    || nat_eq c 8287
    || nat_eq c 12288
    || nat_eq c 65279

-- The longest beginning of such characters, and the text after it.
unfoldable pub span : (ℕ → Bool) → String → String × String
span test String.[] = (String.[], String.[])
span test (String.◌∷◌ c rest) =
    let more = span test rest in
    if test (code c) then (String.◌∷◌ c more.0, more.1) else (String.[], String.◌∷◌ c rest)

unfoldable pub begins : (ℕ → Bool) → String → Bool
begins test String.[] = false
begins test (String.◌∷◌ c rest) = test (code c)

-- `(\.[0-9]+)?`, after some digits.
unfoldable pub fraction : String → String → String × String
unfolding span begins
fraction digits String.[] = (digits, String.[])
fraction digits (String.◌∷◌ c rest) =
    let more = span is_digit rest in
    if nat_eq (code c) b'.' && begins is_digit rest
    then (digits ++ String.◌∷◌ c more.0, more.1)
    else (digits, String.◌∷◌ c rest)

-- What NUMBER matches of a text, whose sign is before it.
unfoldable pub number_text : String → String → String × String
unfolding span fraction
number_text sign text = fraction (sign ++ (span is_digit text).0) (span is_digit text).1

-- The text up to a quote, and the text after that.
unfoldable pub until_quote : ℕ → String → Option (String × String)
until_quote mark String.[] = none
until_quote mark (String.◌∷◌ c rest) =
    let later = until_quote mark rest in
    if nat_eq (code c) mark
    then some (String.[], rest)
    else (elim later [ none ↦ none | some (inside, after) ↦ some (String.◌∷◌ c inside, after) ])

-- `startsWith(candidate)`, of an operator: the text after it.
unfoldable pub after_text : String → String → Option String
after_text String.[] text = some text
after_text (String.◌∷◌ c candidate) String.[] = none
after_text (String.◌∷◌ c candidate) (String.◌∷◌ d text) =
    let more = after_text candidate text in if nat_eq (code c) (code d) then more else none

abbrev pub ops : List (String × Op)
ops =
    ("==", eq_op)
    ∷ ("!=", ne_op)
    ∷ ("<=", le_op)
    ∷ (">=", ge_op)
    ∷ ("&&", and_op)
    ∷ ("||", or_op)
    ∷ ("<", lt_op)
    ∷ (">", gt_op)
    ∷ ("!", not_op)
    ∷ ("(", open_op)
    ∷ (")", close_op)
    ∷ (".", dot_op)
    ∷ []

-- `OPS.find`
unfoldable pub first_op : List (String × Op) → String → Option (Op × String)
unfolding after_text
first_op [] text = none
first_op ((candidate, o) ∷ rest) text =
    let later = first_op rest text in
    elim (after_text candidate text) [ none ↦ later | some after ↦ some (o, after) ]

-- What one position comes to: a token, nothing, or a refusal.
pub data Found (F : Type 0) : Type 0 where
  found : Step F → Found F
  refusal : LexError → Found F

abbrev pub push : {F : Type 0} → Token F → Lexed F → Lexed F
push t (tokens ts) = tokens (t ∷ ts)
push t (refused why) = refused why
push t out_of_fuel = out_of_fuel

unfoldable pub count_chars : String → ℕ
count_chars String.[] = 0
count_chars (String.◌∷◌ c rest) = suc (count_chars rest)

module _ {F : Type 0} (read_number : String → F) where
  -- What `stringAt` makes of the place of the quote that closes a text.
  abbrev pub quoted : String → Option (String × String) → Found F
  quoted text none = refusal (unterminated text)
  quoted text (some (inside, after)) = found (quote inside, after)

  -- `stringAt`, at a quote.
  unfoldable pub string_found : Char → String → Found F
  unfolding until_quote
  string_found c rest = quoted (String.◌∷◌ c rest) (until_quote (code c) rest)

  -- What `operatorAt` makes of the operator that it finds.
  abbrev pub operated : String → Option (Op × String) → Found F
  operated text none = refusal (unexpected text)
  operated text (some (o, after)) = found (op o, after)

  -- `operatorAt`
  unfoldable pub operator_found : String → Found F
  unfolding first_op
  operator_found text = operated text (first_op ops text)

  abbrev pub number_found : String × String → Found F
  number_found (text, after) = found (number (read_number text), after)

  abbrev pub word_found : String × String → Found F
  word_found (text, after) = found (word text, after)

  -- `numberAt`, `stringAt`, `wordAt`, `operatorAt`: the first that finds a token.
  unfoldable pub step_at : Char → String → Found F
  unfolding number_text string_found operator_found begins span
  step_at c rest =
      if is_digit (code c)
      then number_found (number_text String.[] (String.◌∷◌ c rest))
      else if nat_eq (code c) b'-' && begins is_digit rest
      then number_found (number_text (String.◌∷◌ c String.[]) rest)
      else if nat_eq (code c) b'"' || nat_eq (code c) b'\''
      then string_found c rest
      else if starts_word (code c)
      then word_found (span in_word (String.◌∷◌ c rest))
      else operator_found (String.◌∷◌ c rest)

  -- The loop of `lex`, in so many rounds at most.
  unfoldable pub lex_from : ℕ → String → Lexed F
  unfolding step_at
  lex_from zero text = out_of_fuel
  lex_from (suc n) String.[] = tokens []
  lex_from (suc n) (String.◌∷◌ c rest) =
      let spaced = lex_from n rest in
      if is_space (code c) then spaced else (elim (step_at c rest) [
        | refusal why ↦ refused why
        | found (t, after) ↦ push t (lex_from n after)
      ])

  -- `lex`
  unfoldable pub lex : String → Lexed F
  unfolding lex_from count_chars
  lex text = lex_from (suc (count_chars text)) text
