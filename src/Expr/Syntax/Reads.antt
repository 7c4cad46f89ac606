-- ===== src/Expr/Syntax/Reads.antt =====
-- packages/core/src/expr/lex.ts: the reading of tokens comes to an end.
use Prim.Native.Char.{Char, code}
use Prim.Native.String.{◌++◌}
use mathlib.Core.Path.{subst}
use mathlib.Core.Option.{some-injective}
use wilanis_js.Common.{
  ℕ, zero, suc, ◌+◌, ◌≤◌, ◌<◌, ◌≡◌, ◌≢◌, refl, ap, String, Bool, true, false, ◌&&◌, ◌||◌,
}
use wilanis_js.Common.{
  Option, none, some, List, [], ◌∷◌, All, arith, Bool-cases, Option-cases, inl, inr, if◌then◌else◌,
  nat_eq,
}
use wilanis_js.Expr.Syntax.{Token, Op}
use wilanis_js.Expr.Syntax.Lex.{Lexed, tokens, refused, out_of_fuel, span, begins, fraction}
use wilanis_js.Expr.Syntax.Lex.{
  number_text, until_quote, after_text, first_op, ops, Found, found, refusal,
}
use wilanis_js.Expr.Syntax.Lex.{
  string_found, operator_found, step_at, quoted, operated, push, count_chars, lex_from, lex,
}
use wilanis_js.Expr.Syntax.Lex.{is_digit, in_word, starts_word, is_space}

span-shorter : (test : ℕ → Bool) (text : String) → count_chars (span test text).1 ≤ count_chars text
unfolding span count_chars
span-shorter test String.[] = omega arith
span-shorter test (String.◌∷◌ c rest) = elim (Bool-cases (test (code c))) [
  | inl e ↦ rw e (let tail = span-shorter test rest in omega arith)
  | inr e ↦ rw e (omega arith)
]

-- A character that passes is read.
span-passes :
    (test : ℕ → Bool) (c : Char) (rest : String)
    → test (code c) ≡ true
    → count_chars (span test (String.◌∷◌ c rest)).1 ≤ count_chars rest
unfolding span
span-passes test c rest e = rw e (span-shorter test rest)

fraction-shorter : (digits text : String) → count_chars (fraction digits text).1 ≤ count_chars text
unfolding fraction count_chars
fraction-shorter digits String.[] = omega arith
fraction-shorter digits (String.◌∷◌ c rest) =
    elim (Bool-cases (nat_eq (code c) b'.' && begins is_digit rest)) [
      | inl e ↦ rw e (let tail = span-shorter is_digit rest in omega arith)
      | inr e ↦ rw e (omega arith)
    ]

until_quote-shorter :
    (mark : ℕ) (text inside after : String)
    → until_quote mark text ≡ some (inside, after)
    → count_chars after ≤ count_chars text
unfolding until_quote count_chars
until_quote-shorter mark String.[] inside after h = cc
until_quote-shorter mark (String.◌∷◌ c rest) inside after h =
    elim (Bool-cases (nat_eq (code c) mark)) [
      | inl e ↦
          let shorter : count_chars rest ≤ suc (count_chars rest) = omega arith in
          let stops : (String.[], rest) ≡ (inside, after) = some-injective _ _ (rw e at h) in
          let same : rest ≡ after = ap (λ p. p.1) stops in
          subst (λ r. count_chars r ≤ suc (count_chars rest)) same shorter
      | inr e ↦ elim (Option-cases (until_quote mark rest)) [
        | inl e' ↦ (let gone = rw (until_quote, e, e') at h in cc)
        | inr ((more, later), e') ↦
            let shorter : count_chars later ≤ suc (count_chars rest) =
              let tail = until_quote-shorter mark rest more later e' in omega arith in
            let goes : (String.◌∷◌ c more, later) ≡ (inside, after) =
              some-injective _ _ (rw (until_quote, e, e') at h) in
            let same : later ≡ after = ap (λ p. p.1) goes in
            subst (λ r. count_chars r ≤ suc (count_chars rest)) same shorter
      ]
    ]

after_text-shorter :
    (candidate text after : String)
    → after_text candidate text ≡ some after
    → count_chars after + count_chars candidate ≡ count_chars text
unfolding after_text count_chars
after_text-shorter String.[] text after h =
    let same = some-injective text after h in rw same (omega arith)
after_text-shorter (String.◌∷◌ c candidate) String.[] after h = cc
after_text-shorter (String.◌∷◌ c candidate) (String.◌∷◌ d text) after h =
    elim (Bool-cases (nat_eq (code c) (code d))) [
      | inl e ↦ let tail = after_text-shorter candidate text after (rw e at h) in omega arith
      | inr e ↦ (let gone = rw e at h in cc)
    ]

first_op-shorter :
    (table : List (String × Op)) (text after : String) (o : Op)
    → All (λ (candidate, _). 1 ≤ count_chars candidate) table
    → first_op table text ≡ some (o, after)
    → count_chars after < count_chars text
unfolding first_op
first_op-shorter [] text after o filled h = cc
first_op-shorter ((candidate, p) ∷ table) text after o (one, filled) h =
    elim (Option-cases (after_text candidate text)) [
      | inl e ↦ first_op-shorter table text after o filled (rw (first_op, e) at h)
      | inr (rest, e) ↦
          let shorter : count_chars rest < count_chars text =
            let counted = after_text-shorter candidate text rest e in omega arith in
          let begins_so : (p, rest) ≡ (o, after) = some-injective _ _ (rw (first_op, e) at h) in
          let same : rest ≡ after = ap (λ p. p.1) begins_so in
          subst (λ r. count_chars r < count_chars text) same shorter
    ]

ops-filled : All (λ (candidate, _). 1 ≤ count_chars candidate) ops
unfolding count_chars
ops-filled = (
  omega arith,
  (
    omega arith,
    (
      omega arith,
      (
        omega arith,
        (
          omega arith,
          (
            omega arith,
            (
              omega arith,
              (omega arith, (omega arith, (omega arith, (omega arith, (omega arith, tt))))),
            ),
          ),
        ),
      ),
    ),
  ),
)

read_first :
    (c : Char) (rest after : String) (o : Op)
    → first_op ops (String.◌∷◌ c rest) ≡ some (o, after)
    → count_chars after ≤ count_chars rest
unfolding count_chars
read_first c rest after o e =
    let shorter = first_op-shorter ops (String.◌∷◌ c rest) after o ops-filled e in omega arith

number_text-shorter :
    (sign text : String) → count_chars (number_text sign text).1 ≤ count_chars text
unfolding number_text
number_text-shorter sign text =
    let more = fraction-shorter (sign ++ (span is_digit text).0) (span is_digit text).1 in
    let digits = span-shorter is_digit text in omega arith

number_text-passes :
    (c : Char) (rest : String)
    → is_digit (code c) ≡ true
    → count_chars (number_text String.[] (String.◌∷◌ c rest)).1 ≤ count_chars rest
unfolding number_text
number_text-passes c rest e =
    let text : String = String.◌∷◌ c rest in
    let more = fraction-shorter (String.[] ++ (span is_digit text).0) (span is_digit text).1 in
    let digits = span-passes is_digit c rest e in omega arith

word_starts : (c : ℕ) → starts_word c ≡ true → in_word c ≡ true
word_starts c e = ap (λ b. b || is_digit c) e

module _ {F : Type 0} (read_number : String → F) where
  -- A token that is found leaves no more text than this.
  abbrev Leaves : ℕ → Found F → Type 0
  Leaves m (found (t, after)) = count_chars after ≤ m
  Leaves m (refusal why) = Unit

  if-Leaves :
      (m : ℕ) (x y : Found F) (b : Bool)
      → (b ≡ true → Leaves m x)
      → (b ≡ false → Leaves m y)
      → Leaves m (if b then x else y)
  if-Leaves m x y true then_so else_so = then_so refl
  if-Leaves m x y false then_so else_so = else_so refl

  quoted-Leaves :
      (m : ℕ) (text : String) (o : Option (String × String))
      → ((inside after : String) → o ≡ some (inside, after) → count_chars after ≤ m)
      → Leaves m (quoted read_number text o)
  quoted-Leaves m text none h = tt
  quoted-Leaves m text (some (inside, after)) h = h inside after refl

  operated-Leaves :
      (m : ℕ) (text : String) (o : Option (Op × String))
      → ((p : Op) (after : String) → o ≡ some (p, after) → count_chars after ≤ m)
      → Leaves m (operated read_number text o)
  operated-Leaves m text none h = tt
  operated-Leaves m text (some (p, after)) h = h p after refl

  string_found-Leaves :
      (c : Char) (rest : String) → Leaves (count_chars rest) (string_found read_number c rest)
  unfolding string_found
  string_found-Leaves c rest =
      quoted-Leaves (count_chars rest) (String.◌∷◌ c rest) (until_quote (code c) rest)
        (until_quote-shorter (code c) rest)

  operator_found-Leaves :
      (c : Char) (rest : String)
      → Leaves (count_chars rest) (operator_found read_number (String.◌∷◌ c rest))
  unfolding operator_found
  operator_found-Leaves c rest =
      operated-Leaves (count_chars rest) (String.◌∷◌ c rest) (first_op ops (String.◌∷◌ c rest))
        (λ o after e. read_first c rest after o e)

  step_at-Leaves :
      (c : Char) (rest : String) → Leaves (count_chars rest) (step_at read_number c rest)
  unfolding step_at
  step_at-Leaves c rest =
      if-Leaves (count_chars rest) _ _ (is_digit (code c)) (λ e. number_text-passes c rest e)
        (λ e.
          if-Leaves (count_chars rest) _ _ (nat_eq (code c) b'-' && begins is_digit rest)
            (λ e'. number_text-shorter _ rest)
            (λ e'.
              if-Leaves (count_chars rest) _ _ (nat_eq (code c) b'"' || nat_eq (code c) b'\'')
                (λ e''. string_found-Leaves c rest)
                (λ e''.
                  if-Leaves (count_chars rest) _ _ (starts_word (code c))
                    (λ w. span-passes in_word c rest (word_starts (code c) w))
                    (λ w. operator_found-Leaves c rest))))

  push-answered : (t : Token F) (o : Lexed F) → o ≢ out_of_fuel → push t o ≢ out_of_fuel
  push-answered t (tokens ts) h e = cc
  push-answered t (refused why) h e = cc
  push-answered t out_of_fuel h e = h e

  step-answered :
      (n m : ℕ)
      → ((next : String) → count_chars next < n → lex_from read_number n next ≢ out_of_fuel)
      → m < n
      → (o : Found F) → Leaves m o
      → (elim o [
        | refusal why ↦ refused why
        | found (t, after) ↦ push t (lex_from read_number n after)
      ])
        ≢ out_of_fuel
  step-answered n m h small (refusal why) fits = λ e. cc
  step-answered n m h small (found (t, after)) fits =
      push-answered t (lex_from read_number n after) (h after (omega arith))

  lex_from-answered :
      (n : ℕ) (text : String) → count_chars text < n → lex_from read_number n text ≢ out_of_fuel
  unfolding lex_from count_chars
  lex_from-answered zero text h e = absurd (omega arith)
  lex_from-answered (suc n) String.[] h e = cc
  lex_from-answered (suc n) (String.◌∷◌ c rest) h e = elim (Bool-cases (is_space (code c))) [
    | inl s ↦ lex_from-answered n rest (omega arith) (rw s at e)
    | inr s ↦
        step-answered n (count_chars rest) (λ next. lex_from-answered n next) (omega arith)
          (step_at read_number c rest) (step_at-Leaves c rest) (rw s at e)
  ]

-- Of every text the loop of `lex` comes to an end, with the tokens or with a refusal: each round goes on with a
-- shorter text, whatever a number reads as.
pub lex-answered :
    {F : Type 0} (read_number : String → F) (text : String) → lex read_number text ≢ out_of_fuel
unfolding lex
lex-answered read_number text =
    lex_from-answered read_number (suc (count_chars text)) text (omega arith)
