-- ===== src/Expr/Keys.antt =====
-- `path.join('.')`, the key a path is proved under.
use mathlib.Core.Path.{ap₂}
use Prim.Native.Char.{Char, code}
use Prim.Native.String.{◌++◌}
use text.Mathlib.TextLemmas.{
  nil-append, cons-append, nil≢cons, cons≢nil, head-eq_of_cons-eq, tail-eq_of_cons-eq,
}
use wilanis_js.Common.{
  String, Bool, true, not, ◌&&◌, List, [], ◌∷◌, nat_eq, ◌≡◌, refl, sym, ◌∙◌, arith, ◌≢◌, All,
}

unfoldable pub dotted : List String → String
dotted [] = String.[]
dotted (segment ∷ rest) = String.◌∷◌ "." (segment ++ dotted rest)

unfoldable pub join : String → List String → String
unfolding dotted
join root rest = root ++ dotted rest

-- No segment the lexer reads holds a dot.
abbrev pub is_dotless : String → Bool
is_dotless String.[] = true
is_dotless (String.◌∷◌ c rest) = not (nat_eq (code c) b'.') && is_dotless rest

-- What follows a segment in a key: nothing, or a dot.
abbrev AfterSegment : String → Type 0
AfterSegment String.[] = Unit
AfterSegment (String.◌∷◌ c rest) = nat_eq (code c) b'.' ≡ true

dotted-AfterSegment : (rest : List String) → AfterSegment (dotted rest)
unfolding dotted
dotted-AfterSegment [] = tt
dotted-AfterSegment (segment ∷ rest) = refl

no_clash :
    (c : Char) (b x y : String)
    → is_dotless (String.◌∷◌ c b) ≡ true
    → AfterSegment x
    → x ≢ (String.◌∷◌ c b) ++ y
no_clash c b String.[] y d a h = nil≢cons (h ∙ cons-append c b y)
no_clash c b (String.◌∷◌ e x) y d a h =
    let same : e ≡ c = head-eq_of_cons-eq (h ∙ cons-append c b y) in
    let dot : nat_eq (code c) b'.' ≡ true = rw same at a in ground arith

is_dotless-tail : (c : Char) (b : String) → is_dotless (String.◌∷◌ c b) ≡ true → is_dotless b ≡ true
is_dotless-tail c b h = ground arith

-- Two keys that begin with a dotless segment each begin with the same one.
append-split :
    (a b x y : String)
    → is_dotless a ≡ true
    → is_dotless b ≡ true
    → AfterSegment x
    → AfterSegment y
    → a ++ x ≡ b ++ y
    → (a ≡ b) × (x ≡ y)
append-split String.[] String.[] x y da db ax ay h = (refl, sym (nil-append x) ∙ h ∙ nil-append y)
append-split String.[] (String.◌∷◌ c b) x y da db ax ay h =
    absurd (no_clash c b x y db ax (sym (nil-append x) ∙ h))
append-split (String.◌∷◌ c a) String.[] x y da db ax ay h =
    absurd (no_clash c a y x da ay (sym (nil-append y) ∙ sym h))
append-split (String.◌∷◌ c a) (String.◌∷◌ d b) x y da db ax ay h =
    let both = sym (cons-append c a x) ∙ h ∙ cons-append d b y in
    let head : c ≡ d = head-eq_of_cons-eq both in
    let (front, back) =
      append-split a b x y (is_dotless-tail c a da) (is_dotless-tail d b db) ax ay
        (tail-eq_of_cons-eq both) in
    (ap₂ String.◌∷◌ head front, back)

dotted-injective :
    (rest other : List String)
    → All (λ s. is_dotless s ≡ true) rest
    → All (λ s. is_dotless s ≡ true) other
    → dotted rest ≡ dotted other
    → rest ≡ other
unfolding dotted
dotted-injective [] [] d e h = refl
dotted-injective [] (s ∷ other) d e h = absurd (nil≢cons h)
dotted-injective (s ∷ rest) [] d e h = absurd (cons≢nil h)
dotted-injective (s ∷ rest) (t ∷ other) d e h =
    let (front, back) =
      append-split s t (dotted rest) (dotted other) d.0 e.0 (dotted-AfterSegment rest)
        (dotted-AfterSegment other) (tail-eq_of_cons-eq h) in
    ap₂ ◌∷◌ front (dotted-injective rest other d.1 e.1 back)

-- Two paths of dotless segments with one key are one path.
pub join-injective :
    (root root' : String) (rest rest' : List String)
    → All (λ s. is_dotless s ≡ true) (root ∷ rest)
    → All (λ s. is_dotless s ≡ true) (root' ∷ rest')
    → join root rest ≡ join root' rest'
    → (root ≡ root') × (rest ≡ rest')
unfolding join
join-injective root root' rest rest' d e h =
    let (front, back) =
      append-split root root' (dotted rest) (dotted rest') d.0 e.0 (dotted-AfterSegment rest)
        (dotted-AfterSegment rest') h in
    (front, dotted-injective rest rest' d.1 e.1 back)
