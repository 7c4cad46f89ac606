-- ===== src/Storage/Sorted.antt =====
-- packages/plugin-storage-memory/src/match.ts: the comparison of records is consistent where each field that is
-- ordered by holds values of one kind.
use mathlib.Core.Path.{ap₂}
use wilanis_js.Common.{◌≡◌, refl, sym, ap, ◌∙◌, Bool, true, false, Option, none, some}
use wilanis_js.Common.{List, [], ◌∷◌, IsAmong}
use wilanis_js.Common.Dict as Dict
use wilanis_js.Types.{Value, null, bool, num, str, arr, obj, Floats}
use wilanis_js.Expr.{Coercions}
use wilanis_js.Storage.{Spelling, Record}
use wilanis_js.Storage.Match.{
  Order, Sign, less, equal, more, is_more, opposite, Collation, bool_difference,
}
use wilanis_js.Storage.Match.{compare, compare_records, text_or_empty, untied, directed}
use wilanis_js.Storage.Sorting.{IsConsistent}

-- The kinds of values that are compared each in its own way.
pub data Kind : Type 0 where
  numbers booleans texts : Kind

abbrev pub kind_of : {F : Type 0} → Option (Value F) → Kind
kind_of (some (num n)) = numbers
kind_of (some (bool b)) = booleans
kind_of other = texts

-- Under each field that is ordered by, the records hold values of one kind.
abbrev pub AreOfOneKind : {F : Type 0} → List Order → List (Record F) → Type 0
AreOfOneKind [] rs = Unit
AreOfOneKind {F} (one ∷ rest) rs =
    ((kind : Kind) × ((r : Record F) → IsAmong r rs → kind_of (Dict.get one.by r) ≡ kind))
    × AreOfOneKind rest rs

bool_difference-turned : (b c : Bool) → bool_difference c b ≡ opposite (bool_difference b c)
unfolding bool_difference opposite
bool_difference-turned true true = refl
bool_difference-turned true false = refl
bool_difference-turned false true = refl
bool_difference-turned false false = refl

bool_difference-transitive :
    (b c d : Bool)
    → is_more (bool_difference b c) ≡ false
    → is_more (bool_difference c d) ≡ false
    → is_more (bool_difference b d) ≡ false
unfolding bool_difference is_more
bool_difference-transitive true true d h k = k
bool_difference-transitive true false d h k = cc
bool_difference-transitive false c true h k = refl
bool_difference-transitive false c false h k = refl

untied-opposite :
    (descending : Bool) (answer next : Sign)
    → untied (directed descending (opposite answer)) (opposite next)
      ≡ opposite (untied (directed descending answer) next)
unfolding untied directed opposite
untied-opposite true less next = refl
untied-opposite true equal next = refl
untied-opposite true more next = refl
untied-opposite false less next = refl
untied-opposite false equal next = refl
untied-opposite false more next = refl

untied-first : (answer next : Sign) → is_more (untied answer next) ≡ false → is_more answer ≡ false
unfolding untied is_more
untied-first less next h = refl
untied-first equal next h = refl
untied-first more next h = h

untied-transitive :
    (x y z first second third : Sign)
    → is_more z ≡ false
    → (z ≡ equal → (x ≡ equal) × (y ≡ equal))
    → (is_more first ≡ false → is_more second ≡ false → is_more third ≡ false)
    → is_more (untied x first) ≡ false
    → is_more (untied y second) ≡ false
    → is_more (untied z third) ≡ false
unfolding untied is_more
untied-transitive x y less first second third z_not ties next h k = refl
untied-transitive x y more first second third z_not ties next h k = z_not
untied-transitive x y equal first second third z_not ties next h k =
    let (x_ties, y_ties) = ties refl in next (rw x_ties at h) (rw y_ties at k)

-- Two comparisons in a row that tie over all tie each.
ties_each :
    (x y z : Sign)
    → (is_more y ≡ false → is_more (opposite z) ≡ false → is_more (opposite x) ≡ false)
    → (is_more (opposite z) ≡ false → is_more x ≡ false → is_more (opposite y) ≡ false)
    → is_more x ≡ false
    → is_more y ≡ false
    → z ≡ equal
    → (x ≡ equal) × (y ≡ equal)
unfolding is_more opposite
ties_each equal equal z one other h k e = (refl, refl)
ties_each less y z one other h k e = absurd (let gone = one k (rw e refl) in cc)
ties_each x less z one other h k e = absurd (let gone = other (rw e refl) h in cc)
ties_each more y z one other h k e = cc
ties_each x more z one other h k e = cc

module _ {F : Type 0} ⦃fl : Floats F⦄ ⦃js : Coercions F⦄ ⦃sp : Spelling F⦄ ⦃co : Collation F⦄ where
  pub compare-turned :
      (left right : Option (Value F)) → compare right left ≡ opposite (compare left right)
  unfolding compare
  compare-turned (some (num n)) (some (num m)) = co.difference_turned n m
  compare-turned (some (bool b)) (some (bool c)) = bool_difference-turned b c
  compare-turned none (some (num m)) = co.locale_compare_turned (text_or_empty {F = F} none) _
  compare-turned (some null) (some (num m)) =
      co.locale_compare_turned (text_or_empty {F = F} (some null)) _
  compare-turned (some (str s)) (some (num m)) =
      co.locale_compare_turned (text_or_empty {F = F} (some (str s))) _
  compare-turned (some (arr v)) (some (num m)) =
      co.locale_compare_turned (text_or_empty {F = F} (some (arr v))) _
  compare-turned (some (obj v)) (some (num m)) =
      co.locale_compare_turned (text_or_empty {F = F} (some (obj v))) _
  compare-turned left right = co.locale_compare_turned (text_or_empty left) (text_or_empty right)

  number_there : (o : Option (Value F)) → kind_of o ≡ numbers → (n : F) × (o ≡ some (num n))
  number_there (some (num n)) h = (n, refl)
  number_there (some (bool b)) h = cc
  number_there (some null) h = cc
  number_there (some (str s)) h = cc
  number_there (some (arr vs)) h = cc
  number_there (some (obj m)) h = cc
  number_there none h = cc

  boolean_there : (o : Option (Value F)) → kind_of o ≡ booleans → (b : Bool) × (o ≡ some (bool b))
  boolean_there (some (bool b)) h = (b, refl)
  boolean_there (some (num n)) h = cc
  boolean_there (some null) h = cc
  boolean_there (some (str s)) h = cc
  boolean_there (some (arr vs)) h = cc
  boolean_there (some (obj m)) h = cc
  boolean_there none h = cc

  compare-texts :
      (left right : Option (Value F))
      → kind_of left ≡ texts
      → compare left right ≡ co.locale_compare (text_or_empty left) (text_or_empty right)
  unfolding compare
  compare-texts none right h = refl
  compare-texts (some null) right h = refl
  compare-texts (some (str s)) right h = refl
  compare-texts (some (arr vs)) right h = refl
  compare-texts (some (obj m)) right h = refl
  compare-texts (some (num n)) right h = cc
  compare-texts (some (bool b)) right h = cc

  -- No more than, of values.
  abbrev IsUpTo : Option (Value F) → Option (Value F) → Type 0
  IsUpTo left right = is_more (compare left right) ≡ false

  compare-transitive :
      (kind : Kind) (a b c : Option (Value F))
      → kind_of a ≡ kind
      → kind_of b ≡ kind
      → kind_of c ≡ kind
      → IsUpTo a b
      → IsUpTo b c
      → IsUpTo a c
  unfolding compare
  compare-transitive numbers a b c ka kb kc h k =
      let (n, ea) = number_there a ka in
      let (m, eb) = number_there b kb in
      let (l, ec) = number_there c kc in
      rw (ea, ec) (co.difference_transitive n m l (rw (ea, eb) at h) (rw (eb, ec) at k))
  compare-transitive booleans a b c ka kb kc h k =
      let (n, ea) = boolean_there a ka in
      let (m, eb) = boolean_there b kb in
      let (l, ec) = boolean_there c kc in
      rw (ea, ec) (bool_difference-transitive n m l (rw (ea, eb) at h) (rw (eb, ec) at k))
  compare-transitive texts a b c ka kb kc h k =
      ap is_more (compare-texts a c ka)
      ∙ co.locale_compare_transitive (text_or_empty a) (text_or_empty b) (text_or_empty c)
          (sym (ap is_more (compare-texts a b ka)) ∙ h)
          (sym (ap is_more (compare-texts b c kb)) ∙ k)

  pub compare_records-turned :
      (order : List Order) (left right : Record F)
      → compare_records order right left ≡ opposite (compare_records order left right)
  unfolding compare_records opposite
  compare_records-turned [] left right = refl
  compare_records-turned (one ∷ rest) left right =
      ap₂ (λ answer next. untied (directed one.descending answer) next)
        (compare-turned (Dict.get one.by left) (Dict.get one.by right))
        (compare_records-turned rest left right)
      ∙ untied-opposite one.descending _ _

  directed-transitive :
      (descending : Bool) (kind : Kind) (a b c : Option (Value F))
      → kind_of a ≡ kind
      → kind_of b ≡ kind
      → kind_of c ≡ kind
      → is_more (directed descending (compare a b)) ≡ false
      → is_more (directed descending (compare b c)) ≡ false
      → is_more (directed descending (compare a c)) ≡ false
  unfolding directed
  directed-transitive false kind a b c ka kb kc h k = compare-transitive kind a b c ka kb kc h k
  directed-transitive true kind a b c ka kb kc h k =
      ap is_more (sym (compare-turned a c))
      ∙ compare-transitive kind c b a kc kb ka (ap is_more (compare-turned b c) ∙ k)
          (ap is_more (compare-turned a b) ∙ h)

  directed-turned :
      (descending : Bool) (a b : Option (Value F))
      → directed descending (compare b a) ≡ opposite (directed descending (compare a b))
  unfolding directed
  directed-turned false a b = compare-turned a b
  directed-turned true a b = ap opposite (compare-turned a b)

  compare_records-transitive :
      (order : List Order) (rs : List (Record F)) (a b c : Record F)
      → AreOfOneKind order rs
      → IsAmong a rs
      → IsAmong b rs
      → IsAmong c rs
      → is_more (compare_records order a b) ≡ false
      → is_more (compare_records order b c) ≡ false
      → is_more (compare_records order a c) ≡ false
  unfolding compare_records
  compare_records-transitive [] rs a b c kinds ia ib ic h k = h
  compare_records-transitive (one ∷ rest) rs a b c ((kind, of_kind), kinds) ia ib ic h k =
      let va : Option (Value F) = Dict.get one.by a in
      let vb : Option (Value F) = Dict.get one.by b in
      let vc : Option (Value F) = Dict.get one.by c in
      let ka = of_kind a ia in
      let kb = of_kind b ib in
      let kc = of_kind c ic in
      let d = one.descending in
      let x : is_more (directed d (compare va vb)) ≡ false = untied-first _ _ h in
      let y : is_more (directed d (compare vb vc)) ≡ false = untied-first _ _ k in
      untied-transitive (directed d (compare va vb)) (directed d (compare vb vc))
        (directed d (compare va vc)) (compare_records rest a b) (compare_records rest b c)
        (compare_records rest a c) (directed-transitive d kind va vb vc ka kb kc x y)
        (ties_each (directed d (compare va vb)) (directed d (compare vb vc))
          (directed d (compare va vc))
          (λ p q.
            ap is_more (sym (directed-turned d va vb))
            ∙ directed-transitive d kind vb vc va kb kc ka p
                (ap is_more (directed-turned d va vc) ∙ q))
          (λ p q.
            ap is_more (sym (directed-turned d vb vc))
            ∙ directed-transitive d kind vc va vb kc ka kb
                (ap is_more (directed-turned d va vc) ∙ p) q)
          x y)
        (compare_records-transitive rest rs a b c kinds ia ib ic) h k

  pub compare_records-IsConsistent :
      (order : List Order) (rs : List (Record F))
      → AreOfOneKind order rs
      → IsConsistent (compare_records order) rs
  compare_records-IsConsistent order rs kinds = (
    λ a b ia ib. compare_records-turned order a b,
    λ a b c ia ib ic. compare_records-transitive order rs a b c kinds ia ib ic,
  )
