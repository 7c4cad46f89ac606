-- ===== src/Types/Pruned.antt =====
-- A read of a pruned object, and its fields as the type declares them.
use mathlib.Core.Option
use wilanis_js.Common.{String, Bool, ◌≡◌, refl, sym, ◌∙◌, false, Option, none, some}
use wilanis_js.Common.{ℕ, suc, arith, List, eq_iff}
use wilanis_js.Types.{
  Value, null, bool, num, str, arr, obj, Items, nil, cons, Members, member?, items,
}
use wilanis_js.Types.{Ty, string, Marks}
use wilanis_js.Types.{Fields, bare, field, Open, closed, open_to, field?, declares, ObjField}
use wilanis_js.Types.{IsProper, IsProperItems, IsProperMembers, IsDistinctFields}
use wilanis_js.Types.Lookup.{field?-declares}
use wilanis_js.Types.Conform.{Problem}
use wilanis_js.Types.Conform.{
  problem_of_items, problem_of_field, prune, prune_entry, map_items, filter_members,
}
use wilanis_js.Types.Entries.{
  kept, member?-filter_members, prune_entry-field?, prune_entry-closed, prune_entry-open,
}

-- Each field of the one table is what the other has under its name.
abbrev pub Agrees : Fields → Fields → Type 0
Agrees bare whole = Unit
Agrees (field name t required marks rest) whole =
    (field? name whole ≡ some (record { type = t; required = required })) × Agrees rest whole

Agrees-cons :
    (s whole : Fields) (key : String) (t : Ty) (required : Bool) (marks : Marks)
    → declares whole key ≡ false
    → Agrees s whole
    → Agrees s (field key t required marks whole)
Agrees-cons bare whole key t required marks fresh a = tt
Agrees-cons (field name u needed tags rest) whole key t required marks fresh a = (
  ground (
    arith,
    eq_iff key name,
    field?-declares name whole (record { type = u; required = needed }) a.0,
  ),
  Agrees-cons rest whole key t required marks fresh a.1,
)

pub Agrees-self : (fields : Fields) → IsDistinctFields fields → Agrees fields fields
Agrees-self bare d = tt
Agrees-self (field name t required marks rest) d = (
  ground (arith, eq_iff name name),
  Agrees-cons rest rest name t required marks d.0 (Agrees-self rest d.2),
)

module _ {F : Type 0} where
  abbrev pub pruned : Open → Fields → Members F → Members F
  pruned rest whole m = filter_members (λ key v. prune_entry key v rest whole) m

  pub prune_scalar : (v : Value F) (given : Option (List String)) → prune v (string given) ≡ v
  unfolding prune
  prune_scalar null given = refl
  prune_scalar (bool b) given = refl
  prune_scalar (num n) given = refl
  prune_scalar (str s) given = refl
  prune_scalar (arr vs) given = refl
  prune_scalar (obj m) given = refl

  pub member?-pruned :
      (rest : Open) (whole : Fields) (m : Members F) (name : String) (f : ObjField)
      → IsProperMembers m
      → field? name whole ≡ some f
      → member? name (pruned rest whole m) ≡ Option.map (λ v. prune v f.type) (member? name m)
  member?-pruned rest whole m name f p found =
      member?-filter_members (λ key v. prune_entry key v rest whole) name m p
      ∙ kept-declared (member? name m)
    where
      kept-declared :
          (o : Option (Value F))
          → kept (λ key v. prune_entry key v rest whole) name o ≡ Option.map (λ v. prune v f.type) o
      kept-declared none = refl
      kept-declared (some v) = prune_entry-field? name v rest whole f found

  pub problem_of_items-map :
      (f : Value F → Value F) (judge judge' : Value F → Option Problem) (index : ℕ) (vs : Items F)
      → ((v : Value F) → IsProper v → judge v ≡ none → judge' (f v) ≡ none)
      → IsProperItems vs
      → problem_of_items judge index (items vs) ≡ none
      → problem_of_items judge' index (items (map_items f vs)) ≡ none
  unfolding map_items problem_of_items
  problem_of_items-map f judge judge' index nil all p h = refl
  problem_of_items-map f judge judge' index (cons v vs) all p h =
      ground (arith, all v p.0, problem_of_items-map f judge judge' (suc index) vs all p.1)

  pub problem_of_field-map :
      (judge : Value F → Option Problem) (f : Value F → Value F) (o : Option (Value F))
      (required : Bool)
      → problem_of_field (λ v. judge (f v)) o required ≡ none
      → problem_of_field judge (Option.map f o) required ≡ none
  unfolding problem_of_field
  problem_of_field-map judge f none required h = h
  problem_of_field-map judge f (some v) required h = h

  -- An undeclared key that pruning keeps is one the type is open to, and keeps its value.
  pub kept_undeclared :
      (t : Ty) (whole : Fields) (m : Members F) (name : String) (v : Value F)
      → IsProperMembers m
      → declares whole name ≡ false
      → member? name (pruned (open_to t) whole m) ≡ some v
      → member? name m ≡ some v
  kept_undeclared t whole m name v p d h =
      kept-open (member? name m)
        (sym (member?-filter_members (λ key w. prune_entry key w (open_to t) whole) name m p) ∙ h)
    where
      kept-open :
          (o : Option (Value F))
          → kept (λ key w. prune_entry key w (open_to t) whole) name o ≡ some v
          → o ≡ some v
      kept-open none e = cc
      kept-open (some w) e = sym (prune_entry-open name w t whole d) ∙ e

  pub none_undeclared :
      (whole : Fields) (m : Members F) (name : String) (v : Value F)
      → IsProperMembers m
      → declares whole name ≡ false
      → member? name (pruned closed whole m) ≡ some v
      → ⊥
  none_undeclared whole m name v p d h =
      kept-closed (member? name m)
        (sym (member?-filter_members (λ key w. prune_entry key w closed whole) name m p) ∙ h)
    where
      kept-closed :
          (o : Option (Value F))
          → kept (λ key w. prune_entry key w closed whole) name o ≡ some v
          → ⊥
      kept-closed none e = cc
      kept-closed (some w) e = cc (prune_entry-closed name w whole d)
