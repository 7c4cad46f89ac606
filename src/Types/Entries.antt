-- ===== src/Types/Entries.antt =====
-- The entries of an object, and the loop of `prune` over them.
use wilanis_js.Common.{String, ◌≡◌, refl, ap, true, false, Bool, Option, none, some, ◌==◌, eq_iff}
use wilanis_js.Common.{Bool-cases, inl, inr, arith, includes}
use wilanis_js.Types.{Value, Members, end, member, member?, keys, IsProper, IsProperMembers}
use wilanis_js.Types.{
  Ty, Marks, Fields, bare, field, Open, closed, open_to, ObjField, field?, declares,
}
use wilanis_js.Types.Lookup.{includes-keys}
use wilanis_js.Types.Conform.{filter_members, prune, prune_entry}

module _ {F : Type 0} where
  -- What `filter_members` makes of the value read under a name.
  abbrev pub kept :
      (String → Value F → Option (Value F)) → String → Option (Value F) → Option (Value F)
  kept f name none = none
  kept f name (some v) = f name v

  pub keys-member? :
      (name : String) (m : Members F)
      → includes (keys m) name ≡ true
      → (v : Value F) × (member? name m ≡ some v)
  keys-member? name end h = cc
  keys-member? name (member key v rest) h = elim (Bool-cases (key == name)) [
    | inl e ↦ (v, rw e)
    | inr e ↦ rw e (keys-member? name rest (rw e at h))
  ]

  absent : (name : String) (m : Members F) → includes (keys m) name ≡ false → member? name m ≡ none
  absent name end h = refl
  absent name (member key v rest) h = ground (arith, absent name rest)

  -- A read of the filtered object is the read of the object, filtered.
  pub member?-filter_members :
      (f : String → Value F → Option (Value F)) (name : String) (m : Members F)
      → IsProperMembers m
      → member? name (filter_members f m) ≡ kept f name (member? name m)
  unfolding filter_members
  member?-filter_members f name end p = refl
  member?-filter_members f name (member key v rest) p =
      ground (arith, eq_iff key name, member?-filter_members f name rest, absent key rest)

  -- Each entry of the one object is what the other has under its key.
  abbrev pub Within : Members F → Members F → Type 0
  Within end m = Unit
  Within (member key v rest) m = (member? key m ≡ some v) × IsProper v × Within rest m

  Within-cons :
      (s m : Members F) (key : String) (v : Value F)
      → includes (keys m) key ≡ false
      → Within s m
      → Within s (member key v m)
  Within-cons end m key v fresh w = tt
  Within-cons (member k u s) m key v fresh w =
      (ground (arith, eq_iff key k, includes-keys k m u w.0), w.1, Within-cons s m key v fresh w.2)

  pub Within-self : (m : Members F) → IsProperMembers m → Within m m
  Within-self end p = tt
  Within-self (member key v rest) p =
      (ground (arith, eq_iff key key), p.1, Within-cons rest rest key v p.0 (Within-self rest p.2))

  pub filter_members-id :
      (f : String → Value F → Option (Value F)) (m s : Members F)
      → Within s m
      → ((key : String) (v : Value F) → member? key m ≡ some v → IsProper v → f key v ≡ some v)
      → filter_members f s ≡ s
  unfolding filter_members
  filter_members-id f m end w all = refl
  filter_members-id f m (member key v rest) w all =
      rw (all key v w.0 w.1, filter_members)
        (ap (member key v) (filter_members-id f m rest w.2 all))

  pub prune_entry-field? :
      (key : String) (v : Value F) (rest : Open) (fields : Fields) (f : ObjField)
      → field? key fields ≡ some f
      → prune_entry key v rest fields ≡ some (prune v f.type)
  unfolding prune
  prune_entry-field? key v rest bare f h = cc
  prune_entry-field? key v rest (field name t required marks fields) f h =
      ground (arith, prune_entry-field? key v rest fields f)

  pub prune_entry-closed :
      (key : String) (v : Value F) (fields : Fields)
      → declares fields key ≡ false
      → prune_entry key v closed fields ≡ none
  unfolding prune
  prune_entry-closed key v bare h = refl
  prune_entry-closed key v (field name t required marks fields) h =
      ground (arith, prune_entry-closed key v fields)

  pub prune_entry-open :
      (key : String) (v : Value F) (t : Ty) (fields : Fields)
      → declares fields key ≡ false
      → prune_entry key v (open_to t) fields ≡ some v
  unfolding prune
  prune_entry-open key v t bare h = refl
  prune_entry-open key v t (field name u required marks fields) h =
      ground (arith, prune_entry-open key v t fields)

  pub prune_entry-here :
      (key name : String) (v : Value F) (rest : Open) (t : Ty) (required : Bool) (marks : Marks)
      (fields : Fields)
      → name == key ≡ true
      → prune_entry key v rest (field name t required marks fields) ≡ some (prune v t)
  unfolding prune
  prune_entry-here key name v rest t required marks fields h = ground arith

  pub prune_entry-later :
      (key name : String) (v : Value F) (rest : Open) (t : Ty) (required : Bool) (marks : Marks)
      (fields : Fields)
      → name == key ≡ false
      → prune_entry key v rest (field name t required marks fields) ≡ prune_entry key v rest fields
  unfolding prune
  prune_entry-later key name v rest t required marks fields h = ground arith
