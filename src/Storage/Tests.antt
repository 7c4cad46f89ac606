-- ===== src/Storage/Tests.antt =====
-- Runs of the memory engine, and the theorems at concrete inputs: endpoints that are unique by their
-- url within a tenant, and hits that refer to them.
use mathlib.Core.Path.{subst}
use wilanis_js.Common.{ℕ, ◌≡◌, refl, sym, ap, ◌∙◌, true, false, Option, some, List, [], ◌∷◌}
use wilanis_js.Common.{nat_eq, inl, inr, ◌⊎◌, eq_iff, IsAmong, arith, ◌==◌, ◌≢◌}
use wilanis_js.Common.Dict as Dict
use wilanis_js.Types.{str}
use wilanis_js.Storage.{Spelling, Record, Scope, Row, Store, Ref, At, home, place, rows_at, text}
use wilanis_js.Storage.{conflict, put_violated, put_record, unique_of, refs_of, referenced_by}
use wilanis_js.Storage.Rows.{get, within}
use wilanis_js.Storage.Write.{put, remove}
use wilanis_js.Storage.Changes.{Op, put_op, patch_op, remove_op, step, IsKeyed}
use wilanis_js.Storage.Lookup.{lookup}
use wilanis_js.Storage.Scope.{step-leaves}
use wilanis_js.Storage.Read.{put-get}
use wilanis_js.Storage.Unique.{IsUnique}
use wilanis_js.Storage.Refs.{IsReferential}
use wilanis_js.Storage.Run.{Schema, run, run-IsSound, IsSound}

nat_eq_refl : (n : ℕ) → nat_eq n n ≡ true
nat_eq_refl n = ground arith

nat_eq_sym : (n m : ℕ) → nat_eq n m ≡ nat_eq m n
nat_eq_sym n m = ground arith

instance abbrev nat_spelling : Spelling ℕ
nat_spelling = record {
  same_number = nat_eq;
  number_text = λ n. "a number";
  object_text = λ v. "an object";
  settled = λ v. "settled";
  same_number_refl = nat_eq_refl;
  same_number_sym = nat_eq_sym;
}

abbrev hit_of : Ref
hit_of = record { from = "hits"; field = "endpoint"; to = "endpoints" }

abbrev endpoints : At
endpoints = record {
  connection = "db";
  name = "endpoints";
  key = "id";
  unique = ("url" ∷ []) ∷ [];
  refs = [];
  referenced = hit_of ∷ [];
}

abbrev hits : At
hits = record {
  connection = "db";
  name = "hits";
  key = "id";
  unique = [];
  refs = hit_of ∷ [];
  referenced = [];
}

abbrev acme : Option (Scope ℕ)
acme = some (("tenant", text "acme") ∷ [])

abbrev globex : Option (Scope ℕ)
globex = some (("tenant", text "globex") ∷ [])

abbrev one_endpoint : Record ℕ
one_endpoint = ("id", str "e1") ∷ ("url", str "/a") ∷ []

abbrev same_url : Record ℕ
same_url = ("id", str "e2") ∷ ("url", str "/a") ∷ []

abbrev one_hit : Record ℕ
one_hit = ("id", str "h1") ∷ ("endpoint", str "e1") ∷ []

abbrev Declared : At → Type 0
Declared at = (at ≡ endpoints) ⊎ (at ≡ hits)

abbrev writes : List (At × Op ℕ × Option (Scope ℕ))
writes =
    (endpoints, put_op one_endpoint false, acme)
    ∷ (endpoints, put_op same_url false, globex)
    ∷ (hits, put_op one_hit false, acme)
    ∷ (endpoints, patch_op (str "e1") (("url", str "/b") ∷ []), acme)
    ∷ (endpoints, remove_op (str "e1"), acme)
    ∷ []

abbrev stored : Store ℕ
stored = (put endpoints one_endpoint false acme []).0

put-stores : put endpoints one_endpoint false acme [] ≡ (stored, put_record one_endpoint)
unfolding put Dict.get
put-stores = refl

-- One url twice in one tenant is refused, and under another tenant it is not.
same_url-violated :
    (put endpoints same_url false acme stored).1 ≡ put_violated (unique_of ("url" ∷ []))
unfolding put Dict.get Dict.set
same_url-violated = refl

other_tenant : (put endpoints same_url false globex stored).1 ≡ put_record same_url
unfolding put Dict.get Dict.set
other_tenant = refl

-- A key of another tenant is a conflict even with `replace`.
taken : (put endpoints one_endpoint true globex stored).1 ≡ conflict
unfolding put Dict.get Dict.set
taken = refl

dangling : (put hits one_hit false acme []).1 ≡ put_violated (refs_of hit_of)
unfolding put Dict.get Dict.set
dangling = refl

still_referenced :
    (remove endpoints (str "e1") acme (put hits one_hit false acme stored).0).1
    ≡ referenced_by one_endpoint hit_of
unfolding put remove Dict.get Dict.set Dict.values
still_referenced = refl

apart : home endpoints ≢ home hits
unfolding place
apart e = let wrong : (home endpoints == home hits) ≡ true = (eq_iff _ _).1 e in cc

one_place : (a b : At) → Declared a → Declared b → home a ≡ home b → a ≡ b
one_place a b (inl e) (inl e') h = e ∙ sym e'
one_place a b (inl e) (inr e') h = absurd (apart (sym (ap home e) ∙ h ∙ ap home e'))
one_place a b (inr e) (inl e') h = absurd (apart (sym (ap home e') ∙ sym h ∙ ap home e))
one_place a b (inr e) (inr e') h = e ∙ sym e'

abbrev IsMirrored : At → At → Type 0
IsMirrored a b =
    (ref : Ref)
    → IsAmong ref a.refs
    → home b ≡ place a.connection ref.to
    → IsAmong ref b.referenced × (place b.connection ref.from ≡ home a)

hits-IsMirrored : IsMirrored hits endpoints
hits-IsMirrored ref (inl e) h = (inl e, ap (λ (r : Ref). place "db" r.from) (sym e))
hits-IsMirrored ref (inr never) h = absurd never

hits-hits : IsMirrored hits hits
hits-hits ref (inl e) h = absurd (apart (ap (λ (r : Ref). place "db" r.to) e ∙ sym h))
hits-hits ref (inr never) h = absurd never

mirrored : (a b : At) → Declared a → Declared b → IsMirrored a b
mirrored a b (inl e) d = subst (λ x. IsMirrored x b) (sym e) (λ ref among h. absurd among)
mirrored a b (inr e) (inl e') =
    subst (λ x. IsMirrored x b) (sym e) (subst (λ y. IsMirrored hits y) (sym e') hits-IsMirrored)
mirrored a b (inr e) (inr e') =
    subst (λ x. IsMirrored x b) (sym e) (subst (λ y. IsMirrored hits y) (sym e') hits-hits)

schema : Schema Declared
schema = record {
  one = one_place;
  mirrored = λ a b ref da db among h. mirrored a b da db ref among h;
}

abbrev no_rows : Store ℕ
no_rows = []

nothing-IsSound : IsSound Declared schema no_rows
unfolding rows_at Dict.get
nothing-IsSound at d =
    (λ k r h. cc, λ k k' r r' h h' other scoped proper. cc, λ k key r ref h among e. cc)

run-IsSound_example :
    IsKeyed hits (run writes no_rows)
    × IsUnique hits (run writes no_rows)
    × IsReferential hits (run writes no_rows)
run-IsSound_example =
    run-IsSound Declared schema writes no_rows
      (inl refl, (inl refl, (inr refl, (inl refl, (inl refl, tt))))) nothing-IsSound hits (inr refl)

put-get_example : get endpoints (str "e1") acme stored ≡ some one_endpoint
unfolding Dict.get
put-get_example =
    put-get endpoints (str "e1") one_endpoint one_endpoint false acme [] stored (refl, tt) refl
      put-stores

abbrev of_acme : Row ℕ
of_acme = record { record_ = one_endpoint; scope = acme }

stored-IsKeyed : IsKeyed endpoints stored
unfolding run step
stored-IsKeyed =
    (run-IsSound Declared schema ((endpoints, put_op one_endpoint false, acme) ∷ []) []
      (inl refl, tt) nothing-IsSound endpoints (inl refl)).0

of_acme-lookup : lookup (home endpoints) "e1" stored ≡ some of_acme
unfolding put Dict.get Dict.set rows_at
of_acme-lookup = refl

of_acme-outside : within of_acme globex ≡ false
unfolding within Dict.get
of_acme-outside = refl

step-leaves_example :
    lookup (home endpoints) "e1" (step endpoints (put_op one_endpoint true) globex stored)
    ≡ some of_acme
step-leaves_example =
    step-leaves endpoints (put_op one_endpoint true) globex stored (home endpoints) "e1" of_acme
      stored-IsKeyed of_acme-lookup (λ here. of_acme-outside)
