-- ===== src/Kernel/Run/Count.antt =====
-- Counts and properties of a run's reports, under a write of one of them and of all.
use wilanis_js.Common.{
  ℕ, ◌+◌, ◌≤◌, ◌≡◌, refl, ap, String, Bool, true, false, ◌==◌, Option, none, some, [], ◌∷◌,
}
use wilanis_js.Common.{Bool-cases, arith, inl, inr}
use wilanis_js.Common.Dict.{Dict, get}
use mathlib.Core.Option.{some-injective}
use mathlib.Core.Path.{subst}
use wilanis_js.Kernel.Run.{change, each_value, NodeReport, Status, has_status}
use wilanis_js.Kernel.Run.Cancel.{one_if}

one_if-less : (a b : Bool) → (a ≡ true → b ≡ true) → one_if a ≤ one_if b
one_if-less true b h = rw (h refl) (omega arith)
one_if-less false b h = ground arith

module _ {V : Type 0} where
  -- How many of the values pass.
  unfoldable pub count : (V → Bool) → Dict V → ℕ
  count test [] = 0
  count test ((_, v) ∷ rest) = one_if (test v) + count test rest

  pub count-change :
      (test : V → Bool) (key : String) (f : V → V) (d : Dict V) (v : V)
      → get key d ≡ some v
      → count test (change key f d) + one_if (test v) ≡ count test d + one_if (test (f v))
  unfolding count change get
  count-change test key f [] v h = cc
  count-change test key f ((k, w) ∷ rest) v h = elim (Bool-cases (k == key)) [
    | inl e ↦ let same : w ≡ v = some-injective w v (rw e at h) in rw (e, same) (omega arith)
    | inr e ↦ rw e (let tail = count-change test key f rest v (rw e at h) in omega arith)
  ]

  pub count-same :
      (test : V → Bool) (key : String) (f : V → V) (d : Dict V)
      → ((v : V) → get key d ≡ some v → test (f v) ≡ test v)
      → count test (change key f d) ≡ count test d
  unfolding count change get
  count-same test key f [] same = refl
  count-same test key f ((k, w) ∷ rest) same = elim (Bool-cases (k == key)) [
    | inl e ↦ rw (e, same w (rw e refl)) refl
    | inr e ↦
        rw e (ap (λ n. one_if (test w) + n) (count-same test key f rest (λ v h. same v (rw e h))))
  ]

  pub count-each :
      (test : V → Bool) (f : V → V) (d : Dict V)
      → ((v : V) → test (f v) ≡ test v)
      → count test (each_value f d) ≡ count test d
  unfolding count
  count-each test f [] same = refl
  count-each test f ((k, w) ∷ rest) same = rw (same w, count-each test f rest same) refl

  pub count-less :
      (test : V → Bool) (key : String) (f : V → V) (d : Dict V)
      → ((v : V) → get key d ≡ some v → test (f v) ≡ true → test v ≡ true)
      → count test (change key f d) ≤ count test d
  unfolding count change get
  count-less test key f [] less = omega arith
  count-less test key f ((k, w) ∷ rest) less = elim (Bool-cases (k == key)) [
    | inl e ↦
        rw e (let here = one_if-less (test (f w)) (test w) (less w (rw e refl)) in omega arith)
    | inr e ↦ rw e (let tail = count-less test key f rest (λ v h. less v (rw e h)) in omega arith)
  ]

  pub count-less-each :
      (test : V → Bool) (f : V → V) (d : Dict V)
      → ((v : V) → test (f v) ≡ true → test v ≡ true)
      → count test (each_value f d) ≤ count test d
  unfolding count
  count-less-each test f [] less = omega arith
  count-less-each test f ((k, w) ∷ rest) less =
      let here = one_if-less (test (f w)) (test w) (less w) in
      let tail = count-less-each test f rest less in omega arith

  pub count-none :
      (test : V → Bool) (f : V → V) (d : Dict V)
      → ((v : V) → test (f v) ≡ false)
      → count test (each_value f d) ≡ 0
  unfolding count
  count-none test f [] never = refl
  count-none test f ((k, w) ∷ rest) never = rw (never w, count-none test f rest never) (omega arith)

  abbrev pub Each : (V → Type 0) → Dict V → Type 0
  Each Q [] = Unit
  Each Q ((_, v) ∷ rest) = Q v × Each Q rest

  pub Each-get :
      (Q : V → Type 0) (key : String) (d : Dict V) (v : V) → get key d ≡ some v → Each Q d → Q v
  unfolding get
  Each-get Q key [] v h all = cc
  Each-get Q key ((k, w) ∷ rest) v h all = elim (Bool-cases (k == key)) [
    | inl e ↦ subst Q (some-injective w v (rw e at h)) all.0
    | inr e ↦ Each-get Q key rest v (rw e at h) all.1
  ]

  pub Each-change :
      (Q : V → Type 0) (key : String) (f : V → V) (d : Dict V)
      → ((v : V) → get key d ≡ some v → Q v → Q (f v))
      → Each Q d
      → Each Q (change key f d)
  unfolding change get
  Each-change Q key f [] keeps all = tt
  Each-change Q key f ((k, w) ∷ rest) keeps all = elim (Bool-cases (k == key)) [
    | inl e ↦ rw e (keeps w (rw e refl) all.0, all.1)
    | inr e ↦ rw e (all.0, Each-change Q key f rest (λ v h. keeps v (rw e h)) all.1)
  ]

  pub each_value-Each :
      (Q : V → Type 0) (f : V → V) (d : Dict V)
      → ((v : V) → Q v → Q (f v))
      → Each Q d
      → Each Q (each_value f d)
  each_value-Each Q f [] keeps all = tt
  each_value-Each Q f ((k, w) ∷ rest) keeps all =
      (keeps w all.0, each_value-Each Q f rest keeps all.1)

-- A report with a status is there.
pub has_status-found :
    {F : Type 0} (test : Status → Bool) (o : Option (NodeReport F))
    → has_status test o ≡ true
    → (report : NodeReport F) × (o ≡ some report) × (test report.status ≡ true)
has_status-found test none h = cc
has_status-found test (some report) h = (report, refl, h)
