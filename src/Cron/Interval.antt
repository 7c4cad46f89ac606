-- ===== src/Cron/Interval.antt =====
-- packages/plugin-schedule/src/cron.ts: the ticks of an interval are the multiples of it.
use mathlib.Core.Path.{ap₂}
use native.Mathlib.Nat.{mod-add-div', mod-lt, mul-le-mul_right}
use wilanis_js.Common.{ℕ, zero, suc, ◌+◌, ◌-◌, ◌*◌, ◌/◌, ◌≤◌, ◌<◌, ◌≡◌, ap, ◌∙◌, ◌&&◌, arith}
use wilanis_js.Common.{Bool-cases, inl, inr, if◌then◌else◌, ltb, leb}
use wilanis_js.Cron.Tick.{next_interval, intervals_between, ceil}

-- How many of the first so many multiples lie strictly between two instants.
unfoldable pub multiples : ℕ → ℕ → ℕ → ℕ → ℕ
multiples every_ms from to zero = 0
multiples every_ms from to (suc n) =
    let fewer = multiples every_ms from to n in
    if ltb from (n * every_ms) && ltb (n * every_ms) to then suc fewer else fewer

next-le : (q k : ℕ) → q < k → q + 1 ≤ k
next-le q k h = omega arith

ltb-same : (a b c d : ℕ) → (a < b → c < d) → (c < d → a < b) → ltb a b ≡ ltb c d
ltb-same a b c d h k = elim (Bool-cases (ltb a b)) [
  | inl e ↦ let below = h (ground arith) in ground arith
  | inr e ↦ elim (Bool-cases (ltb c d)) [
    | inl e' ↦ let below = k (ground arith) in ground arith
    | inr e' ↦ ground arith
  ]
]

clipped-step :
    (q c n m : ℕ)
    → m ≡ (if leb n c then n else c) - q - 1
    → (if ltb q n && ltb n c then suc m else m) ≡ (if leb (suc n) c then suc n else c) - q - 1
clipped-step q c n m h = ground arith

module _ (e : ℕ) (some_time : 0 < e) where
  quotient : (n : ℕ) → (n / e * e ≤ n) × (n < n / e * e + e)
  quotient n =
      let whole = mod-add-div' n e in let left = mod-lt n some_time in (omega arith, omega arith)

  floor-less : (n k : ℕ) → n / e < k → n < k * e
  floor-less n k h = let (low, high) = quotient n in let wide = mul-le-mul_right e h in omega arith

  less-floor : (n k : ℕ) → n < k * e → n / e < k
  less-floor n k h = elim (Bool-cases (ltb (n / e) k)) [
    | inl c ↦ ground arith
    | inr c ↦
        let (low, high) = quotient n in
        let below : k ≤ n / e = ground arith in
        let wide = mul-le-mul_right e below in absurd (omega arith)
  ]

  below-ceil : (n k : ℕ) → k < ceil n e → k * e < n
  below-ceil n k h =
      let (low, high) = quotient (n + (e - 1)) in let wide = mul-le-mul_right e h in omega arith

  ceil-below : (n k : ℕ) → k * e < n → k < ceil n e
  ceil-below n k h = elim (Bool-cases (ltb k (ceil n e))) [
    | inl c ↦ ground arith
    | inr c ↦
        let (low, high) = quotient (n + (e - 1)) in
        let below : ceil n e ≤ k = ground arith in
        let wide = mul-le-mul_right e below in absurd (omega arith)
  ]

  -- The next tick of an interval is later than the instant asked for, by no more than the interval, and no
  -- multiple of the interval that is later comes before it.
  pub next_interval-first :
      (after : ℕ)
      → (after < next_interval e after)
        × (next_interval e after ≤ after + e)
        × ((k : ℕ) → after < k * e → next_interval e after ≤ k * e)
  unfolding next_interval
  next_interval-first after =
      let (low, high) = quotient after in
      (
        omega arith,
        omega arith,
        λ k later. mul-le-mul_right e (next-le (after / e) k (less-floor after k later)),
      )

  counted :
      (from to n : ℕ)
      → (ltb from (n * e) && ltb (n * e) to) ≡ (ltb (from / e) n && ltb n (ceil to e))
  counted from to n =
      ap₂ (λ a b. a && b)
        (ltb-same from (n * e) (from / e) n (less-floor from n) (floor-less from n))
        (ltb-same (n * e) to n (ceil to e) (ceil-below to n) (below-ceil to n))

  multiples-clipped :
      (from to n : ℕ)
      → multiples e from to n ≡ (if leb n (ceil to e) then n else ceil to e) - from / e - 1
  unfolding multiples
  multiples-clipped from to zero = ground arith
  multiples-clipped from to (suc n) =
      ap (λ b. if b then suc (multiples e from to n) else multiples e from to n) (counted from to n)
      ∙ clipped-step (from / e) (ceil to e) n (multiples e from to n) (multiples-clipped from to n)

  -- The intervals counted between two instants are the multiples strictly between them, of as many as begin
  -- before the end.
  pub intervals_between-multiples :
      (from to n : ℕ) → ceil to e ≤ n → intervals_between e from to ≡ multiples e from to n
  unfolding intervals_between
  intervals_between-multiples from to n h =
      let clipped = multiples-clipped from to n in ground arith
