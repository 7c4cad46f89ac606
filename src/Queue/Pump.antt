-- ===== src/Queue/Pump.antt =====
-- The loop of `pump`: within the bound, and never leaving a due message while there is room.
use wilanis_js.Common.{
  ℕ, zero, suc, ◌≤◌, ◌<◌, ◌≡◌, refl, true, false, Bool-cases, Option-cases, inl, inr,
}
use wilanis_js.Common.{
  ◌⊎◌, arith, none, some, List, [], ◌∷◌, ◌++◌, ltb, ltb→lt, length, length-append,
}
use wilanis_js.Common.{if-true, if-false}
use wilanis_js.Queue.{sleep, Kept, Consumer, take, pump_loop, pump}

pub length-take :
    (now : ℕ) (waiting : List Kept) (due : Kept) (rest : List Kept)
    → take now waiting ≡ some (due, rest)
    → length waiting ≡ suc (length rest)
unfolding take
length-take now [] due rest h = cc
length-take now (one ∷ waiting) due rest h = elim (Option-cases (take now waiting)) [
  | inl nothing ↦ ground (arith, nothing)
  | inr (found, e) ↦ ground (arith, e, length-take now waiting found.0 found.1 e)
]

pump_loop-stop :
    (rounds now concurrency : ℕ) (in_flight waiting : List Kept)
    → ltb (length in_flight) concurrency ≡ false
    → pump_loop (suc rounds) now concurrency in_flight waiting ≡ (in_flight, waiting)
unfolding pump_loop
pump_loop-stop rounds now concurrency in_flight waiting h = ground arith

pump_loop-dry :
    (rounds now concurrency : ℕ) (in_flight waiting : List Kept)
    → take now waiting ≡ none
    → pump_loop (suc rounds) now concurrency in_flight waiting ≡ (in_flight, waiting)
unfolding pump_loop
pump_loop-dry rounds now concurrency in_flight waiting h = ground arith

pump_loop-next :
    (rounds now concurrency : ℕ) (in_flight waiting : List Kept) (due : Kept) (rest : List Kept)
    → ltb (length in_flight) concurrency ≡ true
    → take now waiting ≡ some (due, rest)
    → pump_loop (suc rounds) now concurrency in_flight waiting
      ≡ pump_loop rounds now concurrency (in_flight ++ due ∷ []) rest
unfolding pump_loop
pump_loop-next rounds now concurrency in_flight waiting due rest h e = ground arith

-- What one round keeps, the loop keeps.
pub pump_loop_inv {ℓ} :
    (P : List Kept → List Kept → Type ℓ) (now concurrency : ℕ)
    → ((in_flight waiting : List Kept) (due : Kept) (rest : List Kept)
        → length in_flight < concurrency
        → take now waiting ≡ some (due, rest)
        → P in_flight waiting
        → P (in_flight ++ due ∷ []) rest)
    → (rounds : ℕ) (in_flight waiting : List Kept) → P in_flight waiting
    → P
        (pump_loop rounds now concurrency in_flight waiting).0
        (pump_loop rounds now concurrency in_flight waiting).1
pump_loop_inv P now concurrency keep zero in_flight waiting h = unfold pump_loop in h
pump_loop_inv P now concurrency keep (suc rounds) in_flight waiting h =
    elim (Bool-cases (ltb (length in_flight) concurrency)) [
      | inr full ↦ rw (pump_loop-stop rounds now concurrency in_flight waiting full) h
      | inl room ↦ elim (Option-cases (take now waiting)) [
        | inl nothing ↦ rw (pump_loop-dry rounds now concurrency in_flight waiting nothing) h
        | inr ((due, rest), e) ↦
            rw (pump_loop-next rounds now concurrency in_flight waiting due rest room e) (
              pump_loop_inv P now concurrency keep rounds (in_flight ++ due ∷ []) rest
                (keep in_flight waiting due rest (ltb→lt _ _ room) e h))
      ]
    ]

full-not-lt : (a b : ℕ) → ltb a b ≡ false → a < b → ⊥
full-not-lt a b h lt = ground arith

-- The deliveries in flight never pass the bound that they are within.
pub pump_loop-le :
    (rounds now concurrency : ℕ) (in_flight waiting : List Kept)
    → length in_flight ≤ concurrency
    → length (pump_loop rounds now concurrency in_flight waiting).0 ≤ concurrency
pump_loop-le rounds now concurrency =
    pump_loop_inv (λ in_flight waiting. length in_flight ≤ concurrency) now concurrency
      (λ in_flight waiting due rest room e h. rw (length-append in_flight (due ∷ [])) (omega arith))
      rounds

-- With as many rounds as messages waiting, the loop ends with no room or with nothing due.
pub pump_loop-full :
    (rounds now concurrency : ℕ) (in_flight waiting : List Kept)
    → length waiting ≤ rounds
    → length (pump_loop rounds now concurrency in_flight waiting).0 < concurrency
    → take now (pump_loop rounds now concurrency in_flight waiting).1 ≡ none
pump_loop-full zero now concurrency in_flight [] h room = unfold pump_loop take in refl
pump_loop-full zero now concurrency in_flight (one ∷ waiting) h room = absurd (omega arith)
pump_loop-full (suc rounds) now concurrency in_flight waiting h room =
    elim (Bool-cases (ltb (length in_flight) concurrency)) [
      | inr full ↦ absurd (
          full-not-lt (length in_flight) concurrency full
            (rw (pump_loop-stop rounds now concurrency in_flight waiting full) at room))
      | inl free ↦ elim (Option-cases (take now waiting)) [
        | inl nothing ↦ rw (pump_loop-dry rounds now concurrency in_flight waiting nothing) nothing
        | inr ((due, rest), e) ↦
            rw (pump_loop-next rounds now concurrency in_flight waiting due rest free e) (
              pump_loop-full rounds now concurrency (in_flight ++ due ∷ []) rest
                (omega (arith, length-take now waiting due rest e))
                (rw (pump_loop-next rounds now concurrency in_flight waiting due rest free e) at
                  room))
      ]
    ]

-- Over a queue with nothing due the loop does nothing.
pub pump_loop-none :
    (rounds now concurrency : ℕ) (in_flight waiting : List Kept)
    → take now waiting ≡ none
    → pump_loop rounds now concurrency in_flight waiting ≡ (in_flight, waiting)
pump_loop-none zero now concurrency in_flight waiting h = unfold pump_loop in refl
pump_loop-none (suc rounds) now concurrency in_flight waiting h =
    pump_loop-dry rounds now concurrency in_flight waiting h

pub pump-stopped :
    (now : ℕ) (c : Consumer) (waiting : List Kept)
    → c.stopping ≡ true
    → pump now c waiting ≡ (c, waiting)
unfolding pump
pump-stopped now c waiting h = if-true _ _ h

-- What a pump makes of a consumer that runs.
abbrev pub pumped : ℕ → Consumer → List Kept → Consumer × List Kept
pumped now c waiting =
    let (in_flight, rest) = pump_loop (length waiting) now c.concurrency c.in_flight waiting in
    (
      record c { in_flight = in_flight; timer = some (sleep now c.concurrency in_flight rest) },
      rest,
    )

pub pump-running :
    (now : ℕ) (c : Consumer) (waiting : List Kept)
    → c.stopping ≡ false
    → pump now c waiting ≡ pumped now c waiting
unfolding pump
pump-running now c waiting h = if-false _ _ h

pub pump-cases :
    (now : ℕ) (c : Consumer) (waiting : List Kept)
    → (pump now c waiting ≡ (c, waiting)) ⊎ (pump now c waiting ≡ pumped now c waiting)
pump-cases now c waiting = elim (Bool-cases c.stopping) [
  | inl over ↦ inl (pump-stopped now c waiting over)
  | inr on ↦ inr (pump-running now c waiting on)
]
