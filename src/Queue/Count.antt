-- ===== src/Queue/Count.antt =====
-- Where the messages of a queue are: none is lost or made but where the events say so.
use wilanis_js.Common.{ℕ, ◌+◌, ◌≡◌, refl, ap, ◌∙◌, Option-cases, inl, inr}
use wilanis_js.Common.{
  arith, none, some, Option, List, [], ◌∷◌, ◌++◌, length, String, ◌==◌, if◌then◌else◌, nat_eq,
}
use wilanis_js.Queue.{Kept, Consumer, Queue, Event, publish, answered}
use wilanis_js.Queue.{ack, take, pump_loop, pump, wake_all, put}
use wilanis_js.Queue.{delivery_at}
use wilanis_js.Queue.Pump.{pump_loop_inv, pump-cases}

module _ (id : String) where
  abbrev pub one : Kept → ℕ
  one kept = if kept.id == id then 1 else 0

  -- How many copies of a message a list holds.
  unfoldable pub copies : List Kept → ℕ
  copies [] = 0
  copies (kept ∷ rest) = one kept + copies rest

  -- How many are in flight, over all consumers.
  unfoldable pub in_flight_copies : List Consumer → ℕ
  unfolding copies
  in_flight_copies [] = 0
  in_flight_copies (c ∷ cs) = copies c.in_flight + in_flight_copies cs

  -- How many copies of a message the queue holds: waiting, in flight or parked.
  unfoldable pub held : Queue → ℕ
  unfolding in_flight_copies
  held q = copies q.waiting + in_flight_copies q.consumers + copies q.parked

  -- How many an event brings.
  abbrev pub published : Event → ℕ
  published (publish other headers body delay) = if other == id then 1 else 0
  published _ = 0

  -- What an acknowledgement ends: its delivery, where the broker loses none.
  unfoldable pub forgotten : Option Kept → ℕ → ℕ
  forgotten none acks_to_drop = 0
  forgotten (some kept) acks_to_drop = if nat_eq acks_to_drop 0 then one kept else 0

  -- How many an event ends.
  unfoldable pub acknowledged : Event → Queue → ℕ
  unfolding forgotten delivery_at
  acknowledged (answered i j ack) q = forgotten (delivery_at i j q.consumers) q.acks_to_drop
  acknowledged _ q = 0

  pub copies-append : (xs ys : List Kept) → copies (xs ++ ys) ≡ copies xs + copies ys
  unfolding copies
  copies-append [] ys = omega arith
  copies-append (x ∷ xs) ys = omega (arith, copies-append xs ys)

  pub copies-single : (kept : Kept) → copies (kept ∷ []) ≡ one kept
  unfolding copies
  copies-single kept = omega arith

  pub copies-take :
      (now : ℕ) (waiting : List Kept) (due : Kept) (rest : List Kept)
      → take now waiting ≡ some (due, rest)
      → copies waiting ≡ one due + copies rest
  unfolding take copies
  copies-take now [] due rest h = cc
  copies-take now (kept ∷ waiting) due rest h = elim (Option-cases (take now waiting)) [
    | inl nothing ↦ ground (arith, nothing)
    | inr (found, e) ↦ ground (arith, e, copies-take now waiting found.0 found.1 e)
  ]

  pub pump_loop-copies :
      (rounds now concurrency : ℕ) (in_flight waiting : List Kept)
      → copies (pump_loop rounds now concurrency in_flight waiting).0
          + copies (pump_loop rounds now concurrency in_flight waiting).1
        ≡ copies in_flight + copies waiting
  pump_loop-copies rounds now concurrency in_flight waiting =
      pump_loop_inv (λ f w. copies f + copies w ≡ copies in_flight + copies waiting) now concurrency
        (λ f w due rest room e h.
          (omega (
            arith,
            h,
            copies-append f (due ∷ []),
            copies-take now w due rest e,
            copies-single due,
          )))
        rounds in_flight waiting refl

  pub pump-copies :
      (now : ℕ) (c : Consumer) (waiting : List Kept)
      → copies (pump now c waiting).0.in_flight + copies (pump now c waiting).1
        ≡ copies c.in_flight + copies waiting
  pump-copies now c waiting = elim (pump-cases now c waiting) [
    | inl e ↦ ap (λ (r : Consumer × List Kept). copies r.0.in_flight + copies r.1) e
    | inr e ↦
        ap (λ (r : Consumer × List Kept). copies r.0.in_flight + copies r.1) e
        ∙ pump_loop-copies (length waiting) now c.concurrency c.in_flight waiting
  ]

  pub wake_all-copies :
      (now : ℕ) (cs : List Consumer) (waiting : List Kept)
      → in_flight_copies (wake_all now cs waiting).0 + copies (wake_all now cs waiting).1
        ≡ in_flight_copies cs + copies waiting
  unfolding wake_all in_flight_copies
  wake_all-copies now [] waiting = refl
  wake_all-copies now (c ∷ cs) waiting =
      omega (arith, pump-copies now c waiting, wake_all-copies now cs (pump now c waiting).1)

  pub put-held : (now : ℕ) (kept : Kept) (q : Queue) → held (put now kept q) ≡ held q + one kept
  unfolding put held
  put-held now kept q = omega (
    arith,
    wake_all-copies now q.consumers (q.waiting ++ kept ∷ []),
    copies-append q.waiting (kept ∷ []),
    copies-single kept,
  )
