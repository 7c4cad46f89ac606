-- ===== src/Queue/Tests.antt =====
-- A queue with two consumers' worth of events, run.
use wilanis_js.Common.{ℕ, String, ◌≡◌, refl, none, some, List, [], ◌∷◌, ◌+◌, All}
use wilanis_js.Queue.{Kept, Event, publish, answered, consume, fired}
use wilanis_js.Queue.{ack, dead, retry, take, put, run, empty}
use wilanis_js.Queue.Take.{IsFirstDue, take-IsFirstDue}
use wilanis_js.Queue.Keeps.{IsWithin, IsBusy, run-IsWithin, put-IsBusy}
use wilanis_js.Queue.Conserve.{published_by, acknowledged_by, run-conserves}
use wilanis_js.Queue.Count.{held}

abbrev events : List (ℕ × Event)
events =
    (0, consume 1)
    ∷ (5, publish "a" [] "1" none)
    ∷ (6, publish "b" [] "2" (some 100))
    ∷ (7, publish "c" [] "3" none)
    ∷ (8, answered 0 0 (retry (some 20)))
    ∷ (9, answered 0 0 ack)
    ∷ (30, fired 0)
    ∷ (31, answered 0 0 dead)
    ∷ (200, fired 0)
    ∷ []

abbrev ids : List Kept → List (String × ℕ)
ids [] = []
ids (k ∷ ks) = (k.id, k.attempt) ∷ ids ks

run_test :
    (ids (run events empty).waiting ≡ [])
    × (ids (run events empty).parked ≡ ("a", 2) ∷ [])
    × (held "b" (run events empty) ≡ 1)
    × (held "c" (run events empty) ≡ 0)
unfolding run held take
run_test = (refl, refl, refl, refl)

abbrev queued : List Kept
queued =
    record { id = "x"; attempt = 1; headers = []; body = "1"; available_at = 50 }
    ∷ record { id = "y"; attempt = 1; headers = []; body = "2"; available_at = 10 }
    ∷ []

take-IsFirstDue_example :
    IsFirstDue 20 queued
      (record { id = "y"; attempt = 1; headers = []; body = "2"; available_at = 10 })
      (record { id = "x"; attempt = 1; headers = []; body = "1"; available_at = 50 } ∷ [])
unfolding take
take-IsFirstDue_example = take-IsFirstDue 20 queued _ _ refl

run-IsWithin_example : All IsWithin (run events empty).consumers
run-IsWithin_example = run-IsWithin events

put-IsBusy_example :
    All
      (IsBusy 40
        (put 40
          (record { id = "z"; attempt = 1; headers = []; body = "4"; available_at = 40 })
          (run events empty)).waiting)
      (put 40
        (record { id = "z"; attempt = 1; headers = []; body = "4"; available_at = 40 })
        (run events empty)).consumers
put-IsBusy_example = put-IsBusy 40 _ (run events empty)

run-conserves_example :
    held "a" (run events empty) + acknowledged_by "a" events empty ≡ published_by "a" events
run-conserves_example = run-conserves "a" events
