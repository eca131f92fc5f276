-- ===== src/Client/Batch/Tests.antt =====
-- Three messages, a timer and the close of the queue.
use flux_sdk_go.Common.{ℕ, ◌≡◌, refl, true, List, [], ◌∷◌}
use flux_sdk_go.Client.Batch.{
  Event, received, expired, channel_closed, run_batch_broadcast, run_loop, take_event,
  submit_pending,
}
use flux_sdk_go.Client.Batch.Laws.{Submits, run_batch_broadcast-Submits}

abbrev day : List (Event ℕ)
day = received 1 ∷ received 2 ∷ expired ∷ received 3 ∷ channel_closed ∷ received 4 ∷ []

-- The batches, the last one first.
abbrev note : List (List ℕ) → List ℕ → List (List ℕ)
note bs b = b ∷ bs

run_batch_broadcast-Submits_example :
    Submits note
      (record { state = []; msg_batch = []; running = true })
      (run_batch_broadcast note day [])
      (1 ∷ 2 ∷ 3 ∷ [])
run_batch_broadcast-Submits_example = run_batch_broadcast-Submits note day []

submits_two : (run_batch_broadcast note day []).state ≡ (3 ∷ []) ∷ (1 ∷ 2 ∷ []) ∷ []
unfolding run_batch_broadcast run_loop take_event submit_pending
submits_two = refl
