-- ===== src/Client/Queue/Tests.antt =====
-- A message through the queue, and a close that comes between the check of a call and its send.
use flux_sdk_go.Common.{ℕ, ◌≤◌, ◌⊎◌, ◌==◌, ◌≡◌, refl, true, false, [], ◌∷◌, arith}
use flux_sdk_go.Client.Queue.{
  Queue, check_open, set_pending, put, take_from, set_flags, call, send, send_to_closed,
  mark_closed, close_channel, receive, Run, stop, then_run, new_queue,
}
use flux_sdk_go.Client.Queue.Laws.{
  InOrder, count, requested, IsQuiet, new_queue-InOrder, Run-IsQuiet,
}

abbrev called : Queue ℕ
called = record {
  can_sign = true;
  channel = [];
  accepted = [];
  received = [];
  pending = (7 ∷ []) ∷ [];
  closed = false;
  shut = false;
  crashed = false;
}

abbrev sent : Queue ℕ
sent = record {
  can_sign = true;
  channel = 7 ∷ [];
  accepted = 7 ∷ [];
  received = [];
  pending = [] ∷ [];
  closed = false;
  shut = false;
  crashed = false;
}

abbrev taken : Queue ℕ
taken = record {
  can_sign = true;
  channel = [];
  accepted = 7 ∷ [];
  received = 7 ∷ [];
  pending = [] ∷ [];
  closed = false;
  shut = false;
  crashed = false;
}

passes : Run (new_queue true) taken
unfolding check_open set_pending put take_from
passes = then_run {r = called} (call (new_queue true) (7 ∷ []) refl) (
    then_run {r = sent} (send called [] [] 7 [] refl refl (omega arith))
      (then_run {r = taken} (receive sent 7 [] refl) (stop taken)))

closes : Run taken (set_flags true false false taken)
closes = then_run (mark_closed taken refl refl) (stop (set_flags true false false taken))

new_queue-InOrder_example :
    InOrder taken
    × (count (λ m. m == 7) taken.accepted ≤ count (λ m. m == 7) (requested passes))
    × ((true ≡ true) ⊎ (taken ≡ new_queue false))
    × ((taken.closed ≡ false) ⊎ (requested closes ≡ []))
new_queue-InOrder_example =
    new_queue-InOrder true taken (set_flags true false false taken) passes closes (λ m. m == 7)

abbrev crash : Queue ℕ
crash = record {
  can_sign = true;
  channel = [];
  accepted = [];
  received = [];
  pending = (7 ∷ []) ∷ [];
  closed = true;
  shut = true;
  crashed = true;
}

-- The call has passed its check when Close marks the client closed and closes the channel: its send panics.
close_crashes : Run (new_queue true) crash
unfolding check_open set_pending set_flags
close_crashes = then_run {r = called} (call (new_queue true) (7 ∷ []) refl) (
    then_run (mark_closed called refl refl) (
      then_run (close_channel (set_flags true false false called) refl refl) (
        then_run (send_to_closed (set_flags true true false called) [] [] 7 [] refl refl)
          (stop crash))))

abbrev quiet : Queue ℕ
quiet = record {
  can_sign = true;
  channel = 7 ∷ [];
  accepted = 7 ∷ [];
  received = [];
  pending = [];
  closed = true;
  shut = false;
  crashed = false;
}

drains : Run quiet (take_from 7 [] quiet)
drains = then_run (receive quiet 7 [] refl) (stop (take_from 7 [] quiet))

Run-IsQuiet_example :
    IsQuiet (take_from 7 [] quiet) × ((take_from 7 [] quiet).accepted ≡ quiet.accepted)
Run-IsQuiet_example = Run-IsQuiet quiet (take_from 7 [] quiet) drains (refl, refl, refl)
