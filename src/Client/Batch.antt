-- ===== src/Client/Batch.antt =====
-- runBatchBroadcast of chain.go: the loop that groups queued messages into transactions. An event is what
-- its `select` takes next: a message, the end of the timer, or the close of the channel.
pub mod Laws
mod Tests
use flux_sdk_go.Common.{ℕ, Bool, true, false, List, [], ◌∷◌, ◌++◌, length, leb, if◌then◌else◌}

pub data Event (Msg : Type 0) : Type 0 where
  received : Msg → Event Msg
  expired : Event Msg
  channel_closed : Event Msg

-- `state` is what submitBatch changes. `running` is false once doneC is closed.
pub record Loop (S Msg : Type 0) : Type 0 where
  pub state : S
  pub msg_batch : List Msg
  pub running : Bool

abbrev pub msg_commit_batch_size_limit : ℕ
msg_commit_batch_size_limit = 1024

module _ {S Msg : Type 0} (submit : S → List Msg → S) where
  -- `if len(msgBatch) > 0 { submitBatch(…) }`
  pub submit_pending : S → List Msg → S
  submit_pending s [] = s
  submit_pending s (m ∷ ms) = submit s (m ∷ ms)

  -- One turn of the loop.
  pub take_event : Event Msg → Loop S Msg → Loop S Msg
  take_event (received m) l =
      let batch = l.msg_batch ++ (m ∷ []) in
      if leb msg_commit_batch_size_limit (length batch)
      then record { state = submit l.state batch; msg_batch = []; running = true }
      else record { state = l.state; msg_batch = batch; running = true }
  take_event expired l = record {
    state = submit_pending l.state l.msg_batch;
    msg_batch = [];
    running = true;
  }
  take_event channel_closed l = record {
    state = submit_pending l.state l.msg_batch;
    msg_batch = [];
    running = false;
  }

  pub run_loop : List (Event Msg) → Loop S Msg → Loop S Msg
  run_loop [] l = l
  run_loop (e ∷ events) l = if l.running then run_loop events (take_event e l) else l

  -- `runBatchBroadcast`
  pub run_batch_broadcast : List (Event Msg) → S → Loop S Msg
  run_batch_broadcast events s =
      run_loop events (record { state = s; msg_batch = []; running = true })
