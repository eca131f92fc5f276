-- ===== src/Client/Batch/Laws.antt =====
-- No message is lost, doubled or moved by the batches.
use flux_sdk_go.Common.{
  ◌≤◌, ◌<◌, ◌≡◌, refl, sym, ap, ◌∙◌, inl, inr, true, false, List, [], ◌∷◌, ◌++◌, length,
  length-append, All, Bool-cases, arith, leb,
}
use mathlib.Core.List.{append_assoc, append-nil}
use flux_sdk_go.Client.Batch.{
  Event, received, expired, channel_closed, Loop, msg_commit_batch_size_limit, submit_pending,
  take_event, run_loop, run_batch_broadcast,
}

-- The messages that the loop takes: those before the channel is closed.
abbrev pub taken : {Msg : Type 0} → List (Event Msg) → List Msg
taken [] = []
taken (received m ∷ events) = m ∷ taken events
taken (expired ∷ events) = taken events
taken (channel_closed ∷ events) = []

abbrev pub joined : {Msg : Type 0} → List (List Msg) → List Msg
joined [] = []
joined (b ∷ bs) = b ++ joined bs

-- A batch is not empty and keeps to the limit.
abbrev pub IsBatch : {Msg : Type 0} → List Msg → Type 0
IsBatch b = (0 < length b) × (length b ≤ msg_commit_batch_size_limit)

module _ {S Msg : Type 0} (submit : S → List Msg → S) where
  abbrev pub submit_all : S → List (List Msg) → S
  submit_all s [] = s
  submit_all s (b ∷ bs) = submit_all (submit s b) bs

  -- What a run makes of a loop: the batches that it submits, in order.
  pub record Submits (l out : Loop S Msg) (msgs : List Msg) : Type 0 where
    pub batches : List (List Msg)
    pub state_eq : out.state ≡ submit_all l.state batches
    pub in_order : joined batches ++ out.msg_batch ≡ l.msg_batch ++ msgs
    pub sized : All IsBatch batches
    pub below : length out.msg_batch < msg_commit_batch_size_limit
    pub stopped : out.running ≡ false → out.msg_batch ≡ []

  -- The batch that ends a turn, and then the rest of the run.
  Submits-flush :
      (l out : Loop S Msg) (batch msgs : List Msg)
      → length batch ≤ msg_commit_batch_size_limit
      → 0 < length batch
      → Submits (record { state = submit l.state batch; msg_batch = []; running = true }) out msgs
      → (whole : List Msg) → batch ++ msgs ≡ l.msg_batch ++ whole
      → Submits l out whole
  Submits-flush l out batch msgs le lt h whole e = record {
    batches = batch ∷ h.batches;
    state_eq = h.state_eq;
    in_order =
        append_assoc batch (joined h.batches) out.msg_batch ∙ ap (λ r. batch ++ r) h.in_order ∙ e;
    sized = ((lt, le), h.sized);
    below = h.below;
    stopped = h.stopped;
  }

  -- Once doneC is closed nothing happens any more.
  run_stopped-Submits :
      (events : List (Event Msg)) (s : S)
      → Submits
          (record { state = s; msg_batch = []; running = true })
          (run_loop submit events (record { state = s; msg_batch = []; running = false }))
          []
  unfolding run_loop
  run_stopped-Submits [] s = record {
    batches = [];
    state_eq = refl;
    in_order = refl;
    sized = tt;
    below = omega arith;
    stopped = λ e. refl;
  }
  run_stopped-Submits (e ∷ events) s = record {
    batches = [];
    state_eq = refl;
    in_order = refl;
    sized = tt;
    below = omega arith;
    stopped = λ e. refl;
  }

  run_loop-Submits :
      (events : List (Event Msg)) (s : S) (batch : List Msg)
      → length batch < msg_commit_batch_size_limit
      → Submits
          (record { state = s; msg_batch = batch; running = true })
          (run_loop submit events (record { state = s; msg_batch = batch; running = true }))
          (taken events)
  unfolding run_loop take_event submit_pending
  run_loop-Submits [] s batch lt = record {
    batches = [];
    state_eq = refl;
    in_order = sym (append-nil batch);
    sized = tt;
    below = lt;
    stopped = λ e. cc;
  }
  run_loop-Submits (received m ∷ events) s batch lt =
      let more = length-append {0} batch (m ∷ []) in
      elim (Bool-cases (leb msg_commit_batch_size_limit (length (batch ++ (m ∷ []))))) [
        | inl full ↦ rw full (
            Submits-flush (record { state = s; msg_batch = batch; running = true })
              (run_loop submit events
                (record { state = submit s (batch ++ (m ∷ [])); msg_batch = []; running = true }))
              (batch ++ (m ∷ [])) (taken events) (omega (arith, more)) (omega (arith, more))
              (run_loop-Submits events (submit s (batch ++ (m ∷ []))) [] (omega arith))
              (m ∷ taken events) (append_assoc batch (m ∷ []) (taken events)))
        | inr room ↦
            let h = run_loop-Submits events s (batch ++ (m ∷ [])) (ground arith) in
            rw room (record {
              batches = h.batches;
              state_eq = h.state_eq;
              in_order = h.in_order ∙ append_assoc batch (m ∷ []) (taken events);
              sized = h.sized;
              below = h.below;
              stopped = h.stopped;
            })
      ]
  run_loop-Submits (expired ∷ events) s [] lt = run_loop-Submits events s [] lt
  run_loop-Submits (expired ∷ events) s (m ∷ ms) lt =
      Submits-flush (record { state = s; msg_batch = m ∷ ms; running = true })
        (run_loop submit events
          (record { state = submit s (m ∷ ms); msg_batch = []; running = true }))
        (m ∷ ms) (taken events) (omega arith) (omega arith)
        (run_loop-Submits events (submit s (m ∷ ms)) [] (omega arith)) (taken events) refl
  run_loop-Submits (channel_closed ∷ events) s [] lt = run_stopped-Submits events s
  run_loop-Submits (channel_closed ∷ events) s (m ∷ ms) lt =
      Submits-flush (record { state = s; msg_batch = m ∷ ms; running = true })
        (run_loop submit events
          (record { state = submit s (m ∷ ms); msg_batch = []; running = false }))
        (m ∷ ms) [] (omega arith) (omega arith) (run_stopped-Submits events (submit s (m ∷ ms))) []
        refl

  -- From the start of the loop, whatever the order of messages and timers: the batches that are
  -- submitted, followed by the batch that still waits, are the messages that were taken from the
  -- queue in their order, each once. Every batch has a message and at most 1024 of them, the batch that
  -- waits has fewer, and once the queue is closed none waits.
  pub run_batch_broadcast-Submits :
      (events : List (Event Msg)) (s : S)
      → Submits
          (record { state = s; msg_batch = []; running = true })
          (run_batch_broadcast submit events s)
          (taken events)
  unfolding run_batch_broadcast
  run_batch_broadcast-Submits events s = run_loop-Submits events s [] (omega arith)
