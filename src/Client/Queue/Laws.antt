-- ===== src/Client/Queue/Laws.antt =====
-- The channel keeps the order of the messages, and who may close it.
use flux_sdk_go.Common.{
  ℕ, ◌+◌, ◌≤◌, ◌⊎◌, inl, inr, Bool-cases, if◌then◌else◌, ◌≡◌, refl, sym, ap, ◌∙◌, ◌≢◌, Bool, true,
  false, List, [], ◌∷◌, ◌++◌, length, length-append, arith,
}
use mathlib.Core.List.{append_assoc}
use flux_sdk_go.Client.Queue.{
  Queue, capacity, check_open, set_pending, put, take_from, set_flags, Step, call, send,
  send_to_closed, end_call, mark_closed, close_channel, receive, Run, stop, then_run, new_queue,
}

module _ {Msg : Type 0} where
  -- What the loop has taken, and then what waits in the channel, is what was put into it.
  abbrev pub InOrder : Queue Msg → Type 0
  InOrder q =
      (q.received ++ q.channel ≡ q.accepted)
      × (length q.channel ≤ capacity)
      × (q.shut ≡ true → q.closed ≡ true)

  Step-InOrder : (q r : Queue Msg) → Step q r → InOrder q → InOrder r
  unfolding set_pending put take_from set_flags
  Step-InOrder _ _ (call q msgs e) h = h
  Step-InOrder _ _ (send q before after m rest e open_still room) (order, full, flags) = (
    sym (append_assoc q.received q.channel (m ∷ [])) ∙ ap (λ l. l ++ (m ∷ [])) order,
    omega (arith, length-append {0} q.channel (m ∷ [])),
    flags,
  )
  Step-InOrder _ _ (send_to_closed q before after m rest e s) h = h
  Step-InOrder _ _ (end_call q before after msgs e) h = h
  Step-InOrder _ _ (mark_closed q c e) (order, full, flags) = (order, full, λ s. refl)
  Step-InOrder _ _ (close_channel q c s) (order, full, flags) = (order, full, λ t. c)
  Step-InOrder _ _ (receive q m rest e) (order, full, flags) = (
    append_assoc q.received (m ∷ []) rest ∙ ap (λ l. q.received ++ l) (sym e) ∙ order,
    ground (arith, ap length e, full),
    flags,
  )

  Run-InOrder : (q r : Queue Msg) → Run q r → InOrder q → InOrder r
  Run-InOrder _ _ (stop q) h = h
  Run-InOrder q s (then_run {r = r} step run) h = Run-InOrder r s run (Step-InOrder q r step h)

  none_pending :
      (before after : List (List Msg)) (c : List Msg)
      → ◌≢◌ {A = List (List Msg)} [] (before ++ (c ∷ after))
  none_pending [] after c e = cc
  none_pending (b ∷ before) after c e = cc

  -- Without a key a client's queue stays as it was made.
  Step-read_only : (q r : Queue Msg) → Step q r → q ≢ new_queue false
  unfolding check_open
  Step-read_only _ _ (call q msgs e) h = absurd (ground (arith, ap (λ k. k.can_sign) h))
  Step-read_only _ _ (send q before after m rest e s room) h =
      none_pending before after (m ∷ rest) (sym (ap (λ k. k.pending) h) ∙ e)
  Step-read_only _ _ (send_to_closed q before after m rest e s) h =
      none_pending before after (m ∷ rest) (sym (ap (λ k. k.pending) h) ∙ e)
  Step-read_only _ _ (end_call q before after msgs e) h =
      none_pending before after msgs (sym (ap (λ k. k.pending) h) ∙ e)
  Step-read_only _ _ (mark_closed q c e) h = absurd (ground (arith, ap (λ k. k.can_sign) h))
  Step-read_only _ _ (close_channel q c s) h = absurd (ground (arith, ap (λ k. k.closed) h))
  Step-read_only _ _ (receive q m rest e) h = absurd (ground (arith, ap (λ k. k.channel) h))

  Run-read_only : (q r : Queue Msg) → Run q r → q ≡ new_queue false → r ≡ new_queue false
  Run-read_only _ _ (stop q) h = h
  Run-read_only q s (then_run {r = r} step run) h = absurd (Step-read_only q r step h)

  -- The messages of the calls of a run that passed the check.
  unfoldable pub requested : {q r : Queue Msg} → Run q r → List Msg
  requested (stop q) = []
  requested (then_run (call q msgs e) run) = msgs ++ requested run
  requested (then_run (send q before after m rest e s room) run) = requested run
  requested (then_run (send_to_closed q before after m rest e s) run) = requested run
  requested (then_run (end_call q before after msgs e) run) = requested run
  requested (then_run (mark_closed q c e) run) = requested run
  requested (then_run (close_channel q c s) run) = requested run
  requested (then_run (receive q m rest e) run) = requested run

  -- Once the client is marked closed, no call passes its check.
  requested_closed : (q r : Queue Msg) (run : Run q r) → q.closed ≡ true → requested run ≡ []
  unfolding requested check_open set_pending put take_from set_flags
  requested_closed _ _ (stop q) c = refl
  requested_closed _ s (then_run (call q msgs e) run) c = absurd (ground arith)
  requested_closed _ s (then_run (send q before after m rest e o room) run) c =
      requested_closed _ s run c
  requested_closed _ s (then_run (send_to_closed q before after m rest e o) run) c =
      requested_closed _ s run c
  requested_closed _ s (then_run (end_call q before after msgs e) run) c =
      requested_closed _ s run c
  requested_closed _ s (then_run (mark_closed q k e) run) c = requested_closed _ s run refl
  requested_closed _ s (then_run (close_channel q k o) run) c = requested_closed _ s run c
  requested_closed _ s (then_run (receive q m rest e) run) c = requested_closed _ s run c

  module _ (p : Msg → Bool) where
    -- How many messages pass the test.
    unfoldable pub count : List Msg → ℕ
    count [] = 0
    count (m ∷ ms) = (if p m then 1 else 0) + count ms

    unfoldable count_all : List (List Msg) → ℕ
    count_all [] = 0
    count_all (c ∷ calls) = count c + count_all calls

    count-append : (xs ys : List Msg) → count (xs ++ ys) ≡ count xs + count ys
    unfolding count
    count-append [] ys = omega arith
    count-append (x ∷ xs) ys = omega (arith, count-append xs ys)

    count_all-append :
        (before after : List (List Msg))
        → count_all (before ++ after) ≡ count_all before + count_all after
    unfolding count_all
    count_all-append [] after = omega arith
    count_all-append (b ∷ before) after = omega (arith, count_all-append before after)

    requested-count :
        (q r : Queue Msg) (run : Run q r)
        → count r.accepted ≤ count q.accepted + count_all q.pending + count (requested run)
    unfolding requested set_pending put take_from set_flags count count_all
    requested-count _ _ (stop q) = omega arith
    requested-count _ s (then_run (call q msgs e) run) =
        omega (arith, requested-count _ s run, count-append msgs (requested run))
    requested-count _ s (then_run (send q before after m rest e o room) run) = omega (
      arith,
      requested-count _ s run,
      count-append q.accepted (m ∷ []),
      ap count_all e,
      count_all-append before (rest ∷ after),
      count_all-append before ((m ∷ rest) ∷ after),
    )
    requested-count _ s (then_run (send_to_closed q before after m rest e o) run) =
        requested-count _ s run
    requested-count _ s (then_run (end_call q before after msgs e) run) = omega (
      arith,
      requested-count _ s run,
      ap count_all e,
      count_all-append before after,
      count_all-append before (msgs ∷ after),
    )
    requested-count _ s (then_run (mark_closed q c e) run) = requested-count _ s run
    requested-count _ s (then_run (close_channel q c o) run) = requested-count _ s run
    requested-count _ s (then_run (receive q m rest e) run) = requested-count _ s run

  -- However the calls of QueueBroadcastMsg, the loop and Close interleave from a new client on: the
  -- messages that the loop has taken are the first that were put into the channel, in their order, the rest of
  -- these waits in the channel, which never holds more than 1024, and the channel is closed only once the
  -- client is marked closed. Of the messages that pass a test, whichever it is, no more are put into the channel than
  -- the calls that passed their check asked for. A client that cannot sign keeps the queue it was made with: each call
  -- of it is refused, and Close does nothing. Once a client is marked closed, no call that follows passes its check
  -- with a message.
  pub new_queue-InOrder :
      (can_sign : Bool) (r s : Queue Msg) (run : Run (new_queue can_sign) r) (more : Run r s)
      (p : Msg → Bool)
      → InOrder r
        × (count p r.accepted ≤ count p (requested run))
        × ((can_sign ≡ true) ⊎ (r ≡ new_queue false))
        × ((r.closed ≡ false) ⊎ (requested more ≡ []))
  unfolding count count_all
  new_queue-InOrder can_sign r s run more p = (
    Run-InOrder (new_queue can_sign) r run (refl, omega arith, λ e. cc),
    omega (arith, requested-count p (new_queue can_sign) r run),
    elim (Bool-cases can_sign) [
      | inl e ↦ inl e
      | inr e ↦ inr (Run-read_only (new_queue can_sign) r run (ap new_queue e))
    ],
    elim (Bool-cases r.closed) [ inl e ↦ inr (requested_closed r s more e) | inr e ↦ inl e ],
  )

  -- The client is marked closed, no call is pending, and nothing has crashed.
  abbrev pub IsQuiet : Queue Msg → Type 0
  IsQuiet q = (q.closed ≡ true) × (q.pending ≡ []) × (q.crashed ≡ false)

  Step-IsQuiet : (q r : Queue Msg) → Step q r → IsQuiet q → IsQuiet r × (r.accepted ≡ q.accepted)
  unfolding set_pending put take_from set_flags check_open
  Step-IsQuiet _ _ (call q msgs e) (c, p, x) = absurd (ground arith)
  Step-IsQuiet _ _ (send q before after m rest e s room) (c, p, x) =
      absurd (none_pending before after (m ∷ rest) (sym p ∙ e))
  Step-IsQuiet _ _ (send_to_closed q before after m rest e s) (c, p, x) =
      absurd (none_pending before after (m ∷ rest) (sym p ∙ e))
  Step-IsQuiet _ _ (end_call q before after msgs e) (c, p, x) =
      absurd (none_pending before after msgs (sym p ∙ e))
  Step-IsQuiet _ _ (mark_closed q k e) (c, p, x) = absurd (ground arith)
  Step-IsQuiet _ _ (close_channel q k s) h = (h, refl)
  Step-IsQuiet _ _ (receive q m rest e) h = (h, refl)

  -- If no call is pending when the client is marked closed, nothing that follows sends to the closed
  -- channel: there is no panic, and nothing more is accepted.
  pub Run-IsQuiet : (q r : Queue Msg) → Run q r → IsQuiet q → IsQuiet r × (r.accepted ≡ q.accepted)
  Run-IsQuiet _ _ (stop q) h = (h, refl)
  Run-IsQuiet q s (then_run {r = r} step run) h =
      let (quiet, same) = Step-IsQuiet q r step h in
      let (quiet', same') = Run-IsQuiet r s run quiet in (quiet', same' ∙ same)
