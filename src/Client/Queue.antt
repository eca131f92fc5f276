-- ===== src/Client/Queue.antt =====
-- QueueBroadcastMsg and Close of chain.go against the loop that takes the messages. Calls run beside each
-- other, so that the queue is a step relation: a call that has passed its check is pending until its
-- messages are in the channel or its timer ends.
pub mod Laws
mod Tests
use flux_sdk_go.Common.{
  ℕ, ◌<◌, ◌≡◌, Bool, true, false, not, List, [], ◌∷◌, ◌++◌, Result, Check, ok, err, ◌>>=◌, ◌>>◌,
  reject_if, length,
}

pub data Error : Type 0 where
  read_only queue_closed : Error

-- `msgC` of a client, and the calls on it. `accepted` is what was put into the channel so far, and `received`
-- what the loop has taken. `closed` is the client's flag and `shut` says that `msgC` is closed; a send to
-- a closed channel panics, which ends the program, `crashed`.
pub record Queue (Msg : Type 0) : Type 0 where
  pub can_sign : Bool
  pub channel : List Msg
  pub accepted : List Msg
  pub received : List Msg
  pub pending : List (List Msg)
  pub closed : Bool
  pub shut : Bool
  pub crashed : Bool

abbrev pub capacity : ℕ
capacity = 1024

-- The check at the start of `QueueBroadcastMsg`.
pub check_open : {Msg : Type 0} → Queue Msg → Check Error
check_open q = do reject_if (not q.can_sign) read_only; reject_if q.closed queue_closed

module _ {Msg : Type 0} where
  pub set_pending : List (List Msg) → Queue Msg → Queue Msg
  set_pending calls q = record {
    can_sign = q.can_sign;
    channel = q.channel;
    accepted = q.accepted;
    received = q.received;
    pending = calls;
    closed = q.closed;
    shut = q.shut;
    crashed = q.crashed;
  }

  -- `c.msgC <- msg`
  pub put : Msg → Queue Msg → Queue Msg
  put m q = record {
    can_sign = q.can_sign;
    channel = q.channel ++ (m ∷ []);
    accepted = q.accepted ++ (m ∷ []);
    received = q.received;
    pending = q.pending;
    closed = q.closed;
    shut = q.shut;
    crashed = q.crashed;
  }

  -- `msg, ok := <-c.msgC` of the loop, where `rest` is what stays in the channel.
  pub take_from : Msg → List Msg → Queue Msg → Queue Msg
  take_from m rest q = record {
    can_sign = q.can_sign;
    channel = rest;
    accepted = q.accepted;
    received = q.received ++ (m ∷ []);
    pending = q.pending;
    closed = q.closed;
    shut = q.shut;
    crashed = q.crashed;
  }

  pub set_flags : Bool → Bool → Bool → Queue Msg → Queue Msg
  set_flags closed shut crashed q = record {
    can_sign = q.can_sign;
    channel = q.channel;
    accepted = q.accepted;
    received = q.received;
    pending = q.pending;
    closed = closed;
    shut = shut;
    crashed = crashed;
  }

  pub data Step : Queue Msg → Queue Msg → Type 0 where
    call :
        (q : Queue Msg) (msgs : List Msg)
        → check_open q ≡ ok tt
        → Step q (set_pending (msgs ∷ q.pending) q)
    send :
        (q : Queue Msg) (before after : List (List Msg)) (m : Msg) (rest : List Msg)
        → q.pending ≡ before ++ ((m ∷ rest) ∷ after)
        → q.shut ≡ false
        → length q.channel < capacity
        → Step q (put m (set_pending (before ++ (rest ∷ after)) q))
    send_to_closed :
        (q : Queue Msg) (before after : List (List Msg)) (m : Msg) (rest : List Msg)
        → q.pending ≡ before ++ ((m ∷ rest) ∷ after)
        → q.shut ≡ true
        → Step q (set_flags q.closed q.shut true q)
    end_call :
        (q : Queue Msg) (before after : List (List Msg)) (msgs : List Msg)
        → q.pending ≡ before ++ (msgs ∷ after)
        → Step q (set_pending (before ++ after) q)
    mark_closed :
        (q : Queue Msg)
        → q.can_sign ≡ true
        → q.closed ≡ false
        → Step q (set_flags true q.shut q.crashed q)
    close_channel :
        (q : Queue Msg)
        → q.closed ≡ true
        → q.shut ≡ false
        → Step q (set_flags q.closed true q.crashed q)
    receive :
        (q : Queue Msg) (m : Msg) (rest : List Msg)
        → q.channel ≡ m ∷ rest
        → Step q (take_from m rest q)

  pub data Run : Queue Msg → Queue Msg → Type 0 where
    stop : (q : Queue Msg) → Run q q
    then_run : {q r s : Queue Msg} → Step q r → Run r s → Run q s

  -- A new client's queue.
  abbrev pub new_queue : Bool → Queue Msg
  new_queue can_sign = record {
    can_sign = can_sign;
    channel = [];
    accepted = [];
    received = [];
    pending = [];
    closed = false;
    shut = false;
    crashed = false;
  }
