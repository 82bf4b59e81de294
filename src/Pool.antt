-- ===== src/Pool.antt =====
-- tmux/control_pool.go: the lanes that concurrent commands share, as a state and the operations on it.
-- A client is a number; what a client does with a command is an outcome.
pub mod Steps
pub mod Soundness
pub mod Progress
pub mod Tests
use libtmux_go.Base.{
  ℕ, ◌-◌, Bool, true, false, ◌||◌, Option, none, some, List, [], ◌∷◌, ◌++◌, length, ◌==◌,
  if◌then◌else◌,
}

-- The errors of a command by what `connectionSurvives` asks of them.
pub data Failure (X : Type 0) : Type 0 where
  invalid_request cancelled deadline_exceeded : Failure X
  lost : X → Failure X

-- A lane whose client `release` closes, with what that call has in its variable `drained`.
pub record Closing : Type 0 where
  pub client : ℕ
  pub is_last : Bool

-- `controlLanePool`. Of the lanes that are not free, `taken` are those that a call of `acquire` has received
-- and not looked at again, `held` those that callers have, or that a reply fence still crosses, and
-- `closings` those that are not live any more and whose clients are being closed. A closed channel is a
-- Boolean.
pub record LanePool (X : Type 0) : Type 0 where
  pub clients : List ℕ
  pub free : List ℕ
  pub taken : List ℕ
  pub held : List ℕ
  pub closings : List Closing
  pub is_stopped : Bool
  pub is_drained : Bool
  pub live : ℕ
  pub failure : Option (Failure X)
  pub exclusive : List ℕ

-- What a call of `acquire` comes to, `waits` where no case of its `select` is ready. The error of a drained
-- pool is the first failure, or `ErrControlClosed` for none.
pub data Acquired (X : Type 0) : Type 0 where
  is_done closed waits : Acquired X
  drained : Option (Failure X) → Acquired X
  lane : ℕ → Acquired X

-- The first of a client's places in a list taken out.
unfoldable pub remove : ℕ → List ℕ → List ℕ
remove c [] = []
remove c (x ∷ xs) = let rest = remove c xs in if x == c then xs else x ∷ rest

-- The same for the lanes being closed, and what the call that closes it remembers.
unfoldable pub remove_closing : ℕ → List Closing → List Closing
remove_closing c [] = []
remove_closing c (e ∷ es) = let rest = remove_closing c es in if e.client == c then es else e ∷ rest

unfoldable pub closes_last : ℕ → List Closing → Bool
closes_last c [] = false
closes_last c (e ∷ es) = let rest = closes_last c es in if e.client == c then e.is_last else rest

module _ {X : Type 0} where
  -- `newControlLanePool`.
  abbrev pub new_pool : List ℕ → LanePool X
  new_pool clients = record {
    clients = clients;
    free = clients;
    taken = [];
    held = [];
    closings = [];
    is_stopped = false;
    is_drained = false;
    live = length clients;
    failure = none;
    exclusive = [];
  }

  -- `connectionSurvives`, with no error in front.
  unfoldable pub survives : Option (Failure X) → Bool
  survives none = true
  survives (some invalid_request) = true
  survives (some cancelled) = true
  survives (some deadline_exceeded) = true
  survives (some (lost x)) = false

  -- What `acquire` asks before its `select`: the call's end, or nothing. `done` says whether the context is.
  unfoldable pub poll : Bool → LanePool X → Option (Acquired X)
  poll done p =
      if done
      then some is_done
      else if p.is_stopped
      then some closed
      else if p.is_drained
      then some (drained p.failure)
      else none

  -- A lane received from `free`.
  unfoldable pub take : LanePool X → Option (ℕ × LanePool X)
  take p = elim (p.free) [
    | [] ↦ none
    | c ∷ rest ↦ some (c, record p { free = rest; taken = c ∷ p.taken })
  ]

  abbrev pub put_back : ℕ → LanePool X → LanePool X
  put_back c p = record p { free = p.free ++ c ∷ []; taken = remove c p.taken }

  -- What becomes of a lane that was received: the context and `stopped` are looked at once more.
  unfoldable pub settle : Bool → ℕ → LanePool X → Acquired X × LanePool X
  settle done c p =
      if done
      then (is_done, put_back c p)
      else if p.is_stopped
      then (closed, put_back c p)
      else (lane c, record p { taken = remove c p.taken; held = c ∷ p.held })

  -- `acquire` with no other call in between.
  unfoldable pub acquire : Bool → LanePool X → Acquired X × LanePool X
  acquire done p = elim (poll done p) [
    | some a ↦ (a, p)
    | none ↦ elim (take p) [ none ↦ (waits, p) | some (c, q) ↦ settle done c q ]
  ]

  abbrev pub first_failure : Option (Failure X) → Option (Failure X) → Option (Failure X)
  first_failure none new = new
  first_failure (some old) new = some old

  -- `release` up to where it unlocks.
  unfoldable pub release : ℕ → Option (Failure X) → LanePool X → LanePool X
  release c outcome p =
      if survives outcome
      then record p { free = p.free ++ c ∷ []; held = remove c p.held }
      else record p {
        held = remove c p.held;
        closings = record { client = c; is_last = p.live - 1 == 0 } ∷ p.closings;
        live = p.live - 1;
        failure = first_failure p.failure outcome;
      }

  -- The rest of `release`, where the client has closed.
  unfoldable pub finish_release : ℕ → LanePool X → LanePool X
  finish_release c p = record p {
    closings = remove_closing c p.closings;
    is_drained = (if closes_last c p.closings then true else p.is_drained);
  }

  -- `stop`.
  unfoldable pub stop : LanePool X → LanePool X
  stop p = record p { is_stopped = true }

  -- `adopt` and `retire`.
  unfoldable pub adopt : ℕ → LanePool X → Bool × LanePool X
  adopt c p = if p.is_stopped then (false, p) else (true, record p { exclusive = c ∷ p.exclusive })

  unfoldable pub retire : ℕ → LanePool X → LanePool X
  retire c p = record p { exclusive = remove c p.exclusive }

  -- `closing`.
  abbrev pub closing : LanePool X → List ℕ
  closing p = p.clients ++ p.exclusive
