-- ===== src/Plan/Results.antt =====
-- What a run of a plan keeps: the result of each operation, the created IDs, and the server.

use libtmux_go.Base.{ℕ, zero, suc, Bool, false, Option, some, List, [], ◌∷◌, Bytes, ◌==◌}
use libtmux_go.Base.Int.{pos, negsuc}
use libtmux_go.Command.{CommandResult, CommandError}
use libtmux_go.Plan.{PlanError}

pub data OpStatus : Type 0 where
  op_complete op_failed op_indeterminate op_skipped : OpStatus

-- The error of one operation, or of a run: a plan's refusal, a command's failure, or one of the server's: transport, layouts, version.
pub data RunError (E : Type 0) (X : Type 0) : Type 0 where
  refused : PlanError E → RunError E X
  failed : CommandError → RunError E X
  transport : X → RunError E X

-- `OpResult`.
pub record OpResult (E : Type 0) (X : Type 0) : Type 0 where
  pub command : Bytes
  pub status : OpStatus
  pub created : Bytes
  pub stdout : List Bytes
  pub error : Option (RunError E X)

-- What the server makes of a command list: a completed command, or a transport's error, which says
-- whether the outcome is unknown.
pub data Sent (X : Type 0) : Type 0 where
  completed : CommandResult → Sent X
  not_sent : Bool → X → Sent X

abbrev pub is_success : CommandResult → Bool
is_success r = elim (r.exit_code) [ pos n ↦ n == 0 | negsuc n ↦ false ]

module _ {E : Type 0} {X : Type 0} where
  -- A result changed in place.
  unfoldable pub update :
      List (OpResult E X) → ℕ → (OpResult E X → OpResult E X) → List (OpResult E X)
  update [] i f = []
  update (r ∷ rs) zero f = f r ∷ rs
  update (r ∷ rs) (suc i) f = r ∷ update rs i f

  abbrev pub with_status : OpStatus → OpResult E X → OpResult E X
  with_status s r = record r { status = s }

  abbrev pub with_error : OpStatus → RunError E X → OpResult E X → OpResult E X
  with_error s e r = record r { status = s; error = some e }

  unfoldable pub update_all :
      List (OpResult E X) → List ℕ → (OpResult E X → OpResult E X) → List (OpResult E X)
  update_all rs [] f = rs
  update_all rs (i ∷ more) f = update_all (update rs i f) more f

-- What a run has so far: the results, the created IDs, and the server.
pub record Run (E : Type 0) (X : Type 0) (S : Type 0) : Type 0 where
  pub results : List (OpResult E X)
  pub created : List (ℕ × Bytes)
  pub server : S

-- What one dispatch of a run leads to: the next one, or the run's end with the error it returns.
pub data Next (E : Type 0) (X : Type 0) (S : Type 0) : Type 0 where
  goes_on : Run E X S → Next E X S
  stops : Run E X S → Option (RunError E X) → Next E X S
