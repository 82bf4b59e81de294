-- ===== src/Plan/Preview.antt =====
-- `Plan.Preview`: the arguments of every operation that awaits no earlier one, rendered without a server.
use mathlib.Core.Bool.{not}
use libtmux_go.Base.{
  ℕ, ◌+◌, Bool, ◌&&◌, ◌||◌, Option, none, some, List, [], ◌∷◌, Bytes, ◌==◌, if◌then◌else◌,
}
use libtmux_go.Base.Result.{ok, err}
use libtmux_go.Plan.{Op, PlanError, render_op}

-- `UnsupportedPolicy` of tmux/warning.go, the first being the zero value.
pub data UnsupportedPolicy : Type 0 where
  fail_unsupported degrade_unsupported : UnsupportedPolicy

-- `planRenderContext`; a nil handler is `none`.
pub record RenderContext (V : Type 0) (W : Type 0) : Type 0 where
  pub version : V
  pub layout_version : V
  pub unsupported : UnsupportedPolicy
  pub warning_handler : Option W

module _ {E : Type 0} {R : Type 0} where
  -- `awaitsEarlierStep`.
  unfoldable pub awaits_earlier : Op E R → Bool
  awaits_earlier op = (not op.untargets && not (op.target.step == 0)) || not (op.source.step == 0)

  abbrev pub no_entries : List (Op E R) → List (Option (List Bytes))
  no_entries [] = []
  no_entries (op ∷ ops) = none ∷ no_entries ops

  -- The loop of `Preview` from an operation on; a nil entry is `none`.
  unfoldable pub preview_from :
      ℕ → List (Op E R) → R → List (Option (List Bytes)) × Option (PlanError E)
  preview_from index [] r = ([], none)
  preview_from index (op ∷ ops) r =
      let rest = preview_from (index + 1) ops r in
      if awaits_earlier op then (none ∷ rest.0, rest.1) else elim (render_op index op [] r) [
        | err e ↦ (none ∷ no_entries ops, some e)
        | ok argv ↦ (some argv ∷ rest.0, rest.1)
      ]

-- `Preview`: a context of its own, with the version for both and no policy but the zero value.
unfoldable pub preview :
    {E V W : Type 0}
    → V
    → List (Op E (RenderContext V W))
    → List (Option (List Bytes)) × Option (PlanError E)
preview version ops = preview_from 0 ops (record {
  version = version;
  layout_version = version;
  unsupported = fail_unsupported;
  warning_handler = none;
})
