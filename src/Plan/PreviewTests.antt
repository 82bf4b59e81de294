-- ===== src/Plan/PreviewTests.antt =====
-- A preview of a few operations, of which the second awaits the first.
use libtmux_go.Base.{◌≡◌, refl, false, none, some, List, [], ◌∷◌, Bytes, codes}
use libtmux_go.Base.Result.{ok, err}
use libtmux_go.Plan.{Ref, zero_ref, Op, build_error, render_op, resolve}
use libtmux_go.Plan.Preview.{
  fail_unsupported, degrade_unsupported, RenderContext, awaits_earlier, preview, preview_from,
}
use libtmux_go.Plan.Previewed.{IsPreview, preview-IsPreview}

-- An operation that sends its name and its target, or one that not every version supports.
abbrev command : Bytes → Ref → Op Bytes (RenderContext Bytes Bytes)
command name target = record {
  name = name;
  target = target;
  source = zero_ref;
  build = some (λ t s r. ok (name ∷ t ∷ []));
  creates = false;
  captures = false;
  untargets = false;
  needs_version = false;
}

abbrev unsupported : Bytes → Ref → Op Bytes (RenderContext Bytes Bytes)
unsupported name target = record (command name target) {
  build = some (λ t s r. elim r.unsupported [
    | fail_unsupported ↦ err (codes "empty")
    | degrade_unsupported ↦ ok (name ∷ t ∷ [])
  ]);
}

abbrev pane : Ref
pane = record { target = codes "%1"; step = 0; daemon = none }

abbrev sample : List (Op Bytes (RenderContext Bytes Bytes))
sample =
    command (codes "split-window") pane
    ∷ command (codes "send-keys") (record { target = []; step = 1; daemon = none })
    ∷ unsupported (codes "split-window") pane
    ∷ command (codes "select-pane") pane
    ∷ []

-- The third operation is refused, whichever policy a run has.
preview-sample : preview (codes "3.6") sample ≡ (
  some (codes "split-window" ∷ codes "%1" ∷ []) ∷ none ∷ none ∷ none ∷ [],
  some (build_error 2 (codes "split-window") (codes "empty")),
)
unfolding preview preview_from awaits_earlier render_op resolve
preview-sample = refl

preview-IsPreview_example :
    IsPreview
      (record {
        version = codes "3.6";
        layout_version = codes "3.6";
        unsupported = fail_unsupported;
        warning_handler = none;
      })
      0
      sample
      (preview (codes "3.6") sample)
preview-IsPreview_example = preview-IsPreview (codes "3.6") sample
