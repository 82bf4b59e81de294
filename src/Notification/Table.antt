-- ===== src/Notification/Table.antt =====
-- The notification vocabulary of tmux/option_generated.go: each kind, the number of its prefix
-- arguments and the form of its tail. The releases that first sent a kind are left out: the parser
-- does not read them.
use libtmux_go.Base.{ℕ, Bool, true, false, String, List, [], ◌∷◌, Bytes, codes}

pub data Tail : Type 0 where
  no_tail required optional colon : Tail

pub record Definition : Type 0 where
  pub kind : Bytes
  pub prefix_count : ℕ
  pub tail : Tail
  pub allow_empty_tail : Bool

abbrev entry : String → ℕ → Tail → Bool → Definition
entry kind count tail allow = record {
  kind = codes kind;
  prefix_count = count;
  tail = tail;
  allow_empty_tail = allow;
}

unfoldable pub definitions : List Definition
definitions =
    entry "%client-detached" 0 required false
    ∷ entry "%client-session-changed" 2 required false
    ∷ entry "%config-error" 0 required false
    ∷ entry "%continue" 1 no_tail false
    ∷ entry "%exit" 0 optional false
    ∷ entry "%extended-output" 2 colon true
    ∷ entry "%layout-change" 3 required true
    ∷ entry "%message" 0 required true
    ∷ entry "%output" 1 required true
    ∷ entry "%pane-mode-changed" 1 no_tail false
    ∷ entry "%paste-buffer-changed" 0 required false
    ∷ entry "%paste-buffer-deleted" 0 required false
    ∷ entry "%pause" 1 no_tail false
    ∷ entry "%session-changed" 1 required false
    ∷ entry "%session-renamed" 1 required false
    ∷ entry "%session-window-changed" 2 no_tail false
    ∷ entry "%sessions-changed" 0 no_tail false
    ∷ entry "%subscription-changed" 5 colon true
    ∷ entry "%unlinked-window-add" 1 no_tail false
    ∷ entry "%unlinked-window-close" 1 no_tail false
    ∷ entry "%unlinked-window-renamed" 1 required false
    ∷ entry "%window-add" 1 no_tail false
    ∷ entry "%window-close" 1 no_tail false
    ∷ entry "%window-pane-changed" 2 no_tail false
    ∷ entry "%window-renamed" 1 required false
    ∷ []
