-- ===== src/Environment/Stored.antt =====
-- A value that is stored is the one that is read back.

use libtmux_go.Base.{◌≡◌, true, false, some, List, [], ◌∷◌, ◌++◌, Bytes, codes}
use libtmux_go.Base.Result.{Result, ok}
use libtmux_go.Command.{CommandResult}
use libtmux_go.Plan.Results.{is_success}
use libtmux_go.Environment.{SetOptions, valid_name, valid_value}
use libtmux_go.Environment.Requests.{Scope, read_request, request}

abbrev pub as_is : SetOptions
as_is = record { expand_format = false; hidden = false }

-- What the server answers a command that does what it was asked: the lines, and the state behind it.
abbrev pub Answers : {S X : Type 0} → Result X CommandResult × S → List Bytes → S → Type 0
Answers {S} {X} sent lines after =
    (result : CommandResult) × (sent ≡ (ok result, after))
    × (is_success result ≡ true)
    × (result.stderr ≡ [])
    × (result.stdout ≡ lines)

-- A server that keeps environments, by what it reads of its arguments: asked to set a name to a value, both
-- valid, it answers with nothing, and until its state changes it shows that entry when it is asked for the
-- name.
abbrev pub KeepsEnvironment :
    {S X : Type 0} → (S → List Bytes → Result X CommandResult × S) → Scope → Type 0
KeepsEnvironment {S} exec scope =
    (s : S) (name value : Bytes) (asked : List Bytes)
    → valid_name name ≡ true
    → valid_value value ≡ true
    → read_request asked ≡ some (request (codes "set-environment") scope (name ∷ value ∷ []))
    → (stored : S) × Answers (exec s asked) [] stored
      × ((shown : List Bytes)
          → read_request shown ≡ some (request (codes "show-environment") scope (name ∷ []))
          → Answers (exec stored shown) ((name ++ b'=' ∷ value) ∷ []) stored)
