-- ===== src/Environment/Requests.antt =====
-- What tmux reads of the arguments that tmux/environment.go sends: flags, each a word of its own, up to
-- two dashes or the first word that is none, and operands behind them.
use libtmux_go.Base.{
  ◌≡◌, refl, Bool, true, false, ◌&&◌, Option, none, some, List, [], ◌∷◌, Bytes, codes, bytes_eq,
  length, ltb, if◌then◌else◌,
}
use libtmux_go.Text.{has_prefix}
use libtmux_go.Environment.{set_arguments, get_arguments}

-- The environment that a command is for: the server's or a session's, by its ID.
pub data Scope : Type 0 where
  global : Scope
  session : Bytes → Scope

-- The scope that Server's methods pass, and the one of `environmentScope`.
abbrev pub scope_words : Scope → List Bytes
scope_words global = codes "-g" ∷ []
scope_words (session id) = codes "-t" ∷ id ∷ []

pub record Request : Type 0 where
  pub command : Bytes
  pub scope : Option Scope
  pub expands : Bool
  pub hides : Bool
  pub operands : List Bytes

-- The words from a place on, `pending` where `-t` stands in front of them. A flag that the commands do not
-- have, or `-t` at the end, is refused.
unfoldable pub read_words : Bool → Request → List Bytes → Option Request
read_words true q [] = none
read_words true q (w ∷ ws) = read_words false (record q { scope = some (session w) }) ws
read_words false q [] = some q
read_words false q (w ∷ ws) =
    if bytes_eq w (codes "--")
    then some (record q { operands = ws })
    else if bytes_eq w (codes "-g")
    then read_words false (record q { scope = some global }) ws
    else if bytes_eq w (codes "-t")
    then read_words true q ws
    else if bytes_eq w (codes "-F")
    then read_words false (record q { expands = true }) ws
    else if bytes_eq w (codes "-h")
    then read_words false (record q { hides = true }) ws
    else if has_prefix w (codes "-") && ltb 1 (length w)
    then none
    else some (record q { operands = w ∷ ws })

unfoldable pub read_request : List Bytes → Option Request
read_request [] = none
read_request (command ∷ words) =
    read_words false
      (record { command = command; scope = none; expands = false; hides = false; operands = [] })
      words

-- A request with a scope and no other flag.
abbrev pub request : Bytes → Scope → List Bytes → Request
request command scope operands = record {
  command = command;
  scope = some scope;
  expands = false;
  hides = false;
  operands = operands;
}

-- What `setEnvironment` sends is read as it is meant, whatever the name, the value and the options are.
pub read_request-set :
    (scope : Scope) (name value : Bytes) (expand_format hidden : Bool)
    → read_request (
        set_arguments
          (scope_words scope)
          name
          value
          (record { expand_format = expand_format; hidden = hidden }))
      ≡ some (record (request (codes "set-environment") scope (name ∷ value ∷ [])) {
        expands = expand_format;
        hides = hidden;
      })
unfolding read_request read_words
read_request-set global name value true true = refl
read_request-set global name value true false = refl
read_request-set global name value false true = refl
read_request-set global name value false false = refl
read_request-set (session id) name value true true = refl
read_request-set (session id) name value true false = refl
read_request-set (session id) name value false true = refl
read_request-set (session id) name value false false = refl

pub read_request-get :
    (scope : Scope) (name : Bytes)
    → read_request (get_arguments (scope_words scope) name)
      ≡ some (request (codes "show-environment") scope (name ∷ []))
unfolding read_request read_words
read_request-get global name = refl
read_request-get (session id) name = refl
