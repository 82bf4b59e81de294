-- ===== src/Notification/Subscriptions.antt =====
-- `Subscription` of tmux/control_notification.go: the change that a subscription-changed notification
-- carries. An ID that is not there is the empty text.
use libtmux_go.Base.{
  ℕ, ◌^◌, ◌<◌, ◌≡◌, ◌≢◌, refl, ◌∙◌, Bool, true, false, Option, none, some, List, [], ◌∷◌, ◌++◌,
  Bytes, codes, length, ◌==◌, ◌&&◌, All, bytes_eq, bytes_eq_ne, if◌then◌else◌, arith,
}
use libtmux_go.Base.Int.{ℤ, pos}
use libtmux_go.Base.Result.{ok}
use libtmux_go.Text.{parse_int}
use libtmux_go.Text.Decimal.{decimal, parse_int-decimal}
use libtmux_go.Notification.Table.{Definition, definitions, colon}
use libtmux_go.Notification.Arguments.{IsWord}
use libtmux_go.Notification.ColonTail.{IsExtra}
use libtmux_go.Notification.RoundTrip.{
  print_notification, parse_notification-print, last_or-snoc, IsLine,
}
use libtmux_go.Notification.{Notification, parse_notification, find_definition, last_or}

pub record SubscriptionChange : Type 0 where
  pub name : Bytes
  pub session : Bytes
  pub window : Bytes
  pub window_index : ℤ
  pub pane : Bytes
  pub value : Bytes

abbrev pub known_id : Bytes → Bytes
known_id id = if bytes_eq id (codes "-") then [] else id

abbrev pub index_or_zero : Option ℤ → ℤ
index_or_zero none = pos 0
index_or_zero (some n) = n

unfoldable pub subscription_of : List Bytes → Option SubscriptionChange
subscription_of (name ∷ session ∷ window ∷ index ∷ pane ∷ sixth ∷ more) = some (record {
  name = name;
  session = known_id session;
  window = known_id window;
  window_index = index_or_zero (parse_int 64 index);
  pane = known_id pane;
  value = last_or sixth more;
})
subscription_of arguments = none

unfoldable pub subscription : Notification → Option SubscriptionChange
subscription n =
    if bytes_eq n.kind (codes "%subscription-changed") then subscription_of n.arguments else none

abbrev pub subscription_definition : Definition
subscription_definition = record {
  kind = codes "%subscription-changed";
  prefix_count = 5;
  tail = colon;
  allow_empty_tail = true;
}

-- An ID as tmux writes it: a dash where there is none.
abbrev pub print_id : Option Bytes → Bytes
print_id none = codes "-"
print_id (some id) = id

abbrev pub id_text : Option Bytes → Bytes
id_text none = []
id_text (some id) = id

abbrev pub IsId : Option Bytes → Type 0
IsId none = Unit
IsId (some id) = IsWord id × (id ≢ codes "-")

known_id-print : (id : Option Bytes) → IsId id → known_id (print_id id) ≡ id_text id
known_id-print none h = refl
known_id-print (some id) h = rw (bytes_eq_ne id (codes "-") h.1) refl

subscription_of-snoc :
    (name session window index pane : Bytes) (extra : List Bytes) (value : Bytes)
    → subscription_of (name ∷ session ∷ window ∷ index ∷ pane ∷ (extra ++ value ∷ []))
      ≡ some (record {
        name = name;
        session = known_id session;
        window = known_id window;
        window_index = index_or_zero (parse_int 64 index);
        pane = known_id pane;
        value = value;
      })
unfolding subscription_of
subscription_of-snoc name session window index pane [] value = refl
subscription_of-snoc name session window index pane (x ∷ extra) value =
    rw (last_or-snoc x extra value) refl

known_subscription :
    find_definition (codes "%subscription-changed") definitions ≡ some subscription_definition
unfolding find_definition definitions
known_subscription = refl

and_false : (b : Bool) → (b && false) ≡ false
and_false true = refl
and_false false = refl

module _ (name : Bytes) (session window pane : Option Bytes) (n : ℕ) (extra : List Bytes)
    (value : Bytes) where
  abbrev pub subscription_words : List Bytes
  subscription_words = name ∷ print_id session ∷ print_id window ∷ decimal n ∷ print_id pane ∷ []

  abbrev pub print_subscription : Bytes
  print_subscription =
      print_notification subscription_definition (codes "%subscription-changed") subscription_words
        extra (some value)

  subscription_of-words :
      IsId session
      → IsId window
      → IsId pane
      → n < 2 ^ 63
      → subscription_of ((subscription_words ++ extra) ++ value ∷ [])
        ≡ some (record {
          name = name;
          session = id_text session;
          window = id_text window;
          window_index = pos n;
          pane = id_text pane;
          value = value;
        })
  subscription_of-words s w p fits =
      subscription_of-snoc name (print_id session) (print_id window) (decimal n) (print_id pane)
        extra value
      ∙ rw
          (
            known_id-print session s,
            known_id-print window w,
            known_id-print pane p,
            parse_int-decimal 64 n fits (omega arith),
          )
          refl

  -- A subscription-changed line without NUL, CR or LF (a name, the three IDs or a dash for each that
  -- is not there, an index below 2^63, further words, and a value behind " : ") is parsed, and the
  -- change it carries has exactly that name, those IDs, that index and that value.
  pub subscription-print :
      All IsWord subscription_words
      → All IsExtra extra
      → IsLine print_subscription
      → IsId session
      → IsId window
      → IsId pane
      → n < 2 ^ 63
      → (r : Notification) × (parse_notification print_subscription ≡ ok r)
        × (subscription r
            ≡ some (record {
              name = name;
              session = id_text session;
              window = id_text window;
              window_index = pos n;
              pane = id_text pane;
              value = value;
            }))
  subscription-print words more line s w p fits = (
    record {
      kind = codes "%subscription-changed";
      arguments = (subscription_words ++ extra) ++ value ∷ [];
      output = none;
    },
    parse_notification-print subscription_definition (codes "%subscription-changed")
        subscription_words extra (some value) known_subscription refl words
        (more, and_false (length value == 0)) line refl,
    (unfold subscription in subscription_of-words s w p fits),
  )
