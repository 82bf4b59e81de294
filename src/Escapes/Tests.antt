-- ===== src/Escapes/Tests.antt =====
-- Escaped values at small inputs.
use libtmux_go.Base.{ℕ, ◌≡◌, refl, Bool, ◌||◌, [], ◌∷◌, ◌++◌, Bytes, codes, ltb, ◌==◌, arith}
use libtmux_go.Base.Result.{ok}
use libtmux_go.Notification.Output.{escape}
use libtmux_go.Escapes.RoundTrip.{decode_escaped-escape}
use libtmux_go.Base.{true, false}
use libtmux_go.Text.{parse_int}
use libtmux_go.Escapes.{
  parse_key, key_of, cut_last, plain_key, decode_escaped, decode_body, without_quote, c_style,
  octal_value, refuse,
}

decode_styled :
    decode_escaped (codes "\"a\\tb\\\"\\033'\"") ≡ ok (b'a' ∷ 9 ∷ b'b' ∷ b'"' ∷ 27 ∷ b'\'' ∷ [])
unfolding decode_escaped decode_body without_quote c_style octal_value
decode_styled = refl

refuse_dangling : decode_escaped (codes "ab\\") ≡ refuse 2 "dangling escape"
unfolding decode_escaped decode_body
refuse_dangling = refl

abbrev hides : ℕ → Bool
hides c = ltb c 32 || c == b'\\' || c == b'\'' || c == b'"'

abbrev value : Bytes
value = codes "it's" ++ 10 ∷ 200 ∷ []

decode_escaped-escape_example :
    (decode_escaped (b'\'' ∷ (escape hides value ++ b'\'' ∷ [])) ≡ ok value)
    × (decode_escaped (b'"' ∷ (escape hides value ++ b'"' ∷ [])) ≡ ok value)
decode_escaped-escape_example = decode_escaped-escape hides refl refl refl value (omega arith)

key_indexed : parse_key (codes "update-environment[12]*") ≡ record {
  base = codes "update-environment";
  index = 12;
  indexed = true;
  inherited = true;
  valid = true;
}
unfolding parse_key key_of cut_last without_quote parse_int
key_indexed = refl

key_invalid : parse_key (codes "status[-1]") ≡ plain_key false (codes "status") false
unfolding parse_key key_of cut_last without_quote parse_int
key_invalid = refl
