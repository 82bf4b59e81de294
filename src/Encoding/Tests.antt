-- ===== src/Encoding/Tests.antt =====
-- The command encoder at concrete argument vectors.
use libtmux_go.Base.{
  ◌≡◌, ◌≢◌, refl, true, false, some, List, [], ◌∷◌, Bytes, codes, All, map, arith,
}
use libtmux_go.Base.Result.{ok, err}
use libtmux_go.Encoding.Reader.{read_line}
use libtmux_go.Encoding.RoundTrip.{token, encode_command-read, encode_command-clean}
use libtmux_go.Encoding.{
  encode_command, encode_rest, encode_argument, quote_bytes, has_nul, nul_argument,
}

abbrev arguments : List Bytes
arguments = codes "it's" ∷ codes ";" ∷ [] ∷ (10 ∷ 255 ∷ []) ∷ []

encode_arguments :
    encode_command (codes "send-keys" ∷ arguments) true
    ≡ ok (codes "'send-keys' 'it'\"'\"'s' ; '' \\012\\377")
unfolding encode_command encode_rest encode_argument quote_bytes has_nul
encode_arguments = refl

refuse_nul : encode_command (codes "send-keys" ∷ (0 ∷ []) ∷ []) true ≡ err nul_argument
unfolding encode_command encode_rest encode_argument quote_bytes has_nul
refuse_nul = refl

clean_arguments : All (λ x. has_nul x ≡ false) (codes "send-keys" ∷ arguments)
unfolding has_nul
clean_arguments = (refl, (refl, (refl, (refl, (refl, tt)))))

encode_command-read_example :
    (s : Bytes) × (encode_command (codes "send-keys" ∷ arguments) true ≡ ok s)
    × (read_line s ≡ some (map (token true) (codes "send-keys" ∷ arguments)))
encode_command-read_example =
    encode_command-read true (codes "send-keys") arguments (grind arith) (omega arith)
      clean_arguments

encode_command-clean_example :
    (codes "send-keys" ≢ []) × All (λ x. has_nul x ≡ false) (codes "send-keys" ∷ arguments)
encode_command-clean_example =
    encode_command-clean true (codes "send-keys") arguments encode_arguments
