-- ===== src/Base32/Tests.antt =====
-- Runs of the encoder and the decoder of src/base32.cpp.
use Prim.Native.Char.{code}
use Prim.Native.String.{String}
use libbtcnet.Base.{true, false, [], ◌∷◌, ◌≡◌, refl, Bytes, arith}
use libbtcnet.Base32.{encode_base32, decode_base32}
use libbtcnet.Base32.RoundTrip.{decode-encode}

abbrev codes : String → Bytes
codes String.[] = []
codes (String.◌∷◌ c s) = code c ∷ codes s

foobar : encode_base32 (codes "foobar") ≡ codes "mzxw6ytboi======"
unfolding encode_base32
foobar = refl

upper_case : decode_base32 (codes "MZXW6YTBOI======") ≡ (codes "foobar", false)
unfolding decode_base32
upper_case = refl

missing_padding : decode_base32 (codes "mzxw6ytboi") ≡ (codes "foobar", true)
unfolding decode_base32
missing_padding = refl

decode-encode_example : decode_base32 (encode_base32 (codes "onion!")) ≡ (codes "onion!", false)
decode-encode_example = decode-encode (codes "onion!") (omega arith)
