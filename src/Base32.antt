-- ===== src/Base32.antt =====
-- src/base32.cpp. A `char` is a byte, and the text of a C string ends with its list. The bits that
-- the source joins with `|` never overlap, so a sum stands for them; `>> k` is a division and
-- `& (2 ^ k - 1)` a remainder.
pub mod RoundTrip
pub mod Tests
use libbtcnet.Base.{
  ℕ, zero, suc, ◌+◌, ◌-◌, ◌*◌, ◌/◌, ◌%◌, Bool, true, false, not, ◌&&◌, ◌||◌, List, [], ◌∷◌, ◌++◌,
  Option, none, some, leb, ◌==◌, if◌then◌else◌, Bytes,
}

-- `pbase32`: "abcdefghijklmnopqrstuvwxyz234567".
pub encode32 : ℕ → ℕ
encode32 v = if leb v 25 then b'a' + v else b'2' + (v - 26)

-- How many bits of the last byte are not yet written: the variable `mode` of the encoder.
pub data EncodeMode : Type 0 where
  no_bits three_bits one_bit four_bits two_bits : EncodeMode

-- The characters that follow the last whole byte.
pub padding : EncodeMode → ℕ → Bytes
padding no_bits left = []
padding three_bits left = encode32 left ∷ b'=' ∷ b'=' ∷ b'=' ∷ b'=' ∷ b'=' ∷ b'=' ∷ []
padding one_bit left = encode32 left ∷ b'=' ∷ b'=' ∷ b'=' ∷ b'=' ∷ []
padding four_bits left = encode32 left ∷ b'=' ∷ b'=' ∷ b'=' ∷ []
padding two_bits left = encode32 left ∷ b'=' ∷ []

-- The loop of `EncodeBase32` and what it appends at the end.
pub encode_from : EncodeMode → ℕ → Bytes → Bytes
encode_from mode left [] = padding mode left
encode_from no_bits left (enc ∷ rest) =
    encode32 (enc / 8) ∷ encode_from three_bits (enc % 8 * 4) rest
encode_from three_bits left (enc ∷ rest) =
    encode32 (left + enc / 64) ∷ encode32 (enc / 2 % 32) ∷ encode_from one_bit (enc % 2 * 16) rest
encode_from one_bit left (enc ∷ rest) =
    encode32 (left + enc / 16) ∷ encode_from four_bits (enc % 16 * 2) rest
encode_from four_bits left (enc ∷ rest) =
    encode32 (left + enc / 128) ∷ encode32 (enc / 4 % 32) ∷ encode_from two_bits (enc % 4 * 8) rest
encode_from two_bits left (enc ∷ rest) =
    encode32 (left + enc / 32) ∷ encode32 (enc % 32) ∷ encode_from no_bits 0 rest

unfoldable pub encode_base32 : Bytes → Bytes
unfolding encode_from padding encode32
encode_base32 = encode_from no_bits 0

-- `decode32_table`; `none` is -1.
pub decode32 : ℕ → Option ℕ
decode32 c =
    if leb b'2' c && leb c b'7'
    then some (c - b'2' + 26)
    else if leb b'A' c && leb c b'Z'
    then some (c - b'A')
    else if leb b'a' c && leb c b'z'
    then some (c - b'a')
    else none

-- The variable `mode` of the decoder: how many characters of a group of eight are read.
pub data DecodeMode : Type 0 where
  d0 d1 d2 d3 d4 d5 d6 d7 : DecodeMode

-- One turn of the `switch`: the byte that is pushed, if any, and the new `mode` and `left`.
pub absorb : DecodeMode → ℕ → ℕ → Option ℕ × DecodeMode × ℕ
absorb d0 left dec = (none, d1, dec)
absorb d1 left dec = (some ((left * 8 + dec / 4) % 256), d2, dec % 4)
absorb d2 left dec = (none, d3, left * 32 + dec)
absorb d3 left dec = (some ((left * 2 + dec / 16) % 256), d4, dec % 16)
absorb d4 left dec = (some ((left * 16 + dec / 2) % 256), d5, dec % 2)
absorb d5 left dec = (none, d6, left * 32 + dec)
absorb d6 left dec = (some ((left * 4 + dec / 8) % 256), d7, dec % 8)
absorb d7 left dec = (some ((left * 32 + dec) % 256), d0, left)

-- At `p`, after the padding: `decode32_table` has -1, as it has at the end of the text.
pub no_digit : Bytes → Bool
no_digit [] = true
no_digit (c ∷ cs) = elim (decode32 c) [ none ↦ true | some v ↦ false ]

-- `n` times '=', and then no further digit.
pub padded : ℕ → Bytes → Bool
padded zero cs = no_digit cs
padded (suc n) [] = false
padded (suc n) (c ∷ cs) = c == b'=' && padded n cs

-- The check of `left` and of the text behind the last digit.
pub is_invalid : DecodeMode → ℕ → Bytes → Bool
is_invalid d0 left p = false
is_invalid d1 left p = true
is_invalid d2 left p = not (left == 0) || not (padded 6 p)
is_invalid d3 left p = true
is_invalid d4 left p = not (left == 0) || not (padded 4 p)
is_invalid d5 left p = not (left == 0) || not (padded 3 p)
is_invalid d6 left p = true
is_invalid d7 left p = not (left == 0) || not (padded 1 p)

abbrev pub push_back : Option ℕ → Bytes × Bool → Bytes × Bool
push_back none r = r
push_back (some b) (bs, invalid) = (b ∷ bs, invalid)

-- The loop of `DecodeBase32` and the check behind it: the bytes, and `*pfInvalid`.
pub decode_from : DecodeMode → ℕ → Bytes → Bytes × Bool
decode_from mode left [] = ([], is_invalid mode left [])
decode_from mode left (c ∷ cs) = elim (decode32 c) [
  | none ↦ ([], is_invalid mode left (c ∷ cs))
  | some dec ↦
      push_back (absorb mode left dec).0
        (decode_from (absorb mode left dec).1 (absorb mode left dec).2 cs)
]

unfoldable pub decode_base32 : Bytes → Bytes × Bool
unfolding decode_from decode32 absorb is_invalid padded no_digit
decode_base32 = decode_from d0 0
