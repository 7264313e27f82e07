-- ===== src/Base32/RoundTrip.antt =====
-- What is encoded is decoded again (src/base32.cpp).
use libbtcnet.Base.{
  ℕ, ◌+◌, ◌*◌, ◌/◌, ◌%◌, ◌<◌, true, false, [], ◌∷◌, some, ◌≡◌, refl, Bytes, length, All, arith,
}
use libbtcnet.Base32.{
  encode32, no_bits, three_bits, one_bit, four_bits, two_bits, padding, encode_from, encode_base32,
  decode32, DecodeMode, d0, d1, d2, d3, d4, d5, d6, d7, absorb, is_invalid, padded, no_digit,
  push_back, decode_from, decode_base32,
}

decode32-encode32 : (v : ℕ) → v < 32 → decode32 (encode32 v) ≡ some v
unfolding decode32 encode32
decode32-encode32 v h = ground arith

-- A digit is read as its value.
decode_from-encode32 :
    (mode : DecodeMode) (left v : ℕ) (cs : Bytes)
    → v < 32
    → decode_from mode left (encode32 v ∷ cs)
      ≡ push_back
          (absorb mode left v).0
          (decode_from (absorb mode left v).1 (absorb mode left v).2 cs)
unfolding decode_from
decode_from-encode32 mode left v cs h = rw (decode32-encode32 v h, decode_from)

-- The padding that the encoder writes is what the decoder asks for.
padding_read :
    (decode_from d2 0 (b'=' ∷ b'=' ∷ b'=' ∷ b'=' ∷ b'=' ∷ b'=' ∷ []) ≡ ([], false))
    × (decode_from d4 0 (b'=' ∷ b'=' ∷ b'=' ∷ b'=' ∷ []) ≡ ([], false))
    × (decode_from d5 0 (b'=' ∷ b'=' ∷ b'=' ∷ []) ≡ ([], false))
    × (decode_from d7 0 (b'=' ∷ []) ≡ ([], false))
    × ((left : ℕ) → decode_from d0 left [] ≡ ([], false))
unfolding decode_from decode32 is_invalid padded no_digit
padding_read = (refl, refl, refl, refl, λ left. refl)

module _ (b : ℕ) (p : b < 256) where
  three_bits_end : decode_from d1 (b / 8) (padding three_bits (b % 8 * 4)) ≡ (b ∷ [], false)
  unfolding padding absorb
  three_bits_end =
      let byte : (b / 8 * 8 + b % 8 * 4 / 4) % 256 ≡ b = omega arith in
      let none_left : b % 8 * 4 % 4 ≡ 0 = omega arith in
      rw (
        decode_from-encode32 d1 (b / 8) (b % 8 * 4) _ (omega arith),
        byte,
        none_left,
        padding_read.0,
      )

  one_bit_end : decode_from d3 (b / 2) (padding one_bit (b % 2 * 16)) ≡ (b ∷ [], false)
  unfolding padding absorb
  one_bit_end =
      let byte : (b / 2 * 2 + b % 2 * 16 / 16) % 256 ≡ b = omega arith in
      let none_left : b % 2 * 16 % 16 ≡ 0 = omega arith in
      rw (
        decode_from-encode32 d3 (b / 2) (b % 2 * 16) _ (omega arith),
        byte,
        none_left,
        padding_read.1,
      )

  four_bits_end : decode_from d4 (b / 16) (padding four_bits (b % 16 * 2)) ≡ (b ∷ [], false)
  unfolding padding absorb
  four_bits_end =
      let byte : (b / 16 * 16 + b % 16 * 2 / 2) % 256 ≡ b = omega arith in
      let none_left : b % 16 * 2 % 2 ≡ 0 = omega arith in
      rw (
        decode_from-encode32 d4 (b / 16) (b % 16 * 2) _ (omega arith),
        byte,
        none_left,
        padding_read.2,
      )

  two_bits_end : decode_from d6 (b / 4) (padding two_bits (b % 4 * 8)) ≡ (b ∷ [], false)
  unfolding padding absorb
  two_bits_end =
      let byte : (b / 4 * 4 + b % 4 * 8 / 8) % 256 ≡ b = omega arith in
      let none_left : b % 4 * 8 % 8 ≡ 0 = omega arith in
      rw (
        decode_from-encode32 d6 (b / 4) (b % 4 * 8) _ (omega arith),
        byte,
        none_left,
        padding_read.3,
      )

-- Behind a byte `b` whose first bits are written, the decoder's `left` holds these bits and the
-- encoder's `left` the others.
mutual
  unfolding encode_from padding absorb is_invalid

  no_bits_trip :
      (left : ℕ) (bs : Bytes)
      → All (λ b. b < 256) bs
      → decode_from d0 left (encode_from no_bits 0 bs) ≡ (bs, false)
  no_bits_trip left [] h = padding_read.4 left
  no_bits_trip left (e ∷ bs) h =
      rw (decode_from-encode32 d0 left (e / 8) _ (omega arith)) (three_bits_trip e bs h.0 h.1)

  three_bits_trip :
      (b : ℕ) (bs : Bytes)
      → b < 256
      → All (λ b. b < 256) bs
      → decode_from d1 (b / 8) (encode_from three_bits (b % 8 * 4) bs) ≡ (b ∷ bs, false)
  three_bits_trip b [] p h = three_bits_end b p
  three_bits_trip b (e ∷ bs) p h =
      let v = b % 8 * 4 + e / 64 in
      let byte : (b / 8 * 8 + v / 4) % 256 ≡ b = omega arith in
      let bits : v % 4 * 32 + e / 2 % 32 ≡ e / 2 = omega arith in
      rw (
        decode_from-encode32 d1 (b / 8) v _ (omega arith),
        decode_from-encode32 d2 (v % 4) (e / 2 % 32) _ (omega arith),
        byte,
        bits,
        one_bit_trip e bs h.0 h.1,
      )

  one_bit_trip :
      (b : ℕ) (bs : Bytes)
      → b < 256
      → All (λ b. b < 256) bs
      → decode_from d3 (b / 2) (encode_from one_bit (b % 2 * 16) bs) ≡ (b ∷ bs, false)
  one_bit_trip b [] p h = one_bit_end b p
  one_bit_trip b (e ∷ bs) p h =
      let v = b % 2 * 16 + e / 16 in
      let byte : (b / 2 * 2 + v / 16) % 256 ≡ b = omega arith in
      let bits : v % 16 ≡ e / 16 = omega arith in
      rw
        (decode_from-encode32 d3 (b / 2) v _ (omega arith), byte, bits, four_bits_trip e bs h.0 h.1)

  four_bits_trip :
      (b : ℕ) (bs : Bytes)
      → b < 256
      → All (λ b. b < 256) bs
      → decode_from d4 (b / 16) (encode_from four_bits (b % 16 * 2) bs) ≡ (b ∷ bs, false)
  four_bits_trip b [] p h = four_bits_end b p
  four_bits_trip b (e ∷ bs) p h =
      let v = b % 16 * 2 + e / 128 in
      let byte : (b / 16 * 16 + v / 2) % 256 ≡ b = omega arith in
      let bits : v % 2 * 32 + e / 4 % 32 ≡ e / 4 = omega arith in
      rw (
        decode_from-encode32 d4 (b / 16) v _ (omega arith),
        decode_from-encode32 d5 (v % 2) (e / 4 % 32) _ (omega arith),
        byte,
        bits,
        two_bits_trip e bs h.0 h.1,
      )

  two_bits_trip :
      (b : ℕ) (bs : Bytes)
      → b < 256
      → All (λ b. b < 256) bs
      → decode_from d6 (b / 4) (encode_from two_bits (b % 4 * 8) bs) ≡ (b ∷ bs, false)
  two_bits_trip b [] p h = two_bits_end b p
  two_bits_trip b (e ∷ bs) p h =
      let v = b % 4 * 8 + e / 32 in
      let byte : (b / 4 * 4 + v / 8) % 256 ≡ b = omega arith in
      let bits : (v % 8 * 32 + e % 32) % 256 ≡ e = omega arith in
      rw (
        decode_from-encode32 d6 (b / 4) v _ (omega arith),
        decode_from-encode32 d7 (v % 8) (e % 32) _ (omega arith),
        byte,
        bits,
        no_bits_trip (v % 8) bs h.1,
      )

-- Decoding what was encoded gives the bytes back, and the text is valid.
pub decode-encode :
    (bs : Bytes) → All (λ b. b < 256) bs → decode_base32 (encode_base32 bs) ≡ (bs, false)
unfolding decode_base32 encode_base32
decode-encode bs h = no_bits_trip 0 bs h

-- The length of the text is the capacity that the encoder reserves.
mutual
  unfolding encode_from padding

  length_no_bits :
      (left : ℕ) (bs : Bytes) → length (encode_from no_bits left bs) ≡ (length bs + 4) / 5 * 8
  length_no_bits left [] = omega arith
  length_no_bits left (e ∷ bs) = omega (arith, length_three_bits (e % 8 * 4) bs)

  length_three_bits :
      (left : ℕ) (bs : Bytes)
      → length (encode_from three_bits left bs) + 1 ≡ (length bs + 5) / 5 * 8
  length_three_bits left [] = omega arith
  length_three_bits left (e ∷ bs) = omega (arith, length_one_bit (e % 2 * 16) bs)

  length_one_bit :
      (left : ℕ) (bs : Bytes) → length (encode_from one_bit left bs) + 3 ≡ (length bs + 6) / 5 * 8
  length_one_bit left [] = omega arith
  length_one_bit left (e ∷ bs) = omega (arith, length_four_bits (e % 16 * 2) bs)

  length_four_bits :
      (left : ℕ) (bs : Bytes) → length (encode_from four_bits left bs) + 4 ≡ (length bs + 7) / 5 * 8
  length_four_bits left [] = omega arith
  length_four_bits left (e ∷ bs) = omega (arith, length_two_bits (e % 4 * 8) bs)

  length_two_bits :
      (left : ℕ) (bs : Bytes) → length (encode_from two_bits left bs) + 6 ≡ (length bs + 8) / 5 * 8
  length_two_bits left [] = omega arith
  length_two_bits left (e ∷ bs) = omega (arith, length_no_bits 0 bs)

-- The text is as long as the capacity that `EncodeBase32` reserves for it, so it is a whole number
-- of groups of eight characters.
length-encode : (bs : Bytes) → length (encode_base32 bs) ≡ (length bs + 4) / 5 * 8
unfolding encode_base32
length-encode bs = length_no_bits 0 bs

-- A text that begins with no digit is valid, and decodes to nothing, whatever follows.
decode_no_digit : (p : Bytes) → no_digit p ≡ true → decode_base32 p ≡ ([], false)
unfolding decode_base32
decode_no_digit [] h = refl
decode_no_digit (c ∷ cs) h = ground arith
