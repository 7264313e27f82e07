-- ===== src/Message/Framing.antt =====
-- One look at the front of the input: `first_complete_message_size` in src/message.cpp.
use libbtcnet.Base.{
  ℕ, zero, suc, ◌+◌, ◌%◌, ◌^◌, ◌≤◌, ◌<◌, Bool, true, false, not, ◌&&◌, ◌||◌, [], ◌∷◌, ◌++◌, some,
  ◌≡◌, refl, inl, inr, ltb, Bool-cases, Bytes, length, take, drop, All, bytes_eq_iff, bytes_eq_refl,
  length-append, length-drop, length-take, take-append-drop, take-append_le, drop-append_le, arith,
}
use libbtcnet.Message.{
  NetworkConfig, Scan, get_message_length, size_needed, scan_header, first_complete_message_size,
}

abbrev pub IsBytes : Bytes → Type 0
IsBytes = All (λ b. b < 256)

-- A configuration whose length field has four bytes and lies in the header, and whose start marker
-- lies in the part of the header that is peeked.
pub record IsUsable (c : NetworkConfig) : Type 0 where
  pub size_is_four : c.header_msg_size_size ≡ 4
  pub start_fits : length c.message_start ≤ size_needed c
  pub header_covers : size_needed c ≤ c.header_size
  pub header_int : c.header_size < 2 ^ 31

-- The message is above the limit of the configuration, if there is one.
abbrev pub oversized : NetworkConfig → Scan → Bool
oversized c s = ltb 0 c.message_max_size && ltb c.message_max_size s.size

-- The loop ends at this scan.
abbrev pub stops : NetworkConfig → Scan → Bool
stops c s = oversized c s || (s.bad_start || not s.complete)

-- A whole message as the protocol has it: the start marker, a header, and as many bytes as the
-- header announces behind it, within the limit.
pub record IsMessage (c : NetworkConfig) (m : Bytes) : Type 0 where
  pub has_header : size_needed c ≤ length m
  pub starts : take (length c.message_start) m ≡ c.message_start
  pub declared :
      length m ≡ (get_message_length (drop c.header_msg_size_offset m) + c.header_size) % 2 ^ 64
  pub fits : (ltb 0 c.message_max_size && ltb c.message_max_size (length m)) ≡ false

pub IsBytes-drop : (n : ℕ) (xs : Bytes) → IsBytes xs → IsBytes (drop n xs)
IsBytes-drop zero xs h = h
IsBytes-drop (suc n) [] h = h
IsBytes-drop (suc n) (x ∷ xs) h = IsBytes-drop n xs h.1

get_message_length-lt : (xs : Bytes) → IsBytes xs → get_message_length xs < 2 ^ 32
unfolding get_message_length
get_message_length-lt [] h = omega arith
get_message_length-lt (a ∷ []) h = omega arith
get_message_length-lt (a ∷ b ∷ []) h = omega arith
get_message_length-lt (a ∷ b ∷ c ∷ []) h = omega arith
get_message_length-lt (a ∷ b ∷ c ∷ d ∷ r) h = omega arith

-- The length field is read from its four bytes alone.
get_message_length-append :
    (xs ys : Bytes) → 4 ≤ length xs → get_message_length (xs ++ ys) ≡ get_message_length xs
unfolding get_message_length
get_message_length-append [] ys h = absurd (omega arith)
get_message_length-append (a ∷ []) ys h = absurd (omega arith)
get_message_length-append (a ∷ b ∷ []) ys h = absurd (omega arith)
get_message_length-append (a ∷ b ∷ c ∷ []) ys h = absurd (omega arith)
get_message_length-append (a ∷ b ∷ c ∷ d ∷ r) ys h = refl

module _ (c : NetworkConfig) (u : IsUsable c) where
  -- With a usable configuration nothing aborts.
  pub first_complete-some :
      (input : Bytes) → (s : Scan) × (first_complete_message_size c input ≡ some s)
  unfolding first_complete_message_size
  first_complete-some input = elim (Bool-cases (ltb (length input) (size_needed c))) [
    | inl e ↦
        (record { size = 0; complete = false; bad_start = false }, ground (arith, u.size_is_four))
    | inr e ↦ (scan_header c input, ground (arith, u.size_is_four, u.start_fits))
  ]

  -- A complete message is not empty and lies within the input.
  pub first_complete_bounds :
      (input : Bytes) (s : Scan)
      → IsBytes input
      → first_complete_message_size c input ≡ some s
      → s.complete ≡ true
      → (0 < s.size) × (s.size ≤ length input)
  unfolding first_complete_message_size scan_header
  first_complete_bounds input s b e k = ground (
    arith,
    u.header_covers,
    u.size_is_four,
    u.header_int,
    get_message_length-lt (drop c.header_msg_size_offset input)
        (IsBytes-drop c.header_msg_size_offset input b),
  )

  -- A message at the front is found whole, whatever follows it.
  pub first_complete-append :
      (m rest : Bytes)
      → IsMessage c m
      → first_complete_message_size c (m ++ rest)
        ≡ some (record { size = length m; complete = true; bad_start = false })
  unfolding first_complete_message_size scan_header
  first_complete-append m rest w = ground (
    arith,
    u.size_is_four,
    u.start_fits,
    take-append_le (length c.message_start) m rest (omega (arith, u.start_fits, w.has_header)),
    drop-append_le c.header_msg_size_offset m rest (omega (arith, w.has_header)),
    get_message_length-append (drop c.header_msg_size_offset m) rest
        (omega (arith, length-drop c.header_msg_size_offset m, w.has_header, u.size_is_four)),
    length-append m rest,
    bytes_eq_refl c.message_start,
  )

  -- What a scan that does not stop the loop says of the input.
  deliverable_facts :
      (input : Bytes) (s : Scan)
      → IsBytes input
      → first_complete_message_size c input ≡ some s
      → stops c s ≡ false
      → (s.size ≤ length input)
        × (s.size
            ≡ (get_message_length (drop c.header_msg_size_offset input) + c.header_size) % 2 ^ 64)
        × (take (length c.message_start) input ≡ c.message_start)
        × (size_needed c ≤ s.size)
        × (oversized c s ≡ false)
  unfolding first_complete_message_size scan_header
  deliverable_facts input s b e k = ground (
    arith,
    u.header_covers,
    u.header_int,
    bytes_eq_iff (take (length c.message_start) input) c.message_start,
    get_message_length-lt (drop c.header_msg_size_offset input)
        (IsBytes-drop c.header_msg_size_offset input b),
  )

  prefix-IsMessage :
      (m rest : Bytes) (s : Scan)
      → IsBytes (m ++ rest)
      → first_complete_message_size c (m ++ rest) ≡ some s
      → stops c s ≡ false
      → length m ≡ s.size
      → IsMessage c m
  prefix-IsMessage m rest s b e k l =
      let (bound, size, starts, has, fits) = deliverable_facts (m ++ rest) s b e k in
      let short : c.header_msg_size_offset + 4 ≤ length m = omega (arith, u.size_is_four) in
      let starts' = take-append_le (length c.message_start) m rest (omega (arith, u.start_fits)) in
      let field' = drop-append_le c.header_msg_size_offset m rest (omega arith) in
      let length' =
        get_message_length-append (drop c.header_msg_size_offset m) rest
          (omega (arith, length-drop c.header_msg_size_offset m)) in
      record {
        has_header = omega arith;
        starts = cc;
        declared = rw (l, size, field', length') refl;
        fits = rw l fits;
      }

  -- What the loop delivers at a scan is a whole message.
  pub deliverable-IsMessage :
      (input : Bytes) (s : Scan)
      → IsBytes input
      → first_complete_message_size c input ≡ some s
      → stops c s ≡ false
      → IsMessage c (take s.size input)
  deliverable-IsMessage input s b e k =
      let split = take-append-drop s.size input in
      let bound = (deliverable_facts input s b e k).0 in
      prefix-IsMessage (take s.size input) (drop s.size input) s (rw split b) (rw split e) k
        (omega (arith, length-take s.size input))
