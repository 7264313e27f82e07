-- ===== src/Message/Tails.antt =====
-- What `read_cb_message` (src/connectionbase.cpp) makes of whole messages and the bytes behind them,
-- as the framing has it.
use libbtcnet.Base.{
  ℕ, ◌+◌, ◌*◌, ◌%◌, ◌^◌, ◌≤◌, ◌<◌, Bool, true, false, ◌||◌, List, [], ◌∷◌, ◌++◌, some, ◌≡◌, ◌≢◌, ap,
  ◌∙◌, ◌⊎◌, if◌then◌else◌, Bytes, length, take, drop, All, flatten, leb, length-drop, bytes_eq_iff,
  arith,
}
use libbtcnet.Message.{
  NetworkConfig, Scan, finished, malformed_message, disconnect, ReadResult, size_needed,
  first_complete_message_size, scan_header, get_message_length, read_cb_message,
}
use libbtcnet.Message.Framing.{IsBytes, IsUsable, IsMessage, oversized, stops}
use libbtcnet.Message.Stream.{delivery, read_cb_message-scanned}

-- The number that bytes stand for, the lowest first.
abbrev pub le_value : Bytes → ℕ
le_value [] = 0
le_value (b ∷ bs) = b + 256 * le_value bs

-- The size of the message at the front, as its header announces it.
abbrev pub declared : NetworkConfig → Bytes → ℕ
declared c input =
    (le_value (take 4 (drop c.header_msg_size_offset input)) + c.header_size) % 2 ^ 64

-- Why no further message can be taken off: the header is not there as far as it is looked at, or the
-- message is not; its start marker is wrong, or it announces more than the limit, if there is one.
pub data Tail (c : NetworkConfig) (input : Bytes) : (given_up left_there : Bool) → Type 0 where
  no_header : length input < size_needed c → Tail c input false true
  unfinished :
      size_needed c ≤ length input
      → take (length c.message_start) input ≡ c.message_start
      → (c.message_max_size ≡ 0) ⊎ (declared c input ≤ c.message_max_size)
      → length input < declared c input
      → Tail c input false true
  wrong_marker :
      size_needed c ≤ length input
      → take (length c.message_start) input ≢ c.message_start
      → Tail c input true true
  too_large :
      size_needed c ≤ length input
      → take (length c.message_start) input ≡ c.message_start
      → 0 < c.message_max_size
      → c.message_max_size < declared c input
      → Tail c input true false

get_message_length_lem : (xs : Bytes) → 4 ≤ length xs → get_message_length xs ≡ le_value (take 4 xs)
unfolding get_message_length
get_message_length_lem [] h = absurd (omega arith)
get_message_length_lem (a ∷ []) h = absurd (omega arith)
get_message_length_lem (a ∷ b ∷ []) h = absurd (omega arith)
get_message_length_lem (a ∷ b ∷ c ∷ []) h = absurd (omega arith)
get_message_length_lem (a ∷ b ∷ c ∷ d ∷ r) h = omega arith

-- The scan of such bytes.
abbrev Scans : NetworkConfig → Bytes → Bool → Bool → Type 0
Scans c input bad kept =
    (s : Scan) × (first_complete_message_size c input ≡ some s)
    × (stops c s ≡ true)
    × ((oversized c s || s.bad_start) ≡ bad)
    × (kept ≡ true → oversized c s ≡ false)

module _ (c : NetworkConfig) (u : IsUsable c) where
  declared_lem :
      (input : Bytes)
      → size_needed c ≤ length input
      → (get_message_length (drop c.header_msg_size_offset input) + c.header_size) % 2 ^ 64
        ≡ declared c input
  declared_lem input h =
      ap (λ n. (n + c.header_size) % 2 ^ 64)
        (get_message_length_lem (drop c.header_msg_size_offset input)
          (omega (arith, length-drop c.header_msg_size_offset input, u.size_is_four)))

  scan_marked :
      (input : Bytes)
      → size_needed c ≤ length input
      → take (length c.message_start) input ≡ c.message_start
      → first_complete_message_size c input
        ≡ some (record {
          size = declared c input;
          complete = leb (declared c input) (length input);
          bad_start = false;
        })
  unfolding first_complete_message_size scan_header
  scan_marked input h m = ground (
    arith,
    u.size_is_four,
    u.start_fits,
    declared_lem input h,
    bytes_eq_iff (take (length c.message_start) input) c.message_start,
  )

  few :
      (n m : ℕ)
      → (c.message_max_size ≡ 0) ⊎ (n ≤ c.message_max_size)
      → m < n
      → let s : Scan = record { size = n; complete = leb n m; bad_start = false } in
        (stops c s ≡ true) × ((oversized c s || false) ≡ false) × (oversized c s ≡ false)
  few n m le short = (ground arith, ground (arith, le), ground (arith, le))

  much :
      (n m : ℕ)
      → 0 < c.message_max_size
      → c.message_max_size < n
      → let s : Scan = record { size = n; complete = leb n m; bad_start = false } in
        (stops c s ≡ true) × ((oversized c s || false) ≡ true)
  much n m p l = (ground arith, ground arith)

  Tail-Scans : {input : Bytes} {bad kept : Bool} → Tail c input bad kept → Scans c input bad kept
  unfolding first_complete_message_size scan_header
  Tail-Scans (no_header h) = (
    record { size = 0; complete = false; bad_start = false },
    ground (arith, u.size_is_four),
    ground arith,
    ground arith,
    λ x. ground arith,
  )
  Tail-Scans {input} (unfinished h m le short) = (
    record {
      size = declared c input;
      complete = leb (declared c input) (length input);
      bad_start = false;
    },
    scan_marked input h m,
    (few (declared c input) (length input) le short).0,
    (few (declared c input) (length input) le short).1,
    λ x. (few (declared c input) (length input) le short).2,
  )
  Tail-Scans {input} (wrong_marker h m) = (
    record { size = 0; complete = false; bad_start = true },
    ground (
      arith,
      u.size_is_four,
      u.start_fits,
      bytes_eq_iff (take (length c.message_start) input) c.message_start,
      m,
    ),
    ground arith,
    ground arith,
    λ x. ground arith,
  )
  Tail-Scans {input} (too_large h m p l) = (
    record {
      size = declared c input;
      complete = leb (declared c input) (length input);
      bad_start = false;
    },
    scan_marked input h m,
    (much (declared c input) (length input) p l).0,
    (much (declared c input) (length input) p l).1,
    λ x. cc x,
  )

  -- Whole messages followed by bytes of which no further message can be taken off: the messages are
  -- delivered in one call, in order. The connection is given up exactly if there is enough of
  -- a header behind them and its start marker is wrong, or it announces more than the limit, and is
  -- not if the header or its message is still to come. Unless too much is announced, the bytes behind
  -- the messages stay in the input.
  pub read_cb_message-stream :
      (ms : List Bytes) (left : Bytes) {bad kept : Bool}
      → All (IsMessage c) ms
      → IsBytes (flatten ms ++ left)
      → Tail c left bad kept
      → (r : ReadResult) × (read_cb_message c (flatten ms ++ left) ≡ finished r)
        × (r.calls ≡ delivery ms ++ (if bad then malformed_message ∷ disconnect ∷ [] else []))
        × (kept ≡ true → r.rest ≡ left)
  read_cb_message-stream ms left w b t =
      let (s, e, k, same, fits) = Tail-Scans t in
      let (r, done, calls, rest) = read_cb_message-scanned c u ms left s w b e k in
      (
        r,
        done,
        calls
            ∙ ap (λ g. delivery ms ++ (if g then malformed_message ∷ disconnect ∷ [] else [])) same,
        λ x. rest (fits x),
      )
