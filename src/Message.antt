-- ===== src/Message.antt =====
-- The framing of the byte stream: include/libbtcnet/networkconfig.h, src/message.cpp, and the two
-- read callbacks of src/connectionbase.cpp. An evbuffer is the list of its bytes. The `int` sizes of
-- the configuration are taken as numbers that are not negative. A sum of sizes below 2 ^ 64 is
-- written without its wrap-around, and the length that a header announces with it.
pub mod Framing
pub mod Loop
pub mod Stream
pub mod Tails
pub mod Chunks
pub mod Tests
use libbtcnet.Base.{
  ℕ, zero, suc, ◌+◌, ◌-◌, ◌*◌, ◌%◌, ◌^◌, Bool, true, false, not, ◌&&◌, ◌||◌, List, [], ◌∷◌, ◌++◌,
  Option, none, some, ltb, leb, ◌==◌, if◌then◌else◌, Bytes, length, take, drop, bytes_eq,
}

-- `CNetworkConfig`, without the three version numbers that the library never reads.
pub record NetworkConfig : Type 0 where
  pub header_msg_size_offset : ℕ
  pub header_msg_size_size : ℕ
  pub header_size : ℕ
  pub message_max_size : ℕ
  pub message_start : Bytes
  pub chunk_size : ℕ

-- Four bytes, the lowest first. The bits that the source joins with `|` do not overlap.
pub get_message_length : Bytes → ℕ
get_message_length (b0 ∷ b1 ∷ b2 ∷ b3 ∷ rest) = b0 + b1 * 2 ^ 8 + b2 * 2 ^ 16 + b3 * 2 ^ 24
get_message_length _ = 0

-- `first_complete_message_size` returns a size and sets two flags.
pub record Scan : Type 0 where
  pub size : ℕ
  pub complete : Bool
  pub bad_start : Bool

abbrev pub size_needed : NetworkConfig → ℕ
size_needed c = c.header_msg_size_offset + c.header_msg_size_size

-- The part behind the check for a whole header, on either way to reach the header's bytes.
unfoldable pub scan_header : NetworkConfig → Bytes → Scan
scan_header c input =
    if not (bytes_eq (take (length c.message_start) input) c.message_start)
    then record { size = 0; complete = false; bad_start = true }
    else let n =
        (get_message_length (drop c.header_msg_size_offset input) + c.header_size) % 2 ^ 64 in
      record { size = n; complete = leb n (length input); bad_start = false }

-- `none`: the assertion on the size of the length field fails, or `memcmp` is asked for more bytes
-- than the header that was peeked.
unfoldable pub first_complete_message_size : NetworkConfig → Bytes → Option Scan
first_complete_message_size c input =
    if not (c.header_msg_size_size == 4)
    then none
    else if ltb (length input) (size_needed c)
    then some (record { size = 0; complete = false; bad_start = false })
    else if ltb (size_needed c) (length c.message_start)
    then none
    else some (scan_header c input)

-- What the loop of `read_cb_message` leaves behind.
pub record Batch : Type 0 where
  pub input : Bytes
  pub msgs : List Bytes
  pub totalsize : ℕ
  pub msgsize : ℕ
  pub too_big : Bool
  pub bad_msg_start : Bool

pub data Outcome {ℓ} (A : Type ℓ) : Type ℓ where
  out_of_fuel : Outcome A
  abort : Outcome A
  finished : A → Outcome A

-- The oversized message is taken off the input only if all of it is there.
abbrev pub drain_if : Bool → ℕ → Bytes → Bytes
drain_if complete n input = if complete then drop n input else input

-- The `do` loop. A complete message of size 0 leaves everything as it was.
unfoldable pub read_loop : ℕ → NetworkConfig → Bytes → List Bytes → ℕ → Outcome Batch
read_loop zero c input msgs total = out_of_fuel
read_loop (suc fuel) c input msgs total = elim (first_complete_message_size c input) [
  | none ↦ abort
  | some s ↦
      let again = read_loop fuel c input msgs total in
      let rest =
        read_loop fuel c (drop s.size input) (msgs ++ (take s.size input ∷ [])) (total + s.size) in
      if ltb 0 c.message_max_size && ltb c.message_max_size s.size
      then finished (record {
        input = drain_if s.complete s.size input;
        msgs = msgs;
        totalsize = total;
        msgsize = s.size;
        too_big = true;
        bad_msg_start = s.bad_start;
      })
      else if s.bad_start || not s.complete
      then finished (record {
        input = input;
        msgs = msgs;
        totalsize = total;
        msgsize = s.size;
        too_big = false;
        bad_msg_start = s.bad_start;
      })
      else if s.size == 0
      then again
      else rest
]

-- The calls that a read callback makes, in order.
pub data Call : Type 0 where
  receive_messages : List Bytes → ℕ → Call
  malformed_message : Call
  disconnect : Call

pub record ReadResult : Type 0 where
  pub rest : Bytes
  -- The new low and high watermark, if they are set.
  pub watermark : Option (ℕ × ℕ)
  pub calls : List Call

-- The part of `read_cb_message` behind the loop.
unfoldable pub after_loop : NetworkConfig → Batch → ReadResult
after_loop c b = record {
  rest = b.input;
  watermark =
      if not (b.msgsize == 0) && not b.bad_msg_start
      then some (b.msgsize, b.msgsize + c.message_max_size)
      else if not b.bad_msg_start && not b.too_big
      then some (size_needed c, c.message_max_size)
      else none;
  calls =
      (if not (b.totalsize == 0) then receive_messages b.msgs b.totalsize ∷ [] else [])
      ++ (if b.too_big || b.bad_msg_start then malformed_message ∷ disconnect ∷ [] else []);
}

abbrev pub map_outcome {ℓ κ} : {A : Type ℓ} {B : Type κ} → (A → B) → Outcome A → Outcome B
map_outcome f out_of_fuel = out_of_fuel
map_outcome f abort = abort
map_outcome f (finished a) = finished (f a)

-- One round more than there are bytes is enough fuel.
unfoldable pub read_cb_message : NetworkConfig → Bytes → Outcome ReadResult
unfolding read_loop after_loop first_complete_message_size scan_header get_message_length bytes_eq
read_cb_message c input = map_outcome (after_loop c) (read_loop (suc (length input)) c input [] 0)

-- The `while` loop of `read_cb_chunk`; the fuel bounds the rounds.
unfoldable pub chunk_loop : ℕ → ℕ → Bytes → List Bytes → Outcome (List Bytes × Bytes)
chunk_loop zero n input msgs = out_of_fuel
chunk_loop (suc fuel) n input msgs = elim (leb n (length input)) [
  | true ↦ chunk_loop fuel n (drop n input) (msgs ++ (take n input ∷ []))
  | false ↦ finished (msgs, input)
]

abbrev pub chunk_calls : ℕ → List Bytes → List Call
chunk_calls n [] = []
chunk_calls n (m ∷ ms) = receive_messages (m ∷ ms) (length (m ∷ ms) * n) ∷ []

-- `abort` is the assertion that the chunk size is positive.
unfoldable pub read_cb_chunk : NetworkConfig → Bytes → Outcome ReadResult
unfolding chunk_loop
read_cb_chunk c input =
    if c.chunk_size == 0
    then abort
    else map_outcome
        (λ r. record { rest = r.1; watermark = none; calls = chunk_calls c.chunk_size r.0 })
        (chunk_loop (suc (length input)) c.chunk_size input [])
