-- ===== src/Message/Tests.antt =====
-- Runs of the read callbacks, and the theorems about them at concrete inputs.
use libbtcnet.Base.{
  ◌<◌, true, false, [], ◌∷◌, ◌++◌, some, none, ◌≡◌, ◌≢◌, refl, take, Bytes, length, All, flatten,
  arith,
}
use libbtcnet.Message.{
  NetworkConfig, receive_messages, malformed_message, disconnect, ReadResult, finished, out_of_fuel,
  read_loop, read_cb_message, read_cb_chunk,
}
use libbtcnet.Message.Framing.{IsUsable, IsMessage}
use libbtcnet.Message.Stream.{
  delivered, is_malformed, delivery, read_cb_message-splits, read_cb_message-append,
}
use libbtcnet.Message.Tails.{wrong_marker, read_cb_message-stream}
use libbtcnet.Message.Chunks.{read_cb_chunk-splits}

-- A marker of one byte, the length field behind it, and a limit of 16 bytes.
abbrev config : NetworkConfig
config = record {
  header_msg_size_offset = 1;
  header_msg_size_size = 4;
  header_size = 5;
  message_max_size = 16;
  message_start = 0xf9 ∷ [];
  chunk_size = 0;
}

abbrev two : Bytes
two = 0xf9 ∷ 2 ∷ 0 ∷ 0 ∷ 0 ∷ 7 ∷ 8 ∷ []

abbrev empty_message : Bytes
empty_message = 0xf9 ∷ 0 ∷ 0 ∷ 0 ∷ 0 ∷ []

abbrev partial : Bytes
partial = 0xf9 ∷ 3 ∷ 0 ∷ 0 ∷ 0 ∷ 1 ∷ []

abbrev bad : Bytes
bad = 0xfa ∷ 1 ∷ 0 ∷ 0 ∷ 0 ∷ 1 ∷ []

two_messages :
    read_cb_message config (two ++ (empty_message ++ partial))
    ≡ finished (record {
      rest = partial;
      watermark = some (8, 24);
      calls = receive_messages (two ∷ empty_message ∷ []) 12 ∷ [];
    })
unfolding read_cb_message
two_messages = refl

oversized_message :
    read_cb_message config (two ++ (0xf9 ∷ 0 ∷ 1 ∷ 0 ∷ 0 ∷ []))
    ≡ finished (record {
      rest = 0xf9 ∷ 0 ∷ 1 ∷ 0 ∷ 0 ∷ [];
      watermark = some (261, 277);
      calls = receive_messages (two ∷ []) 7 ∷ malformed_message ∷ disconnect ∷ [];
    })
unfolding read_cb_message
oversized_message = refl

config-IsUsable : IsUsable config
config-IsUsable = record {
  size_is_four = refl;
  start_fits = omega arith;
  header_covers = omega arith;
  header_int = omega arith;
}

two-IsMessage : IsMessage config two
unfolding read_cb_message
two-IsMessage = record { has_header = omega arith; starts = refl; declared = refl; fits = refl }

-- The marker of these bytes is wrong.
bad_marker : take 1 bad ≢ 0xf9 ∷ []
bad_marker e = ground (arith, e)

read_cb_message-stream_example :
    (r : ReadResult) × (read_cb_message config (flatten (two ∷ []) ++ bad) ≡ finished r)
    × (r.calls ≡ delivery (two ∷ []) ++ malformed_message ∷ disconnect ∷ [])
    × (true ≡ true → r.rest ≡ bad)
read_cb_message-stream_example =
    read_cb_message-stream config config-IsUsable (two ∷ []) bad (two-IsMessage, tt) (omega arith)
      (wrong_marker (omega arith) bad_marker)

read_cb_message-splits_example :
    (r : ReadResult) × (skipped : Bytes) × (read_cb_message config (two ++ bad) ≡ finished r)
    × All (IsMessage config) (delivered r.calls)
    × (flatten (delivered r.calls) ++ (skipped ++ r.rest) ≡ two ++ bad)
    × (is_malformed r.calls ≡ false → skipped ≡ [])
read_cb_message-splits_example =
    read_cb_message-splits config config-IsUsable (two ++ bad) (omega arith)

abbrev first_read : ReadResult
first_read = record {
  rest = partial;
  watermark = some (8, 24);
  calls = receive_messages (two ∷ []) 7 ∷ [];
}

abbrev second_read : ReadResult
second_read = record {
  rest = [];
  watermark = some (5, 16);
  calls = receive_messages ((partial ++ 2 ∷ 3 ∷ []) ∷ []) 8 ∷ [];
}

reads :
    (read_cb_message config (two ++ partial) ≡ finished first_read)
    × (read_cb_message config (partial ++ 2 ∷ 3 ∷ []) ≡ finished second_read)
unfolding read_cb_message
reads = (refl, refl)

read_cb_message-append_example :
    (q : ReadResult) × (read_cb_message config ((two ++ partial) ++ 2 ∷ 3 ∷ []) ≡ finished q)
    × (delivered q.calls ≡ two ∷ (partial ++ 2 ∷ 3 ∷ []) ∷ [])
    × (q.rest ≡ [])
    × (is_malformed q.calls ≡ false)
read_cb_message-append_example =
    read_cb_message-append config config-IsUsable (two ++ partial) (2 ∷ 3 ∷ []) first_read
      second_read (omega arith) (omega arith) reads.0 refl reads.1

abbrev chunked : NetworkConfig
chunked = record config { chunk_size = 3 }

read_cb_chunk-splits_example :
    (r : ReadResult) × (read_cb_chunk chunked two ≡ finished r)
    × All (λ m. length m ≡ 3) (delivered r.calls)
    × (flatten (delivered r.calls) ++ r.rest ≡ two)
    × (length r.rest < 3)
read_cb_chunk-splits_example = read_cb_chunk-splits chunked two (omega arith)

chunks :
    read_cb_chunk chunked two
    ≡ finished (record {
      rest = 8 ∷ [];
      watermark = none;
      calls = receive_messages ((0xf9 ∷ 2 ∷ 0 ∷ []) ∷ (0 ∷ 0 ∷ 7 ∷ []) ∷ []) 6 ∷ [];
    })
unfolding read_cb_chunk
chunks = refl

-- With no header at all a message of size 0 is complete for ever, and the loop does not end. The
-- callback is not installed for such a configuration.
no_header_loops : read_loop 9 (record config { header_size = 0 }) empty_message [] 0 ≡ out_of_fuel
unfolding read_cb_message
no_header_loops = refl
