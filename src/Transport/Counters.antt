-- ===== src/Transport/Counters.antt =====
-- Counters, and the choice of the read callback (src/connectionbase.cpp).
use libbtcnet.Base.{Bytes, ℕ, ◌+◌, ◌%◌, ◌^◌, ◌<◌, List, [], ◌∷◌, some, ◌≡◌, refl, ap, ◌∙◌, arith}
use libbtcnet.Message.{NetworkConfig, size_needed}
use libbtcnet.Object.{ConnectionBase, retry}
use libbtcnet.Connection.{CConnection}
use libbtcnet.Channel.{init_channel, ReadCb, no_callback, read_cb_chunk, read_cb_message}
use libbtcnet.Transport.{read_data}

-- The object after reads of these sizes.
pub feed : List ℕ → ConnectionBase → ConnectionBase
feed [] c = c
feed (n ∷ ns) c = feed ns (read_data n c).0

abbrev pub sum : List ℕ → ℕ
sum [] = 0
sum (n ∷ ns) = n + sum ns

read_data-some :
    (n : ℕ) (c : ConnectionBase) (t : ℕ)
    → t < 2 ^ 64
    → c.bytes_read ≡ some t
    → (read_data n c).0.bytes_read ≡ some ((t + n) % 2 ^ 64)
unfolding read_data
read_data-some n c t b h = ground arith

feed-some :
    (ns : List ℕ) (c : ConnectionBase) (t : ℕ)
    → t < 2 ^ 64
    → c.bytes_read ≡ some t
    → (feed ns c).bytes_read ≡ some ((t + sum ns) % 2 ^ 64)
unfolding feed
feed-some [] c t b h = ground arith
feed-some (n ∷ ns) c t b h =
    let wrapped : ((t + n) % 2 ^ 64 + sum ns) % 2 ^ 64 ≡ (t + (n + sum ns)) % 2 ^ 64 =
      omega arith in
    feed-some ns (read_data n c).0 ((t + n) % 2 ^ 64) (omega arith) (read_data-some n c t b h)
    ∙ ap some wrapped

-- After a retry the counter is the sum of what was read since, as an `unsigned long`.
feed-retry :
    (ns : List ℕ) (id : ℕ) (c : ConnectionBase)
    → (feed ns (retry id c)).bytes_read ≡ some (sum ns % 2 ^ 64)
unfolding retry
feed-retry ns id c =
    feed-some ns (retry id c) 0 (omega arith) refl ∙ ap some (ap (λ x. x % 2 ^ 64) (omega arith))

-- What a read callback needs: a chunk reader a positive chunk size, a message reader a positive
-- header size and no chunk size; each is called only once a chunk or the length field of a header
-- is there.
abbrev pub Ready : ReadCb → NetworkConfig → ℕ → Type 0
Ready read_cb_chunk n low = (0 < n.chunk_size) × (low ≡ n.chunk_size)
Ready read_cb_message n low = (0 < n.header_size) × (n.chunk_size ≡ 0) × (low ≡ size_needed n)
Ready no_callback n low = (n.chunk_size ≡ 0) × (n.header_size ≡ 0)

-- The callback that is installed has what it needs: a chunk reader a positive chunk size, a message
-- reader a positive header size and no chunk size, and each is called only once a chunk or the length
-- field of a header is there. None is installed only if both sizes are 0.
init_channel-Ready :
    (c : CConnection) (input : Bytes)
    → Ready (init_channel c input).read_cb c.net_config (init_channel c input).read_low
unfolding init_channel
init_channel-Ready c input = ground arith
