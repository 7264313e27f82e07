-- ===== src/Message/Chunks.antt =====
-- What `read_cb_chunk` (src/connectionbase.cpp) makes of a byte stream.
use libbtcnet.Base.{
  ℕ, zero, suc, ◌<◌, true, false, List, [], ◌∷◌, ◌++◌, none, ◌≡◌, refl, sym, ap, ◌∙◌, inl, inr,
  Bool-cases, leb, Bytes, length, take, drop, All, flatten, append-nil, append_assoc, length-take,
  length-drop, take-append-drop, arith,
}
use libbtcnet.Message.{NetworkConfig, finished, chunk_loop, chunk_calls, read_cb_chunk, ReadResult}
use libbtcnet.Message.Stream.{delivered}

record Split (n : ℕ) (input : Bytes) (ms : List Bytes) (rest : Bytes) : Type 0 where
  whole : flatten ms ++ rest ≡ input
  sizes : All (λ m. length m ≡ n) ms
  short : length rest < n

chunk_loop_stop :
    (n fuel : ℕ) (input : Bytes) (msgs : List Bytes)
    → leb n (length input) ≡ false
    → chunk_loop (suc fuel) n input msgs ≡ finished (msgs, input)
unfolding chunk_loop
chunk_loop_stop n fuel input msgs e = rw (e, chunk_loop)

chunk_loop_more :
    (n fuel : ℕ) (input : Bytes) (msgs : List Bytes)
    → leb n (length input) ≡ true
    → chunk_loop (suc fuel) n input msgs
      ≡ chunk_loop fuel n (drop n input) (msgs ++ (take n input ∷ []))
unfolding chunk_loop
chunk_loop_more n fuel input msgs e = rw (e, chunk_loop)

-- With enough fuel the loop cuts off chunks of `n` bytes until fewer are left.
chunk_loop-Split :
    (n : ℕ)
    → 0 < n
    → (fuel : ℕ) (input : Bytes) (msgs : List Bytes) → length input < fuel
    → (ms : List Bytes) × (rest : Bytes) × (chunk_loop fuel n input msgs
        ≡ finished (msgs ++ ms, rest))
      × Split n input ms rest
chunk_loop-Split n p zero input msgs h = absurd (omega arith)
chunk_loop-Split n p (suc fuel) input msgs h = elim (Bool-cases (leb n (length input))) [
  | inr e ↦ (
    [],
    input,
    chunk_loop_stop n fuel input msgs e ∙ ap (λ l. finished (l, input)) (sym (append-nil msgs)),
    record { whole = refl; sizes = tt; short = ground arith },
  )
  | inl e ↦
      let (ms, rest, run, split) =
        chunk_loop-Split n p fuel (drop n input) (msgs ++ (take n input ∷ []))
          (ground (arith, length-drop n input)) in
      (
        take n input ∷ ms,
        rest,
        chunk_loop_more n fuel input msgs e
            ∙ run
            ∙ ap (λ l. finished (l, rest)) (append_assoc msgs _ ms),
        record {
          whole =
              append_assoc (take n input) (flatten ms) rest
              ∙ ap (◌++◌ (take n input)) split.whole
              ∙ take-append-drop n input;
          sizes = (ground (arith, length-take n input), split.sizes);
          short = split.short;
        },
      )
]

delivered-chunk_calls : (n : ℕ) (ms : List Bytes) → delivered (chunk_calls n ms) ≡ ms
delivered-chunk_calls n [] = refl
delivered-chunk_calls n (m ∷ ms) = append-nil (m ∷ ms)

-- With a positive chunk size the callback ends; it delivers chunks of exactly that size, which with
-- the rest make up the input, and keeps less than one chunk.
pub read_cb_chunk-splits :
    (c : NetworkConfig) (input : Bytes)
    → 0 < c.chunk_size
    → (r : ReadResult) × (read_cb_chunk c input ≡ finished r)
      × All (λ m. length m ≡ c.chunk_size) (delivered r.calls)
      × (flatten (delivered r.calls) ++ r.rest ≡ input)
      × (length r.rest < c.chunk_size)
unfolding read_cb_chunk
read_cb_chunk-splits c input p =
    let (ms, rest, run, split) =
      chunk_loop-Split c.chunk_size p (suc (length input)) input [] (omega arith) in
    let same = delivered-chunk_calls c.chunk_size ms in
    (
      record { rest = rest; watermark = none; calls = chunk_calls c.chunk_size ms },
      ground (arith, run),
      rw same split.sizes,
      rw same split.whole,
      split.short,
    )
