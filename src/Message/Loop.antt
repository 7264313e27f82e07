-- ===== src/Message/Loop.antt =====
-- The loop of `read_cb_message` (src/connectionbase.cpp) against a relation that says how it takes
-- the input apart.
use libbtcnet.Base.{
  ℕ, zero, suc, ◌+◌, ◌<◌, true, false, List, [], ◌∷◌, ◌++◌, some, ◌≡◌, refl, sym, ap, ◌∙◌, inl, inr,
  if◌then◌else◌, Bool-cases, Bytes, length, take, drop, All, flatten, append-nil, append_assoc,
  length-append, length-drop, length-take, take-append-drop, arith,
}
use mathlib.Core.Path.{ap₂}
use libbtcnet.Message.{
  NetworkConfig, Scan, Batch, finished, first_complete_message_size, read_loop, drain_if,
}
use libbtcnet.Message.Framing.{
  IsBytes, IsUsable, IsMessage, oversized, stops, IsBytes-drop, first_complete-some,
  first_complete_bounds, deliverable-IsMessage,
}

-- From `input` the messages `ms` are split off, and the scan `s` of what is left stops the loop.
pub data Reads (c : NetworkConfig) (s : Scan) (left : Bytes) : Bytes → List Bytes → Type 0 where
  stop :
      {input : Bytes}
      → input ≡ left
      → first_complete_message_size c left ≡ some s
      → stops c s ≡ true
      → Reads c s left input []
  more :
      {input : Bytes} {ms : List Bytes} (t : Scan)
      → first_complete_message_size c input ≡ some t
      → stops c t ≡ false
      → Reads c s left (drop t.size input) ms
      → Reads c s left input (take t.size input ∷ ms)

-- The batch for a loop that has split off `ms` and stopped at `s` with `left` before it.
abbrev pub batch : NetworkConfig → List Bytes → Scan → Bytes → Batch
batch c ms s left = record {
  input = if oversized c s then drain_if s.complete s.size left else left;
  msgs = ms;
  totalsize = length (flatten ms);
  msgsize = s.size;
  too_big = oversized c s;
  bad_msg_start = s.bad_start;
}

-- The same with messages and bytes counted before the loop.
abbrev batch_onto : NetworkConfig → List Bytes → ℕ → Scan → Bytes → Batch
batch_onto c ms total s left = record (batch c ms s left) { totalsize = total }

complete_of_stops : (c : NetworkConfig) (s : Scan) → stops c s ≡ false → s.complete ≡ true
complete_of_stops c s h = ground arith

-- One round at a scan that stops the loop.
read_loop_stop :
    (fuel : ℕ) (c : NetworkConfig) (input : Bytes) (msgs : List Bytes) (total : ℕ) (s : Scan)
    → first_complete_message_size c input ≡ some s
    → stops c s ≡ true
    → read_loop (suc fuel) c input msgs total ≡ finished (batch_onto c msgs total s input)
unfolding read_loop
read_loop_stop fuel c input msgs total s e k = rw (e, read_loop) (ground arith)

-- One round at a scan that does not.
read_loop_more :
    (fuel : ℕ) (c : NetworkConfig) (input : Bytes) (msgs : List Bytes) (total : ℕ) (s : Scan)
    → first_complete_message_size c input ≡ some s
    → stops c s ≡ false
    → 0 < s.size
    → read_loop (suc fuel) c input msgs total
      ≡ read_loop fuel c (drop s.size input) (msgs ++ (take s.size input ∷ [])) (total + s.size)
unfolding read_loop
read_loop_more fuel c input msgs total s e k p = rw (e, read_loop) (ground arith)

-- The relation decides the loop, with any messages before it.
module _ (c : NetworkConfig) (s : Scan) (left : Bytes) where
  pub Reads-read_loop :
      (fuel : ℕ) {input : Bytes} {ms : List Bytes} (msgs : List Bytes) (total : ℕ)
      → Reads c s left input ms
      → (u : IsUsable c) → IsBytes input
      → length input < fuel
      → read_loop fuel c input msgs total
        ≡ finished (batch_onto c (msgs ++ ms) (total + length (flatten ms)) s left)
  Reads-read_loop zero msgs total _ u b h = absurd (omega arith)
  Reads-read_loop (suc fuel) {input} msgs total (stop i e k) u b h =
      rw (append-nil msgs, i)
        (read_loop_stop fuel c left msgs total s e k
          ∙ ap (λ n. finished (batch_onto c msgs n s left)) (omega arith))
  Reads-read_loop (suc fuel) {input} msgs total (more {ms = ms} t e k r) u b h =
      let (p, q) = first_complete_bounds c u input t b e (complete_of_stops c t k) in
      read_loop_more fuel c input msgs total t e k p
      ∙ Reads-read_loop fuel _ _ r u (IsBytes-drop t.size input b)
          (omega (arith, length-drop t.size input))
      ∙ ap₂ (λ l n. finished (batch_onto c l n s left)) (append_assoc msgs _ ms)
          (omega (arith, length-append (take t.size input) (flatten ms), length-take t.size input))

-- Every input is taken apart by the relation, and by induction on its length the loop ends.
pub Reads-total :
    (c : NetworkConfig) (u : IsUsable c) (fuel : ℕ) (input : Bytes)
    → IsBytes input
    → length input < fuel
    → (ms : List Bytes) × (s : Scan) × (left : Bytes) × Reads c s left input ms
Reads-total c u zero input b h = absurd (omega arith)
Reads-total c u (suc fuel) input b h =
    let (s, e) = first_complete-some c u input in
    elim (Bool-cases (stops c s)) [
      | inl k ↦ ([], s, input, stop refl e k)
      | inr k ↦
          let (p, q) = first_complete_bounds c u input s b e (complete_of_stops c s k) in
          let (ms, t, left, r) =
            Reads-total c u fuel (drop s.size input) (IsBytes-drop s.size input b)
              (omega (arith, length-drop s.size input)) in
          (take s.size input ∷ ms, t, left, more s e k r)
    ]

-- What the relation splits off are messages, and nothing is lost.
pub Reads-IsMessage :
    {c : NetworkConfig} {s : Scan} {left input : Bytes} {ms : List Bytes}
    → IsUsable c
    → IsBytes input
    → Reads c s left input ms
    → All (IsMessage c) ms × (flatten ms ++ left ≡ input)
Reads-IsMessage u b (stop i e k) = (tt, sym i)
Reads-IsMessage {c} {input = input} u b (more {ms = ms} t e k r) =
    let (ws, split) = Reads-IsMessage u (IsBytes-drop t.size input b) r in
    (
      (deliverable-IsMessage c u input t b e k, ws),
      append_assoc (take t.size input) (flatten ms) _
          ∙ ap (◌++◌ (take t.size input)) split
          ∙ take-append-drop t.size input,
    )
