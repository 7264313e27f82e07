-- ===== src/Message/Stream.antt =====
-- What `read_cb_message` (src/connectionbase.cpp) makes of a byte stream.
use libbtcnet.Base.{
  suc, ◌+◌, Bool, true, false, ◌&&◌, ◌||◌, List, [], ◌∷◌, ◌++◌, some, ◌≡◌, refl, sym, ap, subst,
  ◌∙◌, inl, inr, if◌then◌else◌, Bool-cases, Bytes, length, take, All, flatten, append-nil,
  append_assoc, length-append, take-append_length, drop-append_length, take-append-drop, All-append,
  ◌==◌, arith,
}
use libbtcnet.Message.{
  NetworkConfig, Scan, finished, Call, receive_messages, malformed_message, disconnect, ReadResult,
  first_complete_message_size, after_loop, read_cb_message,
}
use libbtcnet.Message.Framing.{
  IsBytes, IsUsable, IsMessage, oversized, stops, first_complete-append,
}
use libbtcnet.Message.Loop.{Reads, stop, more, batch, Reads-read_loop, Reads-total, Reads-IsMessage}

-- The messages that the calls hand over, and whether the connection is given up.
abbrev pub delivered : List Call → List Bytes
delivered [] = []
delivered (receive_messages ms n ∷ cs) = ms ++ delivered cs
delivered (malformed_message ∷ cs) = delivered cs
delivered (disconnect ∷ cs) = delivered cs

abbrev pub is_malformed : List Call → Bool
is_malformed [] = false
is_malformed (malformed_message ∷ cs) = true
is_malformed (receive_messages ms n ∷ cs) = is_malformed cs
is_malformed (disconnect ∷ cs) = is_malformed cs

-- One call for all messages of a batch, and none for an empty batch.
abbrev pub delivery : List Bytes → List Call
delivery [] = []
delivery (m ∷ ms) = receive_messages (m ∷ ms) (length (flatten (m ∷ ms))) ∷ []

finished-injective {ℓ} : {A : Type ℓ} {a b : A} → finished a ≡ finished b → a ≡ b
finished-injective e = ground arith

pub IsBytes-right : (xs ys : Bytes) → IsBytes (xs ++ ys) → IsBytes ys
IsBytes-right [] ys h = h
IsBytes-right (x ∷ xs) ys h = IsBytes-right xs ys h.1

module _ (c : NetworkConfig) (u : IsUsable c) where
  -- Messages are not empty, so the test on `totalsize` tells whether there are any.
  flatten_pos :
      (m : Bytes) (ms : List Bytes) → IsMessage c m → (length (flatten (m ∷ ms)) == 0) ≡ false
  flatten_pos m ms w = ground (arith, length-append m (flatten ms), u.size_is_four, w.has_header)

  after_loop-calls :
      (ms : List Bytes) (s : Scan) (left : Bytes)
      → All (IsMessage c) ms
      → (after_loop c (batch c ms s left)).calls
        ≡ delivery ms
          ++ (if oversized c s || s.bad_start then malformed_message ∷ disconnect ∷ [] else [])
  unfolding after_loop
  after_loop-calls [] s left w = refl
  after_loop-calls (m ∷ ms) s left w = rw (flatten_pos m ms w.0)

  -- The relation gives the whole callback.
  Reads-read_cb_message :
      {s : Scan} {left input : Bytes} {ms : List Bytes}
      → Reads c s left input ms
      → IsBytes input
      → read_cb_message c input ≡ finished (after_loop c (batch c ms s left))
  unfolding read_cb_message
  Reads-read_cb_message {s} {left} {input} {ms} r b =
      let total : 0 + length (flatten ms) ≡ length (flatten ms) = omega arith in
      let looped = Reads-read_loop c s left (suc (length input)) [] 0 r u b (omega arith) in
      rw (looped, total)

  Reads-prepend :
      {s : Scan} {left input : Bytes} {ms : List Bytes} (m : Bytes)
      → IsMessage c m
      → Reads c s left input ms
      → Reads c s left (m ++ input) (m ∷ ms)
  Reads-prepend {s} {left} {input} {ms} m w r =
      let t : Scan = record { size = length m; complete = true; bad_start = false } in
      let k : stops c t ≡ false = rw w.fits in
      subst (λ x. Reads c s left (m ++ input) (x ∷ ms)) (take-append_length m input)
        (more t (first_complete-append c u m input w) k (rw (drop-append_length m input) r))

  Reads-prepend-All :
      {s : Scan} {left input : Bytes} (ns : List Bytes) {ms : List Bytes}
      → All (IsMessage c) ns
      → Reads c s left input ms
      → Reads c s left (flatten ns ++ input) (ns ++ ms)
  Reads-prepend-All [] w r = r
  Reads-prepend-All {s} {left} {input} (n ∷ ns) {ms} w r =
      rw (append_assoc n (flatten ns) input) (Reads-prepend n w.0 (Reads-prepend-All ns w.1 r))

  -- Whole messages followed by bytes at which the scan stops the loop.
  pub read_cb_message-scanned :
      (ms : List Bytes) (left : Bytes) (s : Scan)
      → All (IsMessage c) ms
      → IsBytes (flatten ms ++ left)
      → first_complete_message_size c left ≡ some s
      → stops c s ≡ true
      → (r : ReadResult) × (read_cb_message c (flatten ms ++ left) ≡ finished r)
        × (r.calls
            ≡ delivery ms
              ++ (if oversized c s || s.bad_start then malformed_message ∷ disconnect ∷ [] else []))
        × (oversized c s ≡ false → r.rest ≡ left)
  read_cb_message-scanned ms left s w b e k =
      let r = Reads-prepend-All ms w (stop refl e k) in
      (
        after_loop c (batch c ms s left),
        rw (append-nil ms) at (Reads-read_cb_message r b),
        after_loop-calls ms s left w,
        λ o. unfold after_loop in ground arith,
      )

  delivered-calls :
      (ms : List Bytes) (s : Scan) (left : Bytes)
      → All (IsMessage c) ms
      → delivered (after_loop c (batch c ms s left)).calls ≡ ms
  delivered-calls [] s left w = rw (after_loop-calls [] s left w) (ground arith)
  delivered-calls (m ∷ ms) s left w =
      rw (after_loop-calls (m ∷ ms) s left w) (elim (Bool-cases (oversized c s || s.bad_start)) [
        | inl e ↦ rw e (append-nil (m ∷ ms))
        | inr e ↦ rw e (append-nil (m ∷ ms))
      ])

  malformed-calls :
      (ms : List Bytes) (s : Scan) (left : Bytes)
      → All (IsMessage c) ms
      → is_malformed (after_loop c (batch c ms s left)).calls ≡ (oversized c s || s.bad_start)
  malformed-calls [] s left w = rw (after_loop-calls [] s left w) (ground arith)
  malformed-calls (m ∷ ms) s left w = rw (after_loop-calls (m ∷ ms) s left w) (ground arith)

  -- What the callback takes off the input behind the delivered messages.
  rest-split :
      (ms : List Bytes) (s : Scan) (left : Bytes)
      → (dropped : Bytes) × (dropped ++ (after_loop c (batch c ms s left)).rest ≡ left)
        × ((oversized c s || s.bad_start) ≡ false → dropped ≡ [])
  unfolding after_loop
  rest-split ms s left = elim (Bool-cases (oversized c s && s.complete)) [
    | inl e ↦ (take s.size left, ground (arith, take-append-drop s.size left), λ h. ground arith)
    | inr e ↦ ([], ground arith, λ h. refl)
  ]

  -- The callback always ends. It delivers whole messages only, and messages, skipped bytes and
  -- rest make up the input; bytes are skipped only if the connection is given up.
  pub read_cb_message-splits :
      (input : Bytes)
      → IsBytes input
      → (r : ReadResult) × (skipped : Bytes) × (read_cb_message c input ≡ finished r)
        × All (IsMessage c) (delivered r.calls)
        × (flatten (delivered r.calls) ++ (skipped ++ r.rest) ≡ input)
        × (is_malformed r.calls ≡ false → skipped ≡ [])
  read_cb_message-splits input b =
      let (ms, s, left, r) = Reads-total c u (suc (length input)) input b (omega arith) in
      let (w, split) = Reads-IsMessage u b r in
      let (skipped, cut, whole) = rest-split ms s left in
      (
        after_loop c (batch c ms s left),
        skipped,
        Reads-read_cb_message r b,
        rw (delivered-calls ms s left w) w,
        rw (delivered-calls ms s left w, cut) split,
        rw (malformed-calls ms s left w) whole,
      )

  unsplit :
      (input : Bytes) (r : ReadResult)
      → IsBytes input
      → read_cb_message c input ≡ finished r
      → is_malformed r.calls ≡ false
      → All (IsMessage c) (delivered r.calls) × (flatten (delivered r.calls) ++ r.rest ≡ input)
  unsplit input r b e k =
      let (q, skipped, f, w, split, whole) = read_cb_message-splits input b in
      let same : q ≡ r = finished-injective (sym f ∙ e) in
      let gone : skipped ≡ [] = whole (rw same k) in (rw same at w, rw (same, gone) at split)

  after_loop-rest :
      (ds ms : List Bytes) (s : Scan) (left : Bytes)
      → (after_loop c (batch c ds s left)).rest ≡ (after_loop c (batch c ms s left)).rest
  unfolding after_loop
  after_loop-rest ds ms s left = refl

  -- What a further read adds to messages that are there.
  abbrev Continues : List Bytes → ReadResult → Bytes → Type 0
  Continues ds r' input =
      (q : ReadResult) × (read_cb_message c input ≡ finished q)
      × (delivered q.calls ≡ ds ++ delivered r'.calls)
      × (q.rest ≡ r'.rest)
      × (is_malformed q.calls ≡ is_malformed r'.calls)

  Reads-Continues :
      {s : Scan} {left input : Bytes} {ms : List Bytes} (ds : List Bytes)
      → All (IsMessage c) ds
      → All (IsMessage c) ms
      → Reads c s left input ms
      → IsBytes (flatten ds ++ input)
      → Continues ds (after_loop c (batch c ms s left)) (flatten ds ++ input)
  Reads-Continues {s} {left} {input} {ms} ds w ws r b =
      let both = All-append (IsMessage c) ds ms w ws in
      (
        after_loop c (batch c (ds ++ ms) s left),
        Reads-read_cb_message (Reads-prepend-All ds w r) b,
        delivered-calls (ds ++ ms) s left both ∙ ap (◌++◌ ds) (sym (delivered-calls ms s left ws)),
        after_loop-rest (ds ++ ms) ms s left,
        malformed-calls (ds ++ ms) s left both ∙ sym (malformed-calls ms s left ws),
      )

  read-Continues :
      (ds : List Bytes) (input : Bytes) (r' : ReadResult)
      → All (IsMessage c) ds
      → IsBytes (flatten ds ++ input)
      → read_cb_message c input ≡ finished r'
      → Continues ds r' (flatten ds ++ input)
  read-Continues ds input r' w b f =
      let b' = IsBytes-right (flatten ds) input b in
      let (ms, s, left, r) = Reads-total c u (suc (length input)) input b' (omega arith) in
      subst (λ x. Continues ds x (flatten ds ++ input))
        (finished-injective (sym (Reads-read_cb_message r b') ∙ f))
        (Reads-Continues ds w (Reads-IsMessage u b' r).0 r b)

  -- How the bytes arrive does not matter: after a read that is not malformed, one more read with
  -- further bytes behind the rest delivers, keeps and gives up what a single read of all would.
  pub read_cb_message-append :
      (a b : Bytes) (r r' : ReadResult)
      → IsBytes (a ++ b)
      → IsBytes a
      → read_cb_message c a ≡ finished r
      → is_malformed r.calls ≡ false
      → read_cb_message c (r.rest ++ b) ≡ finished r'
      → (q : ReadResult) × (read_cb_message c (a ++ b) ≡ finished q)
        × (delivered q.calls ≡ delivered r.calls ++ delivered r'.calls)
        × (q.rest ≡ r'.rest)
        × (is_malformed q.calls ≡ is_malformed r'.calls)
  read_cb_message-append a b r r' bytes head e k f =
      let (w, split) = unsplit a r head e k in
      let joined =
        sym (append_assoc (flatten (delivered r.calls)) r.rest b) ∙ ap (λ x. x ++ b) split in
      subst (Continues (delivered r.calls) r') joined
        (read-Continues (delivered r.calls) (r.rest ++ b) r' w (subst IsBytes (sym joined) bytes) f)
