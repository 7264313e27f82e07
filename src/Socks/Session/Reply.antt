-- ===== src/Socks/Session/Reply.antt =====
-- The last reply of a proxy as RFC 1928 says (src/bareproxy.cpp reads it in `read_final`).
use libbtcnet.Base.{
  ℕ, suc, ◌+◌, ◌≤◌, ◌<◌, ◌∷◌, ◌++◌, ◌≡◌, subst, Bytes, length, length-append, drop, Bool, true,
  false, arith,
}
use libbtcnet.Connection.{CConnection}
use libbtcnet.Socks.{port_bytes}
use libbtcnet.Socks.Replies.{answered, family_type, family_size, family_addr, drop_port}

-- The last reply: an address of either family, or a name.
pub data FinalReply : Type 0 where
  with_address : (v6 : Bool) (address : Bytes) → FinalReply
  with_name : (name : Bytes) → FinalReply

abbrev pub reply_type : FinalReply → ℕ
reply_type (with_address v6 a) = family_type v6
reply_type (with_name n) = 3

abbrev pub reply_body : FinalReply → Bytes
reply_body (with_address v6 a) = a
reply_body (with_name n) = length n ∷ n

-- Its bytes as the standard says, with a reserved byte and the port of the proxy.
abbrev pub reply_bytes : FinalReply → (rsv hi lo : ℕ) → Bytes → Bytes
reply_bytes r rsv hi lo rest = 5 ∷ 0 ∷ rsv ∷ reply_type r ∷ (reply_body r ++ hi ∷ lo ∷ rest)

abbrev pub reply_size : FinalReply → ℕ
reply_size (with_address v6 a) = 6 + family_size v6
reply_size (with_name n) = 7 + length n

-- An address has the size of its family, and a name at least one byte and fewer than 128.
abbrev pub Fits : FinalReply → Type 0
Fits (with_address v6 a) = length a ≡ family_size v6
Fits (with_name n) = (1 ≤ length n) × (length n < 128)

-- The connection that the success is for.
abbrev pub reported : (CConnection → ℕ) → CConnection → FinalReply → CConnection
reported port c (with_address v6 a) = answered c (family_addr v6 a (port_bytes (port c)))
reported port c (with_name n) = c

-- A reply is there whole, and behind it the rest.
pub reply_bytes_rest :
    (r : FinalReply) (rsv hi lo : ℕ) (rest : Bytes)
    → Fits r
    → (reply_size r ≤ length (reply_bytes r rsv hi lo rest))
      × (8 ≤ reply_size r)
      × (drop (reply_size r) (reply_bytes r rsv hi lo rest) ≡ rest)
reply_bytes_rest (with_address true a) rsv hi lo rest f = (
  omega (arith, f, length-append a (hi ∷ lo ∷ rest)),
  omega arith,
  subst (λ n. drop (n + 2) (a ++ hi ∷ lo ∷ rest) ≡ rest) f (drop_port a rest hi lo),
)
reply_bytes_rest (with_address false a) rsv hi lo rest f = (
  omega (arith, f, length-append a (hi ∷ lo ∷ rest)),
  omega arith,
  subst (λ n. drop (n + 2) (a ++ hi ∷ lo ∷ rest) ≡ rest) f (drop_port a rest hi lo),
)
reply_bytes_rest (with_name n) rsv hi lo rest f = (
  omega (arith, length-append n (hi ∷ lo ∷ rest)),
  omega (arith, f.0),
  let e : 7 + length n ≡ suc (suc (suc (suc (suc (length n + 2))))) = omega arith in
      rw e (drop_port n rest hi lo),
)
