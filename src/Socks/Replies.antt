-- ===== src/Socks/Replies.antt =====
-- The replies of the proxy (src/bareproxy.cpp).
use libbtcnet.Base.{
  ℕ, suc, ◌+◌, ◌-◌, ◌≤◌, ◌<◌, ◌%◌, ◌^◌, [], ◌∷◌, ◌++◌, some, ◌≡◌, ap, ◌∙◌, ltb, if◌then◌else◌,
  Bytes, length, refl, drop, Bool, true, false, arith,
}
use libbtcnet.Connection.{SockAddr, inet, inet6, CConnection, addr_base}
use libbtcnet.Socks.{
  goes_on, read_final, on_read_final, domain_reply, address_reply, is_lookup, port_bytes,
}

pub on_read_final-domain :
    (port : CConnection → ℕ) (c : CConnection) (rsv n : ℕ) (rest : Bytes)
    → 3 ≤ length rest
    → on_read_final port c (5 ∷ 0 ∷ rsv ∷ 3 ∷ n ∷ rest)
      ≡ some (domain_reply c n (5 ∷ 0 ∷ rsv ∷ 3 ∷ n ∷ rest))
unfolding on_read_final
on_read_final-domain port c rsv n rest h = ground arith

need_long :
    (n : ℕ)
    → 128 ≤ n
    → n < 249
    → (7 + (if ltb n 128 then n else 2 ^ 64 + n - 256)) % 2 ^ 64 ≡ 2 ^ 64 + n - 249
need_long n lo hi = ground arith

-- With a domain of 128 to 248 bytes the callback waits, whatever has come up to 2 ^ 63 bytes: the
-- length is read as a negative number, and what it waits for is more than 2 ^ 63 bytes.
pub on_read_final-long :
    (port : CConnection → ℕ) (c : CConnection) (rsv n : ℕ) (rest : Bytes)
    → 128 ≤ n
    → n < 249
    → 3 ≤ length rest
    → length rest < 2 ^ 63
    → (low : ℕ) × (2 ^ 63 < low)
      × (on_read_final port c (5 ∷ 0 ∷ rsv ∷ 3 ∷ n ∷ rest)
          ≡ some (goes_on read_final low [] (5 ∷ 0 ∷ rsv ∷ 3 ∷ n ∷ rest)))
on_read_final-long port c rsv n rest lo hi some_rest h = (
  2 ^ 64 + n - 249,
  omega arith,
  on_read_final-domain port c rsv n rest some_rest
      ∙ ap some (rw (need_long n lo hi) (ground arith)),
)

pub drop_port : (a rest : Bytes) (p q : ℕ) → drop (length a + 2) (a ++ p ∷ q ∷ rest) ≡ rest
drop_port [] rest p q = refl
drop_port (x ∷ a) rest p q =
    let e : suc (length a) + 2 ≡ suc (length a + 2) = omega arith in rw e (drop_port a rest p q)

-- The connection that is reported for a reply with an address.
abbrev pub answered : CConnection → SockAddr → CConnection
answered c a = if is_lookup c then record c { base = addr_base a } else c

-- A family of addresses with the type and the size that it has in a reply.
abbrev pub family_type : Bool → ℕ
family_type v6 = if v6 then 4 else 1

abbrev pub family_size : Bool → ℕ
family_size v6 = if v6 then 16 else 4

abbrev pub family_addr : Bool → Bytes → Bytes → SockAddr
family_addr true a p = inet6 a p
family_addr false a p = inet a p

pub on_read_final-reply :
    (port : CConnection → ℕ) (c : CConnection) (rsv x : ℕ) (rest : Bytes) (v6 : Bool)
    → 3 ≤ length rest
    → on_read_final port c (5 ∷ 0 ∷ rsv ∷ family_type v6 ∷ x ∷ rest)
      ≡ some (
          address_reply c
            (λ a. family_addr v6 a (port_bytes (port c)))
            (family_size v6)
            (5 ∷ 0 ∷ rsv ∷ family_type v6 ∷ x ∷ rest))
unfolding on_read_final
on_read_final-reply port c rsv x rest true h = ground arith
on_read_final-reply port c rsv x rest false h = ground arith
