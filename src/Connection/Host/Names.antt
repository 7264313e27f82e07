-- ===== src/Connection/Host/Names.antt =====
-- Names with and without a port (src/connection.cpp).
use libbtcnet.Base.{
  ℕ, suc, ◌+◌, ◌≤◌, Bool, true, false, [], ◌∷◌, ◌++◌, Option, none, some, ◌≡◌, ◌≢◌, refl, ap, ◌∙◌,
  inl, inr, ◌⊎◌, ◌↔◌, Option-cases, if◌then◌else◌, is_some, Bytes, length, take, drop,
  take-append_length, arith,
}
use libbtcnet.Connection.{SockAddr, CConnectionBase}
use libbtcnet.Connection.Host.{
  find_last_of, port_of, split_host, name_base, host_base, name_to_string, decimal,
}
use libbtcnet.Connection.Host.Ports.{find_last_of-decimal, port_of-decimal, port_of-le}

find_last_of-append :
    (c : ℕ) (xs ys : Bytes)
    → find_last_of c ys ≡ none
    → find_last_of c (xs ++ c ∷ ys) ≡ some (length xs)
unfolding find_last_of
find_last_of-append c [] ys h = ground arith
find_last_of-append c (x ∷ xs) ys h = rw (find_last_of-append c xs ys h)

drop-after : (xs ys : Bytes) (c : ℕ) → drop (length xs + 1) (xs ++ c ∷ ys) ≡ ys
drop-after [] ys c = refl
drop-after (x ∷ xs) ys c =
    let e : suc (length xs) + 1 ≡ suc (length xs + 1) = omega arith in rw e (drop-after xs ys c)

-- If there is one colon only, and it is not the first character, it splits the host from the text
-- of the port.
pub split_host_colon :
    (host port_text : Bytes) (port : ℕ)
    → host ≢ []
    → find_last_of b':' host ≡ none
    → find_last_of b':' port_text ≡ none
    → split_host (host ++ b':' ∷ port_text) port ≡ (host, port_of port_text port)
unfolding split_host
split_host_colon [] p port ne h k = absurd (ne refl)
split_host_colon (x ∷ xs) p port ne h k = ground (
  arith,
  find_last_of-append b':' (x ∷ xs) p k,
  take-append_length (x ∷ xs) (b':' ∷ p),
  drop-after (x ∷ xs) p b':',
)

-- With no colon, or with a last colon that is not the first character and has a further one before
-- it, the text is the host and the port is the default.
split_host_whole :
    (host : Bytes) (port : ℕ)
    → (find_last_of b':' host ≡ none)
      ⊎ ((colon : ℕ) × (find_last_of b':' host ≡ some (suc colon))
          × (is_some (find_last_of b':' (take (suc colon) host)) ≡ true))
    → split_host host port ≡ (host, port)
unfolding split_host
split_host_whole host port (inl e) = rw (e, split_host)
split_host_whole host port (inr (colon, e, more)) = ground arith

pub split_host-le : (host : Bytes) (port : ℕ) → port ≤ 65535 → (split_host host port).1 ≤ 65535
unfolding split_host
split_host-le host port h = elim (Option-cases (find_last_of b':' host)) [
  | inl e ↦ rw (e, split_host) h
  | inr (i, e) ↦ rw (e, split_host) (ground (arith, port_of-le (drop (i + 1) host) port h))
]

-- A name that is not empty and has no colon, with a 16-bit port, prints as text that reads back as
-- the name and the port, whatever the default port is.
pub split_host-name_to_string :
    (b : CConnectionBase) (port : ℕ)
    → b.host ≢ []
    → find_last_of b':' b.host ≡ none
    → b.port ≤ 65535
    → split_host (name_to_string b) port ≡ (b.host, b.port)
unfolding name_to_string
split_host-name_to_string b port ne h p =
    split_host_colon b.host (decimal b.port) port ne h (find_last_of-decimal b.port)
    ∙ ap (λ n. (b.host, n)) (port_of-decimal b.port port p)

abbrev one_if : Bool → ℕ
one_if b = if b then 1 else 0

-- A connection that is set is a name to look up, an onion name or an address, and one of them only;
-- one that is not set is none of them. The port of a name is a 16-bit number.
pub record IsValid (b : CConnectionBase) : Type 0 where
  pub one_kind : one_if b.is_dns + one_if b.is_onion + one_if (is_some b.addr) ≡ one_if b.is_set
  pub port_le : b.port ≤ 65535

name_base-IsValid : (host : Bytes) (port : ℕ) → port ≤ 65535 → IsValid (name_base host port)
unfolding name_base
name_base-IsValid host port h = record {
  one_kind = ground arith;
  port_le = split_host-le host port h;
}

-- For any text and 16-bit default port, and whatever the parser of numeric addresses answers, the
-- constructor gives a valid base: it is a name to look up, an onion name or an address, and one of
-- them only, and its port is a 16-bit number. It is unset exactly for the empty text, which it
-- keeps as the connection string.
pub host_base-IsValid :
    (parse : Bytes → Option SockAddr) (host : Bytes) (port : ℕ)
    → port ≤ 65535
    → IsValid (host_base parse host port)
      × (((host_base parse host port).is_set ≡ false) ↔ (host ≡ []))
      × ((host_base parse host port).connection_string ≡ host)
unfolding host_base
host_base-IsValid parse [] port h = (omega arith, (λ e. refl, λ e. refl), refl)
host_base-IsValid parse (c ∷ cs) port h = elim (Option-cases (parse (c ∷ cs))) [
  | inl e ↦
      rw (e, host_base)
        (name_base-IsValid (c ∷ cs) port h, (λ x. ground arith, λ x. ground arith), refl)
  | inr (a, e) ↦ rw (e, host_base) (omega arith, (λ x. cc, λ x. cc), refl)
]
