-- ===== src/Connection/Address/Print.antt =====
-- The text of a connection reads back as the connection (src/connection.cpp).
use libbtcnet.Base.{
  ℕ, ◌%◌, ◌^◌, ◌≤◌, Bool, true, false, not, ◌||◌, [], ◌∷◌, ◌++◌, Option, none, some, ◌≡◌, ◌≢◌, refl,
  subst, ap, ◌∙◌, Bytes, bytes_eq, arith,
}
use libbtcnet.Connection.{SockAddr, inet, inet6, unix, other_family, CConnectionBase, addr_base}
use libbtcnet.Connection.Host.{
  is_digit, read_digits, decimal, find_last_of, is_onion_name, name_base, numeric_base, host_base,
  split_host, name_to_string, set_port,
}
use libbtcnet.Connection.Host.Ports.{
  IsDigits, decimal-IsDigits, decimal-ne-nil, read_digits-decimal, skip_space_digit,
}
use libbtcnet.Connection.Host.Names.{split_host-name_to_string}
use libbtcnet.Connection.Address.{
  NameInfo, get_host, get_port, atoi, atoi_sign, join_address, to_string,
}

-- An address of the Internet that has a port.
abbrev pub has_port : SockAddr → Bool
has_port (inet a p) = not (bytes_eq p (0 ∷ 0 ∷ []))
has_port (inet6 a p) = not (bytes_eq p (0 ∷ 0 ∷ []))
has_port _ = false

-- How a host and a service are written together: with brackets round an IPv6 address.
abbrev pub written : Option SockAddr → Bytes → Bytes → Bytes
written (some (inet6 a p)) host service = b'[' ∷ host ++ (b']' ∷ b':' ∷ service)
written _ host service = host ++ (b':' ∷ service)

-- What is documented of `getnameinfo` with numeric names, and of `evutil_parse_sockaddr_port`, at one
-- address: the host is `host`, the service is the port in decimal, and an address written as
-- `host:port`, or `[host]:port` for IPv6, is read as that address.
pub record Documented (parse : Bytes → Option SockAddr) (info : NameInfo) (a : SockAddr)
    (host : Bytes) (port : ℕ) : Type 0 where
  pub port_le : port ≤ 65535
  pub host_named : info.host a ≡ some host
  pub service_named : info.service a ≡ some (decimal port)
  pub both_named : info.both a ≡ some (host, decimal port)
  pub reads_back : parse (written (some a) host (decimal port)) ≡ some a

-- A connection whose text can be read back: an address of the Internet with its port, or a name that
-- is no numeric address and has no colon.
pub data Printable (parse : Bytes → Option SockAddr) (info : NameInfo)
    : CConnectionBase → Type 0 where
  printable_address :
      (a : SockAddr) (host : Bytes) (port : ℕ)
      → has_port a ≡ true
      → Documented parse info a host port
      → Printable parse info (addr_base a)
  printable_name :
      (name text : Bytes) (port : ℕ)
      → name ≢ []
      → find_last_of b':' name ≡ none
      → port ≤ 65535
      → parse (name ++ (b':' ∷ decimal port)) ≡ none
      → Printable parse info (record {
        host = name;
        port = port;
        is_dns = not (is_onion_name name);
        is_onion = is_onion_name name;
        is_set = true;
        addr = none;
        connection_string = text;
      })

atoi_sign_digit :
    (c : ℕ) (cs : Bytes) → is_digit c ≡ true → atoi_sign (c ∷ cs) ≡ read_digits 0 (c ∷ cs) % 2 ^ 16
unfolding atoi_sign
atoi_sign_digit c cs h = ground arith

atoi-IsDigits : (s : Bytes) → IsDigits s → s ≢ [] → atoi s ≡ read_digits 0 s % 2 ^ 16
unfolding atoi
atoi-IsDigits [] d ne = absurd (ne refl)
atoi-IsDigits (c ∷ cs) d ne = ap atoi_sign (skip_space_digit c cs d.0) ∙ atoi_sign_digit c cs d.0

-- A port that is written in decimal is read as itself.
atoi-decimal : (n : ℕ) → n ≤ 65535 → atoi (decimal n) ≡ n
atoi-decimal n h = omega (
  arith,
  atoi-IsDigits (decimal n) (decimal-IsDigits n) (decimal-ne-nil n),
  read_digits-decimal n,
)

host_base-parsed :
    (parse : Bytes → Option SockAddr) (t : Bytes) (q : ℕ) (a : SockAddr)
    → t ≢ []
    → parse t ≡ some a
    → host_base parse t q ≡ numeric_base t q a
unfolding host_base
host_base-parsed parse [] q a ne e = absurd (ne refl)
host_base-parsed parse (c ∷ cs) q a ne e = rw (e, host_base) refl

host_base-named :
    (parse : Bytes → Option SockAddr) (t : Bytes) (q : ℕ)
    → t ≢ []
    → parse t ≡ none
    → host_base parse t q ≡ name_base t q
unfolding host_base
host_base-named parse [] q ne e = absurd (ne refl)
host_base-named parse (c ∷ cs) q ne e = rw (e, host_base) refl

append-ne-nil : (xs ys : Bytes) (c : ℕ) → xs ++ (c ∷ ys) ≢ []
append-ne-nil [] ys c e = cc e
append-ne-nil (x ∷ xs) ys c e = cc e

join_address-ne-nil : (a : SockAddr) (h s : Bytes) → has_port a ≡ true → join_address a h s ≢ []
join_address-ne-nil (inet a p) h s e = append-ne-nil h s b':'
join_address-ne-nil (inet6 a p) h s e = λ x. cc x
join_address-ne-nil (unix path) h s e = cc e
join_address-ne-nil other_family h s e = cc e

set_port-has_port : (q : ℕ) (a : SockAddr) → has_port a ≡ true → set_port q a ≡ a
unfolding set_port
set_port-has_port q (inet a p) e = ground (arith, e)
set_port-has_port q (inet6 a p) e = ground (arith, e)
set_port-has_port q (unix path) e = refl
set_port-has_port q other_family e = refl

to_string-address :
    (info : NameInfo) (a : SockAddr) (h s : Bytes)
    → info.both a ≡ some (h, s)
    → to_string info (addr_base a) ≡ join_address a h s
unfolding to_string
to_string-address info a h s e = rw e refl

to_string-name :
    (info : NameInfo) (c : CConnectionBase)
    → (c.is_dns || c.is_onion) ≡ true
    → to_string info c ≡ name_to_string c
unfolding to_string
to_string-name info c e = rw e refl

name_base-back :
    (name text : Bytes) (port q : ℕ)
    → split_host text q ≡ (name, port)
    → name_base text q ≡ record {
      host = name;
      port = port;
      is_dns = not (is_onion_name name);
      is_onion = is_onion_name name;
      is_set = true;
      addr = none;
      connection_string = text;
    }
unfolding name_base
name_base-back name text port q e = rw e refl

either_kind : (b : Bool) → (not b || b) ≡ true
either_kind true = refl
either_kind false = refl

join_address-written :
    (a : SockAddr) (h s : Bytes) → has_port a ≡ true → join_address a h s ≡ written (some a) h s
join_address-written (inet a p) h s e = refl
join_address-written (inet6 a p) h s e = refl
join_address-written (unix path) h s e = cc e
join_address-written other_family h s e = cc e

-- For an address of the Internet with a port, or a name that has no colon and is no numeric address,
-- and with what is documented of `getnameinfo` and of the parser of addresses at it: the text of
-- `ToString` is made of what `GetHost` and `GetPort` say, and the constructor from that text gives
-- back the same connection, whatever the default port, with the text as its connection string.
pub host_base-to_string :
    {parse : Bytes → Option SockAddr} {info : NameInfo} {c : CConnectionBase} (q : ℕ)
    → Printable parse info c
    → (to_string info c ≡ written c.addr (get_host info c) (decimal (get_port info c)))
      × (host_base parse (to_string info c) q ≡ record c { connection_string = to_string info c })
unfolding get_host get_port name_to_string
host_base-to_string {parse} {info} q (printable_address a h n p d) =
    let s = decimal n in
    let same = join_address-written a h s p in
    let text = to_string-address info a h s d.both_named ∙ same in
    (
      rw (d.host_named, d.service_named, atoi-decimal n d.port_le) text,
      rw text (
          host_base-parsed parse (written (some a) h s) q a
            (subst (λ t. t ≢ []) same (join_address-ne-nil a h s p)) d.reads_back
          ∙ ap (λ b. record (addr_base b) { connection_string = written (some a) h s })
              (set_port-has_port q a p)),
    )
host_base-to_string {parse} {info} q (printable_name name old n ne colon le r) =
    let c : CConnectionBase = record {
      host = name;
      port = n;
      is_dns = not (is_onion_name name);
      is_onion = is_onion_name name;
      is_set = true;
      addr = none;
      connection_string = old;
    } in
    let kind = either_kind (is_onion_name name) in
    let text = to_string-name info c kind in
    (
      rw kind text,
      rw text (
          host_base-named parse (name_to_string c) q (append-ne-nil name (decimal n) b':') r
          ∙ name_base-back name (name_to_string c) n q (split_host-name_to_string c q ne colon le)),
    )
