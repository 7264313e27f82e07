-- ===== src/Connection/Host.antt =====
-- The constructor `CConnectionBase(std::string, unsigned short)` of src/connection.cpp, with the
-- parts of the C++ library that it uses.
pub mod Names
pub mod Ports
use libbtcnet.Base.{
  ℕ, zero, suc, ◌+◌, ◌-◌, ◌*◌, ◌/◌, ◌%◌, ◌^◌, ◌≤◌, ◌<◌, Bool, true, false, not, ◌&&◌, ◌||◌, List,
  [], ◌∷◌, ◌++◌, Option, none, some, ltb, leb, ◌==◌, if◌then◌else◌, is_some, Bytes, length, take,
  drop, bytes_eq,
}
use libbtcnet.Base32.{decode_base32}
use libbtcnet.Connection.{SockAddr, inet, inet6, unix, other_family, CConnectionBase, unset_base}

-- `host.find_last_of(c)`.
unfoldable pub find_last_of : ℕ → Bytes → Option ℕ
find_last_of c [] = none
find_last_of c (x ∷ xs) = elim (find_last_of c xs) [
  | some i ↦ some (suc i)
  | none ↦ if x == c then some 0 else none
]

-- `isspace` and `isdigit`.
abbrev pub is_space : ℕ → Bool
is_space c = c == 32 || (leb 9 c && leb c 13)

abbrev pub is_digit : ℕ → Bool
is_digit c = leb b'0' c && leb c b'9'

unfoldable pub skip_space : Bytes → Bytes
skip_space [] = []
skip_space (c ∷ cs) = let rest = skip_space cs in if is_space c then rest else c ∷ cs

-- The value of the digits in front, behind those that make up `acc`.
unfoldable pub read_digits : ℕ → Bytes → ℕ
read_digits acc [] = acc
read_digits acc (c ∷ cs) =
    let rest = read_digits (acc * 10 + (c - b'0')) cs in if is_digit c then rest else acc

-- `std::stoul` behind the sign; `none` is an exception.
pub read_unsigned : Bool → Bytes → Option ℕ
read_unsigned negative [] = none
read_unsigned negative (c ∷ cs) =
    let n = read_digits 0 (c ∷ cs) in
    if not (is_digit c)
    then none
    else if leb (2 ^ 64) n
    then none
    else some (if negative then (2 ^ 64 - n) % 2 ^ 64 else n)

pub read_sign : Bytes → Option ℕ
unfolding read_unsigned
read_sign [] = none
read_sign (c ∷ cs) =
    if c == b'-'
    then read_unsigned true cs
    else if c == b'+'
    then read_unsigned false cs
    else read_unsigned false (c ∷ cs)

unfoldable pub stoul : Bytes → Option ℕ
unfolding read_sign skip_space read_digits
stoul s = read_sign (skip_space s)

-- The port in the text behind the colon.
unfoldable pub port_of : Bytes → ℕ → ℕ
port_of [] port = port
port_of (c ∷ cs) port = elim (stoul (c ∷ cs)) [ none ↦ 0 | some n ↦ if leb n 65535 then n else 0 ]

-- A further colon before the last one. `find_last_of(':', colon - 1)` searches the whole text if
-- `colon` is 0.
abbrev pub multi_colon : ℕ → Bytes → Bool
multi_colon colon host = if colon == 0 then true else is_some (find_last_of b':' (take colon host))

-- The host and the port for a name with an optional port behind a colon.
unfoldable pub split_host : Bytes → ℕ → Bytes × ℕ
split_host host port = elim (find_last_of b':' host) [
  | none ↦ (host, port)
  | some colon ↦
      if colon == 0 || not (multi_colon colon host)
      then (take colon host, port_of (drop (colon + 1) host) port)
      else (host, port)
]

-- ".onion".
abbrev pub onion_suffix : Bytes
onion_suffix = b'.' ∷ b'o' ∷ b'n' ∷ b'i' ∷ b'o' ∷ b'n' ∷ []

unfoldable pub is_onion_name : Bytes → Bool
is_onion_name host =
    ltb 6 (length host)
    && bytes_eq (drop (length host - 6) host) onion_suffix
    && not (decode_base32 (take (length host - 6) host)).1

-- The port of an address that has none, in network order.
unfoldable pub set_port : ℕ → SockAddr → SockAddr
set_port port (inet a p) =
    inet a (if bytes_eq p (0 ∷ 0 ∷ []) then port / 256 ∷ (port % 256) ∷ [] else p)
set_port port (inet6 a p) =
    inet6 a (if bytes_eq p (0 ∷ 0 ∷ []) then port / 256 ∷ (port % 256) ∷ [] else p)
set_port port (unix path) = unix path
set_port port other_family = other_family

-- The branch for a text that is no numeric address.
unfoldable pub name_base : Bytes → ℕ → CConnectionBase
unfolding split_host is_onion_name
name_base host port =
    let (name, p) = split_host host port in
    record {
      host = name;
      port = p;
      is_dns = not (is_onion_name name);
      is_onion = is_onion_name name;
      is_set = true;
      addr = none;
      connection_string = host;
    }

abbrev pub numeric_base : Bytes → ℕ → SockAddr → CConnectionBase
numeric_base host port a = record {
  host = [];
  port = 0;
  is_dns = false;
  is_onion = false;
  is_set = true;
  addr = some (set_port port a);
  connection_string = host;
}

-- The constructor. `parse` is `evutil_parse_sockaddr_port` of libevent.
unfoldable pub host_base : (Bytes → Option SockAddr) → Bytes → ℕ → CConnectionBase
unfolding name_base
host_base parse [] port = unset_base
host_base parse (c ∷ cs) port = elim (parse (c ∷ cs)) [
  | none ↦ name_base (c ∷ cs) port
  | some a ↦ numeric_base (c ∷ cs) port a
]

-- `std::to_string` of a number; a number has fewer than `n + 1` digits.
pub digits_onto : ℕ → ℕ → Bytes → Bytes
digits_onto zero n acc = acc
digits_onto (suc fuel) n acc =
    let more = digits_onto fuel (n / 10) ((b'0' + n % 10) ∷ acc) in
    if ltb n 10 then (b'0' + n) ∷ acc else more

unfoldable pub decimal : ℕ → Bytes
unfolding digits_onto
decimal n = digits_onto (suc n) n []

-- `ToString` of a name.
unfoldable pub name_to_string : CConnectionBase → Bytes
name_to_string b = b.host ++ (b':' ∷ decimal b.port)
