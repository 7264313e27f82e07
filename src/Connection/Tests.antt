-- ===== src/Connection/Tests.antt =====
-- The theorems about connections at concrete inputs.
use libbtcnet.Base.{
  false, [], ◌∷◌, ◌++◌, if◌then◌else◌, bytes_eq, none, some, ◌≡◌, refl, ◌↔◌, Bytes, Option, arith,
}
use libbtcnet.Connection.{
  SockAddr, CConnectionBase, addr_base, can_resolve, ResolveFamily, set_resolve_family,
  can_connect_family,
}
use libbtcnet.Connection.Address.{NameInfo, get_host, get_port, to_string}
use libbtcnet.Connection.Address.Print.{Documented, printable_address, written, host_base-to_string}
use libbtcnet.Connection.Samples.{dns_conn, local, remote}
use libbtcnet.Connection.Family.{admits, can_resolve-admits}
use libbtcnet.Connection.Host.{decimal, stoul, host_base}
use libbtcnet.Connection.Host.Ports.{stoul-decimal}
use libbtcnet.Connection.Host.Names.{host_base-IsValid, IsValid}

can_resolve-admits_example :
    (h : ResolveFamily) × (set_resolve_family dns_conn.opts.family ≡ some h)
    × (admits h local ≡ can_connect_family local dns_conn.opts.family)
unfolding can_resolve
can_resolve-admits_example = can_resolve-admits dns_conn local (omega arith) refl refl

stoul-decimal_example : stoul (decimal 8333) ≡ some 8333
stoul-decimal_example = stoul-decimal 8333 (omega arith)

abbrev no_address : Bytes → Option SockAddr
no_address text = none

abbrev text : Bytes
text = b'h' ∷ b':' ∷ b'8' ∷ b'0' ∷ []

abbrev site : CConnectionBase
site = host_base no_address text 8333

host_base-IsValid_example :
    IsValid site × ((site.is_set ≡ false) ↔ (text ≡ [])) × (site.connection_string ≡ text)
host_base-IsValid_example = host_base-IsValid no_address text 8333 (omega arith)

-- What `getnameinfo` and the parser say of one address, 10.0.0.7:8333.
abbrev remote_host : Bytes
remote_host = b'1' ∷ b'0' ∷ b'.' ∷ b'0' ∷ b'.' ∷ b'0' ∷ b'.' ∷ b'7' ∷ []

abbrev remote_text : Bytes
remote_text = remote_host ++ (b':' ∷ b'8' ∷ b'3' ∷ b'3' ∷ b'3' ∷ [])

abbrev one_address : NameInfo
one_address = record {
  host = λ a. some remote_host;
  service = λ a. some (b'8' ∷ b'3' ∷ b'3' ∷ b'3' ∷ []);
  both = λ a. some (remote_host, b'8' ∷ b'3' ∷ b'3' ∷ b'3' ∷ []);
}

abbrev parse_one : Bytes → Option SockAddr
parse_one t = if bytes_eq t remote_text then some remote else none

remote-Documented : Documented parse_one one_address remote remote_host 8333
unfolding decimal bytes_eq
remote-Documented = record {
  port_le = omega arith;
  host_named = refl;
  service_named = refl;
  both_named = refl;
  reads_back = refl;
}

host_base-to_string_example :
    let c = addr_base remote in
    (to_string one_address c
      ≡ written c.addr (get_host one_address c) (decimal (get_port one_address c)))
    × (host_base parse_one (to_string one_address c) 18333
        ≡ record c { connection_string = to_string one_address c })
unfolding bytes_eq
host_base-to_string_example =
    host_base-to_string 18333 (printable_address remote remote_host 8333 refl remote-Documented)
