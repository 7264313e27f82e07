-- ===== src/Connection/Family.antt =====
-- The family bits (src/connection.cpp, src/resolve.cpp).
use libbtcnet.Base.{
  ℕ, zero, suc, ◌<◌, Bool, true, false, not, ◌&&◌, some, ◌≡◌, refl, if◌then◌else◌, arith,
}
use libbtcnet.Message.{NetworkConfig}
use libbtcnet.Connection.{
  SockAddr, inet, inet6, unix, other_family, CConnection, has_bits, ipv4_bit, ipv6_bit, ip_bits,
  CConnectionBase, CProxy, default_options, can_connect_direct, can_connect_proxy,
  can_connect_family, can_resolve, ResolveFamily, af_unspec, af_inet, af_inet6, set_resolve_family,
}

-- Every number below a bound passes a test, by evaluation.
passes : ℕ → (ℕ → Bool) → Bool
passes zero p = true
passes (suc n) p = p n && passes n p

passes_sound : (n : ℕ) (p : ℕ → Bool) (x : ℕ) → passes n p ≡ true → x < n → p x ≡ true
unfolding passes
passes_sound zero p x h lt = absurd (omega arith)
passes_sound (suc n) p x h lt = ground (arith, passes_sound n p x)

abbrev same : Bool → Bool → Bool
same a b = if a then b else not b

ip_table :
    passes 32 (λ f. same (has_bits f ip_bits) (has_bits f ipv4_bit && has_bits f ipv6_bit)) ≡ true
unfolding passes
ip_table = refl

-- The addresses that a resolver answers with for a hint.
abbrev pub admits : ResolveFamily → SockAddr → Bool
admits af_unspec (inet a p) = true
admits af_unspec (inet6 a p) = true
admits af_inet (inet a p) = true
admits af_inet6 (inet6 a p) = true
admits _ _ = false

abbrev pub is_ip : SockAddr → Bool
is_ip (inet a p) = true
is_ip (inet6 a p) = true
is_ip _ = false

ip_bits_lem : (f : ℕ) → f < 32 → has_bits f ip_bits ≡ (has_bits f ipv4_bit && has_bits f ipv6_bit)
ip_bits_lem f h = ground (arith, passes_sound 32 _ f ip_table h)

abbrev hint : ℕ → ResolveFamily
hint f =
    if has_bits f ipv4_bit && has_bits f ipv6_bit
    then af_unspec
    else if has_bits f ipv4_bit
    then af_inet
    else af_inet6

-- With a family made of the five known bits, a connection that can be resolved always gets a hint,
-- and with it exactly those IP addresses are admitted that the connection may connect to.
pub can_resolve-admits :
    (c : CConnection) (a : SockAddr)
    → c.opts.family < 32
    → can_resolve c ≡ true
    → is_ip a ≡ true
    → (h : ResolveFamily) × (set_resolve_family c.opts.family ≡ some h)
      × (admits h a ≡ can_connect_family a c.opts.family)
unfolding can_resolve set_resolve_family can_connect_family
can_resolve-admits c (inet a p) b r i = (
  hint c.opts.family,
  ground (arith, ip_bits_lem c.opts.family b),
  ground (arith, ip_bits_lem c.opts.family b),
)
can_resolve-admits c (inet6 a p) b r i = (
  hint c.opts.family,
  ground (arith, ip_bits_lem c.opts.family b),
  ground (arith, ip_bits_lem c.opts.family b),
)
can_resolve-admits c (unix p) b r i = cc
can_resolve-admits c other_family b r i = cc

-- With the options of the default constructor a connection may neither connect, directly or through
-- a proxy, nor be resolved.
default_options_refuse :
    (base : CConnectionBase) (proxy : CProxy) (net : NetworkConfig)
    → let c : CConnection = record {
      base = base;
      proxy = proxy;
      opts = default_options;
      net_config = net;
    } in
      (can_connect_direct c ≡ false) × (can_connect_proxy c ≡ false) × (can_resolve c ≡ false)
unfolding can_connect_direct can_connect_proxy can_resolve can_connect_family
default_options_refuse base proxy net = ground arith
