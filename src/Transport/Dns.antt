-- ===== src/Transport/Dns.antt =====
-- `CDNSConnection` (src/dnsconn.cpp) over many attempts.
use libbtcnet.Base.{
  ℕ, zero, suc, Bool, true, false, not, ◌||◌, List, [], ◌∷◌, Option, none, some, ◌≡◌, refl, ap, ◌∙◌,
  inl, inr, Bool-cases, if◌then◌else◌, is_empty, length, All, ◌-◌, map, arith,
}
use libbtcnet.Connection.{SockAddr, resolved_connection, can_connect_family}
use libbtcnet.Object.{
  dns, ConnectionBase, Report, pending, connection_failure, incoming_connected, outgoing_connected,
  connect_failed, has_retry,
}
use libbtcnet.Transport.{
  lookup_allowed, connect, conn_event, dns_connect, dns_do_resolve, dns_resolve_success,
  dns_connect_resolved, dns_connect_failure, on_connect_failure,
}

-- A DNS connection between two attempts, with an answer of the resolver and what is left of it.
abbrev pub dns_at : ConnectionBase → List SockAddr → List SockAddr → ConnectionBase
dns_at c resolved iter = record c {
  kind = dns;
  request = false;
  connecting_bev = false;
  dialled = none;
  resolved = resolved;
  iter = iter;
}

-- The environment lets every connect that is under way fail.
abbrev pub settle : Option (ConnectionBase × Report) → Option (ConnectionBase × Report)
settle none = none
settle (some (c, pending)) = conn_event false c
settle (some (c, connection_failure t f r)) = some (c, connection_failure t f r)
settle (some (c, incoming_connected r)) = some (c, incoming_connected r)
settle (some (c, outgoing_connected r)) = some (c, outgoing_connected r)

-- That many calls of `Connect`, each one failing, and what they report.
pub attempts : ℕ → ConnectionBase → Option (ConnectionBase × List Report)
attempts zero c = some (c, [])
attempts (suc k) c = elim (settle (connect c)) [
  | none ↦ none
  | some (d, r) ↦ elim (attempts k d) [ none ↦ none | some (e, rs) ↦ some (e, r ∷ rs) ]
]

-- The report for an address with `rest` behind it.
abbrev pub dns_report : ConnectionBase → SockAddr → List SockAddr → Report
dns_report c a rest =
    connection_failure connect_failed
      (resolved_connection c.connection.opts c.connection.net_config a)
      (not (is_empty rest) || has_retry c.retries)

abbrev pub dns_reports : ConnectionBase → List SockAddr → List Report
dns_reports c [] = []
dns_reports c (a ∷ rest) = dns_report c a rest ∷ dns_reports c rest

-- A failing attempt moves on to the next address, whether the family forbids the address or the
-- connect fails.
settle-dns_connect_resolved :
    (c : ConnectionBase) (x : SockAddr) (xs : List SockAddr) (a : SockAddr) (rest : List SockAddr)
    → settle (dns_connect_resolved (dns_at c (x ∷ xs) (a ∷ rest)))
      ≡ some (dns_at c (if is_empty rest then [] else x ∷ xs) rest, dns_report c a rest)
unfolding dns_connect_resolved conn_event on_connect_failure
settle-dns_connect_resolved c x xs a rest =
    elim (Bool-cases (can_connect_family a c.connection.opts.family)) [
      | inl e ↦ rw (e, dns_connect_resolved)
      | inr e ↦ rw (e, dns_connect_resolved)
    ]

connect-dns_at :
    (c : ConnectionBase) (xs : List SockAddr) (a : SockAddr) (rest : List SockAddr)
    → connect (dns_at c xs (a ∷ rest)) ≡ dns_connect_resolved (dns_at c xs (a ∷ rest))
unfolding connect dns_connect
connect-dns_at c xs a rest = refl

-- The address that an attempt dials, if it connects at all.
abbrev pub dialled_by : Option (ConnectionBase × Report) → Option SockAddr
dialled_by none = none
dialled_by (some (c, r)) = c.dialled

-- The addresses that so many calls of `Connect` dial, each connect failing.
pub dials : ℕ → ConnectionBase → Option (List (Option SockAddr))
dials zero c = some []
dials (suc k) c = elim (settle (connect c)) [
  | none ↦ none
  | some (d, r) ↦ elim (dials k d) [
    | none ↦ none
    | some tried ↦ some (dialled_by (connect c) ∷ tried)
  ]
]

-- An address that the options allow is dialled.
abbrev pub if_allowed : ConnectionBase → SockAddr → Option SockAddr
if_allowed c a = if can_connect_family a c.connection.opts.family then some a else none

dns_connect_failure_dialled :
    (c : ConnectionBase) → c.dialled ≡ none → dialled_by (dns_connect_failure c) ≡ none
unfolding dns_connect_failure
dns_connect_failure_dialled c h = ground arith

dialled-dns_at :
    (c : ConnectionBase) (x : SockAddr) (xs : List SockAddr) (a : SockAddr) (rest : List SockAddr)
    → dialled_by (connect (dns_at c (x ∷ xs) (a ∷ rest))) ≡ if_allowed c a
unfolding connect dns_connect dns_connect_resolved
dialled-dns_at c x xs a rest =
    ground (arith, dns_connect_failure_dialled (dns_at c (x ∷ xs) (a ∷ rest)))

attempts-suc :
    (k : ℕ) (c d e : ConnectionBase) (r : Report) (rs : List Report)
    → settle (connect c) ≡ some (d, r)
    → attempts k d ≡ some (e, rs)
    → attempts (suc k) c ≡ some (e, r ∷ rs)
unfolding attempts
attempts-suc k c d e r rs h g = ground (arith, h, g)

-- As many failing attempts of a DNS connection as it has addresses left, and what each reports.
attempts-dns_at :
    (c : ConnectionBase) (x : SockAddr) (xs : List SockAddr) (a : SockAddr) (rest : List SockAddr)
    → attempts (length (a ∷ rest)) (dns_at c (x ∷ xs) (a ∷ rest))
      ≡ some (dns_at c [] [], dns_reports c (a ∷ rest))
attempts-dns_at c x xs a [] =
    attempts-suc 0 _ _ _ _ _
      (ap settle (connect-dns_at c (x ∷ xs) a []) ∙ settle-dns_connect_resolved c x xs a [])
      (unfold attempts in refl)
attempts-dns_at c x xs a (b ∷ rest) =
    attempts-suc (length (b ∷ rest)) _ _ _ _ _
      (ap settle (connect-dns_at c (x ∷ xs) a (b ∷ rest))
        ∙ settle-dns_connect_resolved c x xs a (b ∷ rest))
      (attempts-dns_at c x xs b rest)

dials_none : (c : ConnectionBase) → dials 0 c ≡ some []
unfolding dials
dials_none c = refl

dials-suc :
    (k : ℕ) (c d : ConnectionBase) (r : Report) (tried : List (Option SockAddr))
    → settle (connect c) ≡ some (d, r)
    → dials k d ≡ some tried
    → dials (suc k) c ≡ some (dialled_by (connect c) ∷ tried)
unfolding dials
dials-suc k c d r tried h g = ground (arith, h, g)

dials-dns_at :
    (c : ConnectionBase) (x : SockAddr) (xs : List SockAddr) (a : SockAddr) (rest : List SockAddr)
    → dials (length (a ∷ rest)) (dns_at c (x ∷ xs) (a ∷ rest))
      ≡ some (map (if_allowed c) (a ∷ rest))
dials-dns_at c x xs a [] =
    dials-suc 0 _ _ _ _
      (ap settle (connect-dns_at c (x ∷ xs) a []) ∙ settle-dns_connect_resolved c x xs a [])
      (dials_none _)
    ∙ ap (λ o. some (o ∷ [])) (dialled-dns_at c x xs a [])
dials-dns_at c x xs a (b ∷ rest) =
    dials-suc (length (b ∷ rest)) _ _ _ _
      (ap settle (connect-dns_at c (x ∷ xs) a (b ∷ rest))
        ∙ settle-dns_connect_resolved c x xs a (b ∷ rest))
      (dials-dns_at c x xs b rest)
    ∙ ap (λ o. some (o ∷ map (if_allowed c) (b ∷ rest))) (dialled-dns_at c x xs a (b ∷ rest))

-- As many failing attempts of a DNS connection as it has addresses left dial each of them that the
-- options allow once and in order, and skip the others; each attempt but the last asks for a retry,
-- the last one if there are retries, and none uses up a retry.
pub attempts-dials :
    (c : ConnectionBase) (x : SockAddr) (xs : List SockAddr) (a : SockAddr) (rest : List SockAddr)
    → (dials (length (a ∷ rest)) (dns_at c (x ∷ xs) (a ∷ rest))
        ≡ some (map (if_allowed c) (a ∷ rest)))
      × (attempts (length (a ∷ rest)) (dns_at c (x ∷ xs) (a ∷ rest))
          ≡ some (dns_at c [] [], dns_reports c (a ∷ rest)))
attempts-dials c x xs a rest = (dials-dns_at c x xs a rest, attempts-dns_at c x xs a rest)

-- A lookup that answers with `answer`, and failing attempts for all of its addresses.
pub dns_round : List SockAddr → ConnectionBase → Option (ConnectionBase × List Report)
dns_round answer c = elim (connect c) [
  | none ↦ none
  | some (d, _) ↦ elim (settle (dns_resolve_success d answer)) [
    | none ↦ none
    | some (e, r) ↦ elim (attempts (length answer - 1) e) [
      | none ↦ none
      | some (f, rs) ↦ some (f, r ∷ rs)
    ]
  ]
]

abbrev pub asks_retry : Report → Bool
asks_retry (connection_failure t f b) = b
asks_retry _ = false

length-dns_reports :
    (c : ConnectionBase) (xs : List SockAddr) → length (dns_reports c xs) ≡ length xs
length-dns_reports c [] = refl
length-dns_reports c (a ∷ xs) = ap suc (length-dns_reports c xs)

dns_reports-asks_retry :
    (c : ConnectionBase) (xs : List SockAddr)
    → has_retry c.retries ≡ true
    → All (λ r. asks_retry r ≡ true) (dns_reports c xs)
dns_reports-asks_retry c [] h = tt
dns_reports-asks_retry c (a ∷ []) h = (h, tt)
dns_reports-asks_retry c (a ∷ b ∷ xs) h = (refl, dns_reports-asks_retry c (b ∷ xs) h)

connect-do_resolve :
    (c : ConnectionBase)
    → lookup_allowed c.connection ≡ true
    → connect (dns_at c [] []) ≡ some (record (dns_at c [] []) { request = true }, pending)
unfolding connect dns_connect dns_do_resolve
connect-do_resolve c h = rw h

resolve_success-dns_at :
    (c : ConnectionBase) (answer : List SockAddr)
    → dns_resolve_success (record (dns_at c [] []) { request = true }) answer
      ≡ dns_connect_resolved (dns_at c answer answer)
unfolding dns_resolve_success
resolve_success-dns_at c answer = refl

dns_round_steps :
    (answer : List SockAddr) (c d e f : ConnectionBase) (q r : Report) (rs : List Report)
    → connect c ≡ some (d, q)
    → settle (dns_resolve_success d answer) ≡ some (e, r)
    → attempts (length answer - 1) e ≡ some (f, rs)
    → dns_round answer c ≡ some (f, r ∷ rs)
unfolding dns_round
dns_round_steps answer c d e f q r rs h i j = ground (arith, h, i, j)

attempts_rest :
    (c : ConnectionBase) (x : SockAddr) (rest : List SockAddr)
    → attempts (length (x ∷ rest) - 1) (dns_at c (if is_empty rest then [] else x ∷ rest) rest)
      ≡ some (dns_at c [] [], dns_reports c rest)
attempts_rest c x [] = unfold attempts in refl
attempts_rest c x (b ∷ rest) =
    let n : suc (length (b ∷ rest)) - 1 ≡ length (b ∷ rest) = omega arith in
    rw n (attempts-dns_at c x (b ∷ rest) b rest)

-- Failed connects are never counted: if a lookup is allowed and retries are left, whatever their
-- number, a lookup that succeeds and a failing attempt for each of its addresses lead back to the
-- very same state, and each of the failures asks for a retry.
pub dns_round_repeats :
    (c : ConnectionBase) (a : SockAddr) (rest : List SockAddr)
    → lookup_allowed c.connection ≡ true
    → has_retry c.retries ≡ true
    → (rs : List Report) × (dns_round (a ∷ rest) (dns_at c [] []) ≡ some (dns_at c [] [], rs))
      × (length rs ≡ length (a ∷ rest))
      × All (λ r. asks_retry r ≡ true) rs
dns_round_repeats c a rest l h = (
  dns_reports c (a ∷ rest),
  dns_round_steps (a ∷ rest) _ _ _ _ _ _ _ (connect-do_resolve c l)
      (ap settle (resolve_success-dns_at c (a ∷ rest))
        ∙ settle-dns_connect_resolved c a rest a rest)
      (attempts_rest c a rest),
  length-dns_reports c (a ∷ rest),
  dns_reports-asks_retry c (a ∷ rest) h,
)
