-- ===== src/Transport/Retries.antt =====
-- How often a connection asks for a retry (src/directconn.cpp, src/proxyconn.cpp).
use libbtcnet.Base.{
  ℕ, zero, suc, true, Option, none, some, ltb, ◌≡◌, ◌⊎◌, refl, ap, ◌∙◌, inl, inr, arith,
}
use libbtcnet.Base.Int.{ℤ, pos, negsuc}
use libbtcnet.Object.{
  ConnKind, direct, proxy, ConnectionBase, ConnectionFailureType, connect_failed, proxy_failed,
  connection_failure, take_retry,
}
use libbtcnet.Transport.{on_connect_failure}

-- What is left after `k` failures.
pub spend : ℕ → ℤ → ℤ
spend zero r = r
spend (suc k) r = spend k (take_retry r).0

spend_budget : (k n : ℕ) → (take_retry (spend k (pos n))).1 ≡ ltb k n
unfolding spend take_retry
spend_budget zero zero = refl
spend_budget zero (suc n) = ground arith
spend_budget (suc k) zero = ground (arith, spend_budget k zero)
spend_budget (suc k) (suc n) = ground (arith, spend_budget k n)

spend_forever : (k n : ℕ) → (take_retry (spend k (negsuc n))).1 ≡ true
unfolding spend take_retry
spend_forever zero n = refl
spend_forever (suc k) n = spend_forever k n

-- A connection that fails `k` times; `none` is a failed assertion.
pub failed : ℕ → ConnectionBase → Option ConnectionBase
failed zero c = some c
failed (suc k) c = elim (on_connect_failure c) [ none ↦ none | some (d, r) ↦ failed k d ]

abbrev pub failure_type : ConnKind → ConnectionFailureType
failure_type proxy = proxy_failed
failure_type _ = connect_failed

-- A failure of a direct connection, or of the connect to a proxy, changes the retries alone.
failure_step :
    (c : ConnectionBase)
    → (c.kind ≡ direct) ⊎ (c.kind ≡ proxy)
    → on_connect_failure c
      ≡ some (
        record c { retries = (take_retry c.retries).0 },
        connection_failure (failure_type c.kind) c.connection (take_retry c.retries).1,
      )
unfolding on_connect_failure
failure_step c (inl e) = ground arith
failure_step c (inr e) = ground arith

failed_spends :
    (k : ℕ) (c : ConnectionBase)
    → (c.kind ≡ direct) ⊎ (c.kind ≡ proxy)
    → failed k c ≡ some (record c { retries = spend k c.retries })
unfolding failed spend
failed_spends zero c h = refl
failed_spends (suc k) c h =
    rw (failure_step c h, failed)
      (failed_spends k (record c { retries = (take_retry c.retries).0 }) h)

-- With `n` retries the failures 0 to n - 1 of a direct connection, or of the connect to a proxy,
-- ask for a retry, and every later one does not.
pub retry_budget :
    (k n : ℕ) (c : ConnectionBase)
    → (c.kind ≡ direct) ⊎ (c.kind ≡ proxy)
    → c.retries ≡ pos n
    → (d e : ConnectionBase) × (failed k c ≡ some d)
      × (on_connect_failure d
          ≡ some (e, connection_failure (failure_type c.kind) c.connection (ltb k n)))
retry_budget k n c h r =
    let d : ConnectionBase = record c { retries = spend k c.retries } in
    (
      d,
      record d { retries = (take_retry d.retries).0 },
      failed_spends k c h,
      failure_step d h
          ∙ ap
              (λ b. some (
                record d { retries = (take_retry d.retries).0 },
                connection_failure (failure_type c.kind) c.connection b,
              ))
              (rw r (spend_budget k n)),
    )

-- With a negative number of retries every failure of a direct connection, or of the connect to a
-- proxy, asks for one.
retry_forever :
    (k n : ℕ) (c : ConnectionBase)
    → (c.kind ≡ direct) ⊎ (c.kind ≡ proxy)
    → c.retries ≡ negsuc n
    → (d e : ConnectionBase) × (failed k c ≡ some d)
      × (on_connect_failure d
          ≡ some (e, connection_failure (failure_type c.kind) c.connection true))
retry_forever k n c h r =
    let d : ConnectionBase = record c { retries = spend k c.retries } in
    (
      d,
      record d { retries = (take_retry d.retries).0 },
      failed_spends k c h,
      failure_step d h
          ∙ ap
              (λ b. some (
                record d { retries = (take_retry d.retries).0 },
                connection_failure (failure_type c.kind) c.connection b,
              ))
              (rw r (spend_forever k n)),
    )
