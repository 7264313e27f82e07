-- ===== src/Connection/Host/Ports.antt =====
-- Numbers in decimal: `std::to_string` and `std::stoul` as src/connection.cpp uses them.
use libbtcnet.Base.{
  ℕ, zero, suc, ◌+◌, ◌-◌, ◌*◌, ◌/◌, ◌%◌, ◌^◌, ◌≤◌, ◌<◌, true, false, [], ◌∷◌, none, some, ◌≡◌, ◌≢◌,
  refl, ap, ◌∙◌, ltb, inl, inr, Bool-cases, Bytes, All, arith,
}
use libbtcnet.Connection.Host.{
  is_digit, skip_space, read_digits, read_unsigned, read_sign, stoul, port_of, digits_onto, decimal,
  find_last_of,
}

abbrev pub IsDigits : Bytes → Type 0
IsDigits = All (λ c. is_digit c ≡ true)

read_digits_step :
    (n c : ℕ) (cs : Bytes)
    → is_digit c ≡ true
    → read_digits n (c ∷ cs) ≡ read_digits (n * 10 + (c - b'0')) cs
unfolding read_digits
read_digits_step n c cs h = rw h

read_digits-nil : (n : ℕ) → read_digits n [] ≡ n
unfolding read_digits
read_digits-nil n = refl

-- Written and read again, a number is itself, with any digits behind it.
read_digits-digits_onto :
    (fuel n : ℕ) (acc : Bytes)
    → n < fuel
    → read_digits 0 (digits_onto fuel n acc) ≡ read_digits n acc
unfolding digits_onto
read_digits-digits_onto zero n acc h = absurd (omega arith)
read_digits-digits_onto (suc fuel) n acc h = elim (Bool-cases (ltb n 10)) [
  | inl e ↦
      let value : 0 * 10 + (b'0' + n - b'0') ≡ n = omega arith in
      rw (e, read_digits_step 0 (b'0' + n) acc (ground arith), value)
  | inr e ↦
      let value : n / 10 * 10 + (b'0' + n % 10 - b'0') ≡ n = omega arith in
      rw (
        e,
        read_digits-digits_onto fuel (n / 10) ((b'0' + n % 10) ∷ acc) (ground arith),
        read_digits_step (n / 10) (b'0' + n % 10) acc (ground arith),
        value,
      )
]

digits_onto-IsDigits :
    (fuel n : ℕ) (acc : Bytes) → n < fuel → IsDigits acc → IsDigits (digits_onto fuel n acc)
unfolding digits_onto
digits_onto-IsDigits zero n acc h d = absurd (omega arith)
digits_onto-IsDigits (suc fuel) n acc h d = elim (Bool-cases (ltb n 10)) [
  | inl e ↦ rw e (ground arith, d)
  | inr e ↦ rw e (digits_onto-IsDigits fuel (n / 10) _ (ground arith) (ground arith, d))
]

digits_onto-ne-nil : (fuel n : ℕ) (acc : Bytes) → n < fuel → digits_onto fuel n acc ≢ []
unfolding digits_onto
digits_onto-ne-nil zero n acc h = absurd (omega arith)
digits_onto-ne-nil (suc fuel) n acc h = elim (Bool-cases (ltb n 10)) [
  | inl e ↦ rw e (λ x. cc)
  | inr e ↦ rw e (digits_onto-ne-nil fuel (n / 10) _ (ground arith))
]

stoul_lem : (s : Bytes) → stoul s ≡ read_sign (skip_space s)
unfolding stoul
stoul_lem s = refl

pub skip_space_digit : (c : ℕ) (cs : Bytes) → is_digit c ≡ true → skip_space (c ∷ cs) ≡ c ∷ cs
unfolding skip_space
skip_space_digit c cs h = ground arith

read_sign_digit :
    (c : ℕ) (cs : Bytes) → is_digit c ≡ true → read_sign (c ∷ cs) ≡ read_unsigned false (c ∷ cs)
unfolding read_sign
read_sign_digit c cs h = ground arith

read_unsigned_digit :
    (c : ℕ) (cs : Bytes)
    → is_digit c ≡ true
    → read_digits 0 (c ∷ cs) < 2 ^ 64
    → read_unsigned false (c ∷ cs) ≡ some (read_digits 0 (c ∷ cs))
unfolding read_unsigned
read_unsigned_digit c cs h b = ground arith

-- Digits alone are read as the number that they write.
stoul-IsDigits :
    (s : Bytes) → IsDigits s → s ≢ [] → read_digits 0 s < 2 ^ 64 → stoul s ≡ some (read_digits 0 s)
stoul-IsDigits [] d ne b = absurd (ne refl)
stoul-IsDigits (c ∷ cs) d ne b =
    stoul_lem (c ∷ cs)
    ∙ ap read_sign (skip_space_digit c cs d.0)
    ∙ read_sign_digit c cs d.0
    ∙ read_unsigned_digit c cs d.0 b

find_last_of-IsDigits : (s : Bytes) → IsDigits s → find_last_of b':' s ≡ none
unfolding find_last_of
find_last_of-IsDigits [] d = refl
find_last_of-IsDigits (c ∷ cs) d = ground (arith, find_last_of-IsDigits cs d.1)

pub read_digits-decimal : (n : ℕ) → read_digits 0 (decimal n) ≡ n
unfolding decimal
read_digits-decimal n = read_digits-digits_onto (suc n) n [] (omega arith) ∙ read_digits-nil n

pub decimal-IsDigits : (n : ℕ) → IsDigits (decimal n)
unfolding decimal
decimal-IsDigits n = digits_onto-IsDigits (suc n) n [] (omega arith) tt

pub decimal-ne-nil : (n : ℕ) → decimal n ≢ []
unfolding decimal
decimal-ne-nil n = digits_onto-ne-nil (suc n) n [] (omega arith)

pub find_last_of-decimal : (n : ℕ) → find_last_of b':' (decimal n) ≡ none
find_last_of-decimal n = find_last_of-IsDigits (decimal n) (decimal-IsDigits n)

-- What `std::to_string` writes `std::stoul` reads.
pub stoul-decimal : (n : ℕ) → n < 2 ^ 64 → stoul (decimal n) ≡ some n
stoul-decimal n h =
    stoul-IsDigits (decimal n) (decimal-IsDigits n) (decimal-ne-nil n)
      (omega (arith, read_digits-decimal n))
    ∙ ap some (read_digits-decimal n)

port_of-some : (s : Bytes) (q n : ℕ) → s ≢ [] → stoul s ≡ some n → n ≤ 65535 → port_of s q ≡ n
unfolding port_of
port_of-some [] q n ne e b = absurd (ne refl)
port_of-some (c ∷ cs) q n ne e b = rw (e, port_of) (ground arith)

pub port_of-decimal : (n q : ℕ) → n ≤ 65535 → port_of (decimal n) q ≡ n
port_of-decimal n q h =
    port_of-some (decimal n) q n (decimal-ne-nil n) (stoul-decimal n (omega arith)) h

pub port_of-le : (s : Bytes) (q : ℕ) → q ≤ 65535 → port_of s q ≤ 65535
unfolding port_of
port_of-le [] q h = h
port_of-le (c ∷ cs) q h = ground arith
