-- ===== src/Srp/Modular.antt =====
-- Powers and residues, for the key agreement of openairplay2/src/srp.rs.
use openairplay.Prelude.{
  ℕ, zero, suc, ◌+◌, ◌-◌, ◌*◌, ◌/◌, ◌%◌, ◌^◌, ◌≤◌, ◌<◌, ◌≡◌, sym, ap, ◌∙◌, ◌⊎◌, inl, inr,
  Bool-cases, ltb, arith,
}
use native.Mathlib.Nat.{
  mod-eq_of_lt, add-mod, add-mod_right, add-mul-mod_self_left, mod-add-div, mul_assoc, mul_comm,
  mul_left_comm, mul-one, mod-lt, add-mul,
}
use native.Mathlib.Numerals.{unary_clauses}

pub pow_add : (g i j : ℕ) → g ^ (i + j) ≡ g ^ i * g ^ j
pow_add g i zero = simp unary_clauses (sym (mul-one (g ^ i)))
pow_add g i (suc j) =
    simp unary_clauses (ap (λ (p : ℕ). p * g) (pow_add g i j) ∙ mul_assoc (g ^ i) (g ^ j) g)

pub pow_mul : (g i j : ℕ) → (g ^ i) ^ j ≡ g ^ (i * j)
pow_mul g i zero = simp unary_clauses
pow_mul g i (suc j) =
    simp unary_clauses (ap (λ (p : ℕ). p * g ^ i) (pow_mul g i j) ∙ sym (pow_add g (i * j) i))

swap_middle : (x y a b : ℕ) → (x * y) * (a * b) ≡ (x * a) * (y * b)
swap_middle x y a b =
    mul_assoc x y (a * b)
    ∙ ap (λ (p : ℕ). x * p) (mul_left_comm y a b)
    ∙ sym (mul_assoc x a (y * b))

pub mul_pow : (a b e : ℕ) → (a * b) ^ e ≡ a ^ e * b ^ e
mul_pow a b zero = simp unary_clauses
mul_pow a b (suc e) =
    simp unary_clauses
      (ap (λ (p : ℕ). p * (a * b)) (mul_pow a b e) ∙ swap_middle (a ^ e) (b ^ e) a b)

-- A factor may be replaced by its residue.
pub mul-mod : (a b n : ℕ) → (a * b) % n ≡ ((a % n) * b) % n
mul-mod a b n =
    ap (λ (x : ℕ). (x * b) % n) (sym (mod-add-div a n))
    ∙ ap (λ (x : ℕ). x % n)
        (add-mul (a % n) (n * (a / n)) b ∙ ap (λ (x : ℕ). (a % n) * b + x) (mul_assoc n (a / n) b))
    ∙ add-mul-mod_self_left ((a % n) * b) n ((a / n) * b)

pub mul-mod_of : (a a' b b' n : ℕ) → a % n ≡ a' % n → b % n ≡ b' % n → (a * b) % n ≡ (a' * b') % n
mul-mod_of a a' b b' n ea eb =
    mul-mod a b n
    ∙ ap (λ (x : ℕ). (x * b) % n) ea
    ∙ sym (mul-mod a' b n)
    ∙ ap (λ (x : ℕ). x % n) (mul_comm a' b)
    ∙ mul-mod b a' n
    ∙ ap (λ (x : ℕ). (x * a') % n) eb
    ∙ sym (mul-mod b' a' n)
    ∙ ap (λ (x : ℕ). x % n) (mul_comm b' a')

pub pow-mod_of : (a a' e n : ℕ) → a % n ≡ a' % n → (a ^ e) % n ≡ (a' ^ e) % n
pow-mod_of a a' zero n h = simp unary_clauses
pow-mod_of a a' (suc e) n h =
    simp unary_clauses (mul-mod_of (a ^ e) (a' ^ e) a a' n (pow-mod_of a a' e n h) h)

lt_or_ge : (m n : ℕ) → (m < n) ⊎ (n ≤ m)
lt_or_ge m n = elim (Bool-cases (ltb m n)) [
  | inl e ↦ inl (ground arith)
  | inr e ↦ inr (ground arith)
]

-- A residue that is added and taken off again.
pub base_mod : (c r n : ℕ) → r < n → (((c + r) % n) + n - (c % n)) % n ≡ r
base_mod c r n h =
    ap (λ (x : ℕ). (x + n - c % n) % n)
      (add-mod c r n ∙ ap (λ (x : ℕ). (c % n + x) % n) (mod-eq_of_lt h))
    ∙ go (c % n) (mod-lt c (omega arith)) (lt_or_ge (c % n + r) n)
  where
    go : (d : ℕ) → d < n → (d + r < n) ⊎ (n ≤ d + r) → (((d + r) % n) + n - d) % n ≡ r
    go d hd (inl small) =
        let same : (d + r) % n ≡ d + r = mod-eq_of_lt small in
        let off : d + r + n - d ≡ r + n = omega arith in
        rw (same, off) (add-mod_right r n ∙ mod-eq_of_lt h)
    go d hd (inr big) =
        let split : d + r ≡ (d + r - n) + n = omega arith in
        let same : (d + r) % n ≡ d + r - n =
          ap (λ (x : ℕ). x % n) split ∙ add-mod_right (d + r - n) n ∙ mod-eq_of_lt (omega arith) in
        let off : d + r - n + n - d ≡ r = omega arith in rw (same, off) (mod-eq_of_lt h)
