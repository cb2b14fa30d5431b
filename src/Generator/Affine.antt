-- ===== src/Generator/Affine.antt =====
-- Iterating x ↦ a * x + c with a = 4 * b + 1 and c odd, without the modulus.
use odns_measurement_tools.Base.{
  ℕ, zero, suc, ◌+◌, ◌*◌, ◌^◌, ◌%◌, ◌<◌, ◌≡◌, ◌≢◌, ◌/◌, refl, ap, ◌∙◌, inl, inr, arith, Bool-cases,
  ◌==◌,
}
use native.Mathlib.Nat.{pow-suc, zero-add, suc-add, zero-mul, div-add-mod}

pub double : (k : ℕ) → 2 ^ suc k ≡ 2 ^ k + 2 ^ k
double k = rw pow-suc (omega arith)

twice_moved :
    (n s h x : ℕ)
    → x + n * (4 * s * x + h) + n * (4 * s * (x + n * (4 * s * x + h)) + h)
      ≡ x + (n + n) * (4 * (s + 2 * (s * s) * n) * x + (h + 2 * (s * n * h)))
twice_moved n s h x = omega arith

module _ (b c : ℕ) where
  abbrev pub affine : ℕ → ℕ
  affine x = (4 * b + 1) * x + c

  unfoldable pub iterate : ℕ → ℕ → ℕ
  iterate zero x = x
  iterate (suc n) x = iterate n (affine x)

  pub iterate-add : (m n x : ℕ) → iterate (m + n) x ≡ iterate n (iterate m x)
  unfolding iterate
  iterate-add zero n x = rw zero-add
  iterate-add (suc m) n x = rw suc-add (iterate-add m n (affine x))

  -- After 2^k rounds, x has become x + 2^k * (4 * slope k * x + shift k).
  pub slope : ℕ → ℕ
  slope zero = b
  slope (suc k) = slope k + 2 * (slope k * slope k) * 2 ^ k

  pub shift : ℕ → ℕ
  unfolding slope
  shift zero = c
  shift (suc k) = shift k + 2 * (slope k * 2 ^ k * shift k)

  pub iterate_pow : (k x : ℕ) → iterate (2 ^ k) x ≡ x + 2 ^ k * (4 * slope k * x + shift k)
  unfolding iterate slope shift
  iterate_pow zero x = omega arith
  iterate_pow (suc k) x = rw (double k) (
      iterate-add (2 ^ k) (2 ^ k) x
      ∙ ap (iterate (2 ^ k)) (iterate_pow k x)
      ∙ iterate_pow k (x + 2 ^ k * (4 * slope k * x + shift k))
      ∙ twice_moved (2 ^ k) (slope k) (shift k) x)

  pub shift_odd : c % 2 ≡ 1 → (k : ℕ) → shift k % 2 ≡ 1
  unfolding shift
  shift_odd odd zero = odd
  shift_odd odd (suc k) = omega (arith, shift_odd odd k)

  -- An odd number of blocks of 2^k rounds moves x by an odd multiple of 2^k.
  blocks :
      c % 2 ≡ 1 → (k t x : ℕ) → (d : ℕ) × (iterate (t * 2 ^ k) x ≡ x + 2 ^ k * d) × (d % 2 ≡ t % 2)
  unfolding iterate
  blocks odd k zero x = (0, rw zero-mul (omega arith), refl)
  blocks odd k (suc t) x =
      let y = x + 2 ^ k * (4 * slope k * x + shift k) in
      let (d, e, parity) = blocks odd k t y in
      (
        4 * slope k * x + shift k + d,
        rw suc-mul-comm (
            iterate-add (2 ^ k) (t * 2 ^ k) x
            ∙ ap (iterate (t * 2 ^ k)) (iterate_pow k x)
            ∙ e
            ∙ omega arith),
        omega (arith, shift_odd odd k),
      )
    where
      suc-mul-comm : suc t * 2 ^ k ≡ 2 ^ k + t * 2 ^ k
      suc-mul-comm = omega arith

-- Every positive number is an odd multiple of a power of two.
odd_part : (f n : ℕ) → n < f → 0 < n → (k : ℕ) × (t : ℕ) × (n ≡ t * 2 ^ k) × (t % 2 ≡ 1)
odd_part zero n h pos = absurd (omega arith)
odd_part (suc f) n h pos = elim (Bool-cases (n % 2 == 1)) [
  | inl odd ↦ (0, n, omega arith, ground arith)
  | inr even ↦
      let (k, t, e, odd) = odd_part f (n / 2) (omega arith) (ground arith) in
      (suc k, t, rw (double k) (ground (arith, e, mul_double t (2 ^ k))), odd)
]
  where
    mul_double : (t m : ℕ) → t * (m + m) ≡ 2 * (t * m)
    mul_double t m = omega arith

pub pow_pos : (k : ℕ) → 0 < 2 ^ k
pow_pos zero = omega arith
pow_pos (suc k) = rw (double k) (omega (arith, pow_pos k))

factor_lt : (t p q : ℕ) → t % 2 ≡ 1 → t * p < q → p < q
factor_lt zero p q odd lt = absurd (omega arith)
factor_lt (suc t) p q odd lt = omega arith

pow_split : (k h : ℕ) → 2 ^ k < 2 ^ h → (m : ℕ) × (2 ^ h ≡ 2 ^ k * (2 * m))
pow_split k zero lt = absurd (omega (arith, pow_pos k))
pow_split zero (suc h) lt = (2 ^ h, double h ∙ omega arith)
pow_split (suc k) (suc h) lt =
    let (m, e) = pow_split k h (omega (arith, double k, double h)) in
    (m, rw (double h, double k) (rw e (omega arith)))

mul_cancel : (p a b : ℕ) → 0 < p → p * a ≡ p * b → a ≡ b
mul_cancel p a b pos e = grind arith

-- A multiple of 2^k that vanishes modulo a higher power of two is an even multiple.
even_multiple : (p m x d : ℕ) → 0 < p → (x + p * d) % (p * (2 * m)) ≡ x % (p * (2 * m)) → d % 2 ≡ 0
even_multiple p m x d pos e =
    let q1 = (x + p * d) / (p * (2 * m)) in
    let q0 = x / (p * (2 * m)) in
    let sums : p * (d + 2 * (m * q0)) ≡ p * (2 * (m * q1)) =
      omega (arith, div-add-mod (x + p * d) (p * (2 * m)), div-add-mod x (p * (2 * m))) in
    let cancelled : d + 2 * (m * q0) ≡ 2 * (m * q1) = mul_cancel p _ _ pos sums in omega arith

-- No number of rounds below 2^h, except 0, gives back x modulo 2^h.
pub no_return :
    (b c : ℕ) → c % 2 ≡ 1 → (h n x : ℕ) → 0 < n → n < 2 ^ h → iterate b c n x % 2 ^ h ≢ x % 2 ^ h
no_return b c odd h n x pos small e =
    let (k, t, split, t_odd) = odd_part (suc n) n (omega arith) pos in
    let (d, moved, parity) = blocks b c odd k t x in
    let (m, pow) = pow_split k h (factor_lt t (2 ^ k) (2 ^ h) t_odd (rw split at small)) in
    let same : (x + 2 ^ k * d) % (2 ^ k * (2 * m)) ≡ x % (2 ^ k * (2 * m)) = rw (← pow) (cc) in
    absurd (omega (arith, even_multiple (2 ^ k) m x d (pow_pos k) same))
