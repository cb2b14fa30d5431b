-- ===== src/Generator/Round.antt =====
-- One round of the generator, in Go's int64 arithmetic (src/generator/lcg.go, `Next`).
use odns_measurement_tools.Base.{ℕ, ◌+◌, ◌*◌, ◌/◌, ◌%◌, ◌≤◌, ◌<◌, ◌≡◌, sym, ap, ◌∙◌, arith, u32}
use native.Mathlib.Nat.{div-add-mod, mul-add-mod_self_left}
use odns_measurement_tools.Generator.Lcg.{int_mod, int_half, rem}
use odns_measurement_tools.Generator.Affine.{affine}

-- The modulus may be taken before a round.
pub affine-mod : (b c m y : ℕ) → 0 < m → affine b c (y % m) % m ≡ affine b c y % m
affine-mod b c m y pos =
    let parted : affine b c y ≡ m * ((4 * b + 1) * (y / m)) + affine b c (y % m) =
      ap (affine b c) (sym (div-add-mod y m)) ∙ omega arith in
    rw parted (sym (mul-add-mod_self_left m ((4 * b + 1) * (y / m)) (affine b c (y % m))))

mul_bound : (v b : ℕ) → v ≤ 2147483648 → b ≤ 536870912 → v * b ≤ 2147483648 * 536870912
mul_bound v b hv hb = grind arith

-- A round on residues below 2^31 does not overflow.
pub round_small :
    (b c m v : ℕ)
    → 0 < m
    → m ≤ 2147483648
    → v < m
    → 4 * b ≤ m
    → c < 4 * m + 1
    → rem ((v * (4 * b + 1) + c) % int_mod) m ≡ affine b c v % m
unfolding rem
round_small b c m v pos le lt mult off =
    let bound : v * b ≤ 2147483648 * 536870912 = mul_bound v b (omega arith) (omega arith) in
    let same : v * (4 * b + 1) + c ≡ affine b c v = omega arith in
    let small : affine b c v < int_half = omega arith in rw same (ground arith)

rem_big :
    (x : ℕ)
    → x < int_mod
    → (rem x 4294967296 % 4294967296 ≡ x % 4294967296)
      × (rem x 4294967296 < int_mod)
      × (rem x 4294967296 < int_half → rem x 4294967296 < 4294967296)
unfolding rem
rem_big x lt = (ground arith, ground arith, λ h. ground arith)

-- A round for a network of 2^32 addresses, where products overflow.
pub round_big :
    (b c v : ℕ)
    → v < int_mod
    → let w = rem ((v * (4 * b + 1) + c) % int_mod) 4294967296 in
      (u32 w ≡ affine b c (u32 v) % 4294967296) × (w < int_mod) × (w < int_half → w < 4294967296)
unfolding rem
round_big b c v lt =
    let x = (v * (4 * b + 1) + c) % int_mod in
    let (residue, low, high) = rem_big x (omega arith) in
    let x_residue : x % 4294967296 ≡ affine b c v % 4294967296 = omega arith in
    (residue ∙ x_residue ∙ sym (affine-mod b c 4294967296 v (omega arith)), low, high)
