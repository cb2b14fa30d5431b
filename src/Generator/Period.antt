-- ===== src/Generator/Period.antt =====
-- The addresses of a run of the generator over one network (src/generator/lcg.go; `gen_ips` in
-- src/scanner/tcp/tcp_scanner.go and src/scanner/udp/udp_scanner.go).
use odns_measurement_tools.Base.{
  ℕ, zero, suc, ◌+◌, ◌-◌, ◌*◌, ◌/◌, ◌%◌, ◌^◌, ◌≤◌, ◌<◌, ◌≡◌, ◌≢◌, ◌⊎◌, refl, sym, ap, ◌∙◌, arith,
  some, List, [], ◌∷◌, length, All, NotIn, Distinct, map, u32,
}
use native.Mathlib.Nat.{mod-lt, mod-eq_of_lt, pow-le-pow_right}
use odns_measurement_tools.Generator.Lcg.{init, gen_ips}
use odns_measurement_tools.Generator.Affine.{iterate, iterate-add, pow_pos, no_return}
use odns_measurement_tools.Generator.Cover.{range, Permᴰ-map, covers}
use mathlib.Core.List.{Permᴰ}
use odns_measurement_tools.Generator.Run.{At, addresses, gen_ips-At}

split_le : (i j : ℕ) → i ≤ j → j ≡ i + (j - i)
split_le i j le = omega arith

module _ (h b c x : ℕ) (h_le : h ≤ 32) (mult : 4 * b ≤ 2 ^ h) (off : c < 4 * 2 ^ h + 1) where
  residues : ℕ → ℕ → List ℕ
  residues n zero = []
  residues n (suc k) = iterate b c n x % 2 ^ h ∷ residues (suc n) k

  addresses_lem :
      (netip_int n k : ℕ)
      → addresses h b c x h_le mult off netip_int n k
        ≡ map (λ r. u32 (netip_int + r)) (residues n k)
  unfolding addresses residues
  addresses_lem netip_int n zero = refl
  addresses_lem netip_int n (suc k) =
      ap (λ l. u32 (netip_int + iterate b c n x % 2 ^ h) ∷ l) (addresses_lem netip_int (suc n) k)

  length-residues : (n k : ℕ) → length (residues n k) ≡ k
  unfolding residues
  length-residues n zero = refl
  length-residues n (suc k) = ap suc (length-residues (suc n) k)

  residues-All : (n k : ℕ) → All (λ r. r < 2 ^ h) (residues n k)
  unfolding residues
  residues-All n zero = tt
  residues-All n (suc k) = (mod-lt _ (pow_pos h), residues-All (suc n) k)

  -- Values at different positions differ.
  residues_differ :
      (i j : ℕ)
      → c % 2 ≡ 1
      → i < j
      → j < 2 ^ h + i
      → iterate b c j x % 2 ^ h ≢ iterate b c i x % 2 ^ h
  residues_differ i j odd lt bound e =
      let y = iterate b c i x in
      let later : iterate b c j x ≡ iterate b c (j - i) y =
        ap (λ (n : ℕ). iterate b c n x) (split_le i j (omega arith))
        ∙ iterate-add b c i (j - i) x in
      let same : iterate b c (j - i) y % 2 ^ h ≡ y % 2 ^ h =
        ap (λ (z : ℕ). z % 2 ^ h) (sym later) ∙ e in
      no_return b c odd h (j - i) y (omega arith) (omega arith) same

  residues-NotIn :
      (n m k : ℕ)
      → c % 2 ≡ 1
      → n < m
      → m + k ≤ 2 ^ h + n
      → NotIn (iterate b c n x % 2 ^ h) (residues m k)
  unfolding residues
  residues-NotIn n m zero odd less bound = tt
  residues-NotIn n m (suc k) odd less bound = (
    residues_differ n m odd less (omega arith),
    residues-NotIn n (suc m) k odd (omega arith) (omega arith),
  )

  residues-Distinct : (n k : ℕ) → c % 2 ≡ 1 → k ≤ 2 ^ h → Distinct (residues n k)
  unfolding residues
  residues-Distinct n zero odd bound = tt
  residues-Distinct n (suc k) odd bound = (
    residues-NotIn n (suc n) k odd (omega arith) (omega arith),
    residues-Distinct (suc n) k odd (omega arith),
  )

  addresses-perm :
      (netip_int : ℕ)
      → c % 2 ≡ 1
      → Permᴰ
          (addresses h b c x h_le mult off netip_int 0 (2 ^ h))
          (map (λ r. u32 (netip_int + r)) (range (2 ^ h)))
  addresses-perm netip_int odd = rw (addresses_lem netip_int 0 (2 ^ h)) (
      Permᴰ-map (λ r. u32 (netip_int + r))
        (covers (2 ^ h) (residues 0 (2 ^ h)) (residues-Distinct 0 (2 ^ h) odd (omega arith))
          (residues-All 0 (2 ^ h)) (length-residues 0 (2 ^ h))))

pow_le_32 : (h : ℕ) → h ≤ 32 → 2 ^ h ≤ 4294967296
pow_le_32 h le = pow-le-pow_right {n = 2} (omega arith) le

init-At :
    (pow2_ceil : ℕ → ℕ) (h draw draw' : ℕ) (h_le : h ≤ 32)
    → pow2_ceil (2 ^ h) ≡ 2 ^ h
    → draw < 2 ^ h
    → draw' < 2 ^ h
    → (mult : 4 * (2 ^ h / 4) ≤ 2 ^ h) (off : (draw' + 2 ^ h) * 2 + 1 < 4 * 2 ^ h + 1)
    → At h
        (2 ^ h / 4)
        ((draw' + 2 ^ h) * 2 + 1)
        draw
        h_le
        mult
        off
        0
        (init pow2_ceil draw draw' (2 ^ h))
unfolding init iterate
init-At pow2_ceil h draw draw' h_le ceil lt lt' mult off = record {
  multiplier = refl;
  offset = refl;
  modulus = ceil;
  max = refl;
  found = refl;
  residue = mod-eq_of_lt (omega (arith, pow_le_32 h h_le)) ∙ sym (mod-eq_of_lt lt);
  low = omega (arith, pow_le_32 h h_le);
  positive = λ _. lt;
  small = size h h_le lt;
}
  where
    size : (k : ℕ) → k ≤ 32 → draw < 2 ^ k → (k ≡ 32) ⊎ ((k ≤ 31) × (draw < 2 ^ k))
    size k le small = grind arith

-- For every host size up to 32 and whatever random numbers `Init` draws, `gen_ips` ends, and what
-- it has put on the channel is a permutation of the addresses of the network: each of the network
-- address plus 0, ..., 2^h - 1 once. `pow2_ceil` is the floating-point expression of the modulus,
-- which is taken to be right at this power of two.
pub gen_ips_visits_all :
    (pow2_ceil : ℕ → ℕ) (h netip_int draw draw' : ℕ)
    → h ≤ 32
    → pow2_ceil (2 ^ h) ≡ 2 ^ h
    → draw < 2 ^ h
    → draw' < 2 ^ h
    → (l : List ℕ) × (gen_ips (suc (2 ^ h)) 1 netip_int (init pow2_ceil draw draw' (2 ^ h))
        ≡ some l)
      × Permᴰ l (map (λ r. u32 (netip_int + r)) (range (2 ^ h)))
gen_ips_visits_all pow2_ceil h netip_int draw draw' h_le ceil lt lt' =
    let b = 2 ^ h / 4 in
    let c = (draw' + 2 ^ h) * 2 + 1 in
    let mult : 4 * b ≤ 2 ^ h = omega arith in
    let off : c < 4 * 2 ^ h + 1 = omega arith in
    (
      addresses h b c draw h_le mult off netip_int 0 (2 ^ h),
      gen_ips-At h b c draw h_le mult off (2 ^ h) 0 netip_int 0 (init pow2_ceil draw draw' (2 ^ h))
          (init-At pow2_ceil h draw draw' h_le ceil lt lt' mult off) (omega arith),
      addresses-perm h b c draw h_le mult off netip_int (omega arith),
    )
