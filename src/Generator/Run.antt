-- ===== src/Generator/Run.antt =====
-- The states of the generator in a run over one network (src/generator/lcg.go; `gen_ips` in
-- src/scanner/tcp/tcp_scanner.go and src/scanner/udp/udp_scanner.go).
use odns_measurement_tools.Base.{
  ℕ, zero, suc, ◌+◌, ◌*◌, ◌%◌, ◌^◌, ◌≤◌, ◌<◌, ◌≡◌, ◌⊎◌, inl, inr, sym, ap, ◌∙◌, arith, true, false,
  some, List, [], ◌∷◌, u32,
}
use native.Mathlib.Nat.{mod-lt, pow-le-pow_right}
use odns_measurement_tools.Generator.Lcg.{
  int_mod, int_half, Lcg, rem, advance, too_big, skip, emit, next, has_next, push, gen_next,
  gen_ips,
}
use odns_measurement_tools.Generator.Affine.{affine, iterate, iterate-add, pow_pos}
use odns_measurement_tools.Generator.Round.{affine-mod, round_small, round_big}

add_one : (n : ℕ) → suc n ≡ n + 1
add_one n = omega arith

iterate-suc : (b c n x : ℕ) → iterate b c (suc n) x ≡ affine b c (iterate b c n x)
unfolding iterate
iterate-suc b c n x = ap (λ (k : ℕ). iterate b c k x) (add_one n) ∙ iterate-add b c n 1 x

pow_le : (h : ℕ) → h ≤ 31 → 2 ^ h ≤ 2147483648
pow_le h le = pow-le-pow_right {n = 2} (omega arith) le

module _ (h b c x : ℕ) (h_le : h ≤ 32) (mult : 4 * b ≤ 2 ^ h) (off : c < 4 * 2 ^ h + 1) where
  -- The state after `n` values: the next value has the residue of the n-th iterate.
  pub record At (n : ℕ) (lcg : Lcg) : Type 0 where
    pub multiplier : lcg.multiplier ≡ 4 * b + 1
    pub offset : lcg.offset ≡ c
    pub modulus : lcg.modulus ≡ 2 ^ h
    pub max : lcg.max ≡ 2 ^ h
    pub found : lcg.found ≡ n
    pub residue : u32 lcg.value ≡ iterate b c n x % 2 ^ h
    pub low : lcg.value < int_mod
    pub positive : lcg.value < int_half → lcg.value < 2 ^ h
    pub small : (h ≡ 32) ⊎ ((h ≤ 31) × (lcg.value < 2 ^ h))

  not_too_big : (n : ℕ) (lcg : Lcg) → At n lcg → too_big lcg ≡ false
  not_too_big n lcg s = ground (arith, s.positive)

  abbrev moved : Lcg → ℕ
  moved lcg = rem ((lcg.value * lcg.multiplier + lcg.offset) % int_mod) lcg.modulus

  next_residue :
      (n v : ℕ) → v ≡ iterate b c n x % 2 ^ h → affine b c v % 2 ^ h ≡ iterate b c (suc n) x % 2 ^ h
  next_residue n v e =
      ap (λ (y : ℕ). affine b c y % 2 ^ h) e
      ∙ affine-mod b c (2 ^ h) (iterate b c n x) (pow_pos h)
      ∙ ap (λ (y : ℕ). y % 2 ^ h) (sym (iterate-suc b c n x))

  moved_small :
      (n : ℕ) (lcg : Lcg)
      → At n lcg
      → h ≤ 31
      → lcg.value < 2 ^ h
      → moved lcg ≡ iterate b c (suc n) x % 2 ^ h
  moved_small n lcg s le lt =
      let exact : lcg.value ≡ iterate b c n x % 2 ^ h = omega (arith, s.residue, pow_le h le) in
      rw (s.multiplier, s.offset, s.modulus)
        (round_small b c (2 ^ h) lcg.value (pow_pos h) (pow_le h le) lt mult off
          ∙ next_residue n lcg.value exact)

  moved_big :
      (n : ℕ) (lcg : Lcg)
      → At n lcg
      → 2 ^ h ≡ 4294967296
      → (u32 (moved lcg) ≡ iterate b c (suc n) x % 2 ^ h)
        × (moved lcg < int_mod)
        × (moved lcg < int_half → moved lcg < 2 ^ h)
  moved_big n lcg s big =
      let (e, low, high) = round_big b c lcg.value s.low in
      let same : moved lcg ≡ rem ((lcg.value * (4 * b + 1) + c) % int_mod) 4294967296 =
        rw (s.multiplier, s.offset, s.modulus, big) in
      (
        ap (λ (w : ℕ). u32 w) same
            ∙ e
            ∙ ap (λ (m : ℕ). affine b c (u32 lcg.value) % m) (sym big)
            ∙ next_residue n (u32 lcg.value) s.residue,
        rw same low,
        rw (same, big) high,
      )

  emit-At : (n : ℕ) (lcg : Lcg) → At n lcg → At (suc n) (emit lcg).1
  unfolding advance
  emit-At n lcg s = elim s.small [
    | inl big ↦
        let (e, low, high) = moved_big n lcg s (ap (λ (k : ℕ). 2 ^ k) big) in
        record {
          multiplier = s.multiplier;
          offset = s.offset;
          modulus = s.modulus;
          max = s.max;
          found = omega (arith, s.found);
          residue = e;
          low = low;
          positive = high;
          small = inl big;
        }
    | inr (le, lt) ↦
        let e = moved_small n lcg s le lt in
        let below : iterate b c (suc n) x % 2 ^ h < 2 ^ h = mod-lt _ (pow_pos h) in
        record {
          multiplier = s.multiplier;
          offset = s.offset;
          modulus = s.modulus;
          max = s.max;
          found = omega (arith, s.found);
          residue = omega (arith, e, below, pow_le h le);
          low = omega (arith, e, below, pow_le h le);
          positive = λ _. omega (arith, e, below);
          small = inr (le, omega (arith, e, below));
        }
  ]

  -- The addresses of a run from the n-th value on.
  unfoldable pub addresses : ℕ → ℕ → ℕ → List ℕ
  addresses netip_int n zero = []
  addresses netip_int n (suc k) =
      u32 (netip_int + iterate b c n x % 2 ^ h) ∷ addresses netip_int (suc n) k

  next-At : (fuel n : ℕ) (lcg : Lcg) → At n lcg → next (suc fuel) lcg ≡ some (emit lcg)
  unfolding next skip
  next-At fuel n lcg s =
      let here : skip (suc fuel) lcg ≡ some lcg = rw (not_too_big n lcg s) in rw (here, next)

  gen_ips_step :
      (n fuel netip_int : ℕ) (lcg : Lcg)
      → has_next lcg ≡ true
      → gen_ips (suc n) fuel netip_int lcg
        ≡ gen_next (gen_ips n fuel netip_int) netip_int (next fuel lcg)
  unfolding gen_ips
  gen_ips_step n fuel netip_int lcg more = rw more

  pub gen_ips-At :
      (k fuel netip_int n : ℕ) (lcg : Lcg)
      → At n lcg
      → n + k ≡ 2 ^ h
      → gen_ips (suc k) (suc fuel) netip_int lcg ≡ some (addresses netip_int n k)
  unfolding gen_ips addresses has_next
  gen_ips-At zero fuel netip_int n lcg s e = ground (arith, s.found, s.max)
  gen_ips-At (suc k) fuel netip_int n lcg s e =
      gen_ips_step (suc k) (suc fuel) netip_int lcg (ground (arith, s.found, s.max))
      ∙ ap (gen_next (gen_ips (suc k) (suc fuel) netip_int) netip_int) (next-At fuel n lcg s)
      ∙ ap (push (u32 (netip_int + u32 lcg.value)))
          (gen_ips-At k fuel netip_int (suc n) (emit lcg).1 (emit-At n lcg s) (omega arith))
      ∙ ap (λ (r : ℕ). some (u32 (netip_int + r) ∷ addresses netip_int (suc n) k)) s.residue
