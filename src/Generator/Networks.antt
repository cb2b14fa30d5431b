-- ===== src/Generator/Networks.antt =====
-- The probes of several networks of one size (src/scanner/udp/udp_scanner.go, `gen_ips_nets`).
use odns_measurement_tools.Base.{
  ℕ, suc, ◌+◌, ◌^◌, ◌≤◌, ◌<◌, ◌≡◌, refl, some, List, [], ◌∷◌, ◌++◌, map, u32, Permᴰ-append,
}
use mathlib.Core.List.{Permᴰ}
use odns_measurement_tools.Generator.Lcg.{init, gen_ips_nets}
use odns_measurement_tools.Generator.Cover.{range}
use odns_measurement_tools.Generator.Period.{gen_ips_visits_all}

-- The addresses of the networks in order.
abbrev pub addresses_of : ℕ → List ℕ → List ℕ
addresses_of h [] = []
addresses_of h (ip ∷ nets) = map (λ r. u32 (ip + r)) (range (2 ^ h)) ++ addresses_of h nets

module _ (pow2_ceil : ℕ → ℕ) (h : ℕ) (h_le : h ≤ 32) (ceil : pow2_ceil (2 ^ h) ≡ 2 ^ h)
    (draw draw' : ℕ → ℕ) (small : (i : ℕ) → draw i < 2 ^ h)
    (small' : (i : ℕ) → draw' i < 2 ^ h) where
  -- For any networks of 2^h addresses and whatever random numbers are drawn for each, the loop over
  -- the networks ends, and its addresses are a permutation of the addresses of all networks.
  pub gen_ips_nets_visits_all :
      (i : ℕ) (nets : List ℕ)
      → (l : List ℕ) × (gen_ips_nets
            (suc (2 ^ h))
            1
            (λ j. init pow2_ceil (draw j) (draw' j) (2 ^ h))
            i
            nets
          ≡ some l)
        × Permᴰ l (addresses_of h nets)
  unfolding gen_ips_nets
  gen_ips_nets_visits_all i [] = ([], refl, Permᴰ.nil)
  gen_ips_nets_visits_all i (ip ∷ nets) =
      let (l, e, p) =
        gen_ips_visits_all pow2_ceil h ip (draw i) (draw' i) h_le ceil (small i) (small' i) in
      let (ls, es, ps) = gen_ips_nets_visits_all (i + 1) nets in
      (l ++ ls, rw (e, es), Permᴰ-append p ps)
