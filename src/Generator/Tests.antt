-- ===== src/Generator/Tests.antt =====
-- The generator's theorem at the network 192.0.2.0/29.
use odns_measurement_tools.Base.{ℕ, ◌+◌, ◌≡◌, refl, arith, some, List, [], ◌∷◌, map, u32}
use mathlib.Core.List.{Permᴰ}
use odns_measurement_tools.Generator.Lcg.{init, gen_ips, gen_ips_nets}
use odns_measurement_tools.Generator.Networks.{addresses_of, gen_ips_nets_visits_all}
use odns_measurement_tools.Generator.Cover.{range}
use odns_measurement_tools.Generator.Period.{gen_ips_visits_all}

-- The ceiling to a power of two, where the argument is one.
abbrev exact : ℕ → ℕ
exact stop = stop

abbrev network : ℕ
network = 3221225984

gen_ips_visits_all_example :
    (l : List ℕ) × (gen_ips 9 1 network (init exact 5 3 8) ≡ some l)
    × Permᴰ l (map (λ r. u32 (network + r)) (range 8))
gen_ips_visits_all_example =
    gen_ips_visits_all exact 3 network 5 3 (omega arith) refl (omega arith) (omega arith)

gen_ips_nets_visits_all_example :
    (l : List ℕ) × (gen_ips_nets 9 1 (λ j. init exact 5 3 8) 0 (network ∷ 3405803776 ∷ []) ≡ some l)
    × Permᴰ l (addresses_of 3 (network ∷ 3405803776 ∷ []))
gen_ips_nets_visits_all_example =
    gen_ips_nets_visits_all exact 3 (omega arith) refl (λ i. 5) (λ i. 3) (λ i. omega arith)
      (λ i. omega arith) 0 (network ∷ 3405803776 ∷ [])
