-- ===== src/Generator/Lcg.antt =====
-- The linear congruential generator (src/generator/lcg.go) and the loop that probes a network
-- with it (`gen_ips` in src/scanner/tcp/tcp_scanner.go and src/scanner/udp/udp_scanner.go).
use odns_measurement_tools.Base.{
  ℕ, zero, suc, ◌+◌, ◌-◌, ◌*◌, ◌/◌, ◌%◌, Bool, ◌&&◌, Option, none, some, List, [], ◌∷◌, ◌++◌, u32,
  ltb, leb, if◌then◌else◌,
}

-- An `int` is its bit pattern below 2^64; from 2^63 on it is negative.
abbrev pub int_mod : ℕ
int_mod = 18446744073709551616

abbrev pub int_half : ℕ
int_half = 9223372036854775808

pub record Lcg : Type 0 where
  pub value : ℕ
  pub offset : ℕ
  pub multiplier : ℕ
  pub modulus : ℕ
  pub max : ℕ
  pub found : ℕ

-- `draw` and `draw'` are the two results of rand.Intn(stop), and `pow2_ceil` stands for the
-- floating-point expression of the modulus, of package math.
unfoldable pub init : (ℕ → ℕ) → ℕ → ℕ → ℕ → Lcg
init pow2_ceil draw draw' stop = record {
  value = draw;
  offset = (draw' + stop) * 2 + 1;
  multiplier = 4 * (stop / 4) + 1;
  modulus = pow2_ceil stop;
  max = stop;
  found = 0;
}

-- `%` on int: the result has the sign of the dividend.
unfoldable pub rem : ℕ → ℕ → ℕ
rem x m = if ltb x int_half then x % m else (int_mod - (int_mod - x) % m) % int_mod

unfoldable pub advance : Lcg → Lcg
unfolding rem
advance lcg = record lcg {
  value = rem ((lcg.value * lcg.multiplier + lcg.offset) % int_mod) lcg.modulus;
}

abbrev pub too_big : Lcg → Bool
too_big lcg = ltb lcg.value int_half && leb lcg.max lcg.value

-- `for lcg.value >= lcg.max { … }` on fuel.
unfoldable pub skip : ℕ → Lcg → Option Lcg
skip zero lcg = none
skip (suc fuel) lcg = let rest = skip fuel (advance lcg) in if too_big lcg then rest else some lcg

abbrev pub emit : Lcg → ℕ × Lcg
emit lcg = (lcg.value, advance (record lcg { found = lcg.found + 1 }))

-- `Next`: the value, and the state after it.
unfoldable pub next : ℕ → Lcg → Option (ℕ × Lcg)
unfolding skip
next fuel lcg = elim (skip fuel lcg) [ none ↦ none | some l ↦ some (emit l) ]

unfoldable pub has_next : Lcg → Bool
has_next lcg = ltb lcg.found lcg.max

abbrev pub push : ℕ → Option (List ℕ) → Option (List ℕ)
push a none = none
push a (some l) = some (a ∷ l)

abbrev pub gen_next : (Lcg → Option (List ℕ)) → ℕ → Option (ℕ × Lcg) → Option (List ℕ)
gen_next more netip_int none = none
gen_next more netip_int (some (val, lcg)) = push (u32 (netip_int + u32 val)) (more lcg)

-- `gen_ips` while nobody closes `Stop_chan`: the addresses in the order in which they are put on
-- `Ip_chan`.
unfoldable pub gen_ips : ℕ → ℕ → ℕ → Lcg → Option (List ℕ)
gen_ips zero fuel netip_int lcg = none
gen_ips (suc n) fuel netip_int lcg =
    let rest = gen_next (gen_ips n fuel netip_int) netip_int (next fuel lcg) in
    if has_next lcg then rest else some []

abbrev pub then_more : Option (List ℕ) → Option (List ℕ) → Option (List ℕ)
then_more none more = none
then_more (some l) none = none
then_more (some l) (some ls) = some (l ++ ls)

-- `gen_ips_nets` after the shuffle; `lcgs i` is the generator that `Init` makes for the i-th network.
unfoldable pub gen_ips_nets : ℕ → ℕ → (ℕ → Lcg) → ℕ → List ℕ → Option (List ℕ)
gen_ips_nets n fuel lcgs i [] = some []
gen_ips_nets n fuel lcgs i (ip ∷ nets) =
    then_more (gen_ips n fuel ip (lcgs i)) (gen_ips_nets n fuel lcgs (i + 1) nets)
