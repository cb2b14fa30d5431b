-- ===== src/Qmin/Tests.antt =====
-- The theorems on merged results at two resolvers with three rows.
use odns_measurement_tools.Base.{◌≡◌, refl, true, none, some, Option, List, [], ◌∷◌, ◌++◌}
use mathlib.Core.List.{Permᴰ}
use odns_measurement_tools.Text.Defs.{Text}
use odns_measurement_tools.Qmin.Result.{
  TriBool, nil, ScanResultResolver, ScanResolverPair, store_pair,
}
use odns_measurement_tools.Qmin.Order.{combine_all, observed, combine_all-order}
use odns_measurement_tools.Qmin.Pairs.{short_key, store_pair-twice}

abbrev udp : Text
udp = 117 ∷ 100 ∷ 112 ∷ []

abbrev one : Text
one = 49 ∷ []

abbrev two : Text
two = 50 ∷ []

abbrev row : Text → TriBool → ScanResultResolver
row ip qmin = record {
  protocol = udp;
  queried_ip = ip;
  queried_ip_asn = 64500;
  queried_ip_org = [];
  queried_ip_country = [];
  resolver_type = [];
  requesting_ips = ip ∷ [];
  qmin_enabled = qmin;
  induction_qmin = nil;
  qmin_mode = [];
  nx_optimization = nil;
  errors = [];
  count = 1;
  filename = [];
}

abbrev pair : ScanResolverPair
pair = record {
  protocol = udp;
  queried_ip = one;
  queried_ip_asn = 64500;
  queried_ip_org = [];
  queried_ip_country = [];
  requesting_ip = two;
  requesting_ip_asn = 64500;
  requesting_ip_org = [];
  requesting_ip_country = [];
  resolver_type = [];
  qmin_enabled = true;
  qmin_pattern = 51 ∷ 65 ∷ [];
  resolver_pattern_match = [];
  max_min_rfc_9156 = [];
  count = 1;
}

abbrev rows : List (ScanResultResolver × Option ScanResolverPair)
rows = (row one 1, some pair) ∷ (row two nil, none) ∷ (row one 0, none) ∷ []

combine_all-order_example :
    observed (combine_all (row one nil) (row one 1 ∷ row one 0 ∷ []))
    ≡ observed (combine_all (row one nil) (row one 0 ∷ row one 1 ∷ []))
combine_all-order_example =
    combine_all-order (row one nil) (row one 1 ∷ row one 0 ∷ []) (row one 0 ∷ row one 1 ∷ [])
      (Permᴰ.swap refl refl)

store_pair-twice_example :
    store_pair udp pair (store_pair udp pair (λ k. none)) (short_key udp pair ++ pair.qmin_pattern)
    ≡ some pair
store_pair-twice_example = store_pair-twice udp pair 51 (65 ∷ []) refl (λ k. none) refl
