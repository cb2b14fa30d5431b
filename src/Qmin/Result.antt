-- ===== src/Qmin/Result.antt =====
-- The results of a QMIN scan per resolver and the loop that merges them
-- (src/postprocessing/qmin/postproc_scan_result.go).
use odns_measurement_tools.Base.{
  ℕ, ◌+◌, Bool, false, not, ◌&&◌, ◌||◌, Option, none, some, List, [], ◌∷◌, ◌++◌, ◌==◌,
  if◌then◌else◌,
}
use odns_measurement_tools.Net.{bytes_eq}
use odns_measurement_tools.Text.Defs.{Text}

-- `TriBool` is an int8, here its bit pattern: 255 stands for -1.
abbrev pub TriBool : Type 0
TriBool = ℕ

abbrev pub nil : TriBool
nil = 255

abbrev pub uncertain : TriBool
uncertain = 2

-- The map of error counts is an association list.
pub record ScanResultResolver : Type 0 where
  pub protocol : Text
  pub queried_ip : Text
  pub queried_ip_asn : ℕ
  pub queried_ip_org : Text
  pub queried_ip_country : Text
  pub resolver_type : Text
  pub requesting_ips : List Text
  pub qmin_enabled : TriBool
  pub induction_qmin : TriBool
  pub qmin_mode : Text
  pub nx_optimization : TriBool
  pub errors : List (Text × ℕ)
  pub count : ℕ
  pub filename : Text

pub record ScanResolverPair : Type 0 where
  pub protocol : Text
  pub queried_ip : Text
  pub queried_ip_asn : ℕ
  pub queried_ip_org : Text
  pub queried_ip_country : Text
  pub requesting_ip : Text
  pub requesting_ip_asn : ℕ
  pub requesting_ip_org : Text
  pub requesting_ip_country : Text
  pub resolver_type : Text
  pub qmin_enabled : Bool
  pub qmin_pattern : Text
  pub resolver_pattern_match : List Text
  pub max_min_rfc_9156 : Text
  pub count : ℕ

abbrev pub contains : List Text → Text → Bool
contains [] s = false
contains (x ∷ xs) s = bytes_eq x s || contains xs s

-- Only the first address of the second result is looked at.
unfoldable pub merge_ips : List Text → List Text → List Text
merge_ips ips [] = ips
merge_ips ips (ip ∷ more) = if contains ips ip then ips else ips ++ ip ∷ []

unfoldable pub merge_tri : TriBool → TriBool → TriBool
merge_tri a b = if a == nil then b else if not (b == nil) && not (a == b) then uncertain else a

abbrev both : Text
both = 98 ∷ 111 ∷ 116 ∷ 104 ∷ []

merge_mode : Text → Text → Text
merge_mode [] b = b
merge_mode a b = if not (bytes_eq b []) && not (bytes_eq a b) then both else a

-- `errors[k] += v`
abbrev add_error : List (Text × ℕ) → Text → ℕ → List (Text × ℕ)
add_error [] k v = (k, v) ∷ []
add_error ((l, w) ∷ errors) k v =
    let rest = add_error errors k v in if bytes_eq l k then (l, w + v) ∷ errors else (l, w) ∷ rest

abbrev merge_errors : List (Text × ℕ) → List (Text × ℕ) → List (Text × ℕ)
merge_errors errors [] = errors
merge_errors errors ((k, v) ∷ more) = merge_errors (add_error errors k v) more

unfoldable pub combine_results : ScanResultResolver → ScanResultResolver → ScanResultResolver
unfolding merge_mode
combine_results r1 r2 = record r1 {
  requesting_ips = merge_ips r1.requesting_ips r2.requesting_ips;
  qmin_enabled = merge_tri r1.qmin_enabled r2.qmin_enabled;
  induction_qmin = merge_tri r1.induction_qmin r2.induction_qmin;
  nx_optimization = merge_tri r1.nx_optimization r2.nx_optimization;
  qmin_mode = merge_mode r1.qmin_mode r2.qmin_mode;
  errors = merge_errors r1.errors r2.errors;
  count = r1.count + 1;
}

unfoldable pub combine_results_pair : ScanResolverPair → ScanResolverPair → ScanResolverPair
combine_results_pair r1 r2 = record r1 { count = r1.count + 1 }

abbrev pub put {ℓ} : {A : Type ℓ} → (Text → Option A) → Text → A → Text → Option A
put m k v j = if bytes_eq j k then some v else m j

-- What the loop over the rows of a file does with the two results of `evalRow`, whose second may
-- be nil.
unfoldable pub store_result :
    Text
    → ScanResultResolver
    → (Text → Option ScanResultResolver)
    → Text
    → Option ScanResultResolver
store_result protocol r1 res1 = elim (res1 (protocol ++ r1.queried_ip)) [
  | none ↦ put res1 (protocol ++ r1.queried_ip) r1
  | some tmp ↦ put res1 (protocol ++ r1.queried_ip) (combine_results tmp r1)
]

-- The entry is looked up without the pattern, and stored under a key with the pattern.
unfoldable pub store_pair :
    Text → ScanResolverPair → (Text → Option ScanResolverPair) → Text → Option ScanResolverPair
store_pair protocol r2 res2 =
    let key = protocol ++ r2.queried_ip ++ r2.requesting_ip in
    elim (res2 key) [
      | none ↦ put res2 (key ++ r2.qmin_pattern) r2
      | some tmp ↦ put res2 (key ++ r2.qmin_pattern) (combine_results_pair tmp r2)
    ]

unfoldable pub process_rows :
    Text
    → List (ScanResultResolver × Option ScanResolverPair)
    → (Text → Option ScanResultResolver) × (Text → Option ScanResolverPair)
    → (Text → Option ScanResultResolver) × (Text → Option ScanResolverPair)
process_rows protocol [] res = res
process_rows protocol ((r1, none) ∷ rows) (res1, res2) =
    process_rows protocol rows (store_result protocol r1 res1, res2)
process_rows protocol ((r1, some r2) ∷ rows) (res1, res2) =
    process_rows protocol rows (store_result protocol r1 res1, store_pair protocol r2 res2)
