-- ===== src/Qmin/Fields.antt =====
-- What one row of a scan contributes (src/postprocessing/qmin/postproc_scan_result.go, evalRow).
use odns_measurement_tools.Base.{
  Ensures, any-Ensures, if-Ensures, ℕ, ◌+◌, ◌≤◌, ◌≡◌, refl, arith, Bool, true, false, not, ◌&&◌,
  Option, none, some, List, [], ◌∷◌, ◌==◌, if◌then◌else◌,
}
use mathlib.Core.Path.{subst}
use odns_measurement_tools.Net.{bytes_eq}
use odns_measurement_tools.Text.Defs.{Text, codes, has}
use odns_measurement_tools.Qmin.Routines.{ParquetQueryResult}
use odns_measurement_tools.Qmin.Result.{nil, ScanResultResolver, ScanResolverPair}
use odns_measurement_tools.Qmin.Pattern.{Metadata, analyze_pattern}
use odns_measurement_tools.Qmin.Eval.{
  AsnRecord, Databases, tri_bool, tri_of, base_result, eval_none, eval_plain, eval_address,
  eval_row, pair_of,
}

abbrev one_if : Bool → ℕ
one_if true = 1
one_if false = 0

abbrev is_empty : {A : Type 0} → List A → Bool
is_empty [] = true
is_empty (x ∷ xs) = false

-- How many of the five results a row has set: minimisation, induction, mode, NXDOMAIN, errors.
abbrev pub results_set : ScanResultResolver → ℕ
results_set r1 =
    one_if (not (r1.qmin_enabled == nil))
    + one_if (not (r1.induction_qmin == nil))
    + one_if (not (is_empty r1.qmin_mode))
    + one_if (not (r1.nx_optimization == nil))
    + one_if (not (is_empty r1.errors))

abbrev pub has_pair : Option ScanResolverPair → Bool
has_pair none = false
has_pair (some r2) = true

abbrev pub IsSingle : ScanResultResolver × Option ScanResolverPair → Type 0
IsSingle (r1, r2) = (results_set r1 ≤ 1) × (has_pair r2 ≡ not (r1.qmin_enabled == nil))

parsed-Ensures :
    {A B : Type 0} (P : B → Type 0) (o : Option A) (x : Option B) (f : A → Option B)
    → Ensures P x
    → ((a : A) → Ensures P (f a))
    → Ensures P (elim o [ none ↦ x | some a ↦ f a ])
parsed-Ensures P none x f h k = h
parsed-Ensures P (some a) x f h k = k a

if-IsSingle :
    (b : Bool) (u v : ScanResultResolver)
    → IsSingle (u, none)
    → IsSingle (v, none)
    → IsSingle (if b then u else v, none)
if-IsSingle true u v h k = h
if-IsSingle false u v h k = k

one_if_le : (b : Bool) → one_if b ≤ 1
one_if_le true = omega arith
one_if_le false = omega arith

nx_le : (n : ℕ) → n ≤ 1 → 0 + 0 + 0 + n + 0 ≤ 1
nx_le n h = omega arith

module _ {A : Type 0} (db : Databases A) (metadata : Metadata) (pattern_matching : Bool)
    (row : ParquetQueryResult) where
  abbrev start : List Text → AsnRecord → Text → ScanResultResolver
  start ips asn country = record (base_result row asn country metadata) { requesting_ips = ips }

  nx-IsSingle :
      (ips : List Text) (asn : AsnRecord) (country : Text)
      → IsSingle
          (record (start ips asn country) { nx_optimization = tri_bool row.nx_optimization }, none)
  nx-IsSingle ips asn country =
      (nx_le _ (one_if_le (not (tri_bool row.nx_optimization == nil))), refl)

  eval_none-IsSingle :
      (asn : AsnRecord) (country : Text)
      → IsSingle (eval_none row (base_result row asn country metadata), none)
  unfolding eval_none
  eval_none-IsSingle asn country =
      if-IsSingle (row.mode_check && bytes_eq row.response (codes "nxdomain")) _ _
        (omega arith, refl)
        (if-IsSingle row.nx_check _ _ (nx-IsSingle [] asn country) (omega arith, refl))

  paired :
      (b : Bool) (ips : List Text) (asn : AsnRecord) (country : Text) (r2 : ScanResolverPair)
      → IsSingle (record (start ips asn country) { qmin_enabled = tri_of b }, some r2)
  paired true ips asn country r2 = (omega arith, refl)
  paired false ips asn country r2 = (omega arith, refl)

  eval_plain-IsSingle :
      (ips : List Text) (asn : AsnRecord) (country : Text)
      → Ensures IsSingle
          (eval_plain db metadata pattern_matching row (start ips asn country) asn country)
  unfolding eval_plain
  eval_plain-IsSingle ips asn country =
      any-Ensures IsSingle (analyze_pattern row.response metadata) _ λ a.
        parsed-Ensures IsSingle (db.parse_addr row.requesting_ip) _ _ (omega arith, refl)
          λ ip. any-Ensures IsSingle (db.asn ip asn) _ λ asn2.
            any-Ensures IsSingle (db.country ip country) _ λ country2.
              paired a.qmin ips asn country
                (pair_of row (start ips asn country) asn2 country2 metadata pattern_matching a)

  induced_set :
      (b : Bool) (ips : List Text) (asn : AsnRecord) (country : Text)
      → IsSingle (record (start ips asn country) { induction_qmin = tri_of b }, none)
  induced_set true ips asn country = (omega arith, refl)
  induced_set false ips asn country = (omega arith, refl)

  eval_address-IsSingle :
      (ips : List Text) (asn : AsnRecord) (country : Text)
      → Ensures IsSingle
          (eval_address db metadata pattern_matching row (start ips asn country) asn country)
  unfolding eval_address
  eval_address-IsSingle ips asn country =
      if-Ensures IsSingle row.mode_check _ _
        (if-IsSingle (has b'|' row.response) _ _ (omega arith, refl) (omega arith, refl))
        (if-Ensures IsSingle row.nx_check _ _ (nx-IsSingle ips asn country) (
          if-Ensures IsSingle row.induced_qmin_check _ _
            (induced_set (has b'|' row.induced_res) ips asn country)
            (eval_plain-IsSingle ips asn country)))

  evaluated : Ensures IsSingle (eval_row db metadata pattern_matching row)
  unfolding eval_row
  evaluated = any-Ensures IsSingle (db.parse_addr row.resolver_ip) _ λ ip.
      any-Ensures IsSingle (db.asn ip (record { number = 0; organization = [] })) _ λ asn.
        any-Ensures IsSingle (db.country ip []) _ λ country.
          if-Ensures IsSingle (bytes_eq row.requesting_ip (codes "NONE")) _ _
            (eval_none-IsSingle asn country)
            (eval_address-IsSingle (row.requesting_ip ∷ []) asn country)

  -- A row that is evaluated sets at most one of the results on minimisation, induction, mode,
  -- NXDOMAIN and errors, and there is a pair exactly if it sets the one on minimisation.
  pub eval_row-IsSingle :
      (r1 : ScanResultResolver) (r2 : Option ScanResolverPair)
      → eval_row db metadata pattern_matching row ≡ some (r1, r2)
      → IsSingle (r1, r2)
  eval_row-IsSingle r1 r2 e = subst (Ensures IsSingle) e evaluated
