-- ===== src/Qmin/Eval.antt =====
-- The evaluation of one row: evalRow (src/postprocessing/qmin/postproc_scan_result.go).
use odns_measurement_tools.Base.{
  ◌>>=◌, ℕ, ◌-◌, ◌%◌, Bool, true, false, ◌&&◌, Option, none, some, List, [], ◌∷◌, ◌++◌,
  if◌then◌else◌,
}
use odns_measurement_tools.Net.{bytes_eq}
use odns_measurement_tools.Text.Defs.{Text, codes, has}
use odns_measurement_tools.Text.Number.{ℤ, pos, negsuc, itoa}
use odns_measurement_tools.Qmin.Routines.{ParquetQueryResult}
use odns_measurement_tools.Qmin.Result.{TriBool, nil, ScanResultResolver, ScanResolverPair}
use odns_measurement_tools.Qmin.Pattern.{Metadata, Analysis, analyze_pattern}

pub record AsnRecord : Type 0 where
  pub number : ℕ
  pub organization : Text

-- Packages net/netip and maxminddb: reading an address, and a lookup that decodes into a record.
-- The lookup is given the record that is there; its result is `none` for an error.
pub record Databases (A : Type 0) : Type 0 where
  pub parse_addr : Text → Option A
  pub asn : A → AsnRecord → Option AsnRecord
  pub country : A → Text → Option Text

-- `TriBool(i)`
abbrev pub tri_bool : ℤ → TriBool
tri_bool (pos n) = n % 256
tri_bool (negsuc n) = 255 - n % 256

abbrev pub tri_of : Bool → TriBool
tri_of true = 1
tri_of false = 0

abbrev pub known_pattern : List (Text × List Text)
known_pattern =
    (
      codes "26TXT-6NS-5NS-4NS-3NS",
      codes "bind 9.13.4" ∷ codes "bind 9.14.0" ∷ codes "bind 9.18.17" ∷ codes "bind 9.20.27" ∷ [],
    )
    ∷ (codes "26TXT-3A", codes "bind 9.14.7" ∷ codes "bind 9.18.14" ∷ codes "unbound 1.18.1" ∷ [])
    ∷ (
      codes
          "26TXT-25NS-24NS-23NS-22NS-21NS-20NS-19NS-18NS-17NS-16NS-15NS-14NS-13NS-12NS-11NS-10NS-9NS-8NS-7NS-6NS-5NS-4NS-3NS",
      codes "knot 3.0.0" ∷ codes "knot 5.7.0" ∷ codes "knot 6.4.2" ∷ [],
    )
    ∷ (codes "26TXT-25A-22A-19A-16A-13A-10A-7A-6A-5A-4A-3A", codes "pdns_recursor 4.4.3" ∷ [] ∷ [])
    ∷ (
      codes "26TXT-22A-18A-15A-12A-9A-6A-5A-4A-3A",
      codes "pdns_recursor 4.7.0"
          ∷ codes "pdns_recursor 4.8.4"
          ∷ codes "pdns_recursor 5.0.0"
          ∷ codes "pdns_recursor 5.5.0"
          ∷ [],
    )
    ∷ (
      codes "26TXT-22A-18A-14A-10A-7A-4A-3A",
      codes "pdns_recursor 5.0.0" ∷ codes "pdns_recursor 5.5.0" ∷ [],
    )
    ∷ (
      codes "26TXT-26A-22A-18A-14A-10A-7A-4A-3A",
      codes "unbound 1.7.3" ∷ codes "unbound 1.17.1" ∷ codes "unbound 1.26.0" ∷ [],
    )
    ∷ (codes "26TXT-26A-24A-20A-16A-12A-9A-6A-5A-4A-3A", codes "unbound 1.26.0" ∷ [])
    ∷ []

abbrev pub lookup : List (Text × List Text) → Text → Option (List Text)
lookup [] k = none
lookup ((l, v) ∷ entries) k = if bytes_eq l k then some v else lookup entries k

unfoldable pub pattern_match : Bool → Text → List Text
pattern_match false pat = codes "unset" ∷ []
pattern_match true pat = elim (lookup known_pattern pat) [ none ↦ codes "none" ∷ [] | some m ↦ m ]

-- The fields of r1 that are filled in before the row is looked at.
abbrev pub base_result : ParquetQueryResult → AsnRecord → Text → Metadata → ScanResultResolver
base_result row asn country metadata = record {
  protocol = metadata.protocol;
  queried_ip = row.resolver_ip;
  queried_ip_asn = asn.number;
  queried_ip_org = asn.organization;
  queried_ip_country = country;
  resolver_type = row.resolver_type;
  requesting_ips = [];
  qmin_enabled = nil;
  induction_qmin = nil;
  qmin_mode = [];
  nx_optimization = nil;
  errors = [];
  count = 1;
  filename = row.file_name;
}

-- The block for a row with no address of a requesting server.
unfoldable pub eval_none : ParquetQueryResult → ScanResultResolver → ScanResultResolver
eval_none row r1 =
    if row.mode_check && bytes_eq row.response (codes "nxdomain")
    then record r1 { qmin_mode = codes "strict" }
    else if row.nx_check
    then record r1 { nx_optimization = tri_bool row.nx_optimization }
    else record r1 { errors = (row.response, 1) ∷ [] }

abbrev pub pair_of :
    ParquetQueryResult
    → ScanResultResolver
    → AsnRecord
    → Text
    → Metadata
    → Bool
    → Analysis
    → ScanResolverPair
unfolding pattern_match
pair_of row r1 asn country metadata pattern_matching a = record {
  protocol = metadata.protocol;
  queried_ip = r1.queried_ip;
  queried_ip_asn = r1.queried_ip_asn;
  queried_ip_org = r1.queried_ip_org;
  queried_ip_country = r1.queried_ip_country;
  requesting_ip = row.requesting_ip;
  requesting_ip_asn = asn.number;
  requesting_ip_org = asn.organization;
  requesting_ip_country = country;
  resolver_type = row.resolver_type;
  qmin_enabled = a.qmin;
  qmin_pattern = a.qmin_pattern;
  resolver_pattern_match = pattern_match pattern_matching a.qmin_pattern;
  max_min_rfc_9156 = itoa a.max ++ b'-' ∷ itoa a.min;
  count = 1;
}

module _ {A : Type 0} (db : Databases A) (metadata : Metadata) (pattern_matching : Bool) where
  -- The part for the plain test, from the call of analyzePattern on.
  unfoldable pub eval_plain :
      ParquetQueryResult
      → ScanResultResolver
      → AsnRecord
      → Text
      → Option (ScanResultResolver × Option ScanResolverPair)
  unfolding analyze_pattern pattern_match
  eval_plain row r1 asn country = analyze_pattern row.response metadata >>= λ a.
      elim (db.parse_addr row.requesting_ip) [
        | none ↦ some (r1, none)
        | some ip ↦ db.asn ip asn >>= λ asn2. db.country ip country >>= λ country2. some (
          record r1 { qmin_enabled = tri_of a.qmin },
          some (pair_of row r1 asn2 country2 metadata pattern_matching a),
        )
      ]

  -- The part for a row with the address of a requesting server.
  unfoldable pub eval_address :
      ParquetQueryResult
      → ScanResultResolver
      → AsnRecord
      → Text
      → Option (ScanResultResolver × Option ScanResolverPair)
  unfolding eval_plain
  eval_address row r1 asn country =
      if row.mode_check
      then some
          (if has b'|' row.response then record r1 { qmin_mode = codes "relaxed" } else r1, none)
      else if row.nx_check
      then some (record r1 { nx_optimization = tri_bool row.nx_optimization }, none)
      else if row.induced_qmin_check
      then some (record r1 { induction_qmin = tri_of (has b'|' row.induced_res) }, none)
      else eval_plain row r1 asn country

  -- `evalRow`: the result is `none` where the program ends or panics.
  unfoldable pub eval_row :
      ParquetQueryResult → Option (ScanResultResolver × Option ScanResolverPair)
  unfolding eval_none eval_address
  eval_row row = db.parse_addr row.resolver_ip >>= λ ip.
      db.asn ip (record { number = 0; organization = [] }) >>= λ asn.
      db.country ip [] >>= λ country.
      let r1 = base_result row asn country metadata in
      if bytes_eq row.requesting_ip (codes "NONE")
      then some (eval_none row r1, none)
      else eval_address row (record r1 { requesting_ips = row.requesting_ip ∷ [] }) asn country
