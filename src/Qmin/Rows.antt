-- ===== src/Qmin/Rows.antt =====
-- The map of results after the loop over the rows
-- (src/postprocessing/qmin/postproc_scan_result.go, `processFile`).
use odns_measurement_tools.Base.{
  ◌≡◌, refl, ap, ◌∙◌, inl, inr, false, Option, none, some, List, [], ◌∷◌, ◌++◌, Bool-cases,
  Option-cases, if◌then◌else◌,
}
use odns_measurement_tools.Net.{bytes_eq}
use odns_measurement_tools.Text.Defs.{Text}
use odns_measurement_tools.Qmin.Result.{
  ScanResultResolver, ScanResolverPair, combine_results, store_result, store_pair, process_rows,
}
use odns_measurement_tools.Text.Equality.{bytes_eq-append, bytes_eq_sound, bytes_eq_self}

-- The rows of one address merged in order, onto what is there.
pub merged : Option ScanResultResolver → List ScanResultResolver → Option ScanResultResolver
merged o [] = o
merged none (r ∷ rows) = merged (some r) rows
merged (some tmp) (r ∷ rows) = merged (some (combine_results tmp r)) rows

-- The first results of the rows whose address is `ip`.
abbrev pub rows_of :
    Text → List (ScanResultResolver × Option ScanResolverPair) → List ScanResultResolver
rows_of ip [] = []
rows_of ip ((r1, r2) ∷ rows) =
    let rest = rows_of ip rows in if bytes_eq ip r1.queried_ip then r1 ∷ rest else rest

store_result-other :
    (protocol ip : Text) (r : ScanResultResolver) (res1 : Text → Option ScanResultResolver)
    → bytes_eq ip r.queried_ip ≡ false
    → store_result protocol r res1 (protocol ++ ip) ≡ res1 (protocol ++ ip)
unfolding store_result
store_result-other protocol ip r res1 h =
    let apart = bytes_eq-append protocol ip r.queried_ip ∙ h in
    elim (Option-cases (res1 (protocol ++ r.queried_ip))) [
      | inl e ↦ rw (e, store_result, apart)
      | inr (tmp, e) ↦ rw (e, store_result, apart)
    ]

store_result-same :
    (protocol : Text) (r : ScanResultResolver) (res1 : Text → Option ScanResultResolver)
    → store_result protocol r res1 (protocol ++ r.queried_ip)
      ≡ merged (res1 (protocol ++ r.queried_ip)) (r ∷ [])
unfolding store_result merged
store_result-same protocol r res1 =
    let same = bytes_eq_self (protocol ++ r.queried_ip) in
    elim (Option-cases (res1 (protocol ++ r.queried_ip))) [
      | inl e ↦ rw (e, store_result, merged, same)
      | inr (tmp, e) ↦ rw (e, store_result, merged, same)
    ]

merged-cons :
    (o : Option ScanResultResolver) (r : ScanResultResolver) (rows : List ScanResultResolver)
    → merged (merged o (r ∷ [])) rows ≡ merged o (r ∷ rows)
unfolding merged
merged-cons none r rows = refl
merged-cons (some tmp) r rows = refl

store_result-rows :
    (protocol ip : Text) (r : ScanResultResolver) (more : List ScanResultResolver)
    (res1 : Text → Option ScanResultResolver)
    → merged (store_result protocol r res1 (protocol ++ ip)) more
      ≡ merged (res1 (protocol ++ ip)) (if bytes_eq ip r.queried_ip then r ∷ more else more)
store_result-rows protocol ip r more res1 = elim (Bool-cases (bytes_eq ip r.queried_ip)) [
  | inr other ↦ rw (store_result-other protocol ip r res1 other, other)
  | inl same ↦
      rw (same, bytes_eq_sound ip r.queried_ip same)
        (ap (λ o. merged o more) (store_result-same protocol r res1)
          ∙ merged-cons (res1 (protocol ++ r.queried_ip)) r more)
]

-- After the loop over the rows of a file, the map holds for each address the results of its rows,
-- merged in their order onto what the map held before, whatever the rows of other addresses are.
pub process_rows-merged :
    (protocol ip : Text) (rows : List (ScanResultResolver × Option ScanResolverPair))
    (res1 : Text → Option ScanResultResolver) (res2 : Text → Option ScanResolverPair)
    → (process_rows protocol rows (res1, res2)).0 (protocol ++ ip)
      ≡ merged (res1 (protocol ++ ip)) (rows_of ip rows)
unfolding process_rows merged
process_rows-merged protocol ip [] res1 res2 = refl
process_rows-merged protocol ip ((r1, none) ∷ rows) res1 res2 =
    process_rows-merged protocol ip rows (store_result protocol r1 res1) res2
    ∙ store_result-rows protocol ip r1 (rows_of ip rows) res1
process_rows-merged protocol ip ((r1, some r2) ∷ rows) res1 res2 =
    process_rows-merged protocol ip rows (store_result protocol r1 res1)
      (store_pair protocol r2 res2)
    ∙ store_result-rows protocol ip r1 (rows_of ip rows) res1
