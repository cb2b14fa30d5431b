-- ===== src/Qmin/Pairs.antt =====
-- The pairs of a resolver and a requesting address (src/postprocessing/qmin/postproc_scan_result.go,
-- `processFile`).
use odns_measurement_tools.Base.{ℕ, ◌≡◌, Option, none, some, ◌∷◌, ◌++◌}
use odns_measurement_tools.Text.Equality.{bytes_eq-longer, bytes_eq_self}
use odns_measurement_tools.Text.Defs.{Text}
use odns_measurement_tools.Qmin.Result.{ScanResolverPair, put, store_pair}

abbrev pub short_key : Text → ScanResolverPair → Text
short_key protocol p = protocol ++ p.queried_ip ++ p.requesting_ip

module _ (protocol : Text) (p : ScanResolverPair) (x : ℕ) (more : Text)
    (pattern : p.qmin_pattern ≡ x ∷ more) where
  store_pair-fresh :
      (res2 : Text → Option ScanResolverPair)
      → res2 (short_key protocol p) ≡ none
      → store_pair protocol p res2 ≡ put res2 (short_key protocol p ++ p.qmin_pattern) p
  unfolding store_pair
  store_pair-fresh res2 h = rw (h, store_pair)

  still_none :
      (res2 : Text → Option ScanResolverPair)
      → res2 (short_key protocol p) ≡ none
      → store_pair protocol p res2 (short_key protocol p) ≡ none
  still_none res2 h =
      rw (store_pair-fresh res2 h, pattern, bytes_eq-longer (short_key protocol p) x more) h

  -- A pair with a non-empty pattern that is seen twice, where no entry has its key without the
  -- pattern, is replaced by itself instead of counted: the entry is the second row's as it was
  -- evaluated.
  pub store_pair-twice :
      (res2 : Text → Option ScanResolverPair)
      → res2 (short_key protocol p) ≡ none
      → store_pair protocol p (store_pair protocol p res2) (short_key protocol p ++ p.qmin_pattern)
        ≡ some p
  store_pair-twice res2 h = rw (
    store_pair-fresh (store_pair protocol p res2) (still_none res2 h),
    bytes_eq_self (short_key protocol p ++ p.qmin_pattern),
  )
