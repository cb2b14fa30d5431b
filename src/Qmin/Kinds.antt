-- ===== src/Qmin/Kinds.antt =====
-- The tests that the scan of a text file makes, batch by batch (src/qmin/scanner/scanner.go).
use odns_measurement_tools.Base.{
  Ensures, bind-Ensures, ℕ, zero, suc, ◌+◌, ◌<◌, ◌≡◌, refl, sym, ap, Bool, true, false, Option,
  none, List, [], ◌∷◌, ◌++◌, map, if◌then◌else◌, Permᴰ-reflexive, Permᴰ-append, Permᴰ-append_middle,
}
use mathlib.Core.Path.{subst}
use mathlib.Core.List.{Permᴰ}
use odns_measurement_tools.Text.Defs.{Text}
use odns_measurement_tools.Text.Number.{pos}
use odns_measurement_tools.Qmin.Query.{ScanCfg}
use odns_measurement_tools.Qmin.Asked.{address_in}
use odns_measurement_tools.Qmin.Routines.{
  InputFileFormat, ParquetQueryResult, World, is_skipped, scan_resolvers,
}
use odns_measurement_tools.Qmin.Rounds.{
  Kind, kind, four_tests, expected, times, rounds-Rows, scan_resolvers-Rows,
}
use odns_measurement_tools.Qmin.Batches.{txt_row}
use odns_measurement_tools.Qmin.Batched.{concat, scan_all}
use odns_measurement_tools.Qmin.ScanFile.{FileEnd, scan_file}
use odns_measurement_tools.Qmin.Scans.{txt_input, working, scan_file-batches}
use FileEnd.{finished}

expected-append :
    (cfg : ScanCfg) (xs ys : List InputFileFormat)
    → expected cfg (xs ++ ys) ≡ expected cfg xs ++ expected cfg ys
expected-append cfg [] ys = refl
expected-append cfg (x ∷ xs) ys = under (is_skipped x) (expected-append cfg xs ys)
  where
    tests : List Kind
    tests = four_tests (address_in cfg x.queried_ip) x.resolver_type

    under :
        (b : Bool)
        → expected cfg (xs ++ ys) ≡ expected cfg xs ++ expected cfg ys
        → (if b then expected cfg (xs ++ ys) else tests ++ expected cfg (xs ++ ys))
          ≡ (if b then expected cfg xs else tests ++ expected cfg xs) ++ expected cfg ys
    under true ih = ih
    under false ih = ap (λ ks. tests ++ ks) ih

-- Rounds over one list and rounds over another one hold what rounds over both hold.
times-append : (n : ℕ) (js ks : List Kind) → Permᴰ (times n js ++ times n ks) (times n (js ++ ks))
times-append zero js ks = Permᴰ.nil
times-append (suc n) js ks =
    Permᴰ.trans (Permᴰ-append_middle (times n js) js (times n ks) ks)
      (Permᴰ-append (times-append n js ks) (Permᴰ-reflexive (js ++ ks)))

times-nil : (n : ℕ) → times n [] ≡ []
times-nil zero = refl
times-nil (suc n) = ap (λ ks. ks ++ []) (times-nil n)

-- The kinds for the batches, one after the other.
abbrev batch_kinds : ScanCfg → ℕ → List (List InputFileFormat) → List Kind
batch_kinds cfg rounds [] = []
batch_kinds cfg rounds (b ∷ bs) = times rounds (expected cfg b) ++ batch_kinds cfg rounds bs

batch_kinds-whole :
    (cfg : ScanCfg) (rounds : ℕ) (bs : List (List InputFileFormat))
    → Permᴰ (batch_kinds cfg rounds bs) (times rounds (expected cfg (concat bs)))
batch_kinds-whole cfg rounds [] = subst (Permᴰ []) (sym (times-nil rounds)) Permᴰ.nil
batch_kinds-whole cfg rounds (b ∷ bs) =
    subst
      (λ ks. Permᴰ (times rounds (expected cfg b) ++ batch_kinds cfg rounds bs) (times rounds ks))
      (sym (expected-append cfg b (concat bs)))
      (Permᴰ.trans
        (Permᴰ-append (Permᴰ-reflexive (times rounds (expected cfg b)))
          (batch_kinds-whole cfg rounds bs))
        (times-append rounds (expected cfg b) (expected cfg (concat bs))))

module _ (cfg : ScanCfg) (timeout retry_timeout depth : ℕ) (file_name : Text) (rounds : ℕ)
    (w : ℕ → ℕ → ℕ → ℕ → World) where
  -- The scan of a batch, with the world in which it takes place.
  abbrev pub scan_batch : ℕ → List InputFileFormat → Option (List ParquetQueryResult)
  scan_batch n = scan_resolvers cfg timeout retry_timeout depth file_name rounds (w n)

  scan_all-kinds :
      (n : ℕ) (bs : List (List InputFileFormat))
      → Ensures (λ rows. map kind rows ≡ batch_kinds cfg rounds bs) (scan_all scan_batch n bs)
  scan_all-kinds n [] = refl
  scan_all-kinds n (b ∷ bs) =
      rounds-Rows cfg timeout retry_timeout depth file_name (times rounds (expected cfg b))
        (batch_kinds cfg rounds bs) (scan_batch n b) (scan_all scan_batch (n + 1) bs)
        (scan_resolvers-Rows cfg timeout retry_timeout depth file_name rounds (w n) b)
        (scan_all-kinds (n + 1) bs)

  -- The file is written without an error, and its rows are those of all tests of the lines.
  abbrev pub IsTested : List Text → FileEnd → Type 0
  IsTested lines end =
      (rows : List ParquetQueryResult) × (end ≡ finished (record { rows = rows; error = none }) 1)
      × Permᴰ (map kind rows) (times rounds (expected cfg (map txt_row lines)))

  -- If the files can be opened, created, read and closed, all writes succeed, what is read from the
  -- temporary file is what was stored there and the size of a batch is positive, then the scan of a
  -- text file writes, whatever the size, a parquet file without an error, or the program ends in the
  -- scan of a batch. The addresses, types and marks of its rows, in some order, are those of four
  -- rows for each line that is not empty, once for each round: the plain test, the induction, the
  -- mode and the NXDOMAIN test, each with the address in the line, behind https:// for DNS over
  -- HTTPS, and the type "unset".
  pub scan_file-IsTested :
      (accepts : ℕ → Bool) (read_back : List ParquetQueryResult → List ParquetQueryResult × Bool)
      (size : ℕ) (lines : List Text)
      → 0 < size
      → ((n : ℕ) → accepts n ≡ true)
      → ((rows : List ParquetQueryResult) → read_back rows ≡ (rows, true))
      → Ensures
          (IsTested lines)
          (scan_file scan_batch (working accepts read_back) (pos size) (txt_input lines))
  scan_file-IsTested accepts read_back size lines h accepted intact =
      let (bs, whole, sized, same) =
        scan_file-batches scan_batch accepts read_back size lines h accepted intact in
      subst (Ensures (IsTested lines)) (sym same) (
        bind-Ensures _ (λ rows. map kind rows ≡ batch_kinds cfg rounds bs) _ _ (scan_all-kinds 0 bs)
          λ rows e. (
            rows,
            refl,
            subst (λ ks. Permᴰ ks (times rounds (expected cfg (map txt_row lines)))) (sym e)
                (subst (λ all. Permᴰ (batch_kinds cfg rounds bs) (times rounds (expected cfg all)))
                  whole (batch_kinds-whole cfg rounds bs)),
          ))
