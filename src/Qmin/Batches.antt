-- ===== src/Qmin/Batches.antt =====
-- The input files of the QMIN scanner, scanned in batches into a temporary file
-- (src/qmin/scanner/scanner.go, src/qmin/scanner/temp_store.go).
use odns_measurement_tools.Base.{
  ◌>>=◌, ℕ, ◌+◌, Bool, true, false, Option, none, some, List, [], ◌∷◌, ◌++◌, length, if◌then◌else◌,
}
use odns_measurement_tools.Text.Defs.{Text, codes}
use odns_measurement_tools.Text.Number.{ℤ, pos, negsuc, eq_nat}
use odns_measurement_tools.Qmin.Routines.{InputFileFormat, ParquetQueryResult}

-- What the system makes of the files: the temporary file is created and closed, the input file is
-- opened and read to its end.
pub record Os : Type 0 where
  pub created : Bool
  pub opened : Bool
  pub read_ok : Bool
  pub closed : Bool

-- The temporary file and the error that a scan of a file returns. Rows that are still in the buffer
-- when the file is not closed may be lost.
pub data Scanned : Type 0 where
  stored : List ParquetQueryResult → Scanned
  failed : Option (List ParquetQueryResult) → Scanned

-- How a Read of parquet ends.
pub data ReadEnd : Type 0 where
  going_on eof broken : ReadEnd

abbrev pub is_nil {ℓ} : {A : Type ℓ} → List A → Bool
is_nil [] = true
is_nil (x ∷ xs) = false

-- A line of a text file.
abbrev pub txt_row : Text → InputFileFormat
txt_row t = record { queried_ip = t; resolver_type = codes "unset" }

-- The result of `Close` on the temporary file.
abbrev pub close_store : Os → List ParquetQueryResult → Scanned
close_store os rows = if os.closed then stored rows else failed (some rows)

-- What follows a read, with the rows written so far.
abbrev pub after_read : Os → List ParquetQueryResult → ReadEnd → Option Scanned → Option Scanned
after_read os rows eof rest = some (close_store os rows)
after_read os rows broken rest = some (failed (some rows))
after_read os rows going_on rest = rest

-- `scan n batch` is the n-th call of scanResolvers: the rows that it writes, or `none` where the
-- program ends.
module _ (scan : ℕ → List InputFileFormat → Option (List ParquetQueryResult)) where
  -- The last batch of a text file, if it is not empty.
  abbrev pub last_batch : ℕ → List InputFileFormat → Option (List ParquetQueryResult)
  last_batch n batch = if is_nil batch then some [] else scan n batch

  -- The loop over the lines of a text file: the rows that are written, with the error of the reader
  -- ahead of the last batch.
  unfoldable pub txt_loop :
      Os → ℤ → ℕ → List InputFileFormat → List ParquetQueryResult → List Text → Option Scanned
  txt_loop os size n batch rows [] =
      if os.read_ok
      then (last_batch n batch >>= λ more. some (close_store os (rows ++ more)))
      else some (failed none)
  txt_loop os size n batch rows (t ∷ lines) =
      let full = batch ++ txt_row t ∷ [] in
      if eq_nat (length full) size
      then (scan n full >>= λ more. txt_loop os size (n + 1) [] (rows ++ more) lines)
      else txt_loop os size n full rows lines

  -- `readInputTXTAndScan`: `make` panics for a negative size.
  unfoldable pub read_input_txt_and_scan : Os → ℤ → List Text → Option Scanned
  unfolding txt_loop
  read_input_txt_and_scan os (negsuc m) lines =
      if os.created then if os.opened then none else some (failed none) else some (failed none)
  read_input_txt_and_scan os (pos size) lines =
      if os.created
      then if os.opened then txt_loop os (pos size) 0 [] [] lines else some (failed none)
      else some (failed none)

  -- The loop over the reads of a parquet file, each with its rows and its end. It does not end if
  -- the reads do not.
  unfoldable pub read_loop :
      Os → ℕ → List ParquetQueryResult → List (List InputFileFormat × ReadEnd) → Option Scanned
  read_loop os n rows [] = none
  read_loop os n rows ((batch, end_of_read) ∷ reads) = last_batch n batch >>= λ more.
      after_read os (rows ++ more) end_of_read (read_loop os (n + 1) (rows ++ more) reads)

  -- `readInputAndScan`, whose reads get rows for `batchSize` at a time.
  unfoldable pub read_input_and_scan :
      Os → ℤ → List (List InputFileFormat × ReadEnd) → Option Scanned
  unfolding read_loop
  read_input_and_scan os (negsuc m) reads =
      if os.created then if os.opened then none else some (failed none) else some (failed none)
  read_input_and_scan os (pos size) reads =
      if os.created
      then if os.opened then read_loop os 0 [] reads else some (failed none)
      else some (failed none)
