-- ===== src/Qmin/Scans.antt =====
-- From the lines of a text file to the rows of the parquet file (src/qmin/scanner/scanner.go,
-- src/qmin/scanner/parquet_writer.go).
use odns_measurement_tools.Base.{
  ◌>>=◌, ℕ, ◌≡◌, refl, ap, ◌∙◌, ◌<◌, Bool, true, Option, none, some, List, [], map, All,
}
use odns_measurement_tools.Text.Defs.{Text, codes}
use odns_measurement_tools.Text.Number.{pos}
use odns_measurement_tools.Qmin.Routines.{InputFileFormat, ParquetQueryResult}
use odns_measurement_tools.Qmin.Batches.{Scanned, txt_row}
use odns_measurement_tools.Qmin.Batched.{
  concat, IsBatch, all_well, scan_all, read_input_txt-batches,
}
use odns_measurement_tools.Qmin.Written.{write_output_parquet-all}
use odns_measurement_tools.Qmin.Writer.{write_output_parquet}
use odns_measurement_tools.Qmin.ScanFile.{Input, Around, FileEnd, write_out, scan_file}
use Scanned.{stored}
use FileEnd.{finished}

abbrev pub txt_input : List Text → Input
txt_input lines = record { extension = codes ".txt"; lines = lines; reads = [] }

-- All files can be opened, created, read and closed.
abbrev pub working :
    (ℕ → Bool) → (List ParquetQueryResult → List ParquetQueryResult × Bool) → Around
working accepts read_back = record {
  created = true;
  exists = true;
  os = all_well;
  temp_opened = true;
  out_created = true;
  accepts = accepts;
  read_back = read_back;
}

module _ (scan : ℕ → List InputFileFormat → Option (List ParquetQueryResult)) (accepts : ℕ → Bool)
    (read_back : List ParquetQueryResult → List ParquetQueryResult × Bool) where
  write_out-stored :
      (rows : List ParquetQueryResult)
      → ((n : ℕ) → accepts n ≡ true)
      → read_back rows ≡ (rows, true)
      → write_out scan (working accepts read_back) (stored rows)
        ≡ finished (record { rows = rows; error = none }) 1
  unfolding write_out
  write_out-stored rows accepted intact =
      ap
        (λ (d : List ParquetQueryResult × Bool).
          finished (write_output_parquet accepts true true d.1 d.0) 1)
        intact
      ∙ ap (λ w. finished w 1) (write_output_parquet-all accepts accepted rows)

  written :
      (o : Option (List ParquetQueryResult))
      → ((n : ℕ) → accepts n ≡ true)
      → ((rows : List ParquetQueryResult) → read_back rows ≡ (rows, true))
      → ((o >>= λ rows. some (stored rows)) >>= λ s.
          some (write_out scan (working accepts read_back) s))
        ≡ (o >>= λ rows. some (finished (record { rows = rows; error = none }) 1))
  written none accepted intact = refl
  written (some rows) accepted intact = ap some (write_out-stored rows accepted (intact rows))

  -- If the files can be opened, created, read and closed, all writes succeed, what is read from the
  -- temporary file is what was stored there and the size of a batch is positive, then the scan of a
  -- text file scans batches that are neither empty nor longer than the size and that together are
  -- the lines in their order. The parquet file gets the rows of the batches in this order, without an
  -- error, or the program ends in the scan of a batch.
  pub scan_file-batches :
      (size : ℕ) (lines : List Text)
      → 0 < size
      → ((n : ℕ) → accepts n ≡ true)
      → ((rows : List ParquetQueryResult) → read_back rows ≡ (rows, true))
      → (bs : List (List InputFileFormat)) × (concat bs ≡ map txt_row lines)
        × All (IsBatch size) bs
        × (scan_file scan (working accepts read_back) (pos size) (txt_input lines) ≡ (
            scan_all scan 0 bs >>= λ rows.
            some (finished (record { rows = rows; error = none }) 1)))
  unfolding scan_file
  scan_file-batches size lines h accepted intact =
      let (bs, whole, sized, same) = read_input_txt-batches scan size lines h in
      (
        bs,
        whole,
        sized,
        ap (λ (o : Option Scanned). o >>= λ s. some (write_out scan (working accepts read_back) s))
              same
            ∙ written (scan_all scan 0 bs) accepted intact,
      )
