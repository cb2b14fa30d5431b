-- ===== src/Qmin/ScanFile.antt =====
-- `scanFile` of the QMIN scanner (src/qmin/scanner/scanner.go): an input file, its temporary file and
-- the parquet file.
use odns_measurement_tools.Base.{◌>>=◌, ℕ, Bool, Option, some, List, ◌||◌, if◌then◌else◌}
use odns_measurement_tools.Net.{bytes_eq}
use odns_measurement_tools.Text.Defs.{Text, codes}
use odns_measurement_tools.Text.Number.{ℤ}
use odns_measurement_tools.Qmin.Routines.{InputFileFormat, ParquetQueryResult}
use odns_measurement_tools.Qmin.Batches.{
  Os, ReadEnd, Scanned, read_input_txt_and_scan, read_input_and_scan,
}
use odns_measurement_tools.Qmin.Writer.{Written, write_output_parquet}
use Scanned.{stored, failed}

-- An input file: its extension, its lines if it is a text and its reads if it is a parquet file.
pub record Input : Type 0 where
  pub extension : Text
  pub lines : List Text
  pub reads : List (List InputFileFormat × ReadEnd)

-- How the function ends: `log.Fatal` ends the program. `deleted` is the number of the temporary file
-- that the deferred call removes: the one that the variable holds at the end.
pub data FileEnd : Type 0 where
  fatal : FileEnd
  unsupported : (deleted : ℕ) → FileEnd
  finished : Written ParquetQueryResult → (deleted : ℕ) → FileEnd

-- The system around it: the files of `scanFile`, those of the function that it calls, the calls of
-- the parquet writer, and what the decoder of gob gives back of a temporary file.
pub record Around : Type 0 where
  pub created : Bool
  pub exists : Bool
  pub os : Os
  pub temp_opened : Bool
  pub out_created : Bool
  pub accepts : ℕ → Bool
  pub read_back : List ParquetQueryResult → List ParquetQueryResult × Bool

module _ (scan : ℕ → List InputFileFormat → Option (List ParquetQueryResult)) where
  -- What follows the scan, whose temporary file is the second one.
  unfoldable pub write_out : Around → Scanned → FileEnd
  write_out world (failed rows) = fatal
  write_out world (stored rows) =
      let (decoded, intact) = world.read_back rows in
      FileEnd.finished
        (write_output_parquet world.accepts world.temp_opened world.out_created intact decoded) 1

  unfoldable pub scan_file : Around → ℤ → Input → Option FileEnd
  unfolding write_out
  scan_file world size input =
      if world.created
      then if world.exists
        then if bytes_eq input.extension (codes ".txt")
          then (read_input_txt_and_scan scan world.os size input.lines >>= λ s.
              some (write_out world s))
          else if bytes_eq input.extension (codes ".pq")
              || bytes_eq input.extension (codes ".parquet")
          then (read_input_and_scan scan world.os size input.reads >>= λ s.
              some (write_out world s))
          else some (FileEnd.unsupported 0)
        else some FileEnd.fatal
      else some FileEnd.fatal
