-- ===== src/Qmin/StartTests.antt =====
-- A start of the QMIN scanner on a directory and a file that is missing.
use odns_measurement_tools.Base.{
  ℕ, suc, ◌≡◌, refl, Bool, true, false, Option, some, List, [], ◌∷◌, ◌++◌,
}
use odns_measurement_tools.Text.Defs.{Text, codes, split}
use odns_measurement_tools.Text.Number.{pos}
use odns_measurement_tools.Qmin.Routines.{InputFileFormat, ParquetQueryResult}
use odns_measurement_tools.Qmin.Batches.{txt_loop, read_input_txt_and_scan}
use odns_measurement_tools.Qmin.Writer.{decode_loop, write_output_parquet}
use odns_measurement_tools.Qmin.ScanFile.{Input, write_out, scan_file}
use odns_measurement_tools.Qmin.Scans.{txt_input, working}
use odns_measurement_tools.Qmin.Starting.{
  Argument, StartCfg, StartWorld, Event, scan_into, scan_entries, scan_argument, scan_arguments,
  finish_one, scan_one, start_scan,
}
use odns_measurement_tools.Qmin.Started.{
  handled, has_metadata, files_of, wanted, IsStarted, start_scan-IsStarted,
}

abbrev cfg : StartCfg
cfg = record {
  output_dir = codes "out/";
  batch_size = pos 2;
  timeout = pos 1;
  retry_timeout = pos 2;
  protocol = codes "udp";
  label_depth = pos 3;
  rounds = pos 1;
  base_url = codes "x.org.";
}

-- The second entry of the directory has an extension that is not supported.
abbrev input : ℕ → ℕ → Input
input i (suc (suc j)) = record { extension = codes ".csv"; lines = []; reads = [] }
input i j = txt_input (codes "192.0.2.1" ∷ [])

abbrev world : Bool → StartWorld
world metadata_written = record {
  output_dir_exists = true;
  makes_working_dir = true;
  stamp = codes "now";
  join = λ dir name. dir ++ codes "/" ++ name;
  around = λ i j. working (λ n. true) (λ rs. (rs, true));
  input = input;
  metadata_written = metadata_written;
  start = 5;
  fin = 8;
  elapsed = 3;
}

abbrev scan : ℕ → ℕ → ℕ → List InputFileFormat → Option (List ParquetQueryResult)
scan i j n batch = some []

abbrev args : List (Text × Argument)
args =
    (codes "lost", Argument.missing)
    ∷ (
      codes "in",
      Argument.directory (
          some (
            record { name = codes "a.txt"; is_dir = false }
            ∷ record { name = codes "sub"; is_dir = true }
            ∷ record { name = codes "a.b.csv"; is_dir = false }
            ∷ [])),
    )
    ∷ []

-- Both files have the same directory for their results.
same_directory :
    handled ((start_scan cfg (world true) scan args false).0)
    ≡ (codes "in/a.txt", codes "out/now/a") ∷ (codes "in/a.b.csv", codes "out/now/a") ∷ []
unfolding start_scan scan_arguments scan_argument scan_entries scan_into scan_file write_out
    read_input_txt_and_scan txt_loop write_output_parquet decode_loop split
same_directory = refl

metadata_at_the_end : has_metadata ((start_scan cfg (world true) scan args false).0) ≡ true
unfolding start_scan scan_arguments scan_argument scan_entries scan_into scan_file write_out
    read_input_txt_and_scan txt_loop write_output_parquet decode_loop split
metadata_at_the_end = refl

no_metadata : (start_scan cfg (world false) scan args false).1 ≡ false
unfolding start_scan scan_arguments scan_argument scan_entries scan_into scan_file write_out
    read_input_txt_and_scan txt_loop write_output_parquet decode_loop split
no_metadata = refl

-- One resolver, and the panic without one.
single_resolver :
    handled ((start_scan cfg (world true) scan ((codes "192.0.2.1", Argument.missing) ∷ []) true).0)
    ≡ (codes "192.0.2.1", codes "out/now") ∷ []
unfolding start_scan scan_one finish_one write_out write_output_parquet decode_loop
single_resolver = refl

no_resolver : start_scan cfg (world true) scan [] true ≡ (Event.made (codes "out/now") ∷ [], false)
unfolding start_scan scan_one
no_resolver = refl

start_scan-IsStarted_example :
    IsStarted
      (wanted cfg (world true) scan (codes "out/now") (files_of (world true).join args))
      (start_scan cfg (world true) scan args false)
start_scan-IsStarted_example = start_scan-IsStarted cfg (world true) scan args
