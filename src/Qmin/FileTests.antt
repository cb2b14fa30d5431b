-- ===== src/Qmin/FileTests.antt =====
-- Text files scanned in batches, and the theorems on files at concrete inputs.
use odns_measurement_tools.Base.{
  ◌>>=◌, ◌==◌, ℕ, ◌≡◌, refl, arith, true, false, Option, none, some, List, [], ◌∷◌, map, All,
}
use odns_measurement_tools.Text.Defs.{Text, codes}
use odns_measurement_tools.Text.Number.{pos, negsuc}
use odns_measurement_tools.Qmin.Routines.{InputFileFormat, ParquetQueryResult}
use odns_measurement_tools.Qmin.Batches.{
  Scanned, ReadEnd, txt_row, txt_loop, read_loop, read_input_txt_and_scan, read_input_and_scan,
}
use odns_measurement_tools.Qmin.Batched.{concat, IsBatch, all_well, scan_all}
use odns_measurement_tools.Qmin.Writer.{WriteError, decode_loop, write_output_parquet}
use odns_measurement_tools.Qmin.Written.{IsPrefix, write_output_parquet-IsPrefix}
use odns_measurement_tools.Qmin.ScanFile.{FileEnd, write_out, scan_file}
use odns_measurement_tools.Qmin.Scans.{txt_input, working, scan_file-batches}

abbrev row : Text → ParquetQueryResult
row ip = record {
  resolver_ip = ip;
  resolver_type = codes "unset";
  requesting_ip = codes "NONE";
  response = codes "timeout";
  induction_ip = [];
  induced_res = [];
  induced_qmin_check = false;
  mode_check = false;
  nx_check = false;
  nx_optimization = negsuc 0;
  file_name = codes "list.txt";
}

-- One row for each resolver of a batch.
abbrev scan : ℕ → List InputFileFormat → Option (List ParquetQueryResult)
scan n batch = some (map (λ (r : InputFileFormat). row r.queried_ip) batch)

abbrev lines : List Text
lines = codes "192.0.2.1" ∷ codes "192.0.2.2" ∷ codes "192.0.2.3" ∷ []

abbrev rows : List ParquetQueryResult
rows = map row lines

scan_file_runs :
    scan_file scan (working (λ n. true) (λ rs. (rs, true))) (pos 2) (txt_input lines)
    ≡ some (FileEnd.finished (record { rows = rows; error = none }) 1)
unfolding scan_file write_out read_input_txt_and_scan txt_loop write_output_parquet decode_loop
scan_file_runs = refl

negative_size : read_input_txt_and_scan scan all_well (negsuc 0) lines ≡ none
unfolding read_input_txt_and_scan
negative_size = refl

broken_read :
    read_input_and_scan scan all_well
      (pos 2)
      ((txt_row (codes "192.0.2.1") ∷ [], ReadEnd.going_on) ∷ ([], ReadEnd.broken) ∷ [])
    ≡ some (Scanned.failed (some (row (codes "192.0.2.1") ∷ [])))
unfolding read_input_and_scan read_loop
broken_read = refl

-- Rows that are in the buffer when a row cannot be decoded are not written.
undecoded :
    write_output_parquet (λ n. true) true true false rows
    ≡ record { rows = []; error = some WriteError.not_decoded }
unfolding write_output_parquet decode_loop
undecoded = refl

write_output_parquet-IsPrefix_example :
    IsPrefix (λ n. n == 0) (write_output_parquet (λ n. n == 0) true true true rows) rows
write_output_parquet-IsPrefix_example =
    write_output_parquet-IsPrefix (λ n. n == 0) true true true rows

scan_file-batches_example :
    (bs : List (List InputFileFormat)) × (concat bs ≡ map txt_row lines)
    × All (IsBatch 2) bs
    × (scan_file scan (working (λ n. true) (λ rs. (rs, true))) (pos 2) (txt_input lines) ≡ (
        scan_all scan 0 bs >>= λ rs.
        some (FileEnd.finished (record { rows = rs; error = none }) 1)))
scan_file-batches_example =
    scan_file-batches scan (λ n. true) (λ rs. (rs, true)) 2 lines (omega arith) (λ n. refl)
      (λ rs. refl)
