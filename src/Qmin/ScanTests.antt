-- ===== src/Qmin/ScanTests.antt =====
-- A round of the QMIN scanner over one resolver that does not answer and one row without an address,
-- and the scan of a text file of two such lines.
use odns_measurement_tools.Base.{
  Ensures, ◌≡◌, refl, arith, Bool, true, false, Option, none, some, List, [], ◌∷◌, map,
}
use odns_measurement_tools.Text.Defs.{Text, codes, contains}
use odns_measurement_tools.Text.Number.{pos, negsuc}
use odns_measurement_tools.Qmin.Query.{
  ip4, ScanCfg, Network, error, target_to_hex, domain_assembly, eval_comm_error, dns_query,
}
use odns_measurement_tools.Qmin.Routines.{
  InputFileFormat, ParquetQueryResult, World, dns_query_routine, nx_opti_routine, routines, round,
  scan_resolvers,
}
use odns_measurement_tools.Qmin.Rounds.{kind, four_tests, scan_resolvers-kinds}
use odns_measurement_tools.Qmin.Batches.{txt_loop, read_input_txt_and_scan}
use odns_measurement_tools.Qmin.Writer.{decode_loop, write_output_parquet}
use odns_measurement_tools.Qmin.ScanFile.{FileEnd, write_out, scan_file}
use odns_measurement_tools.Qmin.Scans.{txt_input, working}
use odns_measurement_tools.Qmin.Kinds.{scan_batch, IsTested, scan_file-IsTested}

abbrev cfg : ScanCfg
cfg = record {
  protocol = codes "udp";
  base_domain = codes "x.org.";
  parse_addr = λ t. ip4 (1 ∷ 2 ∷ 3 ∷ 4 ∷ []);
  crc = λ t. 7;
}

abbrev silent : Network
silent = record {
  exchange = λ d s t. error (codes "i/o timeout");
  post = λ d s t. (0, error (codes "i/o timeout"));
  get = λ d s t. (0, error (codes "i/o timeout"));
}

abbrev world : World
world = record { network = λ n. silent; draw = λ n. n }

abbrev resolvers : List InputFileFormat
resolvers =
    record { queried_ip = codes "1.2.3.4"; resolver_type = codes "Forwarder" }
    ∷ record { queried_ip = []; resolver_type = codes "Resolver" }
    ∷ []

abbrev row : Text → Bool → Bool → Bool → ParquetQueryResult
row type induced mode nx = record {
  resolver_ip = codes "1.2.3.4";
  resolver_type = type;
  requesting_ip = codes "NONE";
  response = codes "timeout";
  induction_ip = [];
  induced_res = [];
  induced_qmin_check = induced;
  mode_check = mode;
  nx_check = nx;
  nx_optimization = negsuc 0;
  file_name = codes "f";
}

abbrev rows : Text → List ParquetQueryResult
rows type =
    row type false false false
    ∷ row type true false false
    ∷ row type false true false
    ∷ row type false false true
    ∷ []

-- The kinds of the rows that one round writes.
one_round : map kind (rows (codes "Forwarder")) ≡ four_tests (codes "1.2.3.4") (codes "Forwarder")
unfolding scan_resolvers round routines dns_query_routine nx_opti_routine domain_assembly
    target_to_hex dns_query eval_comm_error contains
one_round =
    scan_resolvers-kinds cfg 1 2 3 (codes "f") 1 (λ i j k. world) resolvers
      (rows (codes "Forwarder")) refl

-- Two lines, one of them empty, in batches of one.
abbrev text_lines : List Text
text_lines = codes "1.2.3.4" ∷ [] ∷ []

abbrev scan_lines : Option FileEnd
scan_lines =
    scan_file (scan_batch cfg 1 2 3 (codes "f") 1 (λ n i j k. world))
      (working (λ n. true) (λ rs. (rs, true))) (pos 1) (txt_input text_lines)

scan_lines_runs :
    scan_lines ≡ some (FileEnd.finished (record { rows = rows (codes "unset"); error = none }) 1)
unfolding scan_resolvers round routines dns_query_routine nx_opti_routine domain_assembly
    target_to_hex dns_query eval_comm_error contains scan_file write_out read_input_txt_and_scan
    txt_loop write_output_parquet decode_loop
scan_lines_runs = refl

scan_file-IsTested_example :
    Ensures (IsTested cfg 1 2 3 (codes "f") 1 (λ n i j k. world) text_lines) scan_lines
scan_file-IsTested_example =
    scan_file-IsTested cfg 1 2 3 (codes "f") 1 (λ n i j k. world) (λ n. true) (λ rs. (rs, true)) 1
      text_lines (omega arith) (λ n. refl) (λ rs. refl)
