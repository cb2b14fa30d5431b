-- ===== src/Qmin/EvalTests.antt =====
-- The evaluation of one row of a scan over UDP.
use odns_measurement_tools.Base.{◌≡◌, refl, Bool, true, false, some, none, List, [], ◌∷◌, ◌++◌}
use odns_measurement_tools.Text.Defs.{Text, codes, split, has_suffix}
use odns_measurement_tools.Text.Number.{negsuc, itoa}
use odns_measurement_tools.Qmin.Routines.{ParquetQueryResult}
use odns_measurement_tools.Qmin.Result.{nil, ScanResultResolver, ScanResolverPair}
use odns_measurement_tools.Qmin.Batches.{ReadEnd}
use odns_measurement_tools.Qmin.Files.{
  Maps, Reads, FileSystem, FileEffect, no_results, process_reads, start_post_processing,
}
use odns_measurement_tools.Qmin.Chunks.{rows_in, eval_all, process_reads-merged}
use odns_measurement_tools.Qmin.Skipped.{OnlyDirectories, start_post_processing-skipped}
use odns_measurement_tools.Qmin.Rows.{merged, rows_of}
use odns_measurement_tools.Qmin.Pattern.{Metadata, analyze_pattern, analyze_single, base_labels}
use odns_measurement_tools.Qmin.Eval.{Databases, eval_row, eval_address, eval_plain, pattern_match}
use odns_measurement_tools.Qmin.Fields.{IsSingle, eval_row-IsSingle}

abbrev db : Databases Text
db = record {
  parse_addr = λ t. some t;
  asn = λ ip r. some (record { number = 64500; organization = codes "Org" });
  country = λ ip c. some (codes "DE");
}

abbrev metadata : Metadata
metadata = record {
  start = [];
  fin = [];
  runtime = [];
  input = [];
  num_resolver = 1;
  timeout = 1;
  retry_timeout = 1;
  protocol = codes "udp";
  label_depth = 3;
  rounds = 1;
  base_url = codes "x.org.";
}

abbrev row : ParquetQueryResult
row = record {
  resolver_ip = codes "192.0.2.1";
  resolver_type = codes "Forwarder";
  requesting_ip = codes "192.0.2.2";
  response = codes "2.1.01020304-3-7_TXT";
  induction_ip = codes "NULL";
  induced_res = codes "NULL";
  induced_qmin_check = false;
  mode_check = false;
  nx_check = false;
  nx_optimization = negsuc 0;
  file_name = codes "f";
}

abbrev result : ScanResultResolver
result = record {
  protocol = codes "udp";
  queried_ip = codes "192.0.2.1";
  queried_ip_asn = 64500;
  queried_ip_org = codes "Org";
  queried_ip_country = codes "DE";
  resolver_type = codes "Forwarder";
  requesting_ips = codes "192.0.2.2" ∷ [];
  qmin_enabled = 0;
  induction_qmin = nil;
  qmin_mode = [];
  nx_optimization = nil;
  errors = [];
  count = 1;
  filename = codes "f";
}

abbrev pair : ScanResolverPair
pair = record {
  protocol = codes "udp";
  queried_ip = codes "192.0.2.1";
  queried_ip_asn = 64500;
  queried_ip_org = codes "Org";
  queried_ip_country = codes "DE";
  requesting_ip = codes "192.0.2.2";
  requesting_ip_asn = 64500;
  requesting_ip_org = codes "Org";
  requesting_ip_country = codes "DE";
  resolver_type = codes "Forwarder";
  qmin_enabled = false;
  qmin_pattern = codes "5TXT";
  resolver_pattern_match = codes "none" ∷ [];
  max_min_rfc_9156 = codes "1-1";
  count = 1;
}

eval_row-IsSingle_example : IsSingle (result, some pair)
unfolding eval_row eval_address eval_plain analyze_pattern analyze_single base_labels split
    has_suffix itoa pattern_match
eval_row-IsSingle_example = eval_row-IsSingle db metadata true row result (some pair) refl

-- Two rows, in two chunks; the end of the file comes with the second.
abbrev reads : Reads
reads = (row ∷ [], ReadEnd.going_on) ∷ (row ∷ [], ReadEnd.eof) ∷ ([], ReadEnd.eof) ∷ []

process_reads-merged_example :
    (next : Maps) × (process_reads db true metadata reads no_results ≡ some next)
    × (next.0 (codes "udp" ++ codes "192.0.2.1")
        ≡ merged none
            (rows_of (codes "192.0.2.1") ((result, some pair) ∷ (result, some pair) ∷ [])))
unfolding rows_in eval_all eval_row eval_address eval_plain analyze_pattern analyze_single
    base_labels split has_suffix itoa pattern_match
process_reads-merged_example =
    process_reads-merged db true metadata reads (row ∷ row ∷ [])
      ((result, some pair) ∷ (result, some pair) ∷ []) no_results (codes "192.0.2.1") refl refl

abbrev nonempty : Text → Bool
nonempty [] = false
nonempty (c ∷ s) = true

-- Every path but the empty one is a file.
abbrev fs : FileSystem
fs = record {
  databases = true;
  known = λ path. true;
  writable = λ path. true;
  exists = nonempty;
  reads = λ path. some reads;
  metadata_at = λ path. some metadata;
  directories = λ path. some ((path, codes "scan") ∷ []);
}

start_post_processing-skipped_example :
    (effects : List FileEffect) × (start_post_processing db true fs
        (codes "now")
        (codes "data")
        true
        []
        false
        []
      ≡ some effects)
    × OnlyDirectories effects
start_post_processing-skipped_example =
    start_post_processing-skipped db true fs (codes "now") (codes "data") [] true
      ((codes "data", codes "scan") ∷ []) refl refl refl refl
