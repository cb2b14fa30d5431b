-- ===== src/Cli/Tests.antt =====
-- Runs of the command line, and the theorems at concrete inputs.
use odns_measurement_tools.Base.{◌≡◌, refl, true, false, Option, some, none, [], ◌∷◌, All}
use odns_measurement_tools.Text.Defs.{Text, codes}
use odns_measurement_tools.Text.Number.{pos, negsuc}
use odns_measurement_tools.Cli.Flags.{ScannerFlags}
use odns_measurement_tools.Cli.Outcome.{
  Config, Tool, Effect, Error, Ending, System, ToolEnd, follow,
}
use odns_measurement_tools.Cli.Scanner.{
  choose_scan, choose_trace, choose, overwrite, merge_aliases, carry_out, run_loaded, run, uint16,
}
use odns_measurement_tools.Cli.Commands.{run_scanner, run_writer, run_post_proc}
use odns_measurement_tools.Cli.Main.{Parsers, Files, run_command, base, main}
use odns_measurement_tools.Cli.Settings.{Sees, run-Sees}

abbrev flags : ScannerFlags
flags = record {
  help_flag = false;
  mode_flag = codes "scan";
  mode_alias = [];
  prot_flag = codes "udp";
  prot_alias = codes "tcp";
  config_path = codes "config.yml";
  config_alias = [];
  pktrate = pos 100;
  pktrate_alias = negsuc 0;
  outpath = [];
  outpath_alias = [];
  profile = true;
  debug_level = negsuc 0;
  debug_alias = negsuc 0;
  ethernet_header = true;
  ethernet_alias = false;
  qname = codes "example.org";
  qname_alias = [];
  port = pos 65589;
  args = codes "192.0.2.0/24" ∷ [];
}

abbrev nothing : Config
nothing = record {
  craft_ethernet = false;
  pkts_per_sec = pos 0;
  dns_query = [];
  verbosity = pos 0;
  dst_port = 0;
}

-- A file that sets everything but the choice of the Ethernet header.
abbrev load : Text → Config → Option Config
load path cfg = some (record cfg {
  pkts_per_sec = pos 5000;
  dns_query = codes "test.org";
  verbosity = pos 3;
  dst_port = 53;
})

-- The scan of QMIN ends with a status of 1, and the other tools give control back.
abbrev ends : Tool → ToolEnd
ends (Tool.qmin_scan args resolver) = ToolEnd.exits 1
ends t = ToolEnd.gives_back

abbrev sys : System
sys = record { ends = ends; profiles = true }

abbrev seen : Config
seen = record {
  craft_ethernet = true;
  pkts_per_sec = negsuc 0;
  dns_query = codes "example.org";
  verbosity = pos 3;
  dst_port = 53;
}

-- The aliases come first, and a port beyond the range is cut to 16 bits.
tcp_scan_runs : run sys load nothing flags ≡ record {
  effects =
      Effect.load_config (codes "config.yml")
      ∷ Effect.start_profiling
      ∷ Effect.start (Tool.tcp_scan (codes "192.0.2.0/24" ∷ []) (codes "tcp_results.csv.gz") seen)
      ∷ Effect.stop_profiling
      ∷ [];
  ending = Ending.returned none 0;
}
unfolding run follow merge_aliases run_loaded overwrite choose choose_scan choose_trace carry_out
tcp_scan_runs = refl

-- An error behind the start of the profiling leaves it running.
wrong_protocol_runs : run sys load nothing (record flags { prot_alias = codes "sctp" }) ≡ record {
  effects = Effect.load_config (codes "config.yml") ∷ Effect.start_profiling ∷ [];
  ending = Ending.returned (some Error.wrong_protocol) 1;
}
unfolding run follow merge_aliases run_loaded overwrite choose choose_scan choose_trace carry_out
wrong_protocol_runs = refl

wrapped_port : uint16 (negsuc 1) ≡ 65534
wrapped_port = refl

abbrev parse : Parsers
parse = record {
  scanner = λ args. (record flags { args = args }, none);
  server = λ args. (record { help_flag = true; config_path = []; config_alias = [] }, none);
  qmin_scanner = λ args. (
    record {
      help_flag = false;
      resolver_flag = false;
      resolver_alias = true;
      config_path = codes "config.yml";
      config_alias = [];
      args = args;
    },
    some (codes "flag provided but not defined"),
  );
  writer = λ args. ([], none);
  post_proc = λ args. (
    record {
      output_path = [];
      recursive = false;
      recursive_alias = false;
      help_flag = false;
      resolver_matching = true;
      combine_flag = true;
      metadata_path = [];
      args = args;
    },
    none,
  );
}

abbrev files : Files
files = record { load = load; readable = λ path. some tt; exists = λ path. true }

-- An error that the package flag finds does not keep a tool from starting.
bad_flag_runs : main sys parse files (codes "qmin_scanner" ∷ codes "-x" ∷ []) ≡ (
  Effect.load_config (codes "config.yml")
      ∷ Effect.start (Tool.qmin_scan (codes "-x" ∷ []) true)
      ∷ [],
  1,
)
unfolding main follow base run_command run_scanner
bad_flag_runs = refl

errors :
    ((main sys parse files []).1 ≡ 1)
    × ((main sys parse files (codes "scan" ∷ [])).1 ≡ 1)
    × ((main sys parse files (codes "temp_file_parquet_writer" ∷ [])).1 ≡ 1)
    × ((main sys parse files (codes "qmin_post_proc" ∷ codes "data" ∷ [])).1 ≡ 1)
unfolding main base run_command run_writer run_post_proc
errors = (refl, refl, refl, refl)

run-Sees_example : All (Sees seen) (run sys load nothing flags).effects
run-Sees_example = run-Sees sys load nothing flags refl
