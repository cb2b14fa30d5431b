-- ===== src/Cli/Scanner.antt =====
-- The subcommand `scanner` (ScannerCommand in src/dns_tool.go).
use odns_measurement_tools.Base.{
  ℕ, suc, ◌-◌, ◌%◌, Bool, true, false, ◌||◌, not, Option, [], ◌∷◌, ltb, ◌==◌, if◌then◌else◌,
}
use odns_measurement_tools.Net.{bytes_eq}
use odns_measurement_tools.Text.Defs.{Text, codes}
use odns_measurement_tools.Text.Number.{ℤ, pos, negsuc}
use odns_measurement_tools.Cli.Flags.{ScannerFlags}
use odns_measurement_tools.Cli.Outcome.{
  Config, Tool, Effect, Error, Ending, Outcome, System, refuse, finish, after, launch,
  load_or_panic,
}
use Tool.{tcp_scan, udp_scan, tcp_traceroute, ratelimit}
use Effect.{usage, start_profiling, stop_profiling}
use Error.{missing_config, missing_protocol, wrong_protocol, missing_mode, wrong_mode}

-- `s != ""`
abbrev pub given : Text → Bool
given [] = false
given (c ∷ s) = true

-- `z > -n`
abbrev pub above_neg : ℕ → ℤ → Bool
above_neg n (pos m) = true
above_neg n (negsuc m) = ltb (suc m) n

-- `z != -1`
abbrev pub not_minus_one : ℤ → Bool
not_minus_one (pos m) = true
not_minus_one (negsuc m) = not (m == 0)

-- `uint16(z)`
abbrev pub uint16 : ℤ → ℕ
uint16 (pos m) = m % 65536
uint16 (negsuc m) = 65535 - m % 65536

unfoldable pub merge_aliases : ScannerFlags → ScannerFlags
merge_aliases sc = record sc {
  mode_flag = if given sc.mode_alias then sc.mode_alias else sc.mode_flag;
  prot_flag = if given sc.prot_alias then sc.prot_alias else sc.prot_flag;
  config_path = if given sc.config_alias then sc.config_alias else sc.config_path;
  debug_level = if above_neg 1 sc.debug_alias then sc.debug_alias else sc.debug_level;
  pktrate = if above_neg 2 sc.pktrate_alias then sc.pktrate_alias else sc.pktrate;
  outpath = if given sc.outpath_alias then sc.outpath_alias else sc.outpath;
  qname = if given sc.qname_alias then sc.qname_alias else sc.qname;
}

-- What the flags put in place of the loaded configuration.
unfoldable pub overwrite : ScannerFlags → Config → Config
overwrite sc cfg = record cfg {
  pkts_per_sec = if above_neg 2 sc.pktrate then sc.pktrate else cfg.pkts_per_sec;
  dns_query = if given sc.qname then sc.qname else cfg.dns_query;
  verbosity = if above_neg 1 sc.debug_level then sc.debug_level else cfg.verbosity;
  dst_port = if not_minus_one sc.port then uint16 sc.port else cfg.dst_port;
}

-- The tool that the mode and the protocol stand for, or the error.
pub data Choice : Type 0 where
  refused : Error → Choice
  chosen : Tool → Choice

-- `if sc.outpath == "" { sc.outpath = … }`
abbrev out_or : Text → Text → Text
out_or [] default = default
out_or (c ∷ s) default = c ∷ s

unfoldable pub choose_scan : ScannerFlags → Config → Choice
choose_scan sc cfg =
    if not (given sc.prot_flag)
    then Choice.refused missing_protocol
    else if bytes_eq sc.prot_flag (codes "tcp")
    then Choice.chosen (tcp_scan sc.args (out_or sc.outpath (codes "tcp_results.csv.gz")) cfg)
    else if bytes_eq sc.prot_flag (codes "udp")
    then Choice.chosen (udp_scan sc.args (out_or sc.outpath (codes "udp_results.csv.gz")) cfg)
    else Choice.refused wrong_protocol

unfoldable pub choose_trace : ScannerFlags → Config → Choice
choose_trace sc cfg =
    if not (given sc.prot_flag)
    then Choice.refused missing_protocol
    else if bytes_eq sc.prot_flag (codes "tcp")
    then Choice.chosen (tcp_traceroute sc.args cfg)
    else Choice.refused wrong_protocol

unfoldable pub choose : ScannerFlags → Config → Choice
unfolding choose_scan choose_trace
choose sc cfg =
    if not (given sc.mode_flag)
    then Choice.refused missing_mode
    else if bytes_eq sc.mode_flag (codes "s") || bytes_eq sc.mode_flag (codes "scan")
    then choose_scan sc cfg
    else if bytes_eq sc.mode_flag (codes "t")
        || bytes_eq sc.mode_flag (codes "trace")
        || bytes_eq sc.mode_flag (codes "traceroute")
    then choose_trace sc cfg
    else if bytes_eq sc.mode_flag (codes "r")
        || bytes_eq sc.mode_flag (codes "rate")
        || bytes_eq sc.mode_flag (codes "ratelimit")
    then Choice.chosen (ratelimit sc.args (out_or sc.outpath (codes "ratelimit_results")) cfg)
    else Choice.refused (wrong_mode sc.mode_flag)

-- The rest of the run once the tool is chosen: an error leaves the profiling as it is.
unfoldable pub carry_out : System → Bool → Choice → Outcome
carry_out sys profile (Choice.refused e) = refuse e
carry_out sys true (Choice.chosen t) = launch sys t (finish (stop_profiling ∷ []))
carry_out sys false (Choice.chosen t) = launch sys t (finish [])

-- `start_profiling`, which panics if it fails.
abbrev pub profiled : System → Bool → Outcome → Outcome
profiled sys true o =
    if sys.profiles
    then after start_profiling o
    else record { effects = start_profiling ∷ []; ending = Ending.panicked }
profiled sys false o = o

-- From the loaded configuration on.
unfoldable pub run_loaded : System → ScannerFlags → Config → Outcome
unfolding overwrite choose carry_out
run_loaded sys sc cfg =
    profiled sys sc.profile (carry_out sys sc.profile (choose sc (overwrite sc cfg)))

-- `ScannerCommand.Run`. `load` is `Load_config`: what the file at a path makes of the
-- configuration, if it can be read.
unfoldable pub run : System → (Text → Config → Option Config) → Config → ScannerFlags → Outcome
unfolding merge_aliases run_loaded
run sys load cfg flags =
    let sc = merge_aliases flags in
    let seen = record cfg { craft_ethernet = sc.ethernet_alias || sc.ethernet_header } in
    if sc.help_flag
    then finish (usage ∷ [])
    else if given sc.config_path
    then load_or_panic sc.config_path (load sc.config_path seen) (run_loaded sys sc)
    else refuse missing_config
