-- ===== src/Cli/Main.antt =====
-- `base` and `main` (src/dns_tool.go).
use odns_measurement_tools.Base.{ℕ, Bool, false, Option, List, [], ◌∷◌, if◌then◌else◌}
use odns_measurement_tools.Net.{bytes_eq}
use odns_measurement_tools.Text.Defs.{Text, codes}
use odns_measurement_tools.Text.Number.{pos}
use odns_measurement_tools.Cli.Flags.{ScannerFlags, ServerFlags, QminScannerFlags, PostProcFlags}
use odns_measurement_tools.Cli.Outcome.{
  Config, Effect, Error, Outcome, System, refuse, finish, exit_status,
}
use odns_measurement_tools.Cli.Scanner
use odns_measurement_tools.Cli.Commands.{run_server, run_scanner, run_writer, run_post_proc}
use Effect.{list_commands}
use Error.{missing_command, unknown_subcommand}

-- What the package flag makes of the arguments of a subcommand, and whether it finds an error in
-- them.
pub record Parsers : Type 0 where
  pub scanner : List Text → ScannerFlags × Option Text
  pub server : List Text → ServerFlags × Option Text
  pub qmin_scanner : List Text → QminScannerFlags × Option Text
  pub writer : List Text → Text × Option Text
  pub post_proc : List Text → PostProcFlags × Option Text

-- `var Cfg Cfg_db`
abbrev no_config : Config
no_config = record {
  craft_ethernet = false;
  pkts_per_sec = pos 0;
  dns_query = [];
  verbosity = pos 0;
  dst_port = 0;
}

-- The files, and the configuration that they hold.
pub record Files : Type 0 where
  pub load : Text → Config → Option Config
  pub readable : Text → Option (Unit {0})
  pub exists : Text → Bool

module _ (sys : System) (parse : Parsers) (files : Files) where
  -- `cmd.Init(args[1:])`, whose error is dropped, and `cmd.Run()`, for the first subcommand of the
  -- name.
  unfoldable pub run_command : Text → List Text → Outcome
  unfolding Scanner.run run_server run_scanner run_writer run_post_proc
  run_command name args =
      if bytes_eq (codes "scanner") name
      then Scanner.run sys files.load no_config (parse.scanner args).0
      else if bytes_eq (codes "qmin_server") name
      then run_server sys files.readable (parse.server args).0
      else if bytes_eq (codes "qmin_scanner") name
      then run_scanner sys files.readable (parse.qmin_scanner args).0
      else if bytes_eq (codes "temp_file_parquet_writer") name
      then run_writer sys files.exists (parse.writer args).0
      else if bytes_eq (codes "qmin_post_proc") name
      then (let ppc = (parse.post_proc args).0 in run_post_proc sys files.exists ppc ppc.args)
      else refuse unknown_subcommand

  unfoldable pub base : List Text → Outcome
  unfolding run_command
  base [] = refuse missing_command
  base (name ∷ args) =
      if bytes_eq name (codes "help") then finish (list_commands ∷ []) else run_command name args

  -- `main`: what `base` does with the arguments, and the exit status.
  unfoldable pub main : List Text → List Effect × ℕ
  unfolding base
  main args = ((base args).effects, exit_status (base args).ending)
