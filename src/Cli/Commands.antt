-- ===== src/Cli/Commands.antt =====
-- The subcommands of QMIN (src/dns_tool.go).
use odns_measurement_tools.Base.{Bool, ◌&&◌, not, Option, List, [], ◌∷◌, if◌then◌else◌}
use odns_measurement_tools.Text.Defs.{Text, codes}
use odns_measurement_tools.Cli.Flags.{ServerFlags, QminScannerFlags, PostProcFlags}
use odns_measurement_tools.Cli.Outcome.{
  Tool, Effect, Error, Outcome, System, refuse, finish, launch, load_or_panic,
}
use odns_measurement_tools.Cli.Scanner.{given}
use Tool.{qmin_server, qmin_scan, write_parquet, post_processing}
use Effect.{usage}
use Error.{missing_config, missing_path, file_not_found, combine_not_recursive}

-- `QMinServerCommand.Run`. `readable` tells whether a configuration file can be read.
unfoldable pub run_server : System → (Text → Option (Unit {0})) → ServerFlags → Outcome
run_server sys readable qc =
    let path = if given qc.config_alias then qc.config_alias else qc.config_path in
    if qc.help_flag
    then finish (usage ∷ [])
    else if given path
    then load_or_panic path (readable path) (λ _. launch sys qmin_server (finish []))
    else refuse missing_config

-- `QMinScannerCommand.Run`
unfoldable pub run_scanner : System → (Text → Option (Unit {0})) → QminScannerFlags → Outcome
run_scanner sys readable qsc =
    let path = if given qsc.config_alias then qsc.config_alias else qsc.config_path in
    let resolver = if qsc.resolver_alias then qsc.resolver_alias else qsc.resolver_flag in
    if qsc.help_flag
    then finish (usage ∷ [])
    else if given path
    then load_or_panic path (readable path)
        (λ _. launch sys (qmin_scan qsc.args resolver) (finish []))
    else refuse missing_config

-- `QMINScannerParquetWriterCommand.Run`. `exists` tells whether a file exists.
unfoldable pub run_writer : System → (Text → Bool) → Text → Outcome
run_writer sys exists temp_path =
    if not (given temp_path)
    then refuse missing_path
    else if not (exists temp_path)
    then refuse file_not_found
    else launch sys (write_parquet temp_path (codes "./data/raw/qmin/out.parquet")) (finish [])

-- `QMINScannerPostProcCommand.Run`
unfoldable pub run_post_proc : System → (Text → Bool) → PostProcFlags → List Text → Outcome
run_post_proc sys exists ppc [] = if ppc.help_flag then finish (usage ∷ []) else refuse missing_path
run_post_proc sys exists ppc (path ∷ _) =
    let recursive = if ppc.recursive_alias then ppc.recursive_alias else ppc.recursive in
    if ppc.help_flag
    then finish (usage ∷ [])
    else if not (exists path)
    then refuse file_not_found
    else if ppc.combine_flag && not recursive
    then refuse combine_not_recursive
    else launch sys
        (post_processing path recursive ppc.output_path ppc.resolver_matching ppc.combine_flag
          ppc.metadata_path)
        (finish [])
