-- ===== src/Cli/Outcome.antt =====
-- What a run of the program does and how it ends (src/dns_tool.go, src/common/exit_codes.go). The
-- tools themselves are the other modules' subject: here a start of one is an effect, and how it ends
-- is a parameter. The runs are those that end.
use odns_measurement_tools.Base.{ℕ, suc, Bool, Option, none, some, List, [], ◌∷◌}
use odns_measurement_tools.Text.Defs.{Text}
use odns_measurement_tools.Text.Number.{ℤ}

-- The fields of `scanner_config.Cfg` that the command line sets.
pub record Config : Type 0 where
  pub craft_ethernet : Bool
  pub pkts_per_sec : ℤ
  pub dns_query : Text
  pub verbosity : ℤ
  pub dst_port : ℕ

pub data Tool : Type 0 where
  tcp_scan udp_scan : List Text → Text → Config → Tool
  tcp_traceroute : List Text → Config → Tool
  ratelimit : List Text → Text → Config → Tool
  qmin_server : Tool
  qmin_scan : List Text → Bool → Tool
  write_parquet : Text → Text → Tool
  post_processing : Text → Bool → Text → Bool → Bool → Text → Tool

pub data Effect : Type 0 where
  usage list_commands start_profiling stop_profiling : Effect
  load_config : Text → Effect
  start : Tool → Effect

pub data Error : Type 0 where
  missing_config missing_protocol wrong_protocol missing_mode missing_path : Error
  wrong_mode : Text → Error
  file_not_found combine_not_recursive missing_command unknown_subcommand : Error

-- A command returns an error, or nil, with a code, or a part of it ends the program with a status
-- (`os.Exit`, `log.Fatal`), or it panics.
pub data Ending : Type 0 where
  returned : Option Error → ℕ → Ending
  exited : (status : ℕ) → Ending
  panicked : Ending

-- How a tool ends: it gives control back, or the program ends in it.
pub data ToolEnd : Type 0 where
  gives_back : ToolEnd
  exits : (status : ℕ) → ToolEnd
  panics : ToolEnd

-- How the tools end, and whether `start_profiling` can create its file and start the profile.
pub record System : Type 0 where
  pub ends : Tool → ToolEnd
  pub profiles : Bool

pub record Outcome : Type 0 where
  pub effects : List Effect
  pub ending : Ending

abbrev pub wrong_input_args : ℕ
wrong_input_args = 1

-- `return fmt.Errorf(…), int(common.WRONG_INPUT_ARGS)`
abbrev pub refuse : Error → Outcome
refuse e = record { effects = []; ending = returned (some e) wrong_input_args }

-- `return nil, 0`
abbrev pub finish : List Effect → Outcome
finish effects = record { effects = effects; ending = returned none 0 }

-- A step before the rest of a command.
abbrev pub after : Effect → Outcome → Outcome
after e o = record o { effects = e ∷ o.effects }

-- A tool is started, and what follows it takes place if it gives control back.
unfoldable pub follow : ToolEnd → Tool → Outcome → Outcome
follow gives_back t o = after (start t) o
follow (exits status) t o = record { effects = start t ∷ []; ending = exited status }
follow panics t o = record { effects = start t ∷ []; ending = panicked }

abbrev pub launch : System → Tool → Outcome → Outcome
launch sys t o = follow (sys.ends t) t o

-- `Load_config`, which panics if the file cannot be read.
abbrev pub load_or_panic {ℓ} : {A : Type ℓ} → Text → Option A → (A → Outcome) → Outcome
load_or_panic path none k = record { effects = load_config path ∷ []; ending = panicked }
load_or_panic path (some c) k = after (load_config path) (k c)

-- How often a tool is started.
abbrev pub starts : List Effect → ℕ
starts [] = 0
starts (start t ∷ es) = suc (starts es)
starts (e ∷ es) = starts es

-- `main`: the exit status, where 2 is that of a panic.
abbrev pub exit_status : Ending → ℕ
exit_status (returned none code) = 0
exit_status (returned (some e) code) = code
exit_status (exited status) = status
exit_status panicked = 2
