-- ===== src/Qmin/Starting.antt =====
-- `Start_scan` of the QMIN scanner (src/qmin/scanner/scanner.go): its directories, the files that it
-- scans and the file on the scan. The removal of a temporary file leaves nothing that is read later.
use odns_measurement_tools.Base.{
  ℕ, ◌+◌, Bool, true, false, Option, none, some, List, [], ◌∷◌, ◌++◌, if◌then◌else◌,
}
use odns_measurement_tools.Text.Defs.{Text, codes, split, first}
use odns_measurement_tools.Text.Number.{ℤ}
use odns_measurement_tools.Qmin.Routines.{InputFileFormat, ParquetQueryResult}
use odns_measurement_tools.Qmin.Batches.{close_store}
use odns_measurement_tools.Qmin.ScanFile.{Input, Around, FileEnd, write_out, scan_file}
use odns_measurement_tools.Qmin.Writer.{Written}
use FileEnd.{fatal, unsupported, finished}

pub record DirEntry : Type 0 where
  pub name : Text
  pub is_dir : Bool

-- What `os.Stat` and `os.ReadDir` say of an argument: nothing, its base name, or its entries, if they
-- can be read.
pub data Argument : Type 0 where
  missing : Argument
  file : (base_name : Text) → Argument
  directory : Option (List DirEntry) → Argument

-- The fields that the function sets, with times as numbers; `Input` and `NumResolver` stay unset.
pub record ScanStat : Type 0 where
  pub start : ℕ
  pub fin : ℕ
  pub runtime : ℕ
  pub timeout : ℤ
  pub retry_timeout : ℤ
  pub protocol : Text
  pub label_depth : ℤ
  pub rounds : ℤ
  pub base_url : Text

-- `Cfg` of the scanner, as far as the function reads it.
pub record StartCfg : Type 0 where
  pub output_dir : Text
  pub batch_size : ℤ
  pub timeout : ℤ
  pub retry_timeout : ℤ
  pub protocol : Text
  pub label_depth : ℤ
  pub rounds : ℤ
  pub base_url : Text

pub data Event : Type 0 where
  made : (dir : Text) → Event
  scanned : (path output : Text) → Written ParquetQueryResult → Event
  failed : (path output : Text) → Event
  passed_over : (path output : Text) → Event
  wrote_metadata : (path : Text) → ScanStat → Event

-- What has happened, and whether the program goes on.
abbrev pub Events : Type 0
Events = List Event × Bool

-- The second part takes place if the program goes on after the first one.
abbrev pub and_then : Events → Events → Events
and_then (events, true) (more, going_on) = (events ++ more, going_on)
and_then (events, false) next = (events, false)

-- The directory for a file: its name up to the first dot.
abbrev pub output_path : Text → Text → Text
output_path working_dir name = working_dir ++ codes "/" ++ first (split b'.' name)

-- Where `scanFile` leaves the program. `none` is its end in the scan of a batch, `fatal` its end by
-- `log.Fatal`; a file with an extension that is not supported is passed over.
abbrev pub scan_ended : Text → Text → Option FileEnd → Events
scan_ended path output none = (Event.failed path output ∷ [], false)
scan_ended path output (some fatal) = (Event.failed path output ∷ [], false)
scan_ended path output (some (unsupported n)) = (Event.passed_over path output ∷ [], true)
scan_ended path output (some (finished w n)) = (Event.scanned path output w ∷ [], true)

-- The system: the two calls for directories, `filepath.Join`, the files at the time of each scan, by
-- the number of the argument and of the entry, whether the file on the scan is encoded and written,
-- and the clock.
pub record StartWorld : Type 0 where
  pub output_dir_exists : Bool
  pub makes_working_dir : Bool
  pub stamp : Text
  pub join : Text → Text → Text
  pub around : ℕ → ℕ → Around
  pub input : ℕ → ℕ → Input
  pub metadata_written : Bool
  pub start : ℕ
  pub fin : ℕ
  pub elapsed : ℕ

module _ (cfg : StartCfg) (world : StartWorld)
    (scan : ℕ → ℕ → ℕ → List InputFileFormat → Option (List ParquetQueryResult))
    (working_dir : Text) where
  -- The body of the loops for a file; the result of `os.Mkdir` is not looked at.
  unfoldable pub scan_into : ℕ → ℕ → Text → Text → Events
  scan_into i j name path =
      let output = output_path working_dir name in
      and_then (Event.made output ∷ [], true)
        (scan_ended path output
          (scan_file (scan i j) (world.around i j) cfg.batch_size (world.input i j)))

  unfoldable pub scan_entries : ℕ → ℕ → Text → List DirEntry → Events
  unfolding scan_into
  scan_entries i j dir [] = ([], true)
  scan_entries i j dir (e ∷ entries) =
      let rest = scan_entries i (j + 1) dir entries in
      if e.is_dir then rest else and_then (scan_into i j e.name (world.join dir e.name)) rest

  unfoldable pub scan_argument : ℕ → Text → Argument → Events
  unfolding scan_into scan_entries
  scan_argument i path Argument.missing = ([], true)
  scan_argument i path (Argument.file base_name) = scan_into i 0 base_name path
  scan_argument i path (Argument.directory none) = ([], true)
  scan_argument i path (Argument.directory (some entries)) = scan_entries i 0 path entries

  unfoldable pub scan_arguments : ℕ → List (Text × Argument) → Events
  unfolding scan_argument
  scan_arguments i [] = ([], true)
  scan_arguments i ((path, arg) ∷ args) =
      and_then (scan_argument i path arg) (scan_arguments (i + 1) args)

  -- What follows the scan of one resolver.
  unfoldable pub finish_one : Text → Option (List ParquetQueryResult) → Events
  unfolding write_out
  finish_one path none = ([], false)
  finish_one path (some rows) =
      let around = world.around 0 0 in
      scan_ended path working_dir (some (write_out (scan 0 0) around (close_store around.os rows)))

  -- The scan of one resolver, whose address is the first argument; without one the program panics.
  unfoldable pub scan_one : List (Text × Argument) → Events
  unfolding finish_one
  scan_one [] = ([], false)
  scan_one ((path, arg) ∷ args) =
      if (world.around 0 0).created
      then finish_one path
          (scan 0 0 0 (record { queried_ip = path; resolver_type = codes "Unset" } ∷ []))
      else ([], false)

  -- The end of the function.
  abbrev pub write_metadata : Events
  write_metadata =
      if world.metadata_written
      then (
        Event.wrote_metadata (working_dir ++ codes "/metadata.json") (record {
          start = world.start;
          fin = world.fin;
          runtime = world.elapsed;
          timeout = cfg.timeout;
          retry_timeout = cfg.retry_timeout;
          protocol = cfg.protocol;
          label_depth = cfg.label_depth;
          rounds = cfg.rounds;
          base_url = cfg.base_url;
        })
            ∷ [],
        true,
      )
      else ([], false)

unfoldable pub start_scan :
    StartCfg
    → StartWorld
    → (ℕ → ℕ → ℕ → List InputFileFormat → Option (List ParquetQueryResult))
    → List (Text × Argument)
    → Bool
    → Events
unfolding scan_arguments scan_one
start_scan cfg world scan args input_is_resolver =
    let working_dir = cfg.output_dir ++ world.stamp in
    if world.output_dir_exists
    then if world.makes_working_dir
      then and_then (Event.made working_dir ∷ [], true)
          (and_then
            (if input_is_resolver
              then scan_one cfg world scan working_dir args
              else scan_arguments cfg world scan working_dir 0 args)
            (write_metadata cfg world scan working_dir))
      else ([], false)
    else ([], false)
