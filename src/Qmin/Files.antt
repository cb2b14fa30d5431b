-- ===== src/Qmin/Files.antt =====
-- The result files that the post-processing reads, the directories where it looks for them and the
-- files that it writes (src/postprocessing/qmin/postproc_scan_result.go).
use odns_measurement_tools.Base.{
  ◌>>=◌, Bool, true, false, not, ◌&&◌, Option, none, some, List, [], ◌∷◌, ◌++◌, if◌then◌else◌,
}
use odns_measurement_tools.Text.Defs.{Text, codes, has_suffix}
use odns_measurement_tools.Qmin.Routines.{ParquetQueryResult}
use odns_measurement_tools.Qmin.Batches.{ReadEnd, is_nil}
use odns_measurement_tools.Qmin.Result.{ScanResultResolver, ScanResolverPair, process_rows}
use odns_measurement_tools.Qmin.Pattern.{Metadata}
use odns_measurement_tools.Qmin.Eval.{Databases, eval_row}
use ReadEnd.{eof, broken}

-- The two maps that hold the processed data.
abbrev pub Maps : Type 0
Maps = (Text → Option ScanResultResolver) × (Text → Option ScanResolverPair)

abbrev pub Reads : Type 0
Reads = List (List ParquetQueryResult × ReadEnd)

abbrev pub is_broken : ReadEnd → Bool
is_broken broken = true
is_broken _ = false

abbrev pub is_eof : ReadEnd → Bool
is_eof eof = true
is_eof _ = false

-- The file system: whether the two address databases can be opened, whether a path exists, whether
-- `os.Stat` knows a path, the reads of a result file, the metadata of a file that can be read and
-- parsed, whether both result files can be written into a directory, and the directories below a
-- path, with their paths and names. There are none if the path itself is not known: then the walk
-- calls its function with a nil entry, which panics. A read gets at most 128 rows.
pub record FileSystem : Type 0 where
  pub databases : Bool
  pub known : Text → Bool
  pub writable : Text → Bool
  pub exists : Text → Bool
  pub reads : Text → Option Reads
  pub metadata_at : Text → Option Metadata
  pub directories : Text → Option (List (Text × Text))

pub data FileEffect : Type 0 where
  make_directory : Text → FileEffect
  write_metadata : Text → Metadata → FileEffect
  write_results : Text → Maps → FileEffect

abbrev pub no_results : Maps
no_results = ((λ key. none), (λ key. none))

module _ {A : Type 0} (db : Databases A) (pattern_matching : Bool) where
  -- The rows of a read, one after the other.
  unfoldable pub process_batch : Metadata → List ParquetQueryResult → Maps → Option Maps
  process_batch metadata [] maps = some maps
  process_batch metadata (row ∷ rows) maps =
      eval_row db metadata pattern_matching row >>= λ results.
      process_batch metadata rows (process_rows metadata.protocol (results ∷ []) maps)

  -- The loop over the reads of a file. The result is `none` where the program ends, or where it
  -- still waits for the end of the file.
  unfoldable pub process_reads : Metadata → Reads → Maps → Option Maps
  unfolding process_batch
  process_reads metadata [] maps = none
  process_reads metadata ((rows, end_of_read) ∷ reads) maps =
      if is_broken end_of_read
      then none
      else if is_nil rows && is_eof end_of_read
      then some maps
      else (process_batch metadata rows maps >>= λ next. process_reads metadata reads next)

  module _ (fs : FileSystem) where
    -- `processFile`, whose file always has the right extension.
    unfoldable pub process_file : Text → Maps → Text → Option (Metadata × Maps)
    unfolding process_reads
    process_file dir_path maps metadata_path =
        fs.reads (dir_path ++ codes "/result.parquet") >>= λ reads.
        fs.metadata_at
          (if is_nil metadata_path then dir_path ++ codes "/metadata.json" else metadata_path)
        >>= λ metadata. process_reads metadata reads maps >>= λ next. some (metadata, next)

    -- `getValidInputDirectories`
    unfoldable pub valid_directories : Bool → List (Text × Text) → List (Text × Text)
    valid_directories skip_metadata [] = []
    valid_directories skip_metadata (dir ∷ dirs) =
        let rest = valid_directories skip_metadata dirs in
        if not (fs.exists (dir.0 ++ codes "/result.parquet"))
        then rest
        else if not skip_metadata && not (fs.exists (dir.0 ++ codes "/metadata.json"))
        then rest
        else dir ∷ rest

    -- The loop over the directories that are combined.
    unfoldable pub process_dirs : Text → List (Text × Text) → Maps → Option Maps
    unfolding process_file
    process_dirs metadata_path [] maps = some maps
    process_dirs metadata_path (dir ∷ dirs) maps =
        process_file dir.0 maps metadata_path >>= λ done. process_dirs metadata_path dirs done.1

    -- The end of `startFileProcessing`: the two result files, or `log.Fatalln`.
    abbrev pub write_maps : Text → Maps → Option (List FileEffect)
    write_maps output_path maps =
        if fs.writable output_path
        then some (FileEffect.write_results output_path maps ∷ [])
        else none

    -- `startFileProcessing`: what is written, or `none` where the program ends by `log.Fatalln` or a
    -- panic.
    unfoldable pub start_file_processing : Text → Text → Bool → Text → Option (List FileEffect)
    unfolding process_dirs valid_directories
    start_file_processing input_path output_path combine metadata_path =
        if combine
        then (fs.directories input_path >>= λ dirs.
            process_dirs metadata_path (valid_directories (not (is_nil metadata_path)) dirs)
              no_results
            >>= λ maps. write_maps output_path maps)
        else if not (fs.exists (input_path ++ codes "/result.parquet"))
        then some []
        else if not (fs.exists metadata_path)
        then some []
        else (process_file input_path no_results metadata_path >>= λ done.
            write_maps output_path done.1 >>= λ more.
            some (
              FileEffect.write_metadata (output_path ++ codes "/scan_metadata.json") done.0 ∷ more))

    -- The loop over the directories that are processed one by one, into directories of their names
    -- in `output`. Each time it looks for the directory `base` that `output` is in.
    unfoldable pub start_dirs : Text → Text → Text → List (Text × Text) → Option (List FileEffect)
    unfolding start_file_processing
    start_dirs base output metadata_path [] = some []
    start_dirs base output metadata_path (dir ∷ dirs) =
        let path = output ++ b'/' ∷ dir.1 in
        let more = start_dirs base output metadata_path dirs in
        if fs.known base
        then (start_file_processing dir.0 path false metadata_path >>= λ effects.
            more >>= λ rest. some (FileEffect.make_directory path ∷ (effects ++ rest)))
        else none

    -- The directory that is the default, or that the user has set, with a slash at its end.
    abbrev pub output_directory : Text → Text
    output_directory [] = codes "./data/processed/qmin/"
    output_directory (c ∷ outpath) =
        if has_suffix (c ∷ outpath) (codes "/") then c ∷ outpath else (c ∷ outpath) ++ codes "/"

    -- What follows the creation of the directory.
    unfoldable pub process_input :
        Text → Text → Text → Bool → Bool → Text → Option (List FileEffect)
    unfolding start_dirs start_file_processing valid_directories
    process_input base output input_path recursive combine metadata_path =
        if recursive && not combine
        then (fs.directories input_path >>= λ dirs.
            start_dirs base output metadata_path
              (valid_directories (not (is_nil metadata_path)) dirs))
        else start_file_processing input_path output combine metadata_path

    -- `StartPostProcessing`, with the time as the name of the directory that it creates.
    unfoldable pub start_post_processing :
        Text → Text → Bool → Text → Bool → Text → Option (List FileEffect)
    unfolding process_input
    start_post_processing file_name input_path recursive outpath combine metadata_path =
        let base = output_directory outpath in
        let output = base ++ file_name in
        if fs.databases && fs.known base
        then (process_input base output input_path recursive combine metadata_path >>= λ effects.
            some (FileEffect.make_directory output ∷ effects))
        else none
