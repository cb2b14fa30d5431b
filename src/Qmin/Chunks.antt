-- ===== src/Qmin/Chunks.antt =====
-- The rows of a result file, read in chunks (src/postprocessing/qmin/postproc_scan_result.go).
use odns_measurement_tools.Base.{
  ◌>>=◌, ◌≡◌, refl, sym, ap, ◌∙◌, Bool, Option, none, some, List, [], ◌∷◌, ◌++◌, some_injective,
  bind_assoc, bind_ext, bind_some,
}
use odns_measurement_tools.Text.Defs.{Text}
use odns_measurement_tools.Qmin.Routines.{ParquetQueryResult}
use odns_measurement_tools.Qmin.Batches.{ReadEnd}
use odns_measurement_tools.Qmin.Result.{ScanResultResolver, ScanResolverPair, process_rows}
use odns_measurement_tools.Qmin.Pattern.{Metadata}
use odns_measurement_tools.Qmin.Eval.{Databases, eval_row}
use odns_measurement_tools.Qmin.Files.{Maps, Reads, process_batch, process_reads}
use odns_measurement_tools.Qmin.Rows.{merged, rows_of, process_rows-merged}
use ReadEnd.{going_on, eof, broken}

-- The rows that a reader delivers up to the end of the file, if it meets no error.
unfoldable pub rows_in : Reads → Option (List ParquetQueryResult)
rows_in [] = none
rows_in ((rows, broken) ∷ reads) = none
rows_in ((rows, going_on) ∷ reads) = rows_in reads >>= λ more. some (rows ++ more)
rows_in (([], eof) ∷ reads) = some []
rows_in ((row ∷ rows, eof) ∷ reads) = rows_in reads >>= λ more. some (row ∷ (rows ++ more))

process_rows-append :
    (protocol : Text) (r : ScanResultResolver × Option ScanResolverPair)
    (rs : List (ScanResultResolver × Option ScanResolverPair)) (maps : Maps)
    → process_rows protocol rs (process_rows protocol (r ∷ []) maps)
      ≡ process_rows protocol (r ∷ rs) maps
unfolding process_rows
process_rows-append protocol (r1, none) rs maps = refl
process_rows-append protocol (r1, some r2) rs maps = refl

module _ {A : Type 0} (db : Databases A) (pattern_matching : Bool) (metadata : Metadata) where
  unfoldable pub eval_all :
      List ParquetQueryResult → Option (List (ScanResultResolver × Option ScanResolverPair))
  eval_all [] = some []
  eval_all (row ∷ rows) =
      eval_row db metadata pattern_matching row >>= λ r. eval_all rows >>= λ rs. some (r ∷ rs)

  process_batch-append :
      (rows more : List ParquetQueryResult) (maps : Maps)
      → process_batch db pattern_matching metadata (rows ++ more) maps ≡ (
          process_batch db pattern_matching metadata rows maps >>= λ next.
          process_batch db pattern_matching metadata more next)
  unfolding process_batch
  process_batch-append [] more maps = refl
  process_batch-append (row ∷ rows) more maps =
      bind_ext (eval_row db metadata pattern_matching row) _ _
        (λ r. process_batch-append rows more (process_rows metadata.protocol (r ∷ []) maps))
      ∙ sym (bind_assoc (eval_row db metadata pattern_matching row) _ _)

  process_batch-eval_all :
      (rows : List ParquetQueryResult) (rs : List (ScanResultResolver × Option ScanResolverPair))
      (maps : Maps)
      → eval_all rows ≡ some rs
      → process_batch db pattern_matching metadata rows maps
        ≡ some (process_rows metadata.protocol rs maps)
  unfolding process_batch eval_all process_rows
  process_batch-eval_all [] rs maps e =
      ap (λ t. some (process_rows metadata.protocol t maps)) (some_injective e)
  process_batch-eval_all (row ∷ rows) rs maps e =
      let (r, evaluated, e') = bind_some (eval_row db metadata pattern_matching row) _ e in
      let (more, rest, e'') = bind_some (eval_all rows) _ e' in
      ap
        (λ (o : Option (ScanResultResolver × Option ScanResolverPair)). o >>= λ results.
          process_batch db pattern_matching metadata rows
            (process_rows metadata.protocol (results ∷ []) maps))
        evaluated
      ∙ process_batch-eval_all rows more (process_rows metadata.protocol (r ∷ []) maps) rest
      ∙ ap some (process_rows-append metadata.protocol r more maps)
      ∙ ap (λ t. some (process_rows metadata.protocol t maps)) (some_injective e'')

  chunk-append :
      (rows more : List ParquetQueryResult) (reads : Reads) (maps : Maps)
      → ((next : Maps)
          → process_reads db pattern_matching metadata reads next
            ≡ process_batch db pattern_matching metadata more next)
      → (process_batch db pattern_matching metadata rows maps >>= λ next.
          process_reads db pattern_matching metadata reads next)
        ≡ process_batch db pattern_matching metadata (rows ++ more) maps
  chunk-append rows more reads maps h =
      bind_ext (process_batch db pattern_matching metadata rows maps) _ _ h
      ∙ sym (process_batch-append rows more maps)

  process_reads-rows_in :
      (reads : Reads) (rows : List ParquetQueryResult) (maps : Maps)
      → rows_in reads ≡ some rows
      → process_reads db pattern_matching metadata reads maps
        ≡ process_batch db pattern_matching metadata rows maps
  unfolding process_reads rows_in
  process_reads-rows_in [] rows maps e = cc
  process_reads-rows_in ((chunk, broken) ∷ reads) rows maps e = cc
  process_reads-rows_in (([], eof) ∷ reads) rows maps e =
      ap (λ t. process_batch db pattern_matching metadata t maps) (some_injective e)
  process_reads-rows_in (([], going_on) ∷ reads) rows maps e =
      let (more, rest, same) = bind_some (rows_in reads) _ e in
      chunk-append [] more reads maps (λ next. process_reads-rows_in reads more next rest)
      ∙ ap (λ t. process_batch db pattern_matching metadata t maps) (some_injective same)
  process_reads-rows_in ((row ∷ chunk, going_on) ∷ reads) rows maps e =
      let (more, rest, same) = bind_some (rows_in reads) _ e in
      chunk-append (row ∷ chunk) more reads maps
        (λ next. process_reads-rows_in reads more next rest)
      ∙ ap (λ t. process_batch db pattern_matching metadata t maps) (some_injective same)
  process_reads-rows_in ((row ∷ chunk, eof) ∷ reads) rows maps e =
      let (more, rest, same) = bind_some (rows_in reads) _ e in
      chunk-append (row ∷ chunk) more reads maps
        (λ next. process_reads-rows_in reads more next rest)
      ∙ ap (λ t. process_batch db pattern_matching metadata t maps) (some_injective same)

  -- If the reads of a file deliver rows up to the end of the file, in whatever chunks, and every row
  -- can be evaluated, then the loop over the chunks ends, and the map holds for each address the
  -- results of its rows, merged in their order onto what the map held before.
  pub process_reads-merged :
      (reads : Reads) (rows : List ParquetQueryResult)
      (rs : List (ScanResultResolver × Option ScanResolverPair)) (maps : Maps) (ip : Text)
      → rows_in reads ≡ some rows
      → eval_all rows ≡ some rs
      → (next : Maps) × (process_reads db pattern_matching metadata reads maps ≡ some next)
        × (next.0 (metadata.protocol ++ ip)
            ≡ merged (maps.0 (metadata.protocol ++ ip)) (rows_of ip rs))
  process_reads-merged reads rows rs maps ip delivered evaluated = (
    process_rows metadata.protocol rs maps,
    process_reads-rows_in reads rows maps delivered ∙ process_batch-eval_all rows rs maps evaluated,
    process_rows-merged metadata.protocol ip rs maps.0 maps.1,
  )
