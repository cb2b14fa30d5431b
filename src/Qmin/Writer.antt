-- ===== src/Qmin/Writer.antt =====
-- The rows of the temporary file as rows of a parquet file (src/qmin/scanner/parquet_writer.go,
-- src/qmin/scanner/temp_store.go).
use odns_measurement_tools.Base.{
  ℕ, ◌+◌, Bool, Option, none, some, List, [], ◌∷◌, ◌++◌, length, leb, if◌then◌else◌,
}

-- The error that is returned.
pub data WriteError : Type 0 where
  no_temp_file no_out_file not_written not_decoded : WriteError

-- The rows of the writes that have succeeded, and the error, if there is one.
pub record Written {ℓ} (Row : Type ℓ) : Type ℓ where
  pub rows : List Row
  pub error : Option WriteError

abbrev pub batch_size : ℕ
batch_size = 100

module _ {ℓ} {Row : Type ℓ} (accepts : ℕ → Bool) where
  -- The n-th call of the writer.
  abbrev pub write : ℕ → List Row → List Row → Written Row → Written Row
  write n written buf next =
      if accepts n then next else record { rows = written; error = some not_written }

  -- The last `flush`, with what is left in the buffer.
  abbrev pub flush : ℕ → List Row → List Row → Written Row
  flush n written [] = record { rows = written; error = none }
  flush n written (r ∷ buf) =
      write n written (r ∷ buf) (record { rows = written ++ r ∷ buf; error = none })

  -- The loop over the rows that are decoded, until the end of the file or an error.
  unfoldable pub decode_loop : Bool → ℕ → List Row → List Row → List Row → Written Row
  decode_loop intact n written buf [] =
      if intact then flush n written buf else record { rows = written; error = some not_decoded }
  decode_loop intact n written buf (r ∷ decoded) =
      let full = buf ++ r ∷ [] in
      if leb batch_size (length full)
      then write n written full (decode_loop intact (n + 1) (written ++ full) [] decoded)
      else decode_loop intact n written full decoded

  -- `WriteOutputParquet`: the temporary file can be opened, the output file can be created, and the
  -- rows of the temporary file end in the end of the file or in what cannot be decoded. The errors of
  -- the two deferred calls of `Close` are not returned.
  unfoldable pub write_output_parquet : Bool → Bool → Bool → List Row → Written Row
  unfolding decode_loop
  write_output_parquet opened created intact decoded =
      if opened
      then if created
        then decode_loop intact 0 [] [] decoded
        else record { rows = []; error = some no_out_file }
      else record { rows = []; error = some no_temp_file }
