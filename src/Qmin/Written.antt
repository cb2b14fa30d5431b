-- ===== src/Qmin/Written.antt =====
-- What the parquet writer of the QMIN scanner has written (src/qmin/scanner/parquet_writer.go).
use odns_measurement_tools.Base.{
  ℕ, ◌+◌, ◌≡◌, refl, sym, ap, ◌∙◌, Bool, true, none, some, List, [], ◌∷◌, ◌++◌, length, leb,
  if_both,
}
use mathlib.Core.List.{append_assoc, append-nil}
use mathlib.Core.Path.{subst}
use odns_measurement_tools.Qmin.Writer.{
  Written, WriteError, write, flush, decode_loop, write_output_parquet, batch_size,
}
use WriteError.{not_written, not_decoded}

module _ {ℓ} {Row : Type ℓ} (accepts : ℕ → Bool) where
  -- What is written is the beginning of the rows, and without an error it is all of them.
  pub record IsPrefix (w : Written Row) (all : List Row) : Type ℓ where
    pub rest : List Row
    pub parts : w.rows ++ rest ≡ all
    pub complete : w.error ≡ none → rest ≡ []

  stopped :
      (e : WriteError) (written rest all : List Row)
      → written ++ rest ≡ all
      → IsPrefix (record { rows = written; error = some e }) all
  stopped e written rest all h = record { rest = rest; parts = h; complete = λ error_free. cc }

  write-IsPrefix :
      (n : ℕ) (written buf rest all : List Row) (next : Written Row)
      → written ++ rest ≡ all
      → IsPrefix next all
      → IsPrefix (write accepts n written buf next) all
  write-IsPrefix n written buf rest all next h k =
      if_both (λ w. IsPrefix w all) (accepts n) _ _ k (stopped not_written written rest all h)

  flush-IsPrefix :
      (n : ℕ) (written buf : List Row) → IsPrefix (flush accepts n written buf) (written ++ buf)
  flush-IsPrefix n written [] = record { rest = []; parts = refl; complete = λ e. refl }
  flush-IsPrefix n written (r ∷ buf) =
      write-IsPrefix n written (r ∷ buf) (r ∷ buf) (written ++ r ∷ buf) _ refl
        record { rest = []; parts = append-nil (written ++ r ∷ buf); complete = λ e. refl }

  decode_loop-IsPrefix :
      (intact : Bool) (n : ℕ) (written buf decoded : List Row)
      → IsPrefix (decode_loop accepts intact n written buf decoded) (written ++ (buf ++ decoded))
  unfolding decode_loop
  decode_loop-IsPrefix intact n written buf [] =
      if_both (λ w. IsPrefix w (written ++ (buf ++ []))) intact _ _
        (rw (append-nil buf) (flush-IsPrefix n written buf))
        (stopped not_decoded written (buf ++ []) _ refl)
  decode_loop-IsPrefix intact n written buf (r ∷ decoded) =
      let full = buf ++ r ∷ [] in
      let parts = append_assoc buf (r ∷ []) decoded in
      subst (λ t. IsPrefix (decode_loop accepts intact n written buf (r ∷ decoded)) (written ++ t))
        parts
        (if_both (λ w. IsPrefix w (written ++ (full ++ decoded))) (leb batch_size (length full)) _ _
          (write-IsPrefix n written full (full ++ decoded) _ _ refl (
            subst (IsPrefix (decode_loop accepts intact (n + 1) (written ++ full) [] decoded))
              (append_assoc written full decoded)
              (decode_loop-IsPrefix intact (n + 1) (written ++ full) [] decoded)))
          (decode_loop-IsPrefix intact n written full decoded))

  -- Whatever fails, the rows of the writes that have succeeded are the first rows of the temporary
  -- file in their order, and if there is no error they are all rows.
  pub write_output_parquet-IsPrefix :
      (opened created intact : Bool) (decoded : List Row)
      → IsPrefix (write_output_parquet accepts opened created intact decoded) decoded
  unfolding write_output_parquet
  write_output_parquet-IsPrefix opened created intact decoded =
      if_both (λ w. IsPrefix w decoded) opened _ _
        (if_both (λ w. IsPrefix w decoded) created _ _ (decode_loop-IsPrefix intact 0 [] [] decoded)
          (stopped _ [] decoded decoded refl))
        (stopped _ [] decoded decoded refl)

  module _ (accepted : (n : ℕ) → accepts n ≡ true) where
    write-error :
        (n : ℕ) (written buf : List Row) (next : Written Row)
        → write accepts n written buf next ≡ next
    write-error n written buf next = rw (accepted n)

    flush-error : (n : ℕ) (written buf : List Row) → (flush accepts n written buf).error ≡ none
    flush-error n written [] = refl
    flush-error n written (r ∷ buf) =
        ap (λ w. w.error) (write-error n written (r ∷ buf) (record { rows = _; error = none }))

    decode_loop-error :
        (n : ℕ) (written buf decoded : List Row)
        → (decode_loop accepts true n written buf decoded).error ≡ none
    unfolding decode_loop
    decode_loop-error n written buf [] = flush-error n written buf
    decode_loop-error n written buf (r ∷ decoded) =
        let full = buf ++ r ∷ [] in
        if_both (λ (w : Written Row). w.error ≡ none) (leb batch_size (length full)) _ _
          (ap (λ w. w.error) (write-error n written full _)
            ∙ decode_loop-error (n + 1) (written ++ full) [] decoded)
          (decode_loop-error n written full decoded)

    -- If the files can be opened and created, every write succeeds and the temporary file can be
    -- decoded to its end, the rows of the parquet file are those of the temporary file.
    pub write_output_parquet-all :
        (decoded : List Row)
        → write_output_parquet accepts true true true decoded
          ≡ record { rows = decoded; error = none }
    unfolding write_output_parquet
    write_output_parquet-all decoded =
        whole (decode_loop-IsPrefix true 0 [] [] decoded) (decode_loop-error 0 [] [] decoded)
      where
        whole :
            {w : Written Row}
            → IsPrefix w decoded
            → w.error ≡ none
            → w ≡ record { rows = decoded; error = none }
        whole {w} p e =
            let all : w.rows ≡ decoded =
              sym (append-nil w.rows) ∙ ap (λ t. w.rows ++ t) (sym (p.complete e)) ∙ p.parts in
            cc
