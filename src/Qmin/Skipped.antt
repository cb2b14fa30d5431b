-- ===== src/Qmin/Skipped.antt =====
-- Files that the post-processing passes over (src/postprocessing/qmin/postproc_scan_result.go).
use odns_measurement_tools.Base.{
  arith, ◌≡◌, refl, ap, ◌∙◌, ◌>>=◌, Bool, true, false, not, ◌&&◌, Option, none, some, if◌then◌else◌,
  List, [], ◌∷◌, ◌++◌, if_both,
}
use odns_measurement_tools.Text.Defs.{Text, codes}
use odns_measurement_tools.Qmin.Eval.{Databases}
use odns_measurement_tools.Qmin.Files.{
  FileSystem, FileEffect, start_file_processing, start_dirs, process_input, start_post_processing,
  output_directory, valid_directories,
}
use FileEffect.{make_directory}

-- Nothing is written but directories are created.
abbrev pub OnlyDirectories : List FileEffect → Type 0
OnlyDirectories [] = Unit
OnlyDirectories (make_directory path ∷ effects) = OnlyDirectories effects
OnlyDirectories (e ∷ effects) = ⊥

module _ {A : Type 0} (db : Databases A) (matching : Bool) (fs : FileSystem) where
  start_file_processing-skipped :
      (input output : Text)
      → fs.exists [] ≡ false
      → start_file_processing db matching fs input output false [] ≡ some []
  unfolding start_file_processing
  start_file_processing-skipped input output absent =
      if_both (λ o. o ≡ some []) (not (fs.exists (input ++ codes "/result.parquet"))) _ _ refl
        (rw absent refl)

  -- What is there to be written.
  abbrev MakesDirectories : Option (List FileEffect) → Type 0
  MakesDirectories o = (effects : List FileEffect) × (o ≡ some effects) × OnlyDirectories effects

  then_make :
      (path : Text) (o : Option (List FileEffect))
      → MakesDirectories o
      → MakesDirectories (o >>= λ more. some (make_directory path ∷ more))
  then_make path o (effects, e, h) = (
    make_directory path ∷ effects,
    ap (λ p. p >>= λ more. some (make_directory path ∷ more)) e,
    h,
  )

  start_dirs-skipped :
      (base output : Text) (dirs : List (Text × Text))
      → fs.exists [] ≡ false
      → fs.known base ≡ true
      → MakesDirectories (start_dirs db matching fs base output [] dirs)
  unfolding start_dirs
  start_dirs-skipped base output [] absent known = ([], refl, tt)
  start_dirs-skipped base output (dir ∷ dirs) absent known =
      let path = output ++ b'/' ∷ dir.1 in
      let rest = start_dirs db matching fs base output [] dirs in
      let (effects, e, h) =
        then_make path rest (start_dirs-skipped base output dirs absent known) in
      let tried : Option (List FileEffect) → Option (List FileEffect) =
        λ o. o >>= λ first. rest >>= λ more. some (make_directory path ∷ (first ++ more)) in
      (
        effects,
        ap
              (λ b.
                if b
                then tried (start_file_processing db matching fs dir.0 path false [])
                else none)
              known
            ∙ ap tried (start_file_processing-skipped dir.0 path absent)
            ∙ e,
        h,
      )

  process_input-skipped :
      (base output input : Text) (recursive : Bool) (dirs : List (Text × Text))
      → fs.exists [] ≡ false
      → fs.known base ≡ true
      → fs.directories input ≡ some dirs
      → MakesDirectories (process_input db matching fs base output input recursive false [])
  unfolding process_input
  process_input-skipped base output input recursive dirs absent known walked =
      if_both MakesDirectories (recursive && true) _ _
        (rw walked (
          start_dirs-skipped base output (valid_directories db matching fs false dirs) absent
            known))
        ([], start_file_processing-skipped input output absent, tt)

  -- If the databases, the output directory and the input path are there, then, without the flag on
  -- combining and without a path of the metadata, where the empty path is no file, the
  -- post-processing ends without an error, and it has created directories and written nothing,
  -- whatever result files there are.
  pub start_post_processing-skipped :
      (file_name input outpath : Text) (recursive : Bool) (dirs : List (Text × Text))
      → fs.databases ≡ true
      → fs.known (output_directory db matching fs outpath) ≡ true
      → fs.directories input ≡ some dirs
      → fs.exists [] ≡ false
      → (effects : List FileEffect) × (start_post_processing db matching fs file_name input
            recursive outpath false []
          ≡ some effects)
        × OnlyDirectories effects
  unfolding start_post_processing
  start_post_processing-skipped file_name input outpath recursive dirs opened known walked absent =
      let base = output_directory db matching fs outpath in
      let output = base ++ file_name in
      let done = process_input db matching fs base output input recursive false [] in
      let rest = done >>= λ effects. some (make_directory output ∷ effects) in
      let (effects, e, h) =
        then_make output done
          (process_input-skipped base output input recursive dirs absent known walked) in
      (effects, ap (λ b. if b then rest else none) (both opened known) ∙ e, h)
    where
      both : {a b : Bool} → a ≡ true → b ≡ true → (a && b) ≡ true
      both h k = ground arith
