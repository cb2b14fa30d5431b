-- ===== src/Qmin/Started.antt =====
-- Which files the QMIN scanner scans, and when it writes the file on the scan
-- (src/qmin/scanner/scanner.go, `Start_scan`).
use odns_measurement_tools.Base.{
  ℕ, ◌+◌, ◌≡◌, refl, sym, ap, ◌∙◌, ◌⊎◌, inl, inr, Bool, true, false, Option, none, some, List, [],
  ◌∷◌, ◌++◌, map, if◌then◌else◌,
}
use mathlib.Core.Path.{subst}
use mathlib.Core.List.{append_assoc, append-nil}
use odns_measurement_tools.Text.Defs.{Text}
use odns_measurement_tools.Qmin.Routines.{InputFileFormat, ParquetQueryResult}
use odns_measurement_tools.Qmin.ScanFile.{FileEnd, scan_file}
use odns_measurement_tools.Qmin.Starting.{
  DirEntry, Argument, StartCfg, StartWorld, ScanStat, Event, Events, and_then, output_path,
  scan_ended, scan_into, scan_entries, scan_argument, scan_arguments, write_metadata, start_scan,
}

-- The files that the events deal with, each with the directory for its result.
abbrev pub handled : List Event → List (Text × Text)
handled [] = []
handled (Event.made dir ∷ events) = handled events
handled (Event.scanned path output w ∷ events) = (path, output) ∷ handled events
handled (Event.failed path output ∷ events) = (path, output) ∷ handled events
handled (Event.passed_over path output ∷ events) = (path, output) ∷ handled events
handled (Event.wrote_metadata path stat ∷ events) = handled events

abbrev pub has_metadata : List Event → Bool
has_metadata [] = false
has_metadata (Event.made dir ∷ events) = has_metadata events
has_metadata (Event.scanned path output w ∷ events) = has_metadata events
has_metadata (Event.failed path output ∷ events) = has_metadata events
has_metadata (Event.passed_over path output ∷ events) = has_metadata events
has_metadata (Event.wrote_metadata path stat ∷ events) = true

abbrev pub has_failed : List Event → Bool
has_failed [] = false
has_failed (Event.made dir ∷ events) = has_failed events
has_failed (Event.scanned path output w ∷ events) = has_failed events
has_failed (Event.failed path output ∷ events) = true
has_failed (Event.passed_over path output ∷ events) = has_failed events
has_failed (Event.wrote_metadata path stat ∷ events) = has_failed events

handled-append : (xs ys : List Event) → handled (xs ++ ys) ≡ handled xs ++ handled ys
handled-append [] ys = refl
handled-append (Event.made dir ∷ xs) ys = handled-append xs ys
handled-append (Event.scanned path output w ∷ xs) ys =
    ap (λ l. (path, output) ∷ l) (handled-append xs ys)
handled-append (Event.failed path output ∷ xs) ys =
    ap (λ l. (path, output) ∷ l) (handled-append xs ys)
handled-append (Event.passed_over path output ∷ xs) ys =
    ap (λ l. (path, output) ∷ l) (handled-append xs ys)
handled-append (Event.wrote_metadata path stat ∷ xs) ys = handled-append xs ys

has_failed-append :
    (xs ys : List Event) → has_failed xs ≡ false → has_failed (xs ++ ys) ≡ has_failed ys
has_failed-append [] ys h = refl
has_failed-append (Event.made dir ∷ xs) ys h = has_failed-append xs ys h
has_failed-append (Event.scanned path output w ∷ xs) ys h = has_failed-append xs ys h
has_failed-append (Event.failed path output ∷ xs) ys h = cc
has_failed-append (Event.passed_over path output ∷ xs) ys h = has_failed-append xs ys h
has_failed-append (Event.wrote_metadata path stat ∷ xs) ys h = has_failed-append xs ys h

has_metadata-append :
    (xs ys : List Event) → has_metadata xs ≡ false → has_metadata (xs ++ ys) ≡ has_metadata ys
has_metadata-append [] ys h = refl
has_metadata-append (Event.made dir ∷ xs) ys h = has_metadata-append xs ys h
has_metadata-append (Event.scanned path output w ∷ xs) ys h = has_metadata-append xs ys h
has_metadata-append (Event.failed path output ∷ xs) ys h = has_metadata-append xs ys h
has_metadata-append (Event.passed_over path output ∷ xs) ys h = has_metadata-append xs ys h
has_metadata-append (Event.wrote_metadata path stat ∷ xs) ys h = cc

-- The files of the arguments: those that are files and, in their order, those in the directories that
-- can be read, each with its base name.
module _ (join : Text → Text → Text) where
  abbrev pub files_in : Text → List DirEntry → List (Text × Text)
  files_in dir [] = []
  files_in dir (e ∷ entries) =
      let rest = files_in dir entries in if e.is_dir then rest else (join dir e.name, e.name) ∷ rest

  abbrev pub files_at : Text → Argument → List (Text × Text)
  files_at path Argument.missing = []
  files_at path (Argument.file base_name) = (path, base_name) ∷ []
  files_at path (Argument.directory none) = []
  files_at path (Argument.directory (some entries)) = files_in path entries

  abbrev pub files_of : List (Text × Argument) → List (Text × Text)
  files_of [] = []
  files_of ((path, arg) ∷ args) = files_at path arg ++ files_of args

-- The events deal with the first of these files in their order, with all of them and without a failure
-- if the program goes on, and the file on the scan has not been written.
record Follows (expected : List (Text × Text)) (e : Events) : Type 0 where
  rest : List (Text × Text)
  is_prefix : expected ≡ handled e.0 ++ rest
  complete : (e.1 ≡ false) ⊎ ((rest ≡ []) × (has_failed e.0 ≡ false))
  silent : has_metadata e.0 ≡ false

all_scanned :
    (expected : List (Text × Text)) (events : List Event)
    → Follows expected (events, true)
    → expected ≡ handled events
all_scanned expected events f = of f.complete
  where
    of : (true ≡ false) ⊎ ((f.rest ≡ []) × (has_failed events ≡ false)) → expected ≡ handled events
    of (inl e) = cc
    of (inr (e, well)) = f.is_prefix ∙ ap (λ l. handled events ++ l) e ∙ append-nil (handled events)

none_failed :
    (expected : List (Text × Text)) (events : List Event)
    → Follows expected (events, true)
    → has_failed events ≡ false
none_failed expected events f = of f.complete
  where
    of : (true ≡ false) ⊎ ((f.rest ≡ []) × (has_failed events ≡ false)) → has_failed events ≡ false
    of (inl e) = cc
    of (inr (e, well)) = well

and_then-Follows :
    (xs ys : List (Text × Text)) (a b : Events)
    → Follows xs a
    → Follows ys b
    → Follows (xs ++ ys) (and_then a b)
and_then-Follows xs ys (events, false) b f g = record {
  rest = f.rest ++ ys;
  is_prefix = ap (λ l. l ++ ys) f.is_prefix ∙ append_assoc (handled events) f.rest ys;
  complete = inl refl;
  silent = f.silent;
}
and_then-Follows xs ys (events, true) (more, going_on) f g = record {
  rest = g.rest;
  is_prefix =
      ap (λ l. l ++ ys) (all_scanned xs events f)
      ∙ ap (λ l. handled events ++ l) g.is_prefix
      ∙ sym (append_assoc (handled events) (handled more) g.rest)
      ∙ ap (λ l. l ++ g.rest) (sym (handled-append events more));
  complete = complete_with g.complete;
  silent = has_metadata-append events more f.silent ∙ g.silent;
}
  where
    complete_with :
        (going_on ≡ false) ⊎ ((g.rest ≡ []) × (has_failed more ≡ false))
        → (going_on ≡ false) ⊎ ((g.rest ≡ []) × (has_failed (events ++ more) ≡ false))
    complete_with (inl e) = inl e
    complete_with (inr (e, well)) =
        inr (e, has_failed-append events more (none_failed xs events f) ∙ well)

none-Follows : Follows [] ([], true)
none-Follows = record { rest = []; is_prefix = refl; complete = inr (refl, refl); silent = refl }

made-Follows : (dir : Text) → Follows [] (Event.made dir ∷ [], true)
made-Follows dir = record {
  rest = [];
  is_prefix = refl;
  complete = inr (refl, refl);
  silent = refl;
}

scan_ended-Follows :
    (path output : Text) (o : Option FileEnd)
    → Follows ((path, output) ∷ []) (scan_ended path output o)
scan_ended-Follows path output none = record {
  rest = [];
  is_prefix = refl;
  complete = inl refl;
  silent = refl;
}
scan_ended-Follows path output (some FileEnd.fatal) = record {
  rest = [];
  is_prefix = refl;
  complete = inl refl;
  silent = refl;
}
scan_ended-Follows path output (some (FileEnd.unsupported n)) = record {
  rest = [];
  is_prefix = refl;
  complete = inr (refl, refl);
  silent = refl;
}
scan_ended-Follows path output (some (FileEnd.finished w n)) = record {
  rest = [];
  is_prefix = refl;
  complete = inr (refl, refl);
  silent = refl;
}

module _ (cfg : StartCfg) (world : StartWorld)
    (scan : ℕ → ℕ → ℕ → List InputFileFormat → Option (List ParquetQueryResult))
    (working_dir : Text) where
  -- The scans that a list of files asks for.
  abbrev pub wanted : List (Text × Text) → List (Text × Text)
  wanted files = map (λ (f : Text × Text). (f.0, output_path working_dir f.1)) files

  wanted-append : (xs ys : List (Text × Text)) → wanted (xs ++ ys) ≡ wanted xs ++ wanted ys
  wanted-append [] ys = refl
  wanted-append (f ∷ xs) ys = ap (λ l. (f.0, output_path working_dir f.1) ∷ l) (wanted-append xs ys)

  scan_into-Follows :
      (i j : ℕ) (name path : Text)
      → Follows (wanted ((path, name) ∷ [])) (scan_into cfg world scan working_dir i j name path)
  unfolding scan_into
  scan_into-Follows i j name path =
      let output = output_path working_dir name in
      and_then-Follows [] _ (Event.made output ∷ [], true) _ (made-Follows output)
        (scan_ended-Follows path output
          (scan_file (scan i j) (world.around i j) cfg.batch_size (world.input i j)))

  scan_entries-Follows :
      (i j : ℕ) (dir : Text) (entries : List DirEntry)
      → Follows
          (wanted (files_in world.join dir entries))
          (scan_entries cfg world scan working_dir i j dir entries)
  unfolding scan_entries
  scan_entries-Follows i j dir [] = none-Follows
  scan_entries-Follows i j dir (e ∷ entries) =
      under e.is_dir (scan_entries-Follows i (j + 1) dir entries)
    where
      rest : Events
      rest = scan_entries cfg world scan working_dir i (j + 1) dir entries

      files : List (Text × Text)
      files = files_in world.join dir entries

      under :
          (b : Bool)
          → Follows (wanted files) rest
          → Follows (wanted (if b then files else (world.join dir e.name, e.name) ∷ files)) (
              if b
              then rest
              else and_then
                  (scan_into cfg world scan working_dir i j e.name (world.join dir e.name))
                  rest)
      under true f = f
      under false f =
          and_then-Follows _ _ _ _ (scan_into-Follows i j e.name (world.join dir e.name)) f

  scan_argument-Follows :
      (i : ℕ) (path : Text) (arg : Argument)
      → Follows
          (wanted (files_at world.join path arg))
          (scan_argument cfg world scan working_dir i path arg)
  unfolding scan_argument
  scan_argument-Follows i path Argument.missing = none-Follows
  scan_argument-Follows i path (Argument.file base_name) = scan_into-Follows i 0 base_name path
  scan_argument-Follows i path (Argument.directory none) = none-Follows
  scan_argument-Follows i path (Argument.directory (some entries)) =
      scan_entries-Follows i 0 path entries

  scan_arguments-Follows :
      (i : ℕ) (args : List (Text × Argument))
      → Follows
          (wanted (files_of world.join args))
          (scan_arguments cfg world scan working_dir i args)
  unfolding scan_arguments
  scan_arguments-Follows i [] = none-Follows
  scan_arguments-Follows i ((path, arg) ∷ args) =
      subst (λ l. Follows l (scan_arguments cfg world scan working_dir i ((path, arg) ∷ args)))
        (sym (wanted-append (files_at world.join path arg) (files_of world.join args)))
        (and_then-Follows _ _ _ _ (scan_argument-Follows i path arg)
          (scan_arguments-Follows (i + 1) args))

-- What the events say of the wanted scans.
pub record IsStarted (expected : List (Text × Text)) (e : Events) : Type 0 where
  rest : List (Text × Text)
  is_prefix : expected ≡ handled e.0 ++ rest
  complete : (has_metadata e.0 ≡ false) ⊎ ((rest ≡ []) × (has_failed e.0 ≡ false))
  written : e.1 ≡ has_metadata e.0

stopped : (expected : List (Text × Text)) → IsStarted expected ([], false)
stopped expected = record { rest = expected; is_prefix = refl; complete = inl refl; written = refl }

end-IsStarted :
    (dir path : Text) (stat : ScanStat) (b : Bool) (expected : List (Text × Text)) (e : Events)
    → Follows expected e
    → IsStarted expected (
        and_then
          (Event.made dir ∷ [], true)
          (and_then e (if b then (Event.wrote_metadata path stat ∷ [], true) else ([], false))))
end-IsStarted dir path stat b expected (events, false) f = record {
  rest = f.rest;
  is_prefix = f.is_prefix;
  complete = inl f.silent;
  written = sym f.silent;
}
end-IsStarted dir path stat true expected (events, true) f = record {
  rest = [];
  is_prefix =
      all_scanned expected events f
      ∙ sym (
          handled-append events (Event.wrote_metadata path stat ∷ []) ∙ append-nil (handled events))
      ∙ sym (append-nil (handled (events ++ Event.wrote_metadata path stat ∷ [])));
  complete = inr (
    refl,
    has_failed-append events (Event.wrote_metadata path stat ∷ []) (none_failed expected events f),
  );
  written = sym (has_metadata-append events (Event.wrote_metadata path stat ∷ []) f.silent);
}
end-IsStarted dir path stat false expected (events, true) f = record {
  rest = [];
  is_prefix =
      all_scanned expected events f
      ∙ sym (handled-append events [] ∙ append-nil (handled events))
      ∙ sym (append-nil (handled (events ++ [])));
  complete = inr (refl, has_failed-append events [] (none_failed expected events f));
  written = sym (has_metadata-append events [] f.silent);
}

-- Whatever fails, the scanner calls scanFile for the first of the files of its arguments in their
-- order, those in directories included, each with the directory that is named after it. It writes
-- the file on the scan only if it has called it for all of them and no call has ended the program, so
-- that each file was scanned or passed over for its extension. It ends without an error exactly if it
-- has written this file.
pub start_scan-IsStarted :
    (cfg : StartCfg) (world : StartWorld)
    (scan : ℕ → ℕ → ℕ → List InputFileFormat → Option (List ParquetQueryResult))
    (args : List (Text × Argument))
    → IsStarted
        (wanted cfg world scan (cfg.output_dir ++ world.stamp) (files_of world.join args))
        (start_scan cfg world scan args false)
unfolding start_scan
start_scan-IsStarted cfg world scan args = guarded world.output_dir_exists world.makes_working_dir
  where
    working_dir : Text
    working_dir = cfg.output_dir ++ world.stamp

    expected : List (Text × Text)
    expected = wanted cfg world scan working_dir (files_of world.join args)

    events : Events
    events =
        and_then (Event.made working_dir ∷ [], true)
          (and_then (scan_arguments cfg world scan working_dir 0 args)
            (write_metadata cfg world scan working_dir))

    guarded :
        (b c : Bool)
        → IsStarted expected (if b then if c then events else ([], false) else ([], false))
    guarded true true =
        end-IsStarted working_dir _ _ world.metadata_written expected
          (scan_arguments cfg world scan working_dir 0 args)
          (scan_arguments-Follows cfg world scan working_dir 0 args)
    guarded true false = stopped expected
    guarded false c = stopped expected
