-- ===== src/Qmin/Batched.antt =====
-- The batches that the QMIN scanner makes of the lines of a text file (src/qmin/scanner/scanner.go).
use odns_measurement_tools.Base.{
  ◌>>=◌, ℕ, ◌+◌, ◌≤◌, ◌<◌, ◌≡◌, refl, sym, ap, ◌∙◌, arith, Bool, true, false, Option, none, some,
  List, [], ◌∷◌, ◌++◌, length, map, if◌then◌else◌, if_both, bind_ext, All, length-append, ◌==◌,
  Bool-cases, inl, inr,
}
use mathlib.Core.List.{append_assoc, append-nil}
use odns_measurement_tools.Text.Defs.{Text}
use odns_measurement_tools.Text.Number.{pos}
use odns_measurement_tools.Qmin.Routines.{InputFileFormat, ParquetQueryResult}
use odns_measurement_tools.Qmin.Batches.{
  Os, Scanned, txt_row, is_nil, last_batch, close_store, txt_loop, read_input_txt_and_scan,
}
use Scanned.{stored, failed}

abbrev pub concat {ℓ} : {A : Type ℓ} → List (List A) → List A
concat [] = []
concat (xs ∷ xss) = xs ++ concat xss

-- The batches of the resolvers behind a batch that is begun.
abbrev pub batches : ℕ → List InputFileFormat → List Text → List (List InputFileFormat)
batches size batch [] = if is_nil batch then [] else batch ∷ []
batches size batch (t ∷ lines) =
    let full = batch ++ txt_row t ∷ [] in
    if size == length full then full ∷ batches size [] lines else batches size full lines

-- Nothing fails.
abbrev pub all_well : Os
all_well = record { created = true; opened = true; read_ok = true; closed = true }

abbrev pub IsBatch : ℕ → List InputFileFormat → Type 0
IsBatch size batch = (0 < length batch) × (length batch ≤ size)

batches-concat :
    (size : ℕ) (batch : List InputFileFormat) (lines : List Text)
    → concat (batches size batch lines) ≡ batch ++ map txt_row lines
batches-concat size [] [] = refl
batches-concat size (r ∷ batch) [] = refl
batches-concat size batch (t ∷ lines) =
    let full = batch ++ txt_row t ∷ [] in
    if_both (λ bs. concat bs ≡ batch ++ map txt_row (t ∷ lines)) (size == length full) _ _
      (ap (λ bs. full ++ bs) (batches-concat size [] lines)
        ∙ append_assoc batch (txt_row t ∷ []) (map txt_row lines))
      (batches-concat size full lines ∙ append_assoc batch (txt_row t ∷ []) (map txt_row lines))

batches-IsBatch :
    (size : ℕ) (batch : List InputFileFormat) (lines : List Text)
    → length batch < size
    → All (IsBatch size) (batches size batch lines)
batches-IsBatch size [] [] h = tt
batches-IsBatch size (r ∷ batch) [] h = ((omega arith, omega arith), tt)
batches-IsBatch size batch (t ∷ lines) h =
    let full = batch ++ txt_row t ∷ [] in
    let longer : length full ≡ length batch + 1 = length-append batch (txt_row t ∷ []) in
    elim (Bool-cases (size == length full)) [
      | inl same ↦ rw same (
        (grind (arith, longer), grind (arith, longer)),
        batches-IsBatch size [] lines (omega arith),
      )
      | inr smaller ↦ rw smaller (batches-IsBatch size full lines (ground (arith, longer)))
    ]

module _ (scan : ℕ → List InputFileFormat → Option (List ParquetQueryResult)) where
  -- The batches scanned one after the other.
  abbrev pub scan_all : ℕ → List (List InputFileFormat) → Option (List ParquetQueryResult)
  scan_all n [] = some []
  scan_all n (batch ∷ bs) =
      scan n batch >>= λ rows. scan_all (n + 1) bs >>= λ more. some (rows ++ more)

  abbrev finish_all :
      Os → List ParquetQueryResult → Option (List ParquetQueryResult) → Option Scanned
  finish_all os rows o = o >>= λ more. some (close_store os (rows ++ more))

  finish_all-append :
      (os : Os) (rows : List ParquetQueryResult) (o : Option (List ParquetQueryResult))
      (rest : Option (List ParquetQueryResult))
      → (o >>= λ more. finish_all os (rows ++ more) rest)
        ≡ finish_all os rows (o >>= λ first. rest >>= λ more. some (first ++ more))
  finish_all-append os rows none rest = refl
  finish_all-append os rows (some first) none = refl
  finish_all-append os rows (some first) (some more) =
      ap (λ all. some (close_store os all)) (append_assoc rows first more)

  last-scan_all :
      (os : Os) (n : ℕ) (batch : List InputFileFormat) (rows : List ParquetQueryResult)
      → (last_batch scan n batch >>= λ more. some (close_store os (rows ++ more)))
        ≡ finish_all os rows (scan_all n (if is_nil batch then [] else batch ∷ []))
  last-scan_all os n [] rows = refl
  last-scan_all os n (r ∷ batch) rows = one (scan n (r ∷ batch))
    where
      one :
          (o : Option (List ParquetQueryResult))
          → (o >>= λ more. some (close_store os (rows ++ more)))
            ≡ finish_all os rows (o >>= λ first. some [] >>= λ more. some (first ++ more))
      one none = refl
      one (some first) = ap (λ t. some (close_store os (rows ++ t))) (sym (append-nil first))

  if-eq :
      {A B : Type 0} (f : A → B) (b : Bool) {x y : B} {p q : A}
      → x ≡ f p
      → y ≡ f q
      → (if b then x else y) ≡ f (if b then p else q)
  if-eq f true e d = e
  if-eq f false e d = d

  txt_loop-batches :
      (os : Os) (size n : ℕ) (batch : List InputFileFormat) (rows : List ParquetQueryResult)
      (lines : List Text)
      → os.read_ok ≡ true
      → txt_loop scan os (pos size) n batch rows lines
        ≡ finish_all os rows (scan_all n (batches size batch lines))
  unfolding txt_loop
  txt_loop-batches os size n batch rows [] ok =
      ap
        (λ b.
          if b
          then (last_batch scan n batch >>= λ more. some (close_store os (rows ++ more)))
          else some (failed none))
        ok
      ∙ last-scan_all os n batch rows
  txt_loop-batches os size n batch rows (t ∷ lines) ok =
      let full = batch ++ txt_row t ∷ [] in
      if-eq (λ bs. finish_all os rows (scan_all n bs)) (size == length full)
        {p = full ∷ batches size [] lines} {q = batches size full lines}
        (bind_ext (scan n full) _ _
            (λ more. txt_loop-batches os size (n + 1) [] (rows ++ more) lines ok)
          ∙ finish_all-append os rows (scan n full) (scan_all (n + 1) (batches size [] lines)))
        (txt_loop-batches os size n full rows lines ok)

  -- If the files can be opened, read and closed and the size of a batch is positive, then the scan of
  -- a text file scans batches that are neither empty nor longer than the size, one after the other,
  -- and that together are the lines in their order, and it stores the rows of all batches.
  pub read_input_txt-batches :
      (size : ℕ) (lines : List Text)
      → 0 < size
      → (bs : List (List InputFileFormat)) × (concat bs ≡ map txt_row lines)
        × All (IsBatch size) bs
        × (read_input_txt_and_scan scan all_well (pos size) lines
            ≡ (scan_all 0 bs >>= λ rows. some (stored rows)))
  unfolding read_input_txt_and_scan
  read_input_txt-batches size lines h = (
    batches size [] lines,
    batches-concat size [] lines,
    batches-IsBatch size [] lines h,
    txt_loop-batches all_well size 0 [] [] lines refl,
  )
