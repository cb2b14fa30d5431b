-- ===== src/Qmin/Pattern.antt =====
-- The pattern of a row: analyzePattern (src/postprocessing/qmin/postproc_scan_result.go).
use odns_measurement_tools.Base.{
  ◌>>=◌, ℕ, ◌+◌, ◌-◌, Bool, true, false, not, ◌&&◌, Option, none, some, List, [], ◌∷◌, ◌++◌, ltb,
  ◌==◌, if◌then◌else◌,
}
use odns_measurement_tools.Text.Defs.{Text, codes, has, count, has_suffix, split, first}
use odns_measurement_tools.Text.Number.{ℤ, pos, negsuc, ◌+ℤ◌, max_int, itoa, itoa_int, atoi}

-- The metadata of one scan run.
pub record Metadata : Type 0 where
  pub start : Text
  pub fin : Text
  pub runtime : Text
  pub input : Text
  pub num_resolver : ℕ
  pub timeout : ℕ
  pub retry_timeout : ℕ
  pub protocol : Text
  pub label_depth : ℕ
  pub rounds : ℕ
  pub base_url : Text

pub record Analysis : Type 0 where
  pub qmin : Bool
  pub qmin_pattern : Text
  pub max : ℕ
  pub min : ℕ

-- The number of labels of the base domain.
unfoldable pub base_labels : Text → ℕ
base_labels url = if has_suffix url (codes ".") then count b'.' url else count b'.' url + 1

-- An int of 64 bits.
abbrev pub wrap_int : ℤ → ℤ
wrap_int (pos n) = if ltb max_int n then negsuc (18446744073709551615 - n) else pos n
wrap_int (negsuc n) = negsuc n

-- `parts[1]`, if it is in range.
abbrev pub second_part : List Text → Option Text
second_part (a ∷ b ∷ more) = some b
second_part _ = none

abbrev pub has_one : List Text → Bool
has_one (p ∷ []) = true
has_one _ = false

-- What the loop over the parts keeps.
pub record Progress : Type 0 where
  pub pattern : Text
  pub least : ℕ
  pub min_boundary_reached : Bool

abbrev pub count_min : Text → Progress → Progress
count_min part s =
    if not s.min_boundary_reached && count b'.' part == 0
    then record s { least = s.least + 1 }
    else record s { min_boundary_reached = true }

module _ (base : ℕ) where
  abbrev pub render_part : List Text → Text → Text → Option Text
  render_part split2 type pattern =
      if has_one split2 && has b'-' (first split2)
      then some (itoa (1 + base) ++ type)
      else (atoi (first split2) >>= λ stage.
          some (itoa_int (wrap_int (stage +ℤ (1 + base))) ++ (type ++ b'-' ∷ pattern)))

  abbrev pub part_split : List Text → Progress → Text → Option Progress
  part_split split1 counted pattern = second_part split1 >>= λ type.
      render_part (split b'.' (first split1)) type pattern >>= λ more.
      some (record counted { pattern = more })

  -- A round of the loop. The result is `none` where the program ends by `log.Fatalln` or where
  -- there is no second part.
  unfoldable pub part_step : Text → Progress → Option Progress
  part_step part s = part_split (split b'_' part) (count_min part s) s.pattern

  -- The loop takes the parts from the last one on.
  unfoldable pub analyze_parts : List Text → Option Progress
  unfolding part_step
  analyze_parts [] = some (record { pattern = []; least = 0; min_boundary_reached = false })
  analyze_parts (part ∷ parts) = analyze_parts parts >>= λ s. part_step part s

  unfoldable pub analyze_single : Text → Option Analysis
  analyze_single pattern =
      if not (has b'.' pattern)
      then some (record { qmin = false; qmin_pattern = pattern; max = 0; min = 0 })
      else (second_part (split b'_' pattern) >>= λ type. some (record {
        qmin = false;
        qmin_pattern = itoa (count b'.' pattern + 1 + base) ++ type;
        max = 1;
        min = 1;
      }))

  abbrev pub analyze_several : Text → Option Analysis
  unfolding analyze_parts
  analyze_several pattern = analyze_parts (split b'|' pattern) >>= λ s. some (record {
    qmin = true;
    qmin_pattern = s.pattern;
    max = count b'|' pattern + 1;
    min = s.least;
  })

-- `analyzePattern`
unfoldable pub analyze_pattern : Text → Metadata → Option Analysis
unfolding analyze_single analyze_parts
analyze_pattern pattern metadata =
    if not (has b'|' pattern)
    then analyze_single (base_labels metadata.base_url) pattern
    else analyze_several (base_labels metadata.base_url) pattern
