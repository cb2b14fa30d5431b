-- ===== src/Qmin/Rendered.antt =====
-- The analysis of the tokens that the server records for a resolver's queries
-- (src/postprocessing/qmin/postproc_scan_result.go, analyzePattern).
use odns_measurement_tools.Base.{
  ◌>>=◌, ℕ, zero, suc, ◌+◌, ◌≤◌, ◌<◌, ◌≡◌, refl, ap, ◌∙◌, arith, Bool, false, not, ◌&&◌, ◌||◌, none,
  some, List, [], ◌∷◌, ◌++◌, ◌==◌, if◌then◌else◌, All,
}
use mathlib.Core.List.{append_assoc}
use odns_measurement_tools.Text.Defs.{Text, has, count, split, first, Lacks}
use odns_measurement_tools.Text.Number.{
  pos, ◌+ℤ◌, itoa, itoa_int, itoa-All, All-Lacks, max_int, atoi, parse_int-itoa, IsDigit, ParseInt,
}
use odns_measurement_tools.Text.Parts.{
  split-one, split-first, Lacks-append, Lacks-has, Lacks-count, count-append,
}
use odns_measurement_tools.Qmin.Query.{id_token}
use odns_measurement_tools.Qmin.Pattern.{
  Progress, count_min, render_part, part_split, part_step, analyze_parts, wrap_int,
}
use odns_measurement_tools.Qmin.Stages.{Queries, stage, after, segment, segment-Lacks, recorded}
use odns_measurement_tools.Qmin.Ids.{IsHexDigit, foreign, id_token-Lacks, has-id_token}

-- The name of a record type has none of the separators.
abbrev pub IsTypeName : Text → Type 0
IsTypeName t = Lacks b'_' t × Lacks b'.' t × Lacks b'|' t × Lacks b',' t

-- The number of labels of each query's domain and its type, the latest first.
abbrev pub rendered : ℕ → Text → Queries → Text
rendered base type [] = itoa (1 + base) ++ type
rendered base type ((n, t) ∷ qs) =
    itoa (after n (stage qs) + (1 + base)) ++ (t ++ b'-' ∷ rendered base type qs)

-- Whether a query after the first has more than one label more than the one before.
abbrev pub skips : Queries → Bool
skips [] = false
skips ((n, t) ∷ qs) = skips qs || not (n == 0)

-- The number of queries before the first that skips a label.
abbrev pub one_by_one : Queries → ℕ
one_by_one [] = 1
one_by_one ((n, t) ∷ qs) = let m = one_by_one qs in if not (skips qs) && n == 0 then suc m else m

abbrev pub progress : ℕ → Text → Queries → Progress
progress base type qs = record {
  pattern = rendered base type qs;
  least = one_by_one qs;
  min_boundary_reached = skips qs;
}

itoa-Lacks : (b : ℕ) → (IsDigit b → ⊥) → (n : ℕ) → Lacks b (itoa n)
itoa-Lacks b out n = All-Lacks b (itoa n) out (itoa-All n)

first-segment : (a n : ℕ) → first (split b'.' (segment a n)) ≡ itoa (after n a)
first-segment a zero =
    ap first (split-one b'.' (itoa (suc a)) (itoa-Lacks b'.' (λ d. omega arith) (suc a)))
first-segment a (suc n) =
    ap first (
      split-first b'.' (itoa (suc (after n a))) (segment a n)
        (itoa-Lacks b'.' (λ d. omega arith) _))

count-segment : (a n : ℕ) (t : Text) → Lacks b'.' t → count b'.' (segment a n ++ b'_' ∷ t) ≡ n
count-segment a zero t h = ground (
  arith,
  count-append b'.' (itoa (suc a)) (b'_' ∷ t),
  Lacks-count b'.' (itoa (suc a)) (itoa-Lacks b'.' (λ d. omega arith) (suc a)),
  Lacks-count b'.' t h,
)
count-segment a (suc n) t h =
    let k = itoa (suc (after n a)) in
    ap (count b'.') (append_assoc k (b'.' ∷ segment a n) (b'_' ∷ t))
    ∙ ground (
      arith,
      count-append b'.' k (b'.' ∷ (segment a n ++ b'_' ∷ t)),
      count-segment a n t h,
      Lacks-count b'.' k (itoa-Lacks b'.' (λ d. omega arith) _),
    )

atoi-itoa : (n : ℕ) → n ≤ max_int → atoi (itoa n) ≡ some (pos n)
unfolding atoi
atoi-itoa n h = ap (λ (r : ParseInt). if r.ok then some r.value else none) (parse_int-itoa n h)

after_grows : (n a : ℕ) → a < after n a
after_grows zero a = omega arith
after_grows (suc n) a = grind (arith, after_grows n a)

itoa_int-pos : (n : ℕ) → itoa_int (pos n) ≡ itoa n
unfolding itoa_int
itoa_int-pos n = refl

wrap_small : (n : ℕ) → n ≤ max_int → wrap_int (pos n) ≡ pos n
wrap_small n h = ground arith

module _ (base : ℕ) where
  render_number :
      (split2 : List Text) (k : ℕ) (t pattern : Text)
      → first split2 ≡ itoa k
      → k + (1 + base) ≤ max_int
      → render_part base split2 t pattern ≡ some (itoa (k + (1 + base)) ++ (t ++ b'-' ∷ pattern))
  render_number split2 k t pattern e fits =
      no_dash
      ∙ ap (λ f. atoi f >>= λ z. some (behind (itoa_int (wrap_int (z +ℤ (1 + base)))))) e
      ∙ ap (λ o. o >>= λ z. some (behind (itoa_int (wrap_int (z +ℤ (1 + base))))))
          (atoi-itoa k (omega arith))
      ∙ ap (λ z. some (behind (itoa_int z))) (wrap_small (k + (1 + base)) fits)
      ∙ ap (λ u. some (behind u)) (itoa_int-pos (k + (1 + base)))
    where
      behind : Text → Text
      behind u = u ++ (t ++ b'-' ∷ pattern)

      no_dash :
          render_part base split2 t pattern
          ≡ (atoi (first split2) >>= λ z. some (behind (itoa_int (wrap_int (z +ℤ (1 + base))))))
      no_dash =
          ground (
            arith,
            ap (has b'-') e ∙ Lacks-has b'-' (itoa k) (itoa-Lacks b'-' (λ d. omega arith) k),
          )

  part_segment :
      (a n : ℕ) (t : Text) (counted : Progress) (pattern : Text)
      → IsTypeName t
      → after n a + (1 + base) ≤ max_int
      → part_split base (split b'_' (segment a n ++ b'_' ∷ t)) counted pattern
        ≡ some (record counted { pattern = itoa (after n a + (1 + base)) ++ (t ++ b'-' ∷ pattern) })
  part_segment a n t counted pattern (under, _, _, _) fits =
      ap (λ u. part_split base u counted pattern)
        (split-first b'_' (segment a n) t
            (segment-Lacks b'_' (λ d. omega arith) (λ e. omega arith) a n)
          ∙ ap (λ u. segment a n ∷ u) (split-one b'_' t under))
      ∙ ap (λ o. o >>= λ more. some (record counted { pattern = more }))
          (render_number (split b'.' (segment a n)) (after n a) t pattern (first-segment a n) fits)

  part_id :
      (hex : Text) (depth draw : ℕ) (t : Text) (counted : Progress)
      → All IsHexDigit hex
      → IsTypeName t
      → part_split base (split b'_' (id_token hex depth draw ++ b'_' ∷ t)) counted []
        ≡ some (record counted { pattern = itoa (1 + base) ++ t })
  part_id hex depth draw t counted is_hex (under, _, _, _) =
      let id = id_token hex depth draw in
      ap (λ u. part_split base u counted [])
        (split-first b'_' id t (id_token-Lacks b'_' hex depth draw (foreign b'_' refl) is_hex)
          ∙ ap (λ u. id ∷ u) (split-one b'_' t under))
      ∙ ap (λ u. render_part base u t [] >>= λ more. some (record counted { pattern = more }))
          (split-one b'.' id (id_token-Lacks b'.' hex depth draw (foreign b'.' refl) is_hex))
      ∙ ap
          (λ b.
            (if b
              then some (itoa (1 + base) ++ t)
              else (atoi id >>= λ z.
                  some (itoa_int (wrap_int (z +ℤ (1 + base))) ++ (t ++ b'-' ∷ []))))
            >>= λ more. some (record counted { pattern = more }))
          (has-id_token hex depth draw)

  count_min-segment :
      (n : ℕ) (t : Text) (part type : Text) (qs : Queries)
      → count b'.' part ≡ n
      → count_min part (progress base type qs)
        ≡ record (progress base type ((n, t) ∷ qs)) { pattern = rendered base type qs }
  count_min-segment n t part type qs e = ground arith

  module _ (hex : Text) (depth draw : ℕ) (type : Text) (is_hex : All IsHexDigit hex)
      (named : IsTypeName type) where
    pub analyze_parts-recorded :
        (qs : Queries)
        → All (λ q. IsTypeName q.1) qs
        → stage qs + (1 + base) ≤ max_int
        → analyze_parts base (recorded (id_token hex depth draw) type qs)
          ≡ some (progress base type qs)
    unfolding analyze_parts part_step
    analyze_parts-recorded [] names fits =
        ap (λ m. part_split base (split b'_' (id_token hex depth draw ++ b'_' ∷ type)) m []) counted
        ∙ part_id hex depth draw type (record (progress base type []) { pattern = [] }) is_hex named
      where
        counted :
            count_min
              (id_token hex depth draw ++ b'_' ∷ type)
              (record { pattern = []; least = 0; min_boundary_reached = false })
            ≡ record (progress base type []) { pattern = [] }
        counted = ground (
          arith,
          Lacks-count b'.' (id_token hex depth draw ++ b'_' ∷ type) (
              Lacks-append b'.' (id_token hex depth draw) (b'_' ∷ type)
                (id_token-Lacks b'.' hex depth draw (foreign b'.' refl) is_hex)
                ((λ e. omega arith), named.1)),
        )
    analyze_parts-recorded ((n, t) ∷ qs) (name, names) fits =
        ap (λ o. o >>= λ s. part_step base (segment (stage qs) n ++ b'_' ∷ t) s)
          (analyze_parts-recorded qs names (grind (arith, after_grows n (stage qs))))
        ∙ ap
            (λ c.
              part_split base (split b'_' (segment (stage qs) n ++ b'_' ∷ t)) c
                (rendered base type qs))
            (count_min-segment n t (segment (stage qs) n ++ b'_' ∷ t) type qs
              (count-segment (stage qs) n t name.1))
        ∙ part_segment (stage qs) n t
            (record (progress base type ((n, t) ∷ qs)) { pattern = rendered base type qs })
            (rendered base type qs) name fits
