-- ===== src/Qmin/Detect.antt =====
-- The text of the server's answer (src/qmin/dns_server/dns_server.go) as the scanner
-- (src/qmin/scanner/scanner.go) and the analysis split it.
use odns_measurement_tools.Base.{
  ℕ, suc, ◌≡◌, ◌≢◌, refl, sym, ap, ◌∙◌, arith, false, not, List, [], ◌∷◌, ◌++◌, length,
  if◌then◌else◌, All, Bool-cases, inl, inr,
}
use odns_measurement_tools.Net.{bytes_eq}
use odns_measurement_tools.Text.Defs.{Text, codes, count, split, join, Lacks}
use odns_measurement_tools.Text.Equality.{bytes_eq_sound}
use odns_measurement_tools.Text.Number.{pos, negsuc, IsDigit}
use odns_measurement_tools.Text.Parts.{
  split-first, Lacks-append, Lacks-count, count-append, has-append,
}
use odns_measurement_tools.Qmin.Query.{result_of, eval_txt, eval_split, failed}
use odns_measurement_tools.Qmin.Stages.{Queries, stage, segment, segment-Lacks, recorded}

abbrev pub reported : Text → Text → Text
reported address pattern = address ++ b',' ∷ (pattern ++ codes ",NULL,NULL")

abbrev parts_of : Text → Text → List Text
parts_of address pattern = address ∷ pattern ∷ codes "NULL" ∷ codes "NULL" ∷ []

split-reported :
    (address pattern : Text)
    → Lacks b',' address
    → Lacks b',' pattern
    → split b',' (reported address pattern) ≡ parts_of address pattern
unfolding split
split-reported address pattern h k =
    split-first b',' address (pattern ++ codes ",NULL,NULL") h
    ∙ ap (λ u. address ∷ u) (split-first b',' pattern (codes "NULL,NULL") k)

not_false :
    (address pattern : Text)
    → Lacks b',' address
    → Lacks b',' pattern
    → bytes_eq (reported address pattern) (codes "false,,,") ≡ false
unfolding split
not_false address pattern h k =
    elim (Bool-cases (bytes_eq (reported address pattern) (codes "false,,,"))) [
      | inl same ↦ absurd (
          differ (
            sym
              (ap (split b',') (bytes_eq_sound (reported address pattern) (codes "false,,,") same))
            ∙ split-reported address pattern h k))
      | inr other ↦ other
    ]
  where
    differ : split b',' (codes "false,,,") ≡ parts_of address pattern → ⊥
    differ e = cc

-- A text of four parts is read as such.
pub eval_txt-parts :
    (server address pattern : Text)
    → Lacks b',' address
    → Lacks b',' pattern
    → eval_txt server (reported address pattern)
      ≡ record (result_of server address (pos 0) pattern) {
        induction_requester = codes "NULL";
        induction_pattern = codes "NULL";
      }
unfolding eval_txt
eval_txt-parts server address pattern h k =
    let txt = reported address pattern in
    let none_sent = failed server (pos 0) (codes "false") in
    let bad = failed server (negsuc 0) (codes "unhandledError") in
    ap
      (λ b.
        if not b
        then bad
        else if bytes_eq txt (codes "false,,,")
        then none_sent
        else eval_split server (split b',' txt))
      (has-append b',' address (pattern ++ codes ",NULL,NULL"))
    ∙ ap (λ b. if b then none_sent else eval_split server (split b',' txt))
        (not_false address pattern h k)
    ∙ ap (eval_split server) (split-reported address pattern h k)

pub join-Lacks : (b sep : ℕ) → sep ≢ b → (ps : List Text) → All (Lacks b) ps → Lacks b (join sep ps)
join-Lacks b sep h [] all = tt
join-Lacks b sep h (p ∷ []) all = all.0
join-Lacks b sep h (p ∷ q ∷ ps) (l, all) = Lacks-append b p _ l (h, join-Lacks b sep h (q ∷ ps) all)

pub count-join :
    (sep : ℕ) (p : Text) (ps : List Text)
    → All (Lacks sep) (p ∷ ps)
    → count sep (join sep (p ∷ ps)) ≡ length ps
count-join sep p [] all = Lacks-count sep p all.0
count-join sep p (q ∷ ps) (l, all) = ground (
  arith,
  count-append sep p (sep ∷ join sep (q ∷ ps)),
  Lacks-count sep p l,
  count-join sep q ps all,
)

pub length-recorded :
    (id type : Text) (qs : Queries) → length (recorded id type qs) ≡ suc (length qs)
length-recorded id type [] = refl
length-recorded id type ((n, t) ∷ qs) = ap suc (length-recorded id type qs)

pub recorded-Lacks :
    (b : ℕ)
    → (IsDigit b → ⊥)
    → b ≢ b'.'
    → b ≢ b'_'
    → (id type : Text) → Lacks b id
    → Lacks b type
    → (qs : Queries) → All (λ q. Lacks b q.1) qs
    → All (Lacks b) (recorded id type qs)
recorded-Lacks b out dot under id type h k [] all =
    (Lacks-append b id (b'_' ∷ type) h ((λ e. under (sym e)), k), tt)
recorded-Lacks b out dot under id type h k ((n, t) ∷ qs) (l, all) = (
  Lacks-append b (segment (stage qs) n) (b'_' ∷ t) (segment-Lacks b out dot (stage qs) n)
      ((λ e. under (sym e)), l),
  recorded-Lacks b out dot under id type h k qs all,
)
