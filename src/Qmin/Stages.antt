-- ===== src/Qmin/Stages.antt =====
-- The queries that a resolver with QNAME minimisation sends for one domain, and what the server's
-- sequence of tokens (src/qmin/dns_server/dns_server.go) is to hold of them.
use odns_measurement_tools.Base.{
  ℕ, zero, suc, ◌<◌, ◌≡◌, ◌≢◌, sym, ap, ◌∙◌, arith, true, List, [], ◌∷◌, ◌++◌, length,
  length-append,
}
use mathlib.Core.List.{append_assoc}
use odns_measurement_tools.Text.Defs.{Text, first, contains, Lacks}
use odns_measurement_tools.Text.Equality.{take-before, contains-suffix}
use odns_measurement_tools.Text.Number.{itoa, itoa-All, All-Lacks, IsDigit}
use odns_measurement_tools.Text.Parts.{split-first, Lacks-append}
use odns_measurement_tools.Qmin.Query.{labels}
use odns_measurement_tools.Qmin.Server.{strip_rtypes, strip, extend}

-- The number n + a + 1.
abbrev pub after : ℕ → ℕ → ℕ
after zero a = suc a
after (suc n) a = suc (after n a)

-- The labels from n + a + 1 down to a + 1.
abbrev pub segment : ℕ → ℕ → Text
segment a zero = itoa (suc a)
segment a (suc n) = itoa (suc (after n a)) ++ b'.' ∷ segment a n

-- The queries after the first, the latest first: n + 1 labels more than before, and the type.
abbrev pub Queries : Type 0
Queries = List (ℕ × Text)

-- The number of labels in front of the id token.
abbrev pub stage : Queries → ℕ
stage [] = 0
stage ((n, t) ∷ qs) = after n (stage qs)

-- What is to be recorded.
abbrev pub recorded : Text → Text → Queries → List Text
recorded id type [] = (id ++ b'_' ∷ type) ∷ []
recorded id type ((n, t) ∷ qs) = (segment (stage qs) n ++ b'_' ∷ t) ∷ recorded id type qs

pub labels-segment :
    (a n : ℕ) (s : Text) → labels (after n a) ++ s ≡ segment a n ++ b'.' ∷ (labels a ++ s)
unfolding labels
labels-segment a zero s = append_assoc (itoa (suc a)) (b'.' ∷ labels a) s
labels-segment a (suc n) s =
    append_assoc (itoa (suc (after n a))) (b'.' ∷ labels (after n a)) s
    ∙ ap (λ u. itoa (suc (after n a)) ++ b'.' ∷ u) (labels-segment a n s)
    ∙ sym (append_assoc (itoa (suc (after n a))) (b'.' ∷ segment a n) _)

pub segment-Lacks : (b : ℕ) → (IsDigit b → ⊥) → b ≢ b'.' → (a n : ℕ) → Lacks b (segment a n)
segment-Lacks b out dot a zero = All-Lacks b (itoa (suc a)) out (itoa-All (suc a))
segment-Lacks b out dot a (suc n) =
    Lacks-append b (itoa (suc (after n a))) (b'.' ∷ segment a n)
      (All-Lacks b _ out (itoa-All (suc (after n a))))
      ((λ e. dot (sym e)), segment-Lacks b out dot a n)

segment-underscore : (a n : ℕ) → Lacks b'_' (segment a n)
segment-underscore = segment-Lacks b'_' (λ d. omega arith) (λ e. omega arith)

strip-append : (p t : Text) → Lacks b'_' p → strip (p ++ b'_' ∷ t) ≡ p
strip-append p t h = ap first (split-first b'_' p t h)

strip-join :
    (a n : ℕ) (t s u : Text)
    → s ≡ u
    → strip (segment a n ++ b'_' ∷ t) ++ b'.' ∷ s ≡ segment a n ++ b'.' ∷ u
strip-join a n t s u e =
    ap (λ v. v ++ b'.' ∷ s) (strip-append (segment a n) t (segment-underscore a n))
    ∙ ap (λ v. segment a n ++ b'.' ∷ v) e

-- Without the types, what is recorded is the domain of the last query.
pub strip_rtypes-recorded :
    (id type : Text)
    → Lacks b'_' id
    → (qs : Queries) → strip_rtypes (recorded id type qs) ≡ labels (stage qs) ++ id
unfolding strip_rtypes labels
strip_rtypes-recorded id type h [] = strip-append id type h
strip_rtypes-recorded id type h ((n, t) ∷ []) =
    strip-join 0 n t _ id (strip-append id type h) ∙ sym (labels-segment 0 n id)
strip_rtypes-recorded id type h ((n, t) ∷ (m, u) ∷ qs) =
    let a = stage ((m, u) ∷ qs) in
    strip-join a n t _ (labels a ++ id) (strip_rtypes-recorded id type h ((m, u) ∷ qs))
    ∙ sym (labels-segment a n id)

pub segment_longer : (a n : ℕ) (s : Text) → length s < length (segment a n ++ b'.' ∷ s)
segment_longer a n s = ground (arith, length-append (segment a n) (b'.' ∷ s))

-- `extend` with a domain that the query ends in, behind a dot.
pub extend-segment :
    (seq : List Text) (p s t : Text) (tokens : List Text)
    → 0 < length s
    → extend seq s (p ++ b'.' ∷ s) tokens t
      ≡ record { updated_seq = (p ++ b'_' ∷ t) ∷ seq; token_num = length tokens; extended = true }
unfolding extend
extend-segment seq p s t tokens h =
    ground (arith, take-before p s b'.', length-append p (b'.' ∷ s), contains_behind)
  where
    contains_behind : contains (p ++ b'.' ∷ s) s ≡ true
    contains_behind =
        ap (λ u. contains u s) (sym (append_assoc p (b'.' ∷ []) s))
        ∙ contains-suffix (p ++ b'.' ∷ []) s
