-- ===== src/Qmin/Domains.antt =====
-- How the server takes a domain of the scanner apart (src/qmin/dns_server/dns_server.go,
-- requestResponse).
use odns_measurement_tools.Base.{
  ℕ, zero, suc, ◌<◌, ◌≡◌, ◌≢◌, refl, sym, ap, ◌∙◌, arith, true, false, none, List, [], ◌∷◌, ◌++◌,
  length, length-append,
}
use mathlib.Core.Path.{subst}
use mathlib.Core.List.{append_assoc}
use odns_measurement_tools.Text.Defs.{
  Text, codes, has_prefix, has_suffix, split, last, to_lower, Lacks,
}
use odns_measurement_tools.Text.Equality.{take-before, has_suffix-append}
use odns_measurement_tools.Text.Number.{itoa, itoa-All, All-Lacks, IsDigit}
use odns_measurement_tools.Text.Parts.{split-one, split-first, Lacks-append}
use odns_measurement_tools.Qmin.Query.{labels}
use odns_measurement_tools.Qmin.Server.{ServerCfg, Request, Probes}
use odns_measurement_tools.Qmin.Handler.{
  strip_underscore, predefined, dispatch, request_response, handle_domain, handle_tokens,
}

-- The labels of a query in front of a token without a dot.
abbrev pub Labelled : ℕ → Text → List Text → Type 0
Labelled a id tokens = (last tokens ≡ id) × (length tokens ≡ suc a)

Labelled-cons :
    (a : ℕ) (id t : Text) (tokens : List Text)
    → Labelled a id tokens
    → Labelled (suc a) id (t ∷ tokens)
Labelled-cons a id t [] (l, n) = absurd (omega arith)
Labelled-cons a id t (u ∷ tokens) (l, n) = (l, ap suc n)

pub split-labels : (a : ℕ) (id : Text) → Lacks b'.' id → Labelled a id (split b'.' (labels a ++ id))
unfolding labels
split-labels zero id h = subst (Labelled 0 id) (sym (split-one b'.' id h)) (refl, refl)
split-labels (suc a) id h =
    subst (Labelled (suc a) id)
      (sym (
        ap (split b'.') (append_assoc (itoa (suc a)) (b'.' ∷ labels a) id)
        ∙ split-first b'.' (itoa (suc a)) (labels a ++ id)
            (All-Lacks b'.' _ (λ d. omega arith) (itoa-All (suc a)))))
      (Labelled-cons a id (itoa (suc a)) (split b'.' (labels a ++ id)) (split-labels a id h))

pub labels-Lacks : (b : ℕ) → (IsDigit b → ⊥) → b ≢ b'.' → (a : ℕ) → Lacks b (labels a)
unfolding labels
labels-Lacks b out dot zero = tt
labels-Lacks b out dot (suc a) =
    Lacks-append b (itoa (suc a)) _ (All-Lacks b _ out (itoa-All (suc a)))
      ((λ e. dot (sym e)), labels-Lacks b out dot a)

no_underscore :
    (p s : Text) → Lacks b'_' p → 0 < length p → has_prefix (p ++ s) (codes "_.") ≡ false
no_underscore [] s h pos = absurd (omega arith)
no_underscore (c ∷ p) s (h, hs) pos = ground arith

strip_underscore-Lacks :
    (p s : Text) → Lacks b'_' p → 0 < length p → strip_underscore (p ++ s) ≡ p ++ s
strip_underscore-Lacks p s h pos = ground (arith, no_underscore p s)

has_suffix-dot : (p s : Text) → has_suffix (p ++ b'.' ∷ s) s ≡ true
has_suffix-dot p s =
    ap (λ t. has_suffix t s) (sym (append_assoc p (b'.' ∷ []) s))
    ∙ has_suffix-append (p ++ b'.' ∷ []) s

module _ {R : Type 0} (cfg : ServerCfg R) (now : ℕ) (r : Request) where
  handle_domain-base :
      (probes : Probes) (p : Text)
      → handle_domain cfg now r probes (p ++ b'.' ∷ cfg.base_url) ≡ handle_tokens cfg now r probes p
  unfolding handle_domain
  handle_domain-base probes p = ground (
    arith,
    length-append p (b'.' ∷ cfg.base_url),
    has_suffix-dot p cfg.base_url,
    take-before p cfg.base_url b'.',
  )

  -- A name of the base domain that is no record of the configuration.
  pub request_response-base :
      (probes : Probes) (p : Text)
      → Lacks b'_' p
      → 0 < length p
      → to_lower r.name ≡ p ++ b'.' ∷ cfg.base_url
      → predefined cfg now r (to_lower r.name) ≡ none
      → request_response cfg now r probes ≡ handle_tokens cfg now r probes p
  unfolding request_response
  request_response-base probes p h pos name free =
      ap (λ o. dispatch cfg now r probes o (to_lower r.name)) free
      ∙ ap (λ d. handle_domain cfg now r probes (strip_underscore d)) name
      ∙ ap (λ d. handle_domain cfg now r probes d)
          (strip_underscore-Lacks p (b'.' ∷ cfg.base_url) h pos)
      ∙ handle_domain-base probes p
