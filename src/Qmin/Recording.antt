-- ===== src/Qmin/Recording.antt =====
-- The server's sequence of tokens along the queries of a resolver with QNAME minimisation
-- (src/qmin/dns_server/dns_server.go, updateProbeEntry).
use odns_measurement_tools.Base.{
  ℕ, ◌<◌, ◌≡◌, ap, ◌∙◌, arith, Bool, true, false, ◌&&◌, some, List, ◌∷◌, ◌++◌, length, ◌==◌,
  length-append,
}
use odns_measurement_tools.Text.Defs.{Text, contains, Lacks}
use odns_measurement_tools.Text.Number.{ℤ}
use odns_measurement_tools.Qmin.Query.{labels}
use odns_measurement_tools.Qmin.Server.{
  strip_rtypes, Update, extend, update_probe_entry, repeat_txt, type_txt,
}
use odns_measurement_tools.Qmin.Stages.{
  Queries, stage, after, segment, recorded, labels-segment, strip_rtypes-recorded, extend-segment,
}

labels_append_pos : (a : ℕ) (id : Text) → 0 < length id → 0 < length (labels a ++ id)
labels_append_pos a id h = ground (arith, length-append (labels a) id)

longer_differs : (p s : Text) (a b : Bool) → (length s == length (p ++ b'.' ∷ s) && a && b) ≡ false
longer_differs p s a b = ground (arith, length-append p (b'.' ∷ s))

extended_once :
    (type_to_string : ℕ → Text) (l : ℤ) (seq : List Text) (p s : Text) (tokens : List Text) (q : ℕ)
    → strip_rtypes seq ≡ s
    → 0 < length s
    → update_probe_entry type_to_string l seq (p ++ b'.' ∷ s) tokens q
      ≡ some (record {
        updated_seq = (p ++ b'_' ∷ type_to_string q) ∷ seq;
        token_num = length tokens;
        extended = true;
      })
unfolding update_probe_entry extend
extended_once type_to_string l seq p s tokens q e h =
    let type = type_to_string q in
    let domain = p ++ b'.' ∷ s in
    let u : Update = record {
      updated_seq = (p ++ b'_' ∷ type) ∷ seq;
      token_num = length tokens;
      extended = true;
    } in
    ap
      (λ d.
        repeat_txt l (length d == length domain && contains domain d && q == type_txt) type
          (extend seq d domain tokens type))
      e
    ∙ ap
        (λ v. repeat_txt l (length s == length domain && contains domain s && q == type_txt) type v)
        (extend-segment seq p s type tokens h)
    ∙ ap (λ b. repeat_txt l b type u) (longer_differs p s (contains domain s) (q == type_txt))

pub update_probe_entry-recorded :
    (type_to_string : ℕ → Text) (l : ℤ) (id type : Text) (qs : Queries) (n : ℕ) (tokens : List Text)
    (q : ℕ)
    → Lacks b'_' id
    → 0 < length id
    → update_probe_entry type_to_string l
        (recorded id type qs)
        (labels (after n (stage qs)) ++ id)
        tokens
        q
      ≡ some (record {
        updated_seq = recorded id type ((n, type_to_string q) ∷ qs);
        token_num = length tokens;
        extended = true;
      })
update_probe_entry-recorded type_to_string l id type qs n tokens q h pos =
    ap (λ t. update_probe_entry type_to_string l (recorded id type qs) t tokens q)
      (labels-segment (stage qs) n id)
    ∙ extended_once type_to_string l (recorded id type qs) (segment (stage qs) n)
        (labels (stage qs) ++ id) tokens q (strip_rtypes-recorded id type h qs)
        (labels_append_pos (stage qs) id pos)
