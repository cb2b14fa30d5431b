-- ===== src/Qmin/Direct.antt =====
-- A domain of the scanner (src/qmin/scanner/scanner.go) that a resolver asks about in one query: the
-- server's answer (src/qmin/dns_server/dns_server.go) and the analysis
-- (src/postprocessing/qmin/postproc_scan_result.go).
use odns_measurement_tools.Base.{
  some_injective, ◌>>=◌, ℕ, zero, suc, ◌+◌, ◌-◌, ◌≤◌, ◌<◌, ◌≡◌, ◌≢◌, refl, sym, ap, ◌∙◌, arith,
  Bool, Option, true, false, not, none, some, List, [], ◌∷◌, ◌++◌, length, if◌then◌else◌, All,
  length-append,
}
use mathlib.Core.List.{append_assoc}
use odns_measurement_tools.Text.Defs.{Text, codes, has, count, split, to_lower, Lacks}
use odns_measurement_tools.Text.Number.{pos, itoa, itoa-All, All-Lacks, max_int, IsDigit}
use odns_measurement_tools.Text.Parts.{
  split-one, split-first, Lacks-append, Lacks-has, Lacks-count, count-append, has-append,
}
use odns_measurement_tools.Qmin.Query.{
  ip4, ScanCfg, hex_bytes, labels, id_token, target_to_hex, domain_assembly, result_of, eval_msg,
}
use odns_measurement_tools.Qmin.Result.{put}
use odns_measurement_tools.Qmin.Server.{
  ServerCfg, Request, Reply, Probes, type_txt, induced_key, address_of,
}
use odns_measurement_tools.Qmin.Handler.{request_response, predefined, txt_reply, line_of, quoted}
use odns_measurement_tools.Qmin.Passed.{passed_on, eval_msg-txt_reply}
use odns_measurement_tools.Qmin.Pattern.{
  Metadata, Analysis, analyze_pattern, analyze_single, analyze_several, second_part, base_labels,
}
use odns_measurement_tools.Qmin.Ids.{
  foreign, id_token-Lacks, hex_bytes-All, length-hex_bytes, length-id_token_min,
}
use odns_measurement_tools.Qmin.Domains.{labels-Lacks, request_response-base}
use odns_measurement_tools.Qmin.Sessions.{first_entry, respond-done, handle_tokens-first}
use odns_measurement_tools.Qmin.Rendered.{IsTypeName}
use odns_measurement_tools.Qmin.Detect.{reported, eval_txt-parts}

-- The domain for an address of IPv4.
domain_assembly-ip4 :
    (cfg : ScanCfg) (draw : ℕ) (target : Text) (bytes : List ℕ) (a : ℕ)
    → cfg.parse_addr target ≡ ip4 bytes
    → domain_assembly cfg draw target (suc a) false false false
      ≡ some ((labels a ++ id_token (hex_bytes bytes) (suc a) draw) ++ b'.' ∷ cfg.base_domain)
unfolding domain_assembly target_to_hex
domain_assembly-ip4 cfg draw target bytes a h =
    let id = id_token (hex_bytes bytes) (suc a) draw in
    rw h refl
    ∙ ap (λ n. some (labels n ++ (id ++ b'.' ∷ cfg.base_domain))) (pred_lem a)
    ∙ ap some (sym (append_assoc (labels a) id (b'.' ∷ cfg.base_domain)))
  where
    pred_lem : (n : ℕ) → suc n - 1 ≡ n
    pred_lem n = omega arith

count-labels : (a : ℕ) (s : Text) → Lacks b'.' s → count b'.' (labels a ++ s) ≡ a
unfolding labels
count-labels zero s h = Lacks-count b'.' s h
count-labels (suc a) s h =
    let k = itoa (suc a) in
    ap (count b'.') (append_assoc k (b'.' ∷ labels a) s)
    ∙ ground (
      arith,
      count-append b'.' k (b'.' ∷ (labels a ++ s)),
      count-labels a s h,
      Lacks-count b'.' k (All-Lacks b'.' k (λ d. omega arith) (itoa-All (suc a))),
    )

has-labels : (a : ℕ) (s : Text) → has b'.' (labels (suc a) ++ s) ≡ true
unfolding labels
has-labels a s =
    ap (has b'.') (append_assoc (itoa (suc a)) (b'.' ∷ labels a) s)
    ∙ has-append b'.' (itoa (suc a)) (labels a ++ s)

-- What the server records of the query.
abbrev pub single : ℕ → Text → Text → Text
single a id type = (labels a ++ id) ++ b'_' ∷ type

module _ (a : ℕ) (id type : Text)
    (clean_id : Lacks b'_' id × Lacks b'.' id × Lacks b'|' id × Lacks b',' id)
    (named : IsTypeName type) where
  abbrev text : Text
  text = single a id type

  single-Lacks :
      (b : ℕ) → (IsDigit b → ⊥) → b ≢ b'.' → b ≢ b'_' → Lacks b id → Lacks b type → Lacks b text
  single-Lacks b out dot under h k =
      Lacks-append b (labels a ++ id) (b'_' ∷ type)
        (Lacks-append b (labels a) id (labels-Lacks b out dot a) h) ((λ e. under (sym e)), k)

  single-bar : Lacks b'|' text
  single-bar =
      single-Lacks b'|' (λ d. omega arith) (λ e. omega arith) (λ e. omega arith) clean_id.2 named.2

  single-comma : Lacks b',' text
  single-comma =
      single-Lacks b',' (λ d. omega arith) (λ e. omega arith) (λ e. omega arith) clean_id.3 named.3

  split-single : split b'_' text ≡ (labels a ++ id) ∷ type ∷ []
  split-single =
      split-first b'_' (labels a ++ id) type (
        Lacks-append b'_' (labels a) id (labels-Lacks b'_' (λ d. omega arith) (λ e. omega arith) a)
          clean_id.0)
      ∙ ap (λ u. (labels a ++ id) ∷ u) (split-one b'_' type named.0)

  count-single : count b'.' text ≡ a
  count-single =
      ap (count b'.') (append_assoc (labels a) id (b'_' ∷ type))
      ∙ count-labels a (id ++ b'_' ∷ type)
          (Lacks-append b'.' id (b'_' ∷ type) clean_id.1 ((λ e. omega arith), named.1))

has-single : (a : ℕ) (id type : Text) → has b'.' (single (suc a) id type) ≡ true
has-single a id type =
    ap (has b'.') (append_assoc (labels (suc a)) id (b'_' ∷ type))
    ∙ has-labels a (id ++ b'_' ∷ type)

analyze_pattern-single :
    (a : ℕ) (id type : Text) (metadata : Metadata)
    → Lacks b'_' id × Lacks b'.' id × Lacks b'|' id × Lacks b',' id
    → IsTypeName type
    → analyze_pattern (single (suc a) id type) metadata
      ≡ some (record {
        qmin = false;
        qmin_pattern = itoa (suc a + 1 + base_labels metadata.base_url) ++ type;
        max = 1;
        min = 1;
      })
unfolding analyze_pattern analyze_single
analyze_pattern-single a id type metadata clean named =
    let p = single (suc a) id type in
    let base = base_labels metadata.base_url in
    let plain = λ (n : ℕ) (t : Text). some (direct n base t) in
    ap (λ b. if not b then analyze_single base p else analyze_several base p)
      (Lacks-has b'|' p (single-bar (suc a) id type clean named))
    ∙ ap
        (λ b.
          if not b
          then some (record { qmin = false; qmin_pattern = p; max = 0; min = 0 })
          else (second_part (split b'_' p) >>= λ t. plain (count b'.' p) t))
        (has-single a id type)
    ∙ ap (λ ps. second_part ps >>= λ t. plain (count b'.' p) t)
        (split-single (suc a) id type clean named)
    ∙ ap (λ n. plain n type) (count-single (suc a) id type clean named)
  where
    direct : ℕ → ℕ → Text → Analysis
    direct n base t = record {
      qmin = false;
      qmin_pattern = itoa (n + 1 + base) ++ t;
      max = 1;
      min = 1;
    }

module _ {R : Type 0} (cfg : ServerCfg R) (scan : ScanCfg) (draw : ℕ) (target : Text)
    (bytes : List ℕ) (a : ℕ) where
  abbrev hex : Text
  hex = hex_bytes bytes

  abbrev depth : ℕ
  depth = suc (suc a)

  abbrev id : Text
  id = id_token hex depth draw

  -- A domain that is assembled for an address of four bytes, at a depth of at least 2 that fits an
  -- int with the labels of the base domain, is asked for in one query of type TXT. There is no entry
  -- for it, and it is no record of the configuration. The server answers. If dns.New makes of the
  -- server's text a TXT record that has the text as its one string, as it does for up to 255 bytes
  -- without quotes and backslashes, and the resolver passes the answer on as it is, then the scanner
  -- reads in it the address of the resolver, if it has no comma, and the pattern, and the analysis
  -- finds no minimisation and one query with all labels.
  pub direct-analyzed :
      (now : ℕ) (r : Request) (probes : Probes) (server : Text) (metadata : Metadata)
      (strings : R → Option (List Text)) (recursion_available : Bool) (txt_record : R)
      → scan.parse_addr target ≡ ip4 bytes
      → All (λ b. b < 256) bytes
      → length bytes ≡ 4
      → domain_assembly scan draw target depth false false false ≡ some (to_lower r.name)
      → scan.base_domain ≡ cfg.base_url
      → predefined cfg now r (to_lower r.name) ≡ none
      → probes id ≡ none
      → probes (induced_key id) ≡ none
      → r.qtype ≡ type_txt
      → IsTypeName (cfg.type_to_string r.qtype)
      → Lacks b',' (address_of r.remote)
      → depth + base_labels metadata.base_url ≤ max_int
      → let text =
          reported (address_of r.remote) (single (suc a) id (cfg.type_to_string r.qtype)) in
        cfg.dns_new (line_of cfg now r (codes "TXT") (quoted text)) ≡ some txt_record
        → strings txt_record
          ≡ some
              (reported (address_of r.remote) (single (suc a) id (cfg.type_to_string r.qtype)) ∷ [])
        → let p = single (suc a) id (cfg.type_to_string r.qtype) in
          ((probes2 : Probes) × (answer : Reply R) × (request_response cfg now r probes
              ≡ some (probes2, answer))
            × (eval_msg server (passed_on strings recursion_available answer)
                ≡ some (record (result_of server (address_of r.remote) (pos 0) p) {
                  induction_requester = codes "NULL";
                  induction_pattern = codes "NULL";
                })))
          × (analyze_pattern p metadata
              ≡ some (record {
                qmin = false;
                qmin_pattern =
                    itoa (depth + base_labels metadata.base_url) ++ cfg.type_to_string r.qtype;
                max = 1;
                min = 1;
              }))
  direct-analyzed now r probes server metadata strings recursion_available txt_record parsed
        bytes_small four assembled same_base free new not_induced txt named clean fits made held =
      let type = cfg.type_to_string r.qtype in
      let is_hex = hex_bytes-All bytes bytes_small in
      let long : 6 ≤ length hex = grind (arith, length-hex_bytes bytes) in
      let name : to_lower r.name ≡ (labels (suc a) ++ id) ++ b'.' ∷ cfg.base_url =
        some_injective (sym assembled ∙ domain_assembly-ip4 scan draw target bytes (suc a) parsed)
        ∙ ap (λ u. (labels (suc a) ++ id) ++ b'.' ∷ u) same_base in
      let e = first_entry cfg hex depth draw is_hex long now r probes (suc a) in
      (
        (
          _,
          txt_reply cfg now r (reported (address_of r.remote) (single (suc a) id type)),
          request_response-base cfg now r probes (labels (suc a) ++ id) underscore positive name
                free
              ∙ handle_tokens-first cfg hex depth draw is_hex long now r probes (suc a) new
                  not_induced (omega arith)
              ∙ ap (λ o. some (put probes id e, o))
                  (respond-done cfg hex depth draw now r now (address_of r.remote)
                    (single (suc a) id type ∷ []) depth refl txt),
          eval_msg-txt_reply strings recursion_available cfg now r server _ txt_record made held
              ∙ ap some (
                  eval_txt-parts server (address_of r.remote) _ clean
                    (single-comma (suc a) id type clean_id named)),
        ),
        analyze_pattern-single a id type metadata clean_id named
            ∙ ap
                (λ n.
                  some (record { qmin = false; qmin_pattern = itoa n ++ type; max = 1; min = 1 }))
                (omega arith),
      )
    where
      clean_id : Lacks b'_' id × Lacks b'.' id × Lacks b'|' id × Lacks b',' id
      clean_id =
          let is_hex = hex_bytes-All bytes bytes_small in
          (
            id_token-Lacks b'_' hex depth draw (foreign b'_' refl) is_hex,
            id_token-Lacks b'.' hex depth draw (foreign b'.' refl) is_hex,
            id_token-Lacks b'|' hex depth draw (foreign b'|' refl) is_hex,
            id_token-Lacks b',' hex depth draw (foreign b',' refl) is_hex,
          )

      underscore : Lacks b'_' (labels (suc a) ++ id)
      underscore =
          Lacks-append b'_' (labels (suc a)) id
            (labels-Lacks b'_' (λ d. omega arith) (λ e. omega arith) (suc a)) clean_id.0

      positive : 0 < length (labels (suc a) ++ id)
      positive =
          grind (arith, length-append (labels (suc a)) id, length-id_token_min hex depth draw)
