-- ===== src/Qmin/Observed.antt =====
-- From the queries of a resolver over the server's answer (src/qmin/dns_server/dns_server.go) and
-- the scanner's reading of it (src/qmin/scanner/scanner.go) to the result of the analysis
-- (src/postprocessing/qmin/postproc_scan_result.go).
use odns_measurement_tools.Base.{
  ◌>>=◌, ℕ, suc, ◌+◌, ◌≤◌, ◌≡◌, refl, sym, ap, ◌∙◌, arith, true, not, Bool, Option, List, some, [],
  ◌∷◌, ◌++◌, length, if◌then◌else◌, All,
}
use mathlib.Core.Path.{subst}
use odns_measurement_tools.Text.Defs.{Text, codes, has, count, split, join, Lacks}
use odns_measurement_tools.Text.Number.{pos, max_int}
use odns_measurement_tools.Text.Parts.{split-join, has-append}
use odns_measurement_tools.Qmin.Query.{id_token, result_of, eval_msg}
use odns_measurement_tools.Qmin.Result.{put}
use odns_measurement_tools.Qmin.Server.{ServerCfg, Request, Reply, Probes, type_txt}
use odns_measurement_tools.Qmin.Handler.{request_response, txt_reply, line_of, quoted}
use odns_measurement_tools.Qmin.Passed.{passed_on, eval_msg-txt_reply}
use odns_measurement_tools.Qmin.Pattern.{
  Metadata, Analysis, analyze_parts, analyze_pattern, analyze_several, analyze_single, Progress,
  base_labels,
}
use odns_measurement_tools.Qmin.Stages.{Queries, stage, after, segment, recorded}
use odns_measurement_tools.Qmin.Ids.{IsHexDigit, foreign, id_token-Lacks}
use odns_measurement_tools.Qmin.Sessions.{entry, respond-done}
use odns_measurement_tools.Qmin.Runs.{
  Session, first, next, between, IsQuery, Session-HasEntry, request_response-next,
}
use odns_measurement_tools.Qmin.Rendered.{
  IsTypeName, progress, rendered, one_by_one, analyze_parts-recorded,
}
use odns_measurement_tools.Qmin.Detect.{
  reported, eval_txt-parts, join-Lacks, count-join, length-recorded, recorded-Lacks,
}

-- The pattern of a resolver's queries.
abbrev pub pattern : Text → Text → Queries → Text
pattern id type qs = join b'|' (recorded id type qs)

abbrev AllNames : Queries → Type 0
AllNames = All (λ q. IsTypeName q.1)

bar_of : (qs : Queries) → AllNames qs → All (λ q. Lacks b'|' q.1) qs
bar_of [] h = tt
bar_of ((n, t) ∷ qs) ((_, _, l, _), h) = (l, bar_of qs h)

comma_of : (qs : Queries) → AllNames qs → All (λ q. Lacks b',' q.1) qs
comma_of [] h = tt
comma_of ((n, t) ∷ qs) ((_, _, _, l), h) = (l, comma_of qs h)

has-recorded :
    (id type : Text) (n : ℕ) (t : Text) (qs : Queries)
    → has b'|' (pattern id type ((n, t) ∷ qs)) ≡ true
has-recorded id type n t [] = has-append b'|' (segment 0 n ++ b'_' ∷ t) (id ++ b'_' ∷ type)
has-recorded id type n t ((m, u) ∷ qs) =
    has-append b'|' (segment (stage ((m, u) ∷ qs)) n ++ b'_' ∷ t) (pattern id type ((m, u) ∷ qs))

count-recorded :
    (id type : Text) (qs : Queries)
    → All (Lacks b'|') (recorded id type qs)
    → count b'|' (pattern id type qs) ≡ length qs
count-recorded id type [] all = count-join b'|' (id ++ b'_' ∷ type) [] all
count-recorded id type ((n, t) ∷ qs) all =
    count-join b'|' (segment (stage qs) n ++ b'_' ∷ t) (recorded id type qs) all
    ∙ length-recorded id type qs

abbrev of_progress : ℕ → Progress → Analysis
of_progress bars s = record { qmin = true; qmin_pattern = s.pattern; max = bars + 1; min = s.least }

module _ (hex : Text) (depth draw : ℕ) (type : Text) (is_hex : All IsHexDigit hex)
    (named : IsTypeName type) where
  abbrev id : Text
  id = id_token hex depth draw

  All-bar : (qs : Queries) → AllNames qs → All (Lacks b'|') (recorded id type qs)
  All-bar qs names =
      recorded-Lacks b'|' (λ d. omega arith) (λ e. omega arith) (λ e. omega arith) id type
        (id_token-Lacks b'|' hex depth draw (foreign b'|' refl) is_hex) named.2 qs (bar_of qs names)

  pattern-comma : (qs : Queries) → AllNames qs → Lacks b',' (pattern id type qs)
  pattern-comma qs names =
      join-Lacks b',' b'|' (λ e. omega arith) (recorded id type qs)
        (recorded-Lacks b',' (λ d. omega arith) (λ e. omega arith) (λ e. omega arith) id type
          (id_token-Lacks b',' hex depth draw (foreign b',' refl) is_hex) named.3 qs
          (comma_of qs names))

  split-pattern :
      (qs : Queries) → AllNames qs → split b'|' (pattern id type qs) ≡ recorded id type qs
  split-pattern [] names = split-join b'|' (recorded id type []) (λ e. cc) (All-bar [] names)
  split-pattern ((n, t) ∷ qs) names =
      split-join b'|' (recorded id type ((n, t) ∷ qs)) (λ e. cc) (All-bar ((n, t) ∷ qs) names)

  pub analyze_pattern-recorded :
      (n : ℕ) (t : Text) (qs : Queries) (metadata : Metadata)
      → AllNames ((n, t) ∷ qs)
      → after n (stage qs) + (1 + base_labels metadata.base_url) ≤ max_int
      → analyze_pattern (pattern id type ((n, t) ∷ qs)) metadata
        ≡ some (record {
          qmin = true;
          qmin_pattern = rendered (base_labels metadata.base_url) type ((n, t) ∷ qs);
          max = length ((n, t) ∷ qs) + 1;
          min = one_by_one ((n, t) ∷ qs);
        })
  unfolding analyze_pattern
  analyze_pattern-recorded n t qs metadata names fits =
      let all = (n, t) ∷ qs in
      let base = base_labels metadata.base_url in
      let p = pattern id type all in
      let q = rendered base type all in
      ap (λ b. if not b then analyze_single base p else analyze_several base p)
        (has-recorded id type n t qs)
      ∙ ap (λ ps. analyze_parts base ps >>= λ s. some (of_progress (count b'|' p) s))
          (split-pattern all names)
      ∙ ap (λ o. o >>= λ s. some (of_progress (count b'|' p) s))
          (analyze_parts-recorded base hex depth draw type is_hex named all names fits)
      ∙ ap (λ m. some (of_progress m (progress base type all)))
          (count-recorded id type all (All-bar all names))

module _ {R : Type 0} (cfg : ServerCfg R) (hex : Text) (depth draw : ℕ)
    (names : (q : ℕ) → IsTypeName (cfg.type_to_string q)) where
  Session-names :
      (address type : Text) (qs : Queries) (probes : Probes)
      → Session cfg hex depth draw address type qs probes
      → IsTypeName type × AllNames qs
  Session-names address type _ _
        (first now r probes probes2 answer new not_induced query from typed returned) =
      (subst IsTypeName typed (names r.qtype), tt)
  Session-names address type _ _ (next now r qs n probes probes2 answer s query returned) =
      let (named, more) = Session-names address type qs probes s in (named, (names r.qtype, more))
  Session-names address type _ _ (between qs probes probes2 s same) =
      Session-names address type qs probes s

module _ {R : Type 0} (cfg : ServerCfg R) (hex : Text) (depth draw : ℕ)
    (names : (q : ℕ) → IsTypeName (cfg.type_to_string q)) (is_hex : All IsHexDigit hex)
    (long : 6 ≤ length hex) where
  -- A session begins with a query for the id token alone, for which there is no entry yet. In a
  -- session of a resolver with an address without a comma, the query of type TXT for the full
  -- domain, where the depth and the labels of the base domain fit an int, is answered. If dns.New makes
  -- of the server's text a TXT record that has the text as its one string, as it does for up to 255
  -- bytes without quotes and backslashes, and the resolver passes the answer on as it is, then the
  -- scanner reads in it the address and the pattern of all queries. The analysis of the pattern
  -- tells the number of labels and the type of each query, the number of queries, and how many came
  -- before the first that skipped a label. Names of types have no separator, and the id token has at
  -- least six hexadecimal digits.
  pub session-analyzed :
      (now : ℕ) (r : Request) (address type server : Text) (qs : Queries) (n : ℕ) (probes : Probes)
      (metadata : Metadata) (strings : R → Option (List Text)) (recursion_available : Bool)
      (txt_record : R)
      → Session cfg hex depth draw address type qs probes
      → IsQuery cfg hex depth draw now r (after n (stage qs))
      → suc (after n (stage qs)) ≡ depth
      → r.qtype ≡ type_txt
      → Lacks b',' address
      → depth + base_labels metadata.base_url ≤ max_int
      → let text =
          reported address
            (pattern (id_token hex depth draw) type ((n, cfg.type_to_string r.qtype) ∷ qs)) in
        cfg.dns_new (line_of cfg now r (codes "TXT") (quoted text)) ≡ some txt_record
        → strings txt_record
          ≡ some (
              reported address
                (pattern (id_token hex depth draw) type ((n, cfg.type_to_string r.qtype) ∷ qs))
              ∷ [])
        → let all = (n, cfg.type_to_string r.qtype) ∷ qs in
          let p = pattern (id_token hex depth draw) type all in
          ((probes2 : Probes) × (answer : Reply R) × (request_response cfg now r probes
              ≡ some (probes2, answer))
            × (eval_msg server (passed_on strings recursion_available answer)
                ≡ some (record (result_of server address (pos 0) p) {
                  induction_requester = codes "NULL";
                  induction_pattern = codes "NULL";
                })))
          × (analyze_pattern p metadata
              ≡ some (record {
                qmin = true;
                qmin_pattern = rendered (base_labels metadata.base_url) type all;
                max = length all + 1;
                min = one_by_one all;
              }))
  session-analyzed now r address type server qs n probes metadata strings recursion_available
        txt_record s query last txt clean fits made held =
      let t = cfg.type_to_string r.qtype in
      let p = pattern (id_token hex depth draw) type ((n, t) ∷ qs) in
      let (last_seen, h) =
        Session-HasEntry cfg hex depth draw is_hex long address type qs probes (omega arith) s in
      let (named, more) = Session-names cfg hex depth draw names address type qs probes s in
      (
        (
          _,
          txt_reply cfg now r (reported address p),
          request_response-next cfg hex depth draw is_hex long now r address type qs n probes
                last_seen h query
              ∙ ap
                  (λ a. some (
                    put probes (id_token hex depth draw)
                        (entry cfg hex depth draw now address type ((n, t) ∷ qs)),
                    a,
                  ))
                  (respond-done cfg hex depth draw now r now address
                    (recorded (id_token hex depth draw) type ((n, t) ∷ qs))
                    (suc (after n (stage qs))) (sym last) txt),
          eval_msg-txt_reply strings recursion_available cfg now r server (reported address p)
                txt_record made held
              ∙ ap some (
                  eval_txt-parts server address _ clean (
                    pattern-comma hex depth draw type is_hex named ((n, t) ∷ qs)
                      (names r.qtype, more))),
        ),
        analyze_pattern-recorded hex depth draw type is_hex named n t qs metadata
            (names r.qtype, more) (omega arith),
      )
