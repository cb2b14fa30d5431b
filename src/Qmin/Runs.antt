-- ===== src/Qmin/Runs.antt =====
-- Runs of the server's handler (src/qmin/dns_server/dns_server.go) in which one resolver sends its
-- queries for a domain of the scanner, and others send theirs in between.
use odns_measurement_tools.Base.{
  some_injective, ℕ, ◌≤◌, ◌<◌, ◌≡◌, refl, sym, ap, ◌∙◌, arith, none, some, [], ◌∷◌, ◌++◌, length,
  length-append, All,
}
use odns_measurement_tools.Text.Defs.{Text, to_lower, Lacks}
use odns_measurement_tools.Text.Equality.{bytes_eq_self}
use odns_measurement_tools.Text.Number.{max_int}
use odns_measurement_tools.Text.Parts.{Lacks-append}
use odns_measurement_tools.Qmin.Query.{labels, id_token}
use odns_measurement_tools.Qmin.Result.{put}
use odns_measurement_tools.Qmin.Server.{
  ServerCfg, Request, Reply, Probes, ProbeData, induced_key, address_of,
}
use odns_measurement_tools.Qmin.Handler.{predefined, request_response, respond}
use odns_measurement_tools.Qmin.Stages.{Queries, stage, after}
use odns_measurement_tools.Qmin.Ids.{IsHexDigit, foreign, id_token-Lacks, length-id_token_min}
use odns_measurement_tools.Qmin.Domains.{labels-Lacks, request_response-base}
use odns_measurement_tools.Qmin.Sessions.{entry, meta, handle_tokens-first, handle_tokens-next}

module _ {R : Type 0} (cfg : ServerCfg R) (hex : Text) (depth draw : ℕ) where
  abbrev id : Text
  id = id_token hex depth draw

  -- The request is for the labels from a down to 1 in front of the id token and the base domain,
  -- and for no record of the configuration.
  abbrev pub IsQuery : ℕ → Request → ℕ → Type 0
  IsQuery now r a =
      (to_lower r.name ≡ (labels a ++ id) ++ b'.' ∷ cfg.base_url)
      × (predefined cfg now r (to_lower r.name) ≡ none)

  -- The states of the map after the queries of one resolver, of which the type of the first and its
  -- address are given. In between, anything may happen that leaves the entry as it is.
  pub data Session (address type : Text) : Queries → Probes → Type 0 where
    first :
        (now : ℕ) (r : Request) (probes probes2 : Probes) (answer : Reply R)
        → probes id ≡ none
        → probes (induced_key id) ≡ none
        → IsQuery now r 0
        → address_of r.remote ≡ address
        → cfg.type_to_string r.qtype ≡ type
        → request_response cfg now r probes ≡ some (probes2, answer)
        → Session address type [] probes2
    next :
        (now : ℕ) (r : Request) (qs : Queries) (n : ℕ) (probes probes2 : Probes) (answer : Reply R)
        → Session address type qs probes
        → IsQuery now r (after n (stage qs))
        → request_response cfg now r probes ≡ some (probes2, answer)
        → Session address type ((n, cfg.type_to_string r.qtype) ∷ qs) probes2
    between :
        (qs : Queries) (probes probes2 : Probes)
        → Session address type qs probes
        → probes2 id ≡ probes id
        → Session address type qs probes2

  abbrev pub HasEntry : Text → Text → Queries → Probes → Type 0
  HasEntry address type qs probes =
      (last_seen : ℕ) × (probes id ≡ some (entry cfg hex depth draw last_seen address type qs))

  module _ (is_hex : All IsHexDigit hex) (long : 6 ≤ length hex) where
    underscore : (a : ℕ) → Lacks b'_' (labels a ++ id)
    underscore a =
        Lacks-append b'_' (labels a) id (labels-Lacks b'_' (λ d. omega arith) (λ e. omega arith) a)
          (id_token-Lacks b'_' hex depth draw (foreign b'_' refl) is_hex)

    positive : (a : ℕ) → 0 < length (labels a ++ id)
    positive a = grind (arith, length-append (labels a) id, length-id_token_min hex depth draw)

    put_same : (probes : Probes) (p : ProbeData) → put probes id p id ≡ some p
    put_same probes p = ground (arith, bytes_eq_self id)

    -- The next query of a session: the entry and the answer.
    pub request_response-next :
        (now : ℕ) (r : Request) (address type : Text) (qs : Queries) (n : ℕ) (probes : Probes)
        (last_seen : ℕ)
        → probes id ≡ some (entry cfg hex depth draw last_seen address type qs)
        → IsQuery now r (after n (stage qs))
        → let e =
            entry cfg hex depth draw now address type ((n, cfg.type_to_string r.qtype) ∷ qs) in
          request_response cfg now r probes
          ≡ some (put probes id e, respond cfg now r e (meta cfg hex depth draw))
    request_response-next now r address type qs n probes last_seen h (name, free) =
        let a = after n (stage qs) in
        request_response-base cfg now r probes (labels a ++ id) (underscore a) (positive a) name
          free
        ∙ handle_tokens-next cfg hex depth draw is_hex long now r probes last_seen address type qs n
            h

    first-HasEntry :
        (now : ℕ) (r : Request) (address type : Text) (probes probes2 : Probes) (answer : Reply R)
        → depth ≤ max_int
        → probes id ≡ none
        → probes (induced_key id) ≡ none
        → IsQuery now r 0
        → address_of r.remote ≡ address
        → cfg.type_to_string r.qtype ≡ type
        → request_response cfg now r probes ≡ some (probes2, answer)
        → HasEntry address type [] probes2
    unfolding labels
    first-HasEntry now r address type probes probes2 answer fits new not_induced (name, free) from
          typed returned =
        let e = entry cfg hex depth draw now in
        let state = some_injective (
          sym returned
          ∙ request_response-base cfg now r probes id (underscore 0) (positive 0) name free
          ∙ handle_tokens-first cfg hex depth draw is_hex long now r probes 0 new not_induced
              fits) in
        (
          now,
          ap (λ s. s.0 id) state
              ∙ put_same probes (e (address_of r.remote) (cfg.type_to_string r.qtype) [])
              ∙ ap (λ t. some (e t (cfg.type_to_string r.qtype) [])) from
              ∙ ap (λ t. some (e address t [])) typed,
        )

    next-HasEntry :
        (now : ℕ) (r : Request) (address type : Text) (qs : Queries) (n : ℕ)
        (probes probes2 : Probes) (answer : Reply R)
        → HasEntry address type qs probes
        → IsQuery now r (after n (stage qs))
        → request_response cfg now r probes ≡ some (probes2, answer)
        → HasEntry address type ((n, cfg.type_to_string r.qtype) ∷ qs) probes2
    next-HasEntry now r address type qs n probes probes2 answer (last_seen, h) query returned =
        let state =
          some_injective (
            sym returned
            ∙ request_response-next now r address type qs n probes last_seen h query) in
        (now, ap (λ s. s.0 id) state ∙ put_same probes _)

    -- The entry of a session holds its queries.
    pub Session-HasEntry :
        (address type : Text) (qs : Queries) (probes : Probes)
        → depth ≤ max_int
        → Session address type qs probes
        → HasEntry address type qs probes
    Session-HasEntry address type _ _ fits
          (first now r probes probes2 answer new not_induced query from typed returned) =
        first-HasEntry now r address type probes probes2 answer fits new not_induced query from
          typed returned
    Session-HasEntry address type _ _ fits
          (next now r qs n probes probes2 answer s query returned) =
        next-HasEntry now r address type qs n probes probes2 answer
          (Session-HasEntry address type qs probes fits s) query returned
    Session-HasEntry address type _ _ fits (between qs probes probes2 s same) =
        let (last_seen, h) = Session-HasEntry address type qs probes fits s in (last_seen, same ∙ h)
