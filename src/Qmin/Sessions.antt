-- ===== src/Qmin/Sessions.antt =====
-- The queries of one resolver for one domain of the scanner, as the server sees them
-- (src/qmin/dns_server/dns_server.go).
use odns_measurement_tools.Base.{
  ℕ, suc, ◌≤◌, ◌<◌, ◌≡◌, refl, ap, ◌∙◌, arith, true, false, none, some, List, [], ◌∷◌, ◌++◌, length,
  ◌==◌, if◌then◌else◌, All,
}
use odns_measurement_tools.Text.Defs.{Text, codes, split, last}
use odns_measurement_tools.Text.Number.{pos, itoa, max_int, parse_int-itoa}
use odns_measurement_tools.Qmin.Query.{labels, id_token}
use odns_measurement_tools.Qmin.Result.{put}
use odns_measurement_tools.Qmin.Server.{
  ServerCfg, Request, Probes, ProbeData, type_txt, induced_key, address_of, update_probe, update_by,
  update_unknown, with_update, updated,
}
use odns_measurement_tools.Qmin.Handler.{
  check_id, finish, track, handle_tokens, respond, txt_reply, new_reply, reply, pattern_of,
}
use odns_measurement_tools.Qmin.Stages.{Queries, stage, after, recorded}
use odns_measurement_tools.Qmin.Recording.{update_probe_entry-recorded}
use odns_measurement_tools.Qmin.Ids.{
  IsHexDigit, foreign, id_token-Lacks, split-id_token, length-id_token_min,
}
use odns_measurement_tools.Qmin.Domains.{split-labels}

module _ {R : Type 0} (cfg : ServerCfg R) (hex : Text) (depth draw : ℕ) where
  abbrev id : Text
  id = id_token hex depth draw

  abbrev pub meta : List Text
  meta = hex ∷ itoa depth ∷ itoa draw ∷ []

  -- The entry that a resolver's queries lead to.
  abbrev pub entry : ℕ → Text → Text → Queries → ProbeData
  entry last_seen address type qs = record {
    token_length = pos depth;
    incoming_resolver = address;
    last_seen = last_seen;
    token_sequence = recorded id type qs;
    curr_token_num = suc (stage qs);
    induction = false;
    induction_probe = record { token_sequence = []; curr_token_num = 0; resolver = [] };
  }

  same_eq : (m n : ℕ) → m ≡ n → (m == n) ≡ true
  same_eq m n e = ground arith

  -- The answer to the last query, for an entry that is not for an induction.
  pub respond-done :
      (now : ℕ) (r : Request) (last_seen : ℕ) (address : Text) (seq : List Text) (count : ℕ)
      → depth ≡ count
      → r.qtype ≡ type_txt
      → let probe = record (entry last_seen address [] []) {
        token_sequence = seq;
        curr_token_num = count;
      } in
        respond cfg now r probe meta ≡ txt_reply cfg now r (pattern_of probe)
  unfolding respond
  respond-done now r last_seen address seq count last txt =
      let probe : ProbeData = record (entry last_seen address [] []) {
        token_sequence = seq;
        curr_token_num = count;
      } in
      let done = txt_reply cfg now r (pattern_of probe) in
      let ns = new_reply cfg now r (codes "NS") (codes "ns1.tilhempel.info.") in
      ap (λ b. if b then (if r.qtype == type_txt then done else reply cfg now r 0 []) else ns)
        (same_eq depth count last)
      ∙ ap (λ b. if b then done else reply cfg now r 0 []) (same_eq r.qtype type_txt txt)

  module _ (is_hex : All IsHexDigit hex) (long : 6 ≤ length hex) (now : ℕ) (r : Request)
      (probes : Probes) where
    id_pos : 0 < length id
    id_pos = grind (arith, length-id_token_min hex depth draw)

    handle_tokens-track :
        (a : ℕ)
        → handle_tokens cfg now r probes (labels a ++ id)
          ≡ track cfg now r probes (labels a ++ id) (split b'.' (labels a ++ id)) id meta
    unfolding handle_tokens
    handle_tokens-track a =
        let s = labels a ++ id in
        ap (λ t. check_id cfg now r probes s (split b'.' s) t (split b'-' t))
          (split-labels a id (id_token-Lacks b'.' hex depth draw (foreign b'.' refl) is_hex)).0
        ∙ ap (λ m. check_id cfg now r probes s (split b'.' s) id m)
            (split-id_token hex depth draw is_hex)
        ∙ ground (arith, length-id_token_min hex depth draw)

    tracked :
        (last_seen : ℕ) (address type : Text) (qs : Queries) (n : ℕ) (tokens : List Text)
        → length tokens ≡ suc (after n (stage qs))
        → probes id ≡ some (entry last_seen address type qs)
        → let e = entry now address type ((n, cfg.type_to_string r.qtype) ∷ qs) in
          track cfg now r probes (labels (after n (stage qs)) ++ id) tokens id meta
          ≡ some (put probes id e, respond cfg now r e meta)
    unfolding track update_probe
    tracked last_seen address type qs n tokens count h =
        let s = labels (after n (stage qs)) ++ id in
        let e = entry last_seen address type qs in
        let lacks = id_token-Lacks b'_' hex depth draw (foreign b'_' refl) is_hex in
        ap (λ o. finish cfg now r probes meta (update_by cfg now r probes s tokens id meta o)) h
        ∙ ap (λ o. finish cfg now r probes meta (with_update cfg now r id (updated cfg now r e) o))
            (update_probe_entry-recorded cfg.type_to_string (pos depth) id type qs n tokens r.qtype
              lacks id_pos)
        ∙ ap
            (λ m. finish cfg now r probes meta (
              some (
                id,
                record (entry now address type ((n, cfg.type_to_string r.qtype) ∷ qs)) {
                  curr_token_num = m;
                },
              )))
            count

    pub handle_tokens-next :
        (last_seen : ℕ) (address type : Text) (qs : Queries) (n : ℕ)
        → probes id ≡ some (entry last_seen address type qs)
        → let e = entry now address type ((n, cfg.type_to_string r.qtype) ∷ qs) in
          handle_tokens cfg now r probes (labels (after n (stage qs)) ++ id)
          ≡ some (put probes id e, respond cfg now r e meta)
    handle_tokens-next last_seen address type qs n h =
        handle_tokens-track (after n (stage qs))
        ∙ tracked last_seen address type qs n _
            (split-labels (after n (stage qs)) id
              (id_token-Lacks b'.' hex depth draw (foreign b'.' refl) is_hex)).1
            h

    -- The first query of a resolver, for the labels from a down to 1.
    abbrev pub first_entry : ℕ → ProbeData
    first_entry a = record (entry now (address_of r.remote) [] []) {
      token_sequence = ((labels a ++ id) ++ b'_' ∷ cfg.type_to_string r.qtype) ∷ [];
      curr_token_num = suc a;
    }

    pub handle_tokens-first :
        (a : ℕ)
        → probes id ≡ none
        → probes (induced_key id) ≡ none
        → depth ≤ max_int
        → handle_tokens cfg now r probes (labels a ++ id)
          ≡ some (put probes id (first_entry a), respond cfg now r (first_entry a) meta)
    unfolding track update_probe
    handle_tokens-first a new not_induced fits =
        let s = labels a ++ id in
        let tokens = split b'.' s in
        handle_tokens-track a
        ∙ ap (λ o. finish cfg now r probes meta (update_by cfg now r probes s tokens id meta o)) new
        ∙ ap (λ o. finish cfg now r probes meta (update_unknown cfg now r s tokens id meta o))
            not_induced
        ∙ ap
            (λ l. finish cfg now r probes meta (
              some (
                id,
                record (first_entry a) { token_length = l.value; curr_token_num = length tokens },
              )))
            (parse_int-itoa depth fits)
        ∙ ap
            (λ m.
              finish cfg now r probes meta
                (some (id, record (first_entry a) { curr_token_num = m })))
            (split-labels a id (id_token-Lacks b'.' hex depth draw (foreign b'.' refl) is_hex)).1
