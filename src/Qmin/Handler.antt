-- ===== src/Qmin/Handler.antt =====
-- The answers of the DNS server of the QMIN scan (src/qmin/dns_server/dns_server.go).
use odns_measurement_tools.Base.{
  ℕ, ◌-◌, Bool, true, false, not, ◌&&◌, ◌||◌, Option, none, some, List, [], ◌∷◌, ◌++◌, length, drop,
  ltb, leb, ◌==◌, if◌then◌else◌,
}
use odns_measurement_tools.Text.Defs.{
  Text, codes, take, has_prefix, has_suffix, split, last, join, to_lower,
}
use odns_measurement_tools.Text.Number.{eq_nat, pred, rounds_of}
use odns_measurement_tools.Qmin.Query.{labels}
use odns_measurement_tools.Qmin.Result.{put}
use odns_measurement_tools.Qmin.Server.{
  ProbeData, ResourceRecord, Probes, Request, Answer, rr, cname, Reply, ServerCfg, type_txt,
  has_mark, update_probe,
}

-- The contents of the TXT record for a finished probe.
abbrev pub pattern_of : ProbeData → Text
pattern_of probe =
    probe.incoming_resolver ++ b',' ∷ (join b'|' probe.token_sequence ++ codes ",NULL,NULL")

abbrev pub induced_pattern_of : ProbeData → Text
induced_pattern_of probe =
    probe.incoming_resolver
    ++ b','
      ∷ (join b'|' probe.token_sequence
          ++ b','
            ∷ (probe.induction_probe.resolver
                ++ b',' ∷ join b'|' probe.induction_probe.token_sequence))

abbrev pub first_three : List Text → List Text
first_three (a ∷ b ∷ c ∷ more) = a ∷ b ∷ c ∷ []
first_three parts = parts

abbrev starts_with : ℕ → Text → Bool
starts_with b [] = false
starts_with b (c ∷ s) = c == b

-- Without the "_." that some resolvers put in front.
abbrev pub strip_underscore : Text → Text
strip_underscore name =
    if ltb 2 (length name) && has_prefix name (codes "_.") then drop 2 name else name

abbrev pub quoted : Text → Text
quoted value = b'"' ∷ (value ++ b'"' ∷ [])

module _ {R : Type 0} (cfg : ServerCfg R) (now : ℕ) (r : Request) where
  abbrev pub reply : ℕ → List (Answer R) → Reply R
  reply rcode answers = record { rcode = rcode; authoritative = true; answers = answers }

  -- The line of a record for the requested name.
  abbrev pub line_of : Text → Text → Text
  line_of type value = r.name ++ (codes " 3600 IN " ++ (type ++ b' ' ∷ value))

  -- The answer that `dns.New` makes of a line, or SERVFAIL.
  abbrev pub new_reply : Text → Text → Reply R
  new_reply type value = elim (cfg.dns_new (line_of type value)) [
    | none ↦ reply 2 []
    | some a ↦ reply 0 (rr a ∷ [])
  ]

  abbrev pub txt_reply : Text → Reply R
  txt_reply value = new_reply (codes "TXT") (quoted value)

  abbrev pub cname_reply : ProbeData → List Text → Reply R
  cname_reply probe probe_meta_data = record {
    rcode = 0;
    authoritative = false;
    answers =
        cname r.name (
          labels (rounds_of (pred probe.token_length))
          ++ (join b'-' (first_three probe_meta_data) ++ b'.' ∷ cfg.base_url))
        ∷ [];
  }

  -- The answer for a probe after its update.
  unfoldable pub respond : ProbeData → List Text → Reply R
  respond probe probe_meta_data =
      if probe.induction
        && (eq_nat probe.induction_probe.curr_token_num probe.token_length && r.qtype == type_txt)
      then txt_reply (induced_pattern_of probe)
      else if has_mark probe_meta_data (codes "nxopti")
      then (if starts_with b'b' r.name then txt_reply (codes "false,,,") else reply 3 [])
      else if eq_nat probe.curr_token_num probe.token_length
      then (if has_mark probe_meta_data (codes "induction")
          then cname_reply probe probe_meta_data
          else if r.qtype == type_txt
          then txt_reply (pattern_of probe)
          else reply 0 [])
      else if has_mark probe_meta_data (codes "qminmode")
      then reply 3 []
      else new_reply (codes "NS") (codes "ns1.tilhempel.info.")

  unfoldable pub finish : Probes → List Text → Option (Text × ProbeData) → Option (Probes × Reply R)
  unfolding respond
  finish probes probe_meta_data none = none
  finish probes probe_meta_data (some (key, probe)) =
      some (put probes key probe, respond probe probe_meta_data)

  -- The part of the handler that follows the tests of the id token.
  unfoldable pub track : Probes → Text → List Text → Text → List Text → Option (Probes × Reply R)
  unfolding update_probe finish
  track probes token_seq tokens id_token probe_meta_data =
      finish probes probe_meta_data
        (update_probe cfg now r probes token_seq tokens id_token probe_meta_data)

  -- The tests of the id token.
  unfoldable pub check_id : Probes → Text → List Text → Text → List Text → Option (Probes × Reply R)
  unfolding track
  check_id probes token_seq tokens id_token probe_meta_data =
      if ltb (length id_token) 10
      then some (probes, reply 5 [])
      else if ltb (length probe_meta_data) 3
      then some (probes, reply 3 [])
      else track probes token_seq tokens id_token probe_meta_data

  -- The part that follows the test of the base domain.
  unfoldable pub handle_tokens : Probes → Text → Option (Probes × Reply R)
  unfolding check_id
  handle_tokens probes token_seq =
      let tokens = split b'.' token_seq in
      check_id probes token_seq tokens (last tokens) (split b'-' (last tokens))

  -- The part that follows the test for records of the configuration.
  unfoldable pub handle_domain : Probes → Text → Option (Probes × Reply R)
  unfolding handle_tokens
  handle_domain probes domain =
      if leb (length domain) (length cfg.base_url) || not (has_suffix domain cfg.base_url)
      then some (probes, reply 3 [])
      else handle_tokens probes (take (length domain - length cfg.base_url - 1) domain)

  abbrev pub predefined : Text → Option ResourceRecord
  predefined domain = elim (cfg.resource_records domain) [
    | none ↦ none
    | some rec ↦ if r.qtype == cfg.string_to_type rec.qtype then some rec else none
  ]

  -- The answer for a record of the configuration, or for any other domain.
  unfoldable pub dispatch : Probes → Option ResourceRecord → Text → Option (Probes × Reply R)
  unfolding handle_domain
  dispatch probes (some rec) domain = some (probes, new_reply rec.qtype rec.value)
  dispatch probes none domain = handle_domain probes (strip_underscore domain)

  -- `requestResponse`: the result is `none` where an index is out of range.
  unfoldable pub request_response : Probes → Option (Probes × Reply R)
  unfolding dispatch
  request_response probes = dispatch probes (predefined (to_lower r.name)) (to_lower r.name)
