-- ===== src/Qmin/Passed.antt =====
-- The server's TXT record as the scanner reads it (src/qmin/dns_server/dns_server.go,
-- src/qmin/scanner/scanner.go).
use odns_measurement_tools.Base.{ℕ, ◌≡◌, ap, ◌∙◌, Bool, Option, none, some, List, [], ◌∷◌}
use odns_measurement_tools.Text.Defs.{Text, codes}
use odns_measurement_tools.Qmin.Query.{Msg, eval_txt, eval_answers, eval_msg}
use odns_measurement_tools.Qmin.Server.{ServerCfg, Request, Reply, Answer, rr, cname}
use odns_measurement_tools.Qmin.Handler.{line_of, quoted, reply, txt_reply}

module _ {R : Type 0} (strings : R → Option (List Text)) (recursion_available : Bool) where
  abbrev answers_in : List (Answer R) → List (Option (List Text))
  answers_in [] = []
  answers_in (rr a ∷ answers) = strings a ∷ answers_in answers
  answers_in (cname name target ∷ answers) = none ∷ answers_in answers

  -- A reply of the server that a resolver passes on. `strings` are those of a TXT record.
  abbrev pub passed_on : Reply R → Msg
  passed_on answer = record {
    rcode = answer.rcode;
    recursion_available = recursion_available;
    answers = answers_in answer.answers;
  }

  -- If `dns.New` makes a TXT record with a text as its one string, the scanner reads this text.
  pub eval_msg-txt_reply :
      (cfg : ServerCfg R) (now : ℕ) (r : Request) (server value : Text) (a : R)
      → cfg.dns_new (line_of cfg now r (codes "TXT") (quoted value)) ≡ some a
      → strings a ≡ some (value ∷ [])
      → eval_msg server (passed_on (txt_reply cfg now r value)) ≡ some (eval_txt server value)
  unfolding eval_msg eval_answers
  eval_msg-txt_reply cfg now r server value a made held =
      ap (λ o. eval_msg server (passed_on (served o))) made
      ∙ ap (λ o. eval_answers server (o ∷ [])) held
    where
      served : Option R → Reply R
      served o = elim o [ none ↦ reply cfg now r 2 [] | some a ↦ reply cfg now r 0 (rr a ∷ []) ]
