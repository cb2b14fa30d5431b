-- ===== src/Qmin/Asked.antt =====
-- The resolver that the results of a query name (src/qmin/scanner/scanner.go, dnsQuery).
use odns_measurement_tools.Base.{
  Ensures, if-Ensures, ℕ, ◌≡◌, refl, arith, Bool, true, false, not, ◌||◌, none, some, Option, List,
  [], ◌∷◌, ◌==◌, if◌then◌else◌,
}
use odns_measurement_tools.Net.{bytes_eq}
use odns_measurement_tools.Text.Defs.{Text, codes, split}
use odns_measurement_tools.Text.Number.{pos}
use odns_measurement_tools.Qmin.Query.{
  ScanCfg, Network, QueryResult, Msg, Outcome, error, answered, eval_comm_error, eval_rcode,
  eval_split, eval_txt, eval_answers, eval_msg, eval_doh, eval_exchange, with_scheme, dns_query,
  failed, retried,
}

-- The address that a row carries: over HTTPS it has the scheme in front.
abbrev pub address_in : ScanCfg → Text → Text
address_in cfg server =
    if bytes_eq cfg.protocol (codes "udp") || bytes_eq cfg.protocol (codes "tcp")
    then server
    else with_scheme server

abbrev pub Names : Text → QueryResult → Type 0
Names server res = res.resolver_ip ≡ server

module _ (server : Text) where
  eval_comm_error-Names : (err : Text) → Names server (eval_comm_error err server)
  unfolding eval_comm_error
  eval_comm_error-Names err = ground arith

  eval_rcode-Names : (rcode : ℕ) → Names server (eval_rcode server rcode)
  unfolding eval_rcode
  eval_rcode-Names rcode = ground arith

  eval_split-Names : (parts : List Text) → Names server (eval_split server parts)
  eval_split-Names [] = refl
  eval_split-Names (a ∷ []) = refl
  eval_split-Names (a ∷ b ∷ []) = refl
  eval_split-Names (a ∷ b ∷ c ∷ []) = refl
  eval_split-Names (a ∷ b ∷ c ∷ d ∷ more) = refl

  eval_txt-Names : (txt : Text) → Names server (eval_txt server txt)
  unfolding eval_txt
  eval_txt-Names txt = ground (arith, eval_split-Names (split b',' txt))

  eval_answers-Names :
      (answers : List (Option (List Text))) → Ensures (Names server) (eval_answers server answers)
  unfolding eval_answers
  eval_answers-Names [] = refl
  eval_answers-Names (none ∷ answers) = eval_answers-Names answers
  eval_answers-Names (some [] ∷ answers) = tt
  eval_answers-Names (some (txt ∷ more) ∷ answers) = eval_txt-Names txt

  eval_msg-Names : (res : Msg) → Ensures (Names server) (eval_msg server res)
  unfolding eval_msg
  eval_msg-Names res =
      if-Ensures (Names server) (not (res.rcode == 0)) _ _ (eval_rcode-Names res.rcode)
        (elim res.answers
          as (λ a. Ensures (Names server) (elim a [
            | [] ↦ some (
                if not res.recursion_available
                then failed server (pos 6) (codes "noRecursion")
                else failed server (pos 7) (codes "noAnswer"))
            | _ ∷ _ ↦ eval_answers server res.answers
          ])) [ [] ↦ ground arith | _ ∷ _ ↦ eval_answers-Names res.answers ])

  eval_exchange-Names : (o : Outcome) → Ensures (Names server) (eval_exchange server o)
  eval_exchange-Names (error err) = eval_comm_error-Names err
  eval_exchange-Names (answered msg) = eval_msg-Names msg

  eval_doh-Names : (o : ℕ × Outcome) → Ensures (Names server) (eval_doh server o)
  eval_doh-Names (status, error err) = ground (arith, eval_comm_error-Names err)
  eval_doh-Names (status, answered msg) = eval_msg-Names msg

-- A result names the resolver that was asked.
pub dns_query-Names :
    (cfg : ScanCfg) (net : Network) (domain server : Text) (timeout : ℕ)
    → Ensures (Names (address_in cfg server)) (dns_query cfg net domain server timeout)
unfolding dns_query
dns_query-Names cfg net domain server timeout =
    either (bytes_eq cfg.protocol (codes "udp") || bytes_eq cfg.protocol (codes "tcp"))
      (bytes_eq cfg.protocol (codes "doh")) _ _
      (eval_exchange-Names server (net.exchange domain server timeout))
      (eval_doh-Names (with_scheme server) (
        let first = net.post domain (with_scheme server) timeout in
        if retried first.0 then net.get domain (with_scheme server) timeout else first))
  where
    either :
        (b c : Bool) (x y : Option QueryResult)
        → Ensures (Names server) x
        → Ensures (Names (with_scheme server)) y
        → Ensures
            (Names (if b then server else with_scheme server))
            (if b then x else if c then y else none)
    either true c x y h k = h
    either false true x y h k = k
    either false false x y h k = tt
