-- ===== src/Qmin/Query.antt =====
-- The queries of the QMIN scanner and what it reads from their answers
-- (src/qmin/scanner/scanner.go).
use odns_measurement_tools.Base.{
  ℕ, zero, suc, ◌+◌, ◌-◌, ◌/◌, ◌%◌, Bool, false, not, ◌&&◌, ◌||◌, Option, none, some, List, [], ◌∷◌,
  ◌++◌, ltb, ◌==◌, if◌then◌else◌,
}
use odns_measurement_tools.Net.{bytes_eq}
use odns_measurement_tools.Text.Defs.{Text, codes, has, has_prefix, contains, split}
use odns_measurement_tools.Text.Number.{ℤ, pos, negsuc, itoa}

-- What `netip.ParseAddr` makes of a text.
pub data Addr : Type 0 where
  ip4 : List ℕ → Addr
  ip6 bad : Addr

-- The configuration, and the packages net/netip and hash/crc32.
pub record ScanCfg : Type 0 where
  pub protocol : Text
  pub base_domain : Text
  pub parse_addr : Text → Addr
  pub crc : Text → ℕ

abbrev pub nibble : ℕ → ℕ → ℕ
nibble letters n = if ltb n 10 then b'0' + n else letters + (n - 10)

-- `%x` of bytes: two digits for each.
unfoldable pub hex_bytes : List ℕ → Text
hex_bytes [] = []
hex_bytes (b ∷ bytes) = nibble b'a' (b / 16) ∷ nibble b'a' (b % 16) ∷ hex_bytes bytes

hex_digits : ℕ → ℕ → Text
hex_digits zero n = []
hex_digits (suc fuel) n =
    let rest = hex_digits fuel (n / 16) in
    if ltb n 16 then nibble b'A' n ∷ [] else rest ++ nibble b'A' (n % 16) ∷ []

-- `%X` of a uint32: no more than eight digits.
unfoldable pub hex_upper : ℕ → Text
unfolding hex_digits
hex_upper = hex_digits 8

-- The result is `none` where the program ends by `log.Fatalln`.
unfoldable pub target_to_hex : ScanCfg → Text → Option Text
target_to_hex cfg target = elim (cfg.parse_addr target) [
  | ip4 bytes ↦ some (hex_bytes bytes)
  | ip6 ↦ some (hex_upper (cfg.crc target))
  | bad ↦ if bytes_eq cfg.protocol (codes "doh") then some (hex_upper (cfg.crc target)) else none
]

-- The labels from i down to 1, a dot behind each.
unfoldable pub labels : ℕ → Text
labels zero = []
labels (suc i) = itoa (suc i) ++ b'.' ∷ labels i

abbrev pub id_token : Text → ℕ → ℕ → Text
id_token hex token_depth draw = hex ++ b'-' ∷ (itoa token_depth ++ b'-' ∷ itoa draw)

abbrev pub suffixes : Bool → Bool → Bool → Text
suffixes induction qmin_mode nxopti =
    (if induction then codes "-induction" else [])
    ++ ((if qmin_mode then codes "-qminMode" else []) ++ (if nxopti then codes "-nxopti" else []))

-- `draw` is the result of rand.Intn(randMax).
unfoldable pub domain_assembly : ScanCfg → ℕ → Text → ℕ → Bool → Bool → Bool → Option Text
unfolding target_to_hex
domain_assembly cfg draw dns_server token_depth induction qmin_mode nxopti =
    if induction && qmin_mode then none else elim (target_to_hex cfg dns_server) [
      | none ↦ none
      | some hex ↦ some (
          labels (token_depth - 1)
          ++ (id_token hex token_depth draw
              ++ (suffixes induction qmin_mode nxopti ++ b'.' ∷ cfg.base_domain)))
    ]

pub record QueryResult : Type 0 where
  pub resolver_ip : Text
  pub status : ℤ
  pub res : Text
  pub requesting_ip : Text
  pub induction : Bool
  pub induction_pattern : Text
  pub induction_requester : Text
  pub qmin_mode : Bool
  pub nxopti : ℤ
  pub nxcheck : Bool
  pub resolver_type : Text

abbrev pub result_of : Text → Text → ℤ → Text → QueryResult
result_of server requesting_ip status res = record {
  resolver_ip = server;
  status = status;
  res = res;
  requesting_ip = requesting_ip;
  induction = false;
  induction_pattern = [];
  induction_requester = [];
  qmin_mode = false;
  nxopti = pos 0;
  nxcheck = false;
  resolver_type = [];
}

abbrev pub failed : Text → ℤ → Text → QueryResult
failed server status res = result_of server (codes "NONE") status res

unfoldable pub eval_comm_error : Text → Text → QueryResult
eval_comm_error err server =
    if contains err (codes "i/o timeout")
    then failed server (pos 3) (codes "timeout")
    else if contains err (codes "connection refused")
    then failed server (pos 1) (codes "refused")
    else if contains err (codes "no route to host")
    then failed server (pos 5) (codes "noRoute")
    else failed server (negsuc 0) (codes "unhandledError")

-- What the scanner reads of a response. An answer is the strings of a TXT record, or `none` for a
-- record of another type.
pub record Msg : Type 0 where
  pub rcode : ℕ
  pub recursion_available : Bool
  pub answers : List (Option (List Text))

unfoldable pub eval_rcode : Text → ℕ → QueryResult
eval_rcode server rcode =
    if rcode == 2
    then failed server (pos 2) (codes "servfail")
    else if rcode == 3
    then failed server (pos 4) (codes "nxdomain")
    else if rcode == 5
    then failed server (pos 1) (codes "refused")
    else failed server (negsuc 0) (codes "unhandledError")

abbrev pub eval_split : Text → List Text → QueryResult
eval_split server (requesting_ip ∷ pattern ∷ requester ∷ induced ∷ more) =
    record (result_of server requesting_ip (pos 0) pattern) {
      induction_requester = requester;
      induction_pattern = induced;
    }
eval_split server _ = failed server (negsuc 0) (codes "unhandledError")

unfoldable pub eval_txt : Text → Text → QueryResult
eval_txt server txt =
    if not (has b',' txt)
    then failed server (negsuc 0) (codes "unhandledError")
    else if bytes_eq txt (codes "false,,,")
    then failed server (pos 0) (codes "false")
    else eval_split server (split b',' txt)

-- The first TXT record decides; one with no string is an index out of range.
unfoldable pub eval_answers : Text → List (Option (List Text)) → Option QueryResult
unfolding eval_txt
eval_answers server [] = some (failed server (pos 9) (codes "noTXTResponse"))
eval_answers server (none ∷ answers) = eval_answers server answers
eval_answers server (some [] ∷ answers) = none
eval_answers server (some (txt ∷ more) ∷ answers) = some (eval_txt server txt)

unfoldable pub eval_msg : Text → Msg → Option QueryResult
unfolding eval_rcode eval_answers
eval_msg server res =
    if not (res.rcode == 0) then some (eval_rcode server res.rcode) else elim res.answers [
      | [] ↦ some (
          if not res.recursion_available
          then failed server (pos 6) (codes "noRecursion")
          else failed server (pos 7) (codes "noAnswer"))
      | _ ∷ _ ↦ eval_answers server res.answers
    ]

pub data Outcome : Type 0 where
  error : Text → Outcome
  answered : Msg → Outcome

-- The network: an exchange over UDP or TCP, and `doDoHQuery` by POST or by GET, which also gives the
-- status of HTTP.
pub record Network : Type 0 where
  pub exchange : Text → Text → ℕ → Outcome
  pub post : Text → Text → ℕ → ℕ × Outcome
  pub get : Text → Text → ℕ → ℕ × Outcome

-- `server` after the prefix for DoH is put in front.
abbrev pub with_scheme : Text → Text
with_scheme server =
    if not (has_prefix server (codes "https://")) && not (has_prefix server (codes "http://"))
    then codes "https://" ++ server
    else server

abbrev pub retried : ℕ → Bool
retried status = status == 400 || status == 405 || status == 415 || status == 501

abbrev pub eval_doh : Text → ℕ × Outcome → Option QueryResult
eval_doh server (status, error err) =
    some (if not (status == 0) then failed server (pos 9) err else eval_comm_error err server)
eval_doh server (status, answered msg) = eval_msg server msg

doh_query : Network → Text → Text → ℕ → Option QueryResult
unfolding eval_msg eval_comm_error
doh_query net domain server timeout =
    let first = net.post domain server timeout in
    eval_doh server (if retried first.0 then net.get domain server timeout else first)

abbrev pub eval_exchange : Text → Outcome → Option QueryResult
eval_exchange server (error err) = some (eval_comm_error err server)
eval_exchange server (answered msg) = eval_msg server msg

-- The queries are of type TXT.
unfoldable pub dns_query : ScanCfg → Network → Text → Text → ℕ → Option QueryResult
unfolding doh_query eval_msg eval_comm_error
dns_query cfg net domain server timeout =
    if bytes_eq cfg.protocol (codes "udp") || bytes_eq cfg.protocol (codes "tcp")
    then eval_exchange server (net.exchange domain server timeout)
    else if bytes_eq cfg.protocol (codes "doh")
    then doh_query net domain (with_scheme server) timeout
    else none
