-- ===== src/Qmin/ServerTests.antt =====
-- The theorems on the QMIN scanner and its server for one domain of three labels below the base.
use odns_measurement_tools.Base.{
  ℕ, ◌≤◌, ◌<◌, ◌≡◌, refl, arith, Bool, Option, true, false, none, some, List, [], ◌∷◌, length, ◌==◌,
  if◌then◌else◌, All,
}
use odns_measurement_tools.Text.Defs.{Text, codes, has, has_suffix, split}
use odns_measurement_tools.Text.Parts.{has-Lacks}
use odns_measurement_tools.Qmin.Total.{IsValid, request_response-IsValid}
use odns_measurement_tools.Text.Number.{pos, itoa}
use odns_measurement_tools.Qmin.Query.{
  ip4, ScanCfg, id_token, labels, hex_bytes, result_of, eval_msg, domain_assembly, target_to_hex,
}
use odns_measurement_tools.Qmin.Server.{ServerCfg, Request, Reply, Probes}
use odns_measurement_tools.Qmin.Handler.{request_response, line_of, quoted}
use odns_measurement_tools.Qmin.Passed.{passed_on}
use odns_measurement_tools.Qmin.Pattern.{Metadata, analyze_pattern, base_labels}
use odns_measurement_tools.Qmin.Stages.{Queries}
use odns_measurement_tools.Qmin.Ids.{IsHexDigit, hex_bytes-All}
use odns_measurement_tools.Qmin.Runs.{Session, first, next}
use odns_measurement_tools.Qmin.Rendered.{IsTypeName}
use odns_measurement_tools.Qmin.Detect.{reported}
use odns_measurement_tools.Qmin.Observed.{session-analyzed}
use odns_measurement_tools.Qmin.Direct.{direct-analyzed}
use odns_measurement_tools.Qmin.Apart.{request_response-other}

abbrev type_name : ℕ → Text
type_name q = if q == 16 then codes "TXT" else if q == 2 then codes "NS" else codes "A"

abbrev server : ServerCfg Text
server = record {
  base_url = codes "x.org.";
  timeout = 1000;
  resource_records = λ n. none;
  dns_new = λ t. some t;
  type_to_string = type_name;
  string_to_type = λ t. 1;
}

-- The text between the first two quotes of a line, as a TXT record has it.
abbrev until_quote : Text → Text
until_quote [] = []
until_quote (c ∷ s) = let rest = until_quote s in if c == b'"' then [] else c ∷ rest

abbrev between_quotes : Text → Text
between_quotes [] = []
between_quotes (c ∷ s) = let rest = between_quotes s in if c == b'"' then until_quote s else rest

abbrev strings : Text → Option (List Text)
strings t = if has b'"' t then some (between_quotes t ∷ []) else none

abbrev bytes : List ℕ
bytes = 1 ∷ 2 ∷ 3 ∷ 4 ∷ []

abbrev hex : Text
hex = hex_bytes bytes

abbrev from : Text
from = codes "192.0.2.1"

abbrev request : Text → ℕ → Request
request name qtype = record { name = name; qtype = qtype; remote = codes "192.0.2.1:5353" }

abbrev empty : Probes
empty k = none

abbrev r0 : Request
r0 = request (codes "01020304-3-7.x.org.") 2

abbrev r1 : Request
r1 = request (codes "1.01020304-3-7.X.org.") 1

abbrev r2 : Request
r2 = request (codes "2.1.01020304-3-7.x.org.") 16

named :
    (t : Text)
    → has b'_' t ≡ false
    → has b'.' t ≡ false
    → has b'|' t ≡ false
    → has b',' t ≡ false
    → IsTypeName t
named t h i j k = (has-Lacks b'_' t h, has-Lacks b'.' t i, has-Lacks b'|' t j, has-Lacks b',' t k)

if-IsTypeName :
    (b : Bool) (s t : Text) → IsTypeName s → IsTypeName t → IsTypeName (if b then s else t)
if-IsTypeName true s t h k = h
if-IsTypeName false s t h k = k

type_name-IsTypeName : (q : ℕ) → IsTypeName (type_name q)
type_name-IsTypeName q =
    if-IsTypeName (q == 16) (codes "TXT") _ (named (codes "TXT") refl refl refl refl) (
      if-IsTypeName (q == 2) (codes "NS") (codes "A") (named (codes "NS") refl refl refl refl)
        (named (codes "A") refl refl refl refl))

bytes_small : All (λ b. b < 256) bytes
bytes_small = (omega arith, (omega arith, (omega arith, (omega arith, tt))))

hex-IsHexDigit : All IsHexDigit hex
hex-IsHexDigit = hex_bytes-All bytes bytes_small

six_digits : 6 ≤ length hex
unfolding hex_bytes
six_digits = omega arith

-- The map is valid after each query.
abbrev Run : Queries → Type 0
Run qs = (probes : Probes) × IsValid probes × Session server hex 3 7 from (codes "NS") qs probes

start : Run []
unfolding itoa labels hex_bytes split
start =
    let (res, returned, valid) = request_response-IsValid server 1 r0 empty (λ k p e. absurd cc) in
    (res.0, valid, first 1 r0 empty res.0 res.1 refl refl (refl, refl) refl refl returned)

later : Run ((0, codes "A") ∷ [])
unfolding itoa labels hex_bytes split
later =
    let (probes, valid, s) = start in
    let (res, returned, valid2) = request_response-IsValid server 2 r1 probes valid in
    (res.0, valid2, next 2 r1 [] 0 probes res.0 res.1 s (refl, refl) returned)

abbrev metadata : Metadata
metadata = record {
  start = [];
  fin = [];
  runtime = [];
  input = [];
  num_resolver = 1;
  timeout = 1;
  retry_timeout = 1;
  protocol = codes "udp";
  label_depth = 3;
  rounds = 1;
  base_url = codes "x.org.";
}

abbrev read : Text
read = codes "2_TXT|1_A|01020304-3-7_NS"

session-analyzed_example :
    ((probes2 : Probes) × (answer : Reply Text) × (request_response server 3 r2 later.0
        ≡ some (probes2, answer))
      × (eval_msg from (passed_on strings true answer)
          ≡ some (record (result_of from from (pos 0) read) {
            induction_requester = codes "NULL";
            induction_pattern = codes "NULL";
          })))
    × (analyze_pattern read metadata
        ≡ some (record { qmin = true; qmin_pattern = codes "5TXT-4A-3NS"; max = 3; min = 3 }))
unfolding itoa labels hex_bytes split base_labels has_suffix
session-analyzed_example =
    session-analyzed server hex 3 7 type_name-IsTypeName hex-IsHexDigit six_digits 3 r2 from
      (codes "NS") from ((0, codes "A") ∷ []) 0 later.0 metadata strings true
      (line_of server 3 r2 (codes "TXT") (quoted (reported from read))) later.2 (refl, refl) refl
      refl (has-Lacks b',' from refl) (omega arith) refl refl

request_response-IsValid_example :
    (res : Probes × Reply Text) × (request_response server 3 r2 later.0 ≡ some res) × IsValid res.0
request_response-IsValid_example = request_response-IsValid server 3 r2 later.0 later.1

abbrev r3 : Request
r3 = request (codes "aabbccdd-3-7.x.org.") 16

request_response-other_example :
    (request_response-IsValid server 3 r3 later.0 later.1).0.0 (id_token hex 3 7)
    ≡ later.0 (id_token hex 3 7)
unfolding itoa labels hex_bytes split
request_response-other_example =
    request_response-other server 3 r3 later.0 _ (id_token hex 3 7) _ (λ e. cc) (λ e. cc)
      (request_response-IsValid server 3 r3 later.0 later.1).1

abbrev scan : ScanCfg
scan = record {
  protocol = codes "udp";
  base_domain = codes "x.org.";
  parse_addr = λ t. ip4 bytes;
  crc = λ t. 7;
}

abbrev direct : Text
direct = codes "2.1.01020304-3-7_TXT"

direct-analyzed_example :
    ((probes2 : Probes) × (answer : Reply Text) × (request_response server 3 r2 empty
        ≡ some (probes2, answer))
      × (eval_msg from (passed_on strings true answer)
          ≡ some (record (result_of from from (pos 0) direct) {
            induction_requester = codes "NULL";
            induction_pattern = codes "NULL";
          })))
    × (analyze_pattern direct metadata
        ≡ some (record { qmin = false; qmin_pattern = codes "5TXT"; max = 1; min = 1 }))
unfolding itoa labels hex_bytes split base_labels has_suffix domain_assembly target_to_hex
direct-analyzed_example =
    direct-analyzed server scan 7 (codes "1.2.3.4") bytes 1 3 r2 empty from metadata strings true
      (line_of server 3 r2 (codes "TXT") (quoted (reported from direct))) refl bytes_small refl refl
      refl refl refl refl refl (type_name-IsTypeName 16) (has-Lacks b',' from refl) (omega arith)
      refl refl
