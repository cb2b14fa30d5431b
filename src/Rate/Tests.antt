-- ===== src/Rate/Tests.antt =====
-- The theorems on the rate limit tester for a range of ports and two resolvers.
use odns_measurement_tools.Base.{
  ℕ, ◌+◌, ◌<◌, ◌≡◌, ◌↔◌, refl, arith, false, none, some, List, [], ◌∷◌,
}
use odns_measurement_tools.Rate.State.{
  RateCfg, ResolverEntry, Tester, DnsReply, begin_test, probe_port, handle_pkt, put, record_answer,
  fresh_data,
}
use odns_measurement_tools.Net.{Ip, to4}
use odns_measurement_tools.Text.Defs.{Text, codes, split}
use odns_measurement_tools.Rate.Forwarders.{
  ReadCfg, Resolvers, Detected, read_header, read_rows, read_forwarders, find_active_fwds,
}
use odns_measurement_tools.Rate.Ready.{AreReady, forwarders-AreReady}
use odns_measurement_tools.Rate.Rounds.{collect, collect-all}
use odns_measurement_tools.Rate.Answers.{
  answered, handle_pkt-answered, IsFound, begin_test-finds_iff,
}

abbrev cfg : RateCfg
cfg = record { concurrent_pool = false; subroutines = 3; port_min = 40000; port_max = 40100 }

abbrev entry : ResolverEntry
entry = record {
  resolver_ip = 9 ∷ 9 ∷ 9 ∷ 9 ∷ [];
  tfwd_ips = (1 ∷ 2 ∷ 3 ∷ 4 ∷ []) ∷ [];
  outport = 0;
  rate_data = [];
}

abbrev tester : Tester
tester = record { heap = λ p. entry; active_resolvers = λ k. none; current_port = 40007 }

-- At the last port but one of the range, an answer to the second subroutine is not found.
begin_test-finds_iff_example :
    IsFound cfg 0 40099 (begin_test cfg 0 (record tester { current_port = 40099 })) 2
    ↔ (40099 + 2 < 40100)
begin_test-finds_iff_example =
    begin_test-finds_iff cfg 0 (record tester { current_port = 40099 }) 2 (omega arith, omega arith)
      (omega arith) (omega arith) (omega arith) (omega arith)

abbrev reply : DnsReply
reply = record { response_code = 0; answer_types = 1 ∷ [] }

handle_pkt-answered_example :
    handle_pkt 5
      (some (record { dst_port = probe_port cfg 40007 1; size = 60; dns = some reply }))
      (begin_test cfg 0 tester)
    ≡ some (record (begin_test cfg 0 tester) {
      heap = put (begin_test cfg 0 tester).heap 0 (record ((begin_test cfg 0 tester).heap 0) {
        rate_data = answered 3 1 (record_answer 5 60 fresh_data);
      });
    })
handle_pkt-answered_example =
    handle_pkt-answered cfg 0 tester 1 5 60 reply (omega arith, omega arith) (omega arith)
      (omega arith) (omega arith) refl

collect-all_example : collect 4 (none ∷ some 0 ∷ none ∷ []) (2 ∷ [], 0) ≡ some (2 ∷ 0 ∷ [], [])
collect-all_example = collect-all 4 none (some 0 ∷ none ∷ []) (2 ∷ []) 0 (refl, tt) refl

abbrev read_cfg : ReadCfg
read_cfg = record { response_ip_only = false; parse_ip = λ t. 1 ∷ 1 ∷ 1 ∷ t }

abbrev file : List Text
file =
    codes "ip_request;ip_response" ∷ codes "1;9" ∷ [] ∷ codes "2;9" ∷ codes "1;9" ∷ codes "3;8" ∷ []

abbrev resolver : ℕ → List Ip → ResolverEntry
resolver b ips = record {
  resolver_ip = 1 ∷ 1 ∷ 1 ∷ b ∷ [];
  tfwd_ips = ips;
  outport = 0;
  rate_data = fresh_data ∷ [];
}

abbrev read : Resolvers
read =
    (codes "9", resolver b'9' ((1 ∷ 1 ∷ 1 ∷ b'1' ∷ []) ∷ (1 ∷ 1 ∷ 1 ∷ b'2' ∷ []) ∷ []))
    ∷ (codes "8", resolver b'8' ((1 ∷ 1 ∷ 1 ∷ b'3' ∷ []) ∷ []))
    ∷ []

abbrev detected : Detected
detected = record {
  records = 1;
  answer_ip = some (1 ∷ 1 ∷ 1 ∷ b'9' ∷ []);
  ip = 1 ∷ 1 ∷ 1 ∷ b'2' ∷ [];
}

abbrev left : Resolvers
left = (codes "9", resolver b'9' ((1 ∷ 1 ∷ 1 ∷ b'2' ∷ []) ∷ [])) ∷ []

forwarders-AreReady_example : AreReady read × AreReady left
unfolding read_forwarders find_active_fwds split read_header read_rows to4
forwarders-AreReady_example =
    forwarders-AreReady read_cfg file (detected ∷ detected ∷ []) read left refl refl
