-- ===== src/Rate/State.antt =====
-- The resolvers under test, the ports of their tests and the received answers
-- (src/ratelimit/ratelimit.go). Times are in microseconds since the start of the program.
use odns_measurement_tools.Base.{
  ℕ, zero, suc, ◌+◌, ◌-◌, ◌*◌, ◌%◌, Bool, true, false, not, ◌&&◌, Option, none, some, List, [], ◌∷◌,
  ◌++◌, length, ltb, ◌==◌, if◌then◌else◌, u16, u32,
}
use odns_measurement_tools.Net.{Ip}

pub record AnswerEntry : Type 0 where
  pub ts : ℕ
  pub dns_payload_size : ℕ

-- A pair of the rate curve by its numbers of packets: the source stores their quotients by the
-- duration.
pub record RatePair : Type 0 where
  pub target_tx_rate : ℕ
  pub duration : ℕ
  pub received : ℕ
  pub sent : ℕ

-- The answers, the latest first. The first response is `none` where the source has -1.
pub record RateData : Type 0 where
  pub answer_data : List AnswerEntry
  pub rate_curve_pair : List RatePair
  pub moving_sent_packets : ℕ
  pub first_response_ts : Option ℕ

pub record ResolverEntry : Type 0 where
  pub resolver_ip : Ip
  pub tfwd_ips : List Ip
  pub outport : ℕ
  pub rate_data : List RateData

pub record RateCfg : Type 0 where
  pub concurrent_pool : Bool
  pub subroutines : ℕ
  pub port_min : ℕ
  pub port_max : ℕ

-- The entries are shared by pointers: here a heap, and a pointer is an index.
pub record Tester : Type 0 where
  pub heap : ℕ → ResolverEntry
  pub active_resolvers : ℕ → Option ℕ
  pub current_port : ℕ

-- The loop from the last answer back: it ends at the first that is too old.
unfoldable pub count_received : ℕ → ℕ → List AnswerEntry → ℕ
count_received rx_start rx_end [] = 0
count_received rx_start rx_end (a ∷ answers) =
    let rest = count_received rx_start rx_end answers in
    if ltb a.ts rx_start then 0 else if ltb a.ts rx_end then suc rest else rest

-- The durations are in milliseconds.
unfoldable pub rx_start_of : ℕ → ℕ → ℕ → ℕ → ℕ
rx_start_of now send timeout first =
    if ltb (now - (send + timeout) * 1000) first && ltb first (now - send * 1000)
    then first
    else now - send * 1000

unfoldable pub received_since : ℕ → ℕ → ℕ → List AnswerEntry → Option ℕ → ℕ
unfolding count_received rx_start_of
received_since now send timeout answers none = 0
received_since now send timeout answers (some first) =
    let start = rx_start_of now send timeout first in
    count_received start (start + send * 1000) answers

unfoldable pub calc_last_second_rate : ℕ → ℕ → ℕ → ℕ → RateData → RateData
unfolding received_since
calc_last_second_rate now target send timeout entry =
    let no_rx_pkts : ℕ =
      received_since now send timeout entry.answer_data entry.first_response_ts in
    record entry {
      rate_curve_pair =
          entry.rate_curve_pair
          ++ record {
            target_tx_rate = target;
            duration = send;
            received = no_rx_pkts;
            sent = entry.moving_sent_packets;
          }
            ∷ [];
      moving_sent_packets = 0;
      first_response_ts = none;
    }

abbrev pub fresh_data : RateData
fresh_data = record {
  answer_data = [];
  rate_curve_pair = [];
  moving_sent_packets = 0;
  first_response_ts = none;
}

abbrev pub repeat : ℕ → List RateData
repeat zero = []
repeat (suc n) = fresh_data ∷ repeat n

abbrev pub put {ℓ} : {A : Type ℓ} → (ℕ → A) → ℕ → A → ℕ → A
put m k v j = if j == k then v else m j

-- The keys of the ports from i on are set to a value.
unfoldable pub set_ports : ℕ → ℕ → ℕ → Option ℕ → (ℕ → Option ℕ) → ℕ → Option ℕ
set_ports outport zero i v m = m
set_ports outport (suc n) i v m = put (set_ports outport n i v m) (u16 (outport + (i + n))) v

-- The number of subroutines of a test.
abbrev pub slots : RateCfg → ResolverEntry → ℕ
slots cfg entry = if cfg.concurrent_pool then length entry.tfwd_ips else cfg.subroutines

abbrev pub next_port : RateCfg → ResolverEntry → ℕ → ℕ
next_port cfg entry port =
    let next = u32 (port + (if cfg.concurrent_pool then length entry.tfwd_ips else 1)) in
    if ltb cfg.port_max next then next - (cfg.port_max - cfg.port_min + 1) else next

-- The block of send_packets before a test: p is the entry that is taken from the map.
unfoldable pub begin_test : RateCfg → ℕ → Tester → Tester
unfolding set_ports
begin_test cfg p s =
    let entry = s.heap p in
    let outport = s.current_port in
    record s {
      heap =
          put s.heap p
            (record entry { outport = u16 outport; rate_data = repeat (slots cfg entry) });
      active_resolvers = set_ports outport (slots cfg entry) 0 (some p) s.active_resolvers;
      current_port = next_port cfg entry outport;
    }

-- The block after the test that began at `outport`.
unfoldable pub end_test : RateCfg → ℕ → ℕ → Tester → Tester
unfolding set_ports
end_test cfg p outport s = record s {
  active_resolvers =
      if cfg.concurrent_pool
      then set_ports outport (length (s.heap p).tfwd_ips) 0 none s.active_resolvers
      else put s.active_resolvers (u16 outport) none;
}

-- The port that a subroutine sends from.
unfoldable pub probe_port : RateCfg → ℕ → ℕ → ℕ
probe_port cfg outport subid =
    (outport - cfg.port_min + subid) % (cfg.port_max - cfg.port_min) + cfg.port_min

-- A packet: its UDP layer with port and payload size, and the DNS message in it, by its response
-- code and the types of its answers.
pub record DnsReply : Type 0 where
  pub response_code : ℕ
  pub answer_types : List ℕ

pub record UdpReply : Type 0 where
  pub dst_port : ℕ
  pub size : ℕ
  pub dns : Option DnsReply

-- Whether a message counts: no error "not implemented", and not only an HINFO record.
abbrev pub is_counted : DnsReply → Bool
is_counted dns = not (dns.response_code == 4) && has_answer dns.answer_types
  where
    has_answer : List ℕ → Bool
    has_answer [] = false
    has_answer (t ∷ []) = not (t == 13)
    has_answer (t ∷ u ∷ types) = true

abbrev pub record_answer : ℕ → ℕ → RateData → RateData
record_answer rec_time size d = record d {
  answer_data = record { ts = rec_time; dns_payload_size = size } ∷ d.answer_data;
  first_response_ts = elim d.first_response_ts [ none ↦ some rec_time | some t ↦ some t ];
}

-- Changing one element; the result is `none` where it is out of range.
abbrev pub modify : (RateData → RateData) → ℕ → List RateData → Option (List RateData)
modify f n [] = none
modify f zero (d ∷ ds) = some (f d ∷ ds)
modify f (suc n) (d ∷ ds) = elim (modify f n ds) [ none ↦ none | some more ↦ some (d ∷ more) ]

abbrev pub with_data : Tester → ℕ → Option (List RateData) → Option Tester
with_data s p none = none
with_data s p (some updated) =
    some (record s { heap = put s.heap p (record (s.heap p) { rate_data = updated }) })

-- The part for the entry that is found under the port.
abbrev pub reply_to : ℕ → UdpReply → Tester → Option ℕ → Option Tester
reply_to rec_time udp s none = some s
reply_to rec_time udp s (some p) = with_data s p (
    modify (record_answer rec_time udp.size) (u16 (udp.dst_port + 65536 - (s.heap p).outport))
      (s.heap p).rate_data)

unfoldable pub on_reply : ℕ → UdpReply → Tester → Option Tester
on_reply rec_time udp s = reply_to rec_time udp s (s.active_resolvers udp.dst_port)

-- `Handle_pkt`: the result is `none` where `rate_data[subid]` is out of range.
unfoldable pub handle_pkt : ℕ → Option UdpReply → Tester → Option Tester
unfolding on_reply
handle_pkt rec_time none s = some s
handle_pkt rec_time (some udp) s = elim udp.dns [
  | none ↦ some s
  | some dns ↦ if is_counted dns then on_reply rec_time udp s else some s
]
