-- ===== src/Trace/Tests.antt =====
-- The traceroute's theorems at a trace of 192.0.2.7 from the start port 61056.
use odns_measurement_tools.Base.{
  ℕ, ◌-◌, ◌/◌, ◌%◌, ◌≡◌, refl, arith, false, none, some, List, [], ◌∷◌, u16,
}
use odns_measurement_tools.Net.{Ip}
use odns_measurement_tools.Trace.State.{
  Params, Tracer, zeroed, fresh_params, put, calc_start_port, id_from_port,
}
use odns_measurement_tools.Tcp.Segment.{SenderCfg}
use odns_measurement_tools.Trace.Handle.{Inner, Content, handle_pkt}
use odns_measurement_tools.Trace.Ports.{routine_of_port}
use Content.{icmp}
use odns_measurement_tools.Trace.Timeouts.{overdue_ports}

abbrev router : Ip
router = 198 ∷ 51 ∷ 100 ∷ 1 ∷ []

abbrev params : Params
params = record (zeroed fresh_params) {
  initial_ip = 192 ∷ 0 ∷ 2 ∷ 7 ∷ [];
  all_syns_sent = some 100;
}

abbrev tracer : Tracer
tracer = record {
  params = put (λ k. none) 61056 params;
  write_chan = [];
  sent = [];
  output = [];
  lowest_port = 61024;
  highest_port = 61088;
}

-- The bytes of a TCP header behind its source port.
abbrev header : List ℕ
header = 0 ∷ 53 ∷ 0 ∷ 0 ∷ 0 ∷ 0 ∷ 0 ∷ 0 ∷ 0 ∷ 0 ∷ 80 ∷ 2 ∷ 0 ∷ 0 ∷ 0 ∷ 0 ∷ 0 ∷ 0 ∷ []

abbrev sender : SenderCfg
sender = record { iface_ip = 192 ∷ 0 ∷ 2 ∷ 1 ∷ []; dst_port = 53 }

-- What quotes the SYN with TTL 3.
abbrev quoted : Inner
quoted = record { id = 3; payload = u16 61059 / 256 ∷ u16 61059 % 256 ∷ header }

-- A time-exceeded message is not recorded.
time_exceeded_is_dropped :
    handle_pkt sender
      (λ id. [])
      (λ bytes. none)
      (λ i. false)
      101
      101
      router
      (icmp 11 0 (some quoted))
      tracer
    ≡ tracer
unfolding handle_pkt
time_exceeded_is_dropped = refl

routine_one_ttl_three :
    (calc_start_port 61059 ≡ 61056)
    × (id_from_port 61024 (calc_start_port 61059) ≡ 1)
    × (61059 - calc_start_port 61059 ≡ 3)
routine_one_ttl_three = routine_of_port 1 3 (omega arith) (omega arith)

overdue_at_110 : overdue_ports 110 tracer.params (61024 ∷ 61056 ∷ []) ≡ 61056 ∷ []
unfolding zeroed
overdue_at_110 = refl
