-- ===== src/Trace/State.antt =====
-- The state of the TCP traceroute and its small helpers (src/traceroute/traceroute_tcp.go).
use odns_measurement_tools.Base.{
  ℕ, ◌+◌, ◌-◌, ◌*◌, ◌/◌, ◌%◌, Bool, false, Option, none, some, List, [], ◌∷◌, ◌++◌, u16, u32, ◌==◌,
  if◌then◌else◌,
}
use odns_measurement_tools.Net.{Ip}
use odns_measurement_tools.Tcp.Flags.{syn_flags, psh_ack_flags}
use odns_measurement_tools.Tcp.Segment.{Segment, SenderCfg}
use odns_measurement_tools.TcpScan.Handle.{dns_corrected}

-- `tracert_hop`
pub record Hop : Type 0 where
  pub hop_count : ℕ
  pub ts : ℕ
  pub response_ip : Ip

-- `tracert_param`; a time of -1 is `none`.
pub record Params : Type 0 where
  pub all_syns_sent : Option ℕ
  pub all_dns_packets_sent : Option ℕ
  pub syn_ack_received : Option ℕ
  pub dns_reply_received : Option ℕ
  pub initial_ip : Ip
  pub first_to_syn_ack : Ip
  pub dns_traceroute_port : ℕ
  pub finished : Option ℕ
  pub written : Bool
  pub syntr_hops : List Hop
  pub dnstr_hops : List Hop
  pub dns_answers : List Ip

-- `params.zero()`
unfoldable pub zeroed : Params → Params
zeroed params = record params {
  all_dns_packets_sent = none;
  all_syns_sent = none;
  syn_ack_received = none;
  dns_reply_received = none;
  written = false;
  finished = none;
  dns_traceroute_port = 0;
  syntr_hops = [];
  dnstr_hops = [];
  dns_answers = [];
  initial_ip = [];
}

-- `&tracert_param{}` with `finished = -1`: the other times are 0.
unfoldable pub fresh_params : Params
fresh_params = record {
  all_syns_sent = some 0;
  all_dns_packets_sent = some 0;
  syn_ack_received = some 0;
  dns_reply_received = some 0;
  initial_ip = [];
  first_to_syn_ack = [];
  dns_traceroute_port = 0;
  finished = none;
  written = false;
  syntr_hops = [];
  dnstr_hops = [];
  dns_answers = [];
}

-- An entry of `tracert_params` is never replaced by another pointer, so a start port stands for
-- the pointer in `write_chan` too. `output` has the parameters as `Write_results` wrote them.
pub record Tracer : Type 0 where
  pub params : ℕ → Option Params
  pub write_chan : List ℕ
  pub sent : List Segment
  pub output : List Params
  pub lowest_port : ℕ
  pub highest_port : ℕ

abbrev pub put : (ℕ → Option Params) → ℕ → Params → ℕ → Option Params
put m k params j = if j == k then some params else m j

unfoldable pub calc_start_port : ℕ → ℕ
calc_start_port port = port - port % 32

-- `(int)(port - lowest_port) / 32`; the difference is a uint16.
unfoldable pub id_from_port : ℕ → ℕ → ℕ
id_from_port lowest_port port = u16 (port + 65536 - lowest_port) / 32

abbrev pub send : Tracer → Segment → Tracer
send t p = record t { sent = t.sent ++ p ∷ [] }

abbrev pub store : Tracer → ℕ → Params → Tracer
store t k params = record t { params = put t.params k params }

abbrev pub enqueue : Tracer → ℕ → Tracer
enqueue t k = record t { write_chan = t.write_chan ++ k ∷ [] }

-- `dns_buf` is the query as gopacket serialises it, with the id given to it.
unfoldable pub build_ack_with_dns : SenderCfg → (ℕ → List ℕ) → Ip → ℕ → ℕ → ℕ → ℕ → Segment
unfolding calc_start_port
build_ack_with_dns cfg dns_buf dst_ip src_port seq_num ack_num ttl = record {
  ttl = ttl;
  src_ip = cfg.iface_ip;
  dst_ip = dst_ip;
  ip_id = u16 (calc_start_port src_port + ttl);
  src_port = src_port;
  dst_port = cfg.dst_port;
  flags = psh_ack_flags;
  seq = ack_num;
  ack = u32 (seq_num + 1);
  window = 8192;
  payload = dns_corrected (dns_buf (u16 (calc_start_port src_port + ttl)));
}

unfoldable pub send_syn : SenderCfg → ℕ → Ip → ℕ → ℕ → Tracer → Tracer
send_syn cfg id dst_ip ttl start_port t = elim (t.params start_port) [
  | none ↦ t
  | some _ ↦ send t (record {
    ttl = ttl;
    src_ip = cfg.iface_ip;
    dst_ip = dst_ip;
    ip_id = u16 (start_port + ttl);
    src_port = u16 (start_port + ttl);
    dst_port = 53;
    flags = syn_flags;
    seq = u32 (id % 2097152 * 2048);
    ack = 0;
    window = 0;
    payload = [];
  })
]

-- The state after `Traceroute_init`, with the highest port that `Start_traceroute` sets for a number
-- of routines; ports are uint16.
unfoldable pub traceroute_init : ℕ → Tracer
traceroute_init number_routines = record {
  params = λ k. none;
  write_chan = [];
  sent = [];
  output = [];
  lowest_port = 61024;
  highest_port = u16 (61024 + u16 (32 * number_routines));
}
