-- ===== src/Trace/Handle.antt =====
-- The packet handler of the TCP traceroute (src/traceroute/traceroute_tcp.go, `Handle_pkt`).
use odns_measurement_tools.Base.{
  ℕ, zero, suc, ◌+◌, ◌-◌, ◌*◌, Bool, true, false, not, ◌&&◌, ◌||◌, Option, none, some, List, [],
  ◌∷◌, ◌++◌, length, u16, ltb, leb, ◌==◌, if◌then◌else◌,
}
use odns_measurement_tools.Net.{Ip}
use odns_measurement_tools.Tcp.Flags.{is_psh_ack, is_syn, is_syn_ack, is_fin_ack, is_fin_psh_ack}
use odns_measurement_tools.Tcp.Segment.{Segment, SenderCfg, send_ack_pos_fin}
use odns_measurement_tools.TcpScan.Handle.{TcpLayer, dns_of_payload}
use odns_measurement_tools.Trace.State.{
  Hop, Params, Tracer, calc_start_port, send, store, enqueue, build_ack_with_dns,
}

-- The IPv4 packet inside an ICMP message.
pub record Inner : Type 0 where
  pub id : ℕ
  pub payload : List ℕ

-- What gopacket reports of a packet. `icmp` has the type and the code of an ICMP message, and the
-- IPv4 layer that its payload decodes to, if there is one.
pub data Content : Type 0 where
  icmp : (type code : ℕ) → Option Inner → Content
  tcp : Bool → TcpLayer → Content
  other : Content

-- gopacket's `ICMPv4TypeCode` is a uint16 with the type in its high byte.
abbrev pub type_code : ℕ → ℕ → ℕ
type_code type code = type * 256 + code

-- gopacket's `ICMPv4TypeTimeExceeded`, the number of the type alone.
abbrev pub icmpv4_type_time_exceeded : ℕ
icmpv4_type_time_exceeded = 11

pub record DnsReply : Type 0 where
  pub id : ℕ
  pub answers : List Ip

abbrev is_none {ℓ} : {A : Type ℓ} → Option A → Bool
is_none none = true
is_none (some a) = false

abbrev is_empty {ℓ} : {A : Type ℓ} → List A → Bool
is_empty [] = true
is_empty (x ∷ xs) = false

abbrev sub16 : ℕ → ℕ → ℕ
sub16 a b = u16 (a + 65536 - b)

abbrev pub hop : ℕ → ℕ → Ip → Hop
hop count now ip = record { hop_count = count; ts = now; response_ip = ip }

abbrev add_syntr : Params → Hop → Params
add_syntr params h = record params { syntr_hops = params.syntr_hops ++ h ∷ [] }

abbrev add_dnstr : Params → Hop → Params
add_dnstr params h = record params { dnstr_hops = params.dnstr_hops ++ h ∷ [] }

module _ (now : ℕ) (src_ip : Ip) where
  unfoldable pub icmp_params : Tracer → ℕ → ℕ → ℕ → Params → Tracer
  icmp_params t source_port start_port inner_id params =
      if is_none params.syn_ack_received
        && leb t.lowest_port source_port
        && ltb source_port t.highest_port
      then store t start_port (add_syntr params (hop (source_port - start_port) now src_ip))
      else if not (is_none params.syn_ack_received) && params.dns_traceroute_port == source_port
      then store t start_port (add_dnstr params (hop (sub16 inner_id start_port) now src_ip))
      else t

  unfoldable pub icmp_port : Tracer → ℕ → ℕ → Tracer
  unfolding icmp_params
  icmp_port t source_port inner_id = elim (t.params (calc_start_port source_port)) [
    | none ↦ t
    | some params ↦ icmp_params t source_port (calc_start_port source_port) inner_id params
  ]

  -- The source port of the probe stands in the first two bytes of the inner payload.
  unfoldable pub icmp_inner : Tracer → Inner → List ℕ → Tracer
  unfolding icmp_port
  icmp_inner t inner (a ∷ b ∷ more) =
      if ltb (length inner.payload) 20 then t else icmp_port t (a * 256 + b) inner.id
  icmp_inner t inner _ = t

  unfoldable pub on_icmp : Option Inner → Tracer → Tracer
  unfolding icmp_inner
  on_icmp none t = t
  on_icmp (some inner) t = icmp_inner t inner inner.payload

-- The loop that sends the query with growing TTL; `replied i` is whether round `i` finds
-- `dns_reply_received` set, by another packet's handler.
unfoldable pub dns_probes : (ℕ → Segment) → (ℕ → Bool) → ℕ → ℕ → List Segment
dns_probes packet replied i zero = []
dns_probes packet replied i (suc n) =
    let rest = packet i ∷ dns_probes packet replied (i + 1) n in if replied i then [] else rest

module _ (cfg : SenderCfg) (dns_buf : ℕ → List ℕ) (now : ℕ) (src_ip : Ip) (layer : TcpLayer)
    (start_port : ℕ) where
  reply : Tracer → Params → Bool → Tracer
  reply t params fin =
      send t (send_ack_pos_fin cfg params.initial_ip layer.dst_port layer.seq layer.ack fin)

  first_syn_ack : (ℕ → Bool) → ℕ → Tracer → Params → Tracer
  first_syn_ack replied later t params =
      let p = record (add_syntr params (hop (layer.dst_port - start_port) now src_ip)) {
        syn_ack_received = some now;
        first_to_syn_ack = src_ip;
      } in
      if not (params.dns_traceroute_port == 0) then store t start_port p else record t {
        params =
            (store t start_port (record p {
              dns_traceroute_port = layer.dst_port;
              all_dns_packets_sent = some later;
            })).params;
        sent =
            t.sent
            ++ dns_probes
                (λ i.
                  build_ack_with_dns cfg dns_buf params.initial_ip layer.dst_port layer.seq
                    layer.ack i)
                replied 1 29;
      }

  unfoldable pub on_syn_ack : (ℕ → Bool) → ℕ → Tracer → Params → Tracer
  unfolding first_syn_ack reply
  on_syn_ack replied later t params =
      if is_none params.syn_ack_received
      then first_syn_ack replied later t params
      else if not (layer.dst_port == params.dns_traceroute_port)
      then reply (reply t params false) params true
      else t

  unfoldable pub on_fin_ack : Tracer → Params → Tracer
  unfolding reply
  on_fin_ack t params =
      let t' = reply t params false in
      if layer.dst_port == params.dns_traceroute_port
      then enqueue (store t' start_port (record params { finished = some now })) start_port
      else t'

  -- The addresses of the answers; an answer with no address is passed over.
  unfoldable pub answers_ip : List Ip → List Ip
  answers_ip [] = []
  answers_ip ([] ∷ answers) = answers_ip answers
  answers_ip ((b ∷ ip) ∷ answers) = (b ∷ ip) ∷ answers_ip answers

  store_answers : DnsReply → Tracer → Params → Tracer
  unfolding reply answers_ip
  store_answers dns t params =
      let p = record params {
        dns_answers = answers_ip dns.answers;
        dns_reply_received = some now;
      } in
      let t' = reply t params true in
      if is_fin_psh_ack layer.flags
      then enqueue (store t' start_port (record p { finished = some now })) start_port
      else store t' start_port p

  on_dns : DnsReply → Tracer → Params → Tracer
  unfolding store_answers reply
  on_dns dns t params =
      let p = add_dnstr params (hop (sub16 dns.id start_port) now src_ip) in
      let t' = store t start_port p in
      if not (layer.dst_port == params.dns_traceroute_port)
      then reply t' params true
      else if not (is_empty params.dns_answers)
      then reply t' params true
      else store_answers dns t' p

  -- A payload that is no DNS answer is answered with a FIN-ACK while the trace is unfinished.
  bad_payload : Tracer → Params → Tracer
  unfolding reply
  bad_payload t params = if is_none params.finished then reply t params true else t

  -- `decode` is gopacket's DNS decoder.
  unfoldable pub on_psh_ack : (List ℕ → Option DnsReply) → Tracer → Params → Tracer
  unfolding on_dns bad_payload reply
  on_psh_ack decode t params =
      if leb (length layer.payload) 2
      then bad_payload t params
      else elim (dns_of_payload layer.payload) [
        | none ↦ reply t params true
        | some pld ↦ elim (decode pld) [
          | none ↦ bad_payload t params
          | some dns ↦ on_dns dns t params
        ]
      ]

module _ (cfg : SenderCfg) (dns_buf : ℕ → List ℕ) (decode : List ℕ → Option DnsReply) where
  unfoldable pub on_tcp : (ℕ → Bool) → ℕ → ℕ → Ip → Bool → TcpLayer → ℕ → Tracer → Params → Tracer
  on_tcp replied now later src_ip has_app layer start_port t params =
      if not has_app
      then (if is_syn layer.flags
          then t
          else if is_syn_ack layer.flags
          then on_syn_ack cfg dns_buf now src_ip layer start_port replied later t params
          else if is_fin_ack layer.flags
          then on_fin_ack cfg dns_buf now src_ip layer start_port t params
          else t)
      else if is_psh_ack layer.flags || is_fin_psh_ack layer.flags
      then on_psh_ack cfg dns_buf now src_ip layer start_port decode t params
      else t

  -- `now` and `later` are the times at the start of the handler and after the last query. An ICMP
  -- message has no TCP layer.
  unfoldable pub handle_pkt : (ℕ → Bool) → ℕ → ℕ → Ip → Content → Tracer → Tracer
  unfolding on_tcp
  handle_pkt replied now later src_ip (icmp type code inner) t =
      if type_code type code == icmpv4_type_time_exceeded then on_icmp now src_ip inner t else t
  handle_pkt replied now later src_ip (tcp has_app layer) t =
      elim (t.params (calc_start_port layer.dst_port)) [
        | none ↦ t
        | some params ↦
            on_tcp replied now later src_ip has_app layer (calc_start_port layer.dst_port) t params
      ]
  handle_pkt replied now later src_ip other t = t
