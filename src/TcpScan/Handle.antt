-- ===== src/TcpScan/Handle.antt =====
-- The packet handler of the TCP scanner (src/scanner/tcp/tcp_scanner.go, `Handle_pkt`).
use odns_measurement_tools.Base.{
  ℕ, ◌+◌, ◌-◌, ◌*◌, Bool, true, false, not, ◌||◌, Option, none, some, List, [], ◌∷◌, ◌++◌, length,
  get_elem?, set, u8, u32, ◌==◌, if◌then◌else◌,
}
use odns_measurement_tools.Net.{Ip}
use odns_measurement_tools.Tcp.Flags.{
  TcpFlags, psh_ack_flags, is_psh_ack, is_syn_ack, is_fin_ack, is_fin_psh_ack,
}
use odns_measurement_tools.Tcp.Segment.{Segment, SenderCfg, send_ack_pos_fin}
use odns_measurement_tools.TcpScan.State.{ScanItem, Chain, Scanner, last, is_single}

-- What gopacket reports of a captured packet: the source address, the TCP layer if there is one,
-- and whether there is an application layer. `payload` is `LayerPayload()`.
pub record TcpLayer : Type 0 where
  pub dst_port : ℕ
  pub seq : ℕ
  pub ack : ℕ
  pub flags : TcpFlags
  pub payload : List ℕ

pub record Packet : Type 0 where
  pub src_ip : Ip
  pub tcp : Option TcpLayer
  pub has_app : Bool

-- uint32 subtraction of a number below 2^32.
abbrev pub sub32 : ℕ → ℕ → ℕ
sub32 a b = u32 (a + 4294967296 - b)

-- The DNS message with its two bytes of length in front.
unfoldable pub dns_corrected : List ℕ → List ℕ
dns_corrected dns_buf_bytes = 0 ∷ u8 (length dns_buf_bytes) ∷ dns_buf_bytes

-- `dns_buf` is the query as gopacket serialises it.
unfoldable pub build_ack_with_dns : SenderCfg → List ℕ → Ip → ℕ → ℕ → ℕ → Segment
unfolding dns_corrected
build_ack_with_dns cfg dns_buf dst_ip src_port seq_num ack_num = record {
  ttl = 64;
  src_ip = cfg.iface_ip;
  dst_ip = dst_ip;
  ip_id = 1;
  src_port = src_port;
  dst_port = cfg.dst_port;
  flags = psh_ack_flags;
  seq = ack_num;
  ack = u32 (seq_num + 1);
  window = 8192;
  payload = dns_corrected dns_buf;
}

-- The lookup in `Items` and the chain behind the pointer.
unfoldable pub find : Scanner → ℕ → ℕ → Option (ℕ × Chain)
find s port seq = elim (s.items port seq) [
  | none ↦ none
  | some r ↦ elim (get_elem? s.heap r) [ none ↦ none | some c ↦ some (r, c) ]
]

-- `last_data_item.Next = &data`
abbrev pub append_item : Scanner → ℕ → Chain → ScanItem → Scanner
append_item s r c item = record s { heap = set s.heap r (record c { rest = c.rest ++ item ∷ [] }) }

abbrev pub send : Scanner → Segment → Scanner
send s p = record s { sent = s.sent ++ p ∷ [] }

abbrev pub enqueue : Scanner → ℕ → Scanner
enqueue s r = record s { write_chan = s.write_chan ++ r ∷ [] }

abbrev pub item_of : ℕ → Ip → TcpLayer → Chain → List Ip → ScanItem
item_of now src_ip tcp c answers = record {
  id = (last c).id;
  ts = now;
  ip = src_ip;
  port = tcp.dst_port;
  seq = tcp.seq;
  ack = tcp.ack;
  flags = tcp.flags;
  dns_recs = answers;
}

module _ (cfg : SenderCfg) (dns_buf : List ℕ) (now : ℕ) (src_ip : Ip) (tcp : TcpLayer) where
  unfoldable pub on_syn_ack : Scanner → Scanner
  on_syn_ack s = elim (find s tcp.dst_port (sub32 tcp.ack 1)) [
    | none ↦ s
    | some (r, c) ↦
        if not (is_single c)
        then s
        else send (append_item s r c (item_of now src_ip tcp c []))
            (build_ack_with_dns cfg dns_buf c.root.ip tcp.dst_port tcp.seq tcp.ack)
  ]

  unfoldable pub on_fin_ack : Scanner → Scanner
  on_fin_ack s = elim (find s tcp.dst_port (sub32 (sub32 tcp.ack 2) s.dns_payload_size)) [
    | none ↦ s
    | some (r, c) ↦
        if not (is_psh_ack (last c).flags)
        then send s (send_ack_pos_fin cfg src_ip tcp.dst_port tcp.seq tcp.ack true)
        else enqueue (send s (send_ack_pos_fin cfg c.root.ip tcp.dst_port tcp.seq tcp.ack false)) r
  ]

-- The payload behind the two bytes of length, unless it is too short or fails the size check.
unfoldable pub dns_of_payload : List ℕ → Option (List ℕ)
dns_of_payload (a ∷ b ∷ c ∷ pld) = if a + b * 256 == length (c ∷ pld) then none else some (c ∷ pld)
dns_of_payload _ = none

-- The addresses of all answers; `none` where an answer holds no address.
unfoldable pub answers_ip : List Ip → Option (List Ip)
answers_ip [] = some []
answers_ip ([] ∷ answers) = none
answers_ip ((b ∷ ip) ∷ answers) = elim (answers_ip answers) [
  | none ↦ none
  | some ips ↦ some ((b ∷ ip) ∷ ips)
]

-- `decode` is gopacket's DNS decoder: the addresses of the answers, nil where a record has none.
module _ (cfg : SenderCfg) (decode : List ℕ → Option (List Ip)) (now : ℕ) (src_ip : Ip)
    (tcp : TcpLayer) where
  unfoldable pub store_answer : ℕ → Chain → List Ip → Scanner → Scanner
  store_answer r c ips s =
      let s' =
        send (append_item s r c (item_of now src_ip tcp c ips))
          (send_ack_pos_fin cfg c.root.ip tcp.dst_port tcp.seq tcp.ack true) in
      if is_fin_psh_ack tcp.flags then enqueue s' r else s'

  unfoldable pub on_answer : List Ip → Scanner → Scanner
  unfolding store_answer
  on_answer answers s = elim (find s tcp.dst_port (sub32 (sub32 tcp.ack 1) s.dns_payload_size)) [
    | none ↦ s
    | some (r, c) ↦
        if is_psh_ack (last c).flags
        then s
        else if not (is_syn_ack (last c).flags)
        then s
        else elim (answers_ip answers) [ none ↦ s | some ips ↦ store_answer r c ips s ]
  ]

  unfoldable pub on_psh_ack : Scanner → Scanner
  on_psh_ack s = elim (dns_of_payload tcp.payload) [
    | none ↦ s
    | some pld ↦ elim (decode pld) [ none ↦ s | some answers ↦ on_answer answers s ]
  ]

module _ (cfg : SenderCfg) (dns_buf : List ℕ) (decode : List ℕ → Option (List Ip)) where
  unfoldable pub on_tcp : ℕ → Ip → Bool → TcpLayer → Scanner → Scanner
  on_tcp now src_ip has_app tcp s =
      if not has_app
      then (if is_syn_ack tcp.flags
          then on_syn_ack cfg dns_buf now src_ip tcp s
          else if is_fin_ack tcp.flags
          then on_fin_ack cfg dns_buf now src_ip tcp s
          else s)
      else if is_psh_ack tcp.flags || is_fin_psh_ack tcp.flags
      then on_psh_ack cfg decode now src_ip tcp s
      else s

  unfoldable pub handle_pkt : ℕ → Packet → Scanner → Scanner
  unfolding on_tcp
  handle_pkt now pkt s = elim pkt.tcp [
    | none ↦ s
    | some tcp ↦ on_tcp now pkt.src_ip pkt.has_app tcp s
  ]
