-- ===== src/UdpScan/State.antt =====
-- The state and the operations of the UDP scanner (src/scanner/udp/udp_scanner.go,
-- src/scanner/base_scanner.go).
use odns_measurement_tools.Base.{
  ℕ, ◌+◌, ◌*◌, Bool, false, not, ◌&&◌, Option, none, some, List, [], ◌∷◌, ◌++◌, length, get_elem?,
  set, u16, u32, ltb, ◌==◌, if◌then◌else◌,
}
use odns_measurement_tools.Net.{Ip, IpNet, should_exclude}

-- `layers.DNSResourceRecord`: the fields that the scanner reads, and the record's data.
pub record DnsRecord : Type 0 where
  pub rr_type : ℕ
  pub ttl : ℕ
  pub bytes : List ℕ

pub record DnsMsg : Type 0 where
  pub id : ℕ
  pub answers : List DnsRecord

-- `Udp_scan_data_item`
pub record UdpItem : Type 0 where
  pub id : ℕ
  pub ts_req : ℕ
  pub ts_resp : ℕ
  pub ip : Ip
  pub answerip : Ip
  pub port : ℕ
  pub dnsid : ℕ
  pub dns_recs : List DnsRecord
  pub dns_payload_size : ℕ
  pub dns_flags : ℕ
  pub ttl : ℕ

-- `synced_init`
pub record SyncedInit : Type 0 where
  pub id : ℕ
  pub port : ℕ
  pub dnsid : ℕ

pub record UdpCfg : Type 0 where
  pub port_min : ℕ
  pub port_max : ℕ
  pub dst_port : ℕ

-- A DNS query that was sent.
pub record Query : Type 0 where
  pub dst_ip : Ip
  pub src_port : ℕ
  pub dnsid : ℕ

-- Items are shared by reference: an index of `heap`. `written` has the references that the
-- writer has taken from `write_chan`, and `rows` the items as they were written, or appended to
-- `Result_data_internal` by `Store_internal`, which takes the writer's place in an internal scan.
pub record Scanner : Type 0 where
  pub items : ℕ → ℕ → Option ℕ
  pub heap : List UdpItem
  pub write_chan : List ℕ
  pub written : List ℕ
  pub rows : List UdpItem
  pub sent : List Query
  pub ip_loop_id : SyncedInit

abbrev pub put : (ℕ → ℕ → Option ℕ) → ℕ → ℕ → ℕ → ℕ → ℕ → Option ℕ
put items port dnsid r p d = if p == port && d == dnsid then some r else items p d

abbrev pub remove : (ℕ → ℕ → Option ℕ) → ℕ → ℕ → ℕ → ℕ → Option ℕ
remove items port dnsid p d = if p == port && d == dnsid then none else items p d

unfoldable pub next_port : UdpCfg → ℕ → ℕ
next_port cfg port = if ltb cfg.port_max (u32 (port + 1)) then cfg.port_min else u16 (port + 1)

-- `update_sync_init`: the state after the call is also what it returns.
unfoldable pub update_sync_init : UdpCfg → SyncedInit → SyncedInit
unfolding next_port
update_sync_init cfg s =
    if ltb 65535 (u32 (s.dnsid + 1))
    then record s { id = u32 (s.id + 1); dnsid = 0; port = next_port cfg s.port }
    else record s { id = u32 (s.id + 1); dnsid = u16 (s.dnsid + 1) }

unfoldable pub send_dns : ℕ → ℕ → Ip → ℕ → ℕ → Scanner → Scanner
send_dns now id dst_ip src_port dnsid s =
    let item : UdpItem = record {
      id = id;
      ts_req = now;
      ts_resp = 0;
      ip = dst_ip;
      answerip = [];
      port = src_port;
      dnsid = dnsid;
      dns_recs = [];
      dns_payload_size = 0;
      dns_flags = 0;
      ttl = 0;
    } in
    record s {
      items = put s.items src_port dnsid (length s.heap);
      heap = s.heap ++ item ∷ [];
      sent = s.sent ++ record { dst_ip = dst_ip; src_port = src_port; dnsid = dnsid } ∷ [];
    }

-- One address from `Ip_chan` in `init_udp`.
unfoldable pub init_udp : UdpCfg → List IpNet → ℕ → Ip → Scanner → Scanner
unfolding send_dns
init_udp cfg blocked_nets now dst_ip s =
    if should_exclude blocked_nets dst_ip
    then s
    else let i = update_sync_init cfg s.ip_loop_id in
      send_dns now i.id dst_ip i.port i.dnsid (record s { ip_loop_id = i })

pub record UdpLayer : Type 0 where
  pub src_port : ℕ
  pub dst_port : ℕ
  pub payload : List ℕ

pub record Packet : Type 0 where
  pub src_ip : Ip
  pub udp : Option UdpLayer
  pub has_app : Bool

-- Bytes 2 and 3 of the payload as a number; `none` is an index out of range.
unfoldable pub flags_of : List ℕ → Option ℕ
flags_of (a ∷ b ∷ c ∷ d ∷ more) = some (c * 256 + d)
flags_of _ = none

abbrev with_answers : List DnsRecord → UdpItem → UdpItem
with_answers [] item = item
with_answers (a ∷ answers) item = record item {
  dns_recs = item.dns_recs ++ a ∷ answers;
  ttl = a.ttl;
}

-- The item as the handler leaves it.
unfoldable pub answered : ℕ → Ip → DnsMsg → ℕ → ℕ → UdpItem → UdpItem
answered now src_ip dns flags size item =
    record (with_answers dns.answers (record item { answerip = src_ip; ts_resp = now })) {
      dns_flags = flags;
      dns_payload_size = size;
    }

-- The lookup in `Items` and the item behind the pointer.
unfoldable pub find : Scanner → ℕ → ℕ → Option (ℕ × UdpItem)
find s port dnsid = elim (s.items port dnsid) [
  | none ↦ none
  | some r ↦ elim (get_elem? s.heap r) [ none ↦ none | some item ↦ some (r, item) ]
]

-- The matched item is changed in place, its entry is deleted, and it is queued for the writer.
-- The result is `none` where the handler panics.
unfoldable pub store : ℕ → Ip → UdpLayer → DnsMsg → Scanner → ℕ → UdpItem → Option Scanner
store now src_ip udp dns s r item = elim (flags_of udp.payload) [
  | none ↦ none
  | some flags ↦ some (record s {
    items = remove s.items udp.dst_port dns.id;
    heap = set s.heap r (answered now src_ip dns flags (length udp.payload) item);
    write_chan = s.write_chan ++ r ∷ [];
  })
]

unfoldable pub on_dns : ℕ → Ip → UdpLayer → DnsMsg → Scanner → Option Scanner
unfolding store
on_dns now src_ip udp dns s = elim (find s udp.dst_port dns.id) [
  | none ↦ some s
  | some (r, item) ↦ store now src_ip udp dns s r item
]

-- `decode` is gopacket's DNS decoder.
module _ (cfg : UdpCfg) (decode : List ℕ → Option DnsMsg) where
  unfoldable pub on_udp : ℕ → Ip → Bool → UdpLayer → Scanner → Option Scanner
  on_udp now src_ip has_app udp s =
      if not (udp.src_port == cfg.dst_port)
      then some s
      else if not has_app
      then some s
      else elim (decode udp.payload) [ none ↦ some s | some dns ↦ on_dns now src_ip udp dns s ]

  unfoldable pub handle_pkt : ℕ → Packet → Scanner → Option Scanner
  unfolding on_udp
  handle_pkt now pkt s = elim pkt.udp [
    | none ↦ some s
    | some udp ↦ on_udp now pkt.src_ip pkt.has_app udp s
  ]

abbrev is_old : List UdpItem → ℕ → ℕ → Bool
is_old heap now r = elim (get_elem? heap r) [ none ↦ false | some i ↦ ltb (i.ts_req + 10) now ]

-- One round of `Timeout`, with times in seconds.
unfoldable pub timeout : ℕ → Scanner → Scanner
timeout now s = record s {
  items = λ p q. elim (s.items p q) [
    | none ↦ none
    | some r ↦ if is_old s.heap now r then none else some r
  ];
}

unfoldable pub receive : List ℕ → Scanner → Scanner
receive [] s = s
receive (r ∷ more) s =
    let t = record s { write_chan = more; written = s.written ++ r ∷ [] } in
    elim (get_elem? s.heap r) [ none ↦ t | some item ↦ record t { rows = s.rows ++ item ∷ [] } ]

-- One receive from `Write_chan` in `Write_results`.
unfoldable pub write_results : Scanner → Scanner
unfolding receive
write_results s = receive s.write_chan s

-- One receive from `Write_chan` in `Store_internal`.
unfoldable pub store_internal : Scanner → Scanner
unfolding receive
store_internal s = receive s.write_chan s

unfoldable pub scanner_init : UdpCfg → Scanner
scanner_init cfg = record {
  items = λ p q. none;
  heap = [];
  write_chan = [];
  written = [];
  rows = [];
  sent = [];
  ip_loop_id = record { id = 0; port = cfg.port_min; dnsid = 0 };
}
