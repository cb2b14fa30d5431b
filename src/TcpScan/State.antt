-- ===== src/TcpScan/State.antt =====
-- The state of the TCP scanner and the operations that do not look at a packet
-- (src/scanner/tcp/tcp_scanner.go, src/scanner/base_scanner.go).
use odns_measurement_tools.Base.{
  ℕ, ◌+◌, ◌*◌, ◌/◌, ◌%◌, Bool, true, false, ◌&&◌, Option, none, some, List, [], ◌∷◌, ◌++◌, length,
  get_elem?, u16, u32, ltb, ◌==◌, if◌then◌else◌,
}
use odns_measurement_tools.Net.{Ip, IpNet, should_exclude}
use odns_measurement_tools.Tcp.Flags.{TcpFlags, syn_flags}
use odns_measurement_tools.Tcp.Segment.{Segment, SenderCfg}

-- `tcp_scan_data_item` without its `Next` pointer.
pub record ScanItem : Type 0 where
  pub id : ℕ
  pub ts : ℕ
  pub ip : Ip
  pub port : ℕ
  pub seq : ℕ
  pub ack : ℕ
  pub flags : TcpFlags
  pub dns_recs : List Ip

-- A linked list of items: the root and what hangs on its `Next` pointers.
pub record Chain : Type 0 where
  pub root : ScanItem
  pub rest : List ScanItem

abbrev last_from : ScanItem → List ScanItem → ScanItem
last_from cur [] = cur
last_from cur (next ∷ more) = last_from next more

abbrev pub last : Chain → ScanItem
last item = last_from item.root item.rest

-- `last_data_item != tcp_root_data_item` compares pointers: the last node is the root exactly
-- when nothing hangs on the root.
abbrev pub is_single : Chain → Bool
is_single item = elim item.rest [ [] ↦ true | _ ∷ _ ↦ false ]

-- The chains live in a heap and are shared by reference: the index of a chain in `heap` is the
-- pointer to its root, which the map `items` and the channel `write_chan` hold.
-- `written` has the rows of each call of `Write_item`, and `sent` the packets in order.
pub record Scanner : Type 0 where
  pub items : ℕ → ℕ → Option ℕ
  pub heap : List Chain
  pub write_chan : List ℕ
  pub written : List (List ScanItem)
  pub sent : List Segment
  pub ip_loop_id : ℕ
  pub dns_payload_size : ℕ

abbrev pub put : (ℕ → ℕ → Option ℕ) → ℕ → ℕ → ℕ → ℕ → ℕ → Option ℕ
put items port seq r p s = if p == port && s == seq then some r else items p s

abbrev pub remove : (ℕ → ℕ → Option ℕ) → ℕ → ℕ → ℕ → ℕ → Option ℕ
remove items port seq p s = if p == port && s == seq then none else items p s

abbrev pub get_next_id : Scanner → ℕ × Scanner
get_next_id s = (s.ip_loop_id, record s { ip_loop_id = u32 (s.ip_loop_id + 1) })

-- The sequence number holds the low 21 bits of the id, in steps of 2048, and the port the rest.
unfoldable pub seq_of_id : ℕ → ℕ
seq_of_id id = u32 (id % 2097152 * 2048)

unfoldable pub port_of_id : ℕ → ℕ
port_of_id id = u16 (u32 (id / 2097152 + 61440))

unfoldable pub send_syn : SenderCfg → ℕ → ℕ → Ip → Scanner → Scanner
unfolding seq_of_id port_of_id
send_syn cfg now id dst_ip s =
    let seq = seq_of_id id in
    let port = port_of_id id in
    let item : ScanItem = record {
      id = id;
      ts = now;
      ip = dst_ip;
      port = port;
      seq = seq;
      ack = 0;
      flags = syn_flags;
      dns_recs = [];
    } in
    let packet : Segment = record {
      ttl = 64;
      src_ip = cfg.iface_ip;
      dst_ip = dst_ip;
      ip_id = 1;
      src_port = port;
      dst_port = 53;
      flags = syn_flags;
      seq = seq;
      ack = 0;
      window = 0;
      payload = [];
    } in
    record s {
      items = put s.items port seq (length s.heap);
      heap = s.heap ++ record { root = item; rest = [] } ∷ [];
      sent = s.sent ++ packet ∷ [];
    }

-- One address from `Ip_chan` in `init_tcp`; the rate limiter only delays.
unfoldable pub init_tcp : SenderCfg → List IpNet → ℕ → Ip → Scanner → Scanner
unfolding send_syn
init_tcp cfg blocked_nets now dst_ip s =
    if should_exclude blocked_nets dst_ip
    then s
    else let (id, s') = get_next_id s in send_syn cfg now id dst_ip s'

-- Whether `Timeout` deletes the entry of a reference: its root is older than ten seconds.
abbrev is_old : List Chain → ℕ → ℕ → Bool
is_old heap now r = elim (get_elem? heap r) [ none ↦ false | some c ↦ ltb (c.root.ts + 10) now ]

-- One round of `Timeout`, with times in seconds.
unfoldable pub timeout : ℕ → Scanner → Scanner
timeout now s = record s {
  items = λ p q. elim (s.items p q) [
    | none ↦ none
    | some r ↦ if is_old s.heap now r then none else some r
  ];
}

-- `Write_item` for a root: every row of the chain is written, and the entry is deleted.
unfoldable pub write_item : Chain → Scanner → Scanner
write_item c s = record s {
  written = s.written ++ (c.root ∷ c.rest) ∷ [];
  items = remove s.items c.root.port c.root.seq;
}

unfoldable pub write_at : Option Chain → Scanner → Scanner
unfolding write_item
write_at none s = s
write_at (some c) s = write_item c s

unfoldable pub receive : List ℕ → Scanner → Scanner
unfolding write_at
receive [] s = s
receive (r ∷ more) s = write_at (get_elem? s.heap r) (record s { write_chan = more })

-- One receive from `Write_chan` in `Write_results`.
unfoldable pub write_results : Scanner → Scanner
unfolding receive
write_results s = receive s.write_chan s

-- The state after `Scanner_init`, with the payload size that `Start_scan` sets.
unfoldable pub scanner_init : ℕ → Scanner
scanner_init size = record {
  items = λ p q. none;
  heap = [];
  write_chan = [];
  written = [];
  sent = [];
  ip_loop_id = 0;
  dns_payload_size = size;
}
