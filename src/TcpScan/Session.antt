-- ===== src/TcpScan/Session.antt =====
-- What `Handle_pkt` of the TCP scanner does with the packets of an orderly dialogue
-- (src/scanner/tcp/tcp_scanner.go).
use odns_measurement_tools.Base.{
  ℕ, ◌+◌, ◌<◌, ◌≡◌, ap, arith, Bool, true, false, none, some, Option, List, [], ◌∷◌, ◌++◌,
  get_elem?, u32, get_elem?-lt, get_elem?-set_self,
}
use odns_measurement_tools.Net.{Ip}
use odns_measurement_tools.Tcp.Flags.{
  TcpFlags, syn_ack_flags, psh_ack_flags, fin_ack_flags, is_psh_ack, is_syn_ack, is_fin_ack,
  is_fin_psh_ack,
}
use odns_measurement_tools.Tcp.Segment.{Segment, SenderCfg, send_ack_pos_fin}
use odns_measurement_tools.TcpScan.State.{
  ScanItem, Chain, Scanner, last, receive, write_at, write_item,
}
use odns_measurement_tools.TcpScan.Handle.{
  TcpLayer, Packet, sub32, find, send, enqueue, append_item, item_of, build_ack_with_dns,
  on_syn_ack, on_fin_ack, on_psh_ack, on_answer, store_answer, dns_of_payload, answers_ip, on_tcp,
  handle_pkt,
}

abbrev pub packet : Ip → Bool → ℕ → ℕ → ℕ → TcpFlags → List ℕ → Packet
packet src_ip has_app dst_port seq ack flags payload = record {
  src_ip = src_ip;
  tcp =
      some (record { dst_port = dst_port; seq = seq; ack = ack; flags = flags; payload = payload });
  has_app = has_app;
}

abbrev layer : ℕ → ℕ → ℕ → TcpFlags → List ℕ → TcpLayer
layer dst_port seq ack flags payload = record {
  dst_port = dst_port;
  seq = seq;
  ack = ack;
  flags = flags;
  payload = payload;
}

find_at :
    (s : Scanner) (p q q' r : ℕ) (c : Chain)
    → s.items p q ≡ some r
    → get_elem? s.heap r ≡ some c
    → q' ≡ q
    → find s p q' ≡ some (r, c)
unfolding find
find_at s p q q' r c listed at e = ground arith

module _ (cfg : SenderCfg) (dns_buf : List ℕ) (decode : List ℕ → Option (List Ip)) where
  module _ (now : ℕ) (src_ip : Ip) (p q n : ℕ) (r : ℕ) (c : Chain) (s : Scanner)
      (small : q < 4294967296) (listed : s.items p q ≡ some r)
      (at : get_elem? s.heap r ≡ some c) where
    -- A SYN-ACK that acknowledges the SYN of a chain with nothing behind it: it is stored, and
    -- the query is sent.
    pub handle-syn_ack :
        c.rest ≡ []
        → let ack = u32 (q + 1) in
          handle_pkt cfg dns_buf decode now (packet src_ip false p n ack syn_ack_flags []) s
          ≡ send
              (append_item s r c (item_of now src_ip (layer p n ack syn_ack_flags []) c []))
              (build_ack_with_dns cfg dns_buf c.root.ip p n ack)
    unfolding handle_pkt on_tcp on_syn_ack is_syn_ack
    handle-syn_ack single =
        rw (find_at s p q (sub32 (u32 (q + 1)) 1) r c listed at (omega arith), on_syn_ack, single)

    -- An answer to the query, behind the SYN-ACK: it is stored, and a FIN-ACK is sent.
    pub handle-psh_ack :
        (size : ℕ) (payload pld : List ℕ) (answers ips : List Ip)
        → s.dns_payload_size ≡ size
        → size < 65536
        → (last c).flags ≡ syn_ack_flags
        → dns_of_payload payload ≡ some pld
        → decode pld ≡ some answers
        → answers_ip answers ≡ some ips
        → let ack = u32 (q + 1 + size) in
          handle_pkt cfg dns_buf decode now (packet src_ip true p n ack psh_ack_flags payload) s
          ≡ send
              (append_item s r c (item_of now src_ip (layer p n ack psh_ack_flags payload) c ips))
              (send_ack_pos_fin cfg c.root.ip p n ack true)
    unfolding handle_pkt on_tcp on_psh_ack on_answer store_answer is_psh_ack is_syn_ack
        is_fin_psh_ack
    handle-psh_ack size payload pld answers ips sized fits syn_ack framed decoded good = rw (
      framed,
      on_psh_ack,
      decoded,
      find_at s p q (sub32 (sub32 (u32 (q + 1 + size)) 1) s.dns_payload_size) r c listed at
          (omega arith),
      on_answer,
      syn_ack,
      good,
    )

    -- A FIN-ACK behind the answer: it is acknowledged, and the dialogue is queued for the writer.
    pub handle-fin_ack :
        (size : ℕ)
        → s.dns_payload_size ≡ size
        → size < 65536
        → (last c).flags ≡ psh_ack_flags
        → let ack = u32 (q + 2 + size) in
          handle_pkt cfg dns_buf decode now (packet src_ip false p n ack fin_ack_flags []) s
          ≡ enqueue (send s (send_ack_pos_fin cfg c.root.ip p n ack false)) r
    unfolding handle_pkt on_tcp on_fin_ack is_psh_ack is_syn_ack is_fin_ack
    handle-fin_ack size sized fits answered = rw (
      find_at s p q (sub32 (sub32 (u32 (q + 2 + size)) 2) s.dns_payload_size) r c listed at
          (omega arith),
      on_fin_ack,
      answered,
    )

  -- A chain is stored under its key, and nothing else that a dialogue reads has changed.
  pub record At (s : Scanner) (p q r : ℕ) (c : Chain) (size : ℕ) (chan : List ℕ)
      (rows : List (List ScanItem)) : Type 0 where
    pub listed : s.items p q ≡ some r
    pub stored : get_elem? s.heap r ≡ some c
    pub sized : s.dns_payload_size ≡ size
    pub queue : s.write_chan ≡ chan
    pub output : s.written ≡ rows

  module _ (now : ℕ) (src_ip : Ip) (p q n : ℕ) (r : ℕ) (c : Chain) (s : Scanner) (size : ℕ)
      (chan : List ℕ) (rows : List (List ScanItem)) (small : q < 4294967296) (fits : size < 65536)
      (h : At s p q r c size chan rows) where
    At-grown :
        (item : ScanItem) (g : Segment)
        → At
            (send (append_item s r c item) g)
            p
            q
            r
            (record c { rest = c.rest ++ item ∷ [] })
            size
            chan
            rows
    At-grown item g = record {
      listed = h.listed;
      stored = get_elem?-set_self s.heap r _ (get_elem?-lt s.heap r h.stored);
      sized = h.sized;
      queue = h.queue;
      output = h.output;
    }

    pub At-syn_ack :
        c.rest ≡ []
        → let ack = u32 (q + 1) in
          At
            (handle_pkt cfg dns_buf decode now (packet src_ip false p n ack syn_ack_flags []) s)
            p
            q
            r
            (record c {
              rest = c.rest ++ item_of now src_ip (layer p n ack syn_ack_flags []) c [] ∷ [];
            })
            size
            chan
            rows
    At-syn_ack single =
        rw (handle-syn_ack now src_ip p q n r c s small h.listed h.stored single) (At-grown _ _)

    pub At-psh_ack :
        (payload pld : List ℕ) (answers ips : List Ip)
        → (last c).flags ≡ syn_ack_flags
        → dns_of_payload payload ≡ some pld
        → decode pld ≡ some answers
        → answers_ip answers ≡ some ips
        → let ack = u32 (q + 1 + size) in
          At
            (handle_pkt cfg dns_buf decode now (packet src_ip true p n ack psh_ack_flags payload) s)
            p
            q
            r
            (record c {
              rest = c.rest ++ item_of now src_ip (layer p n ack psh_ack_flags payload) c ips ∷ [];
            })
            size
            chan
            rows
    At-psh_ack payload pld answers ips syn_ack framed decoded good =
        rw
          (handle-psh_ack now src_ip p q n r c s small h.listed h.stored size payload pld answers
            ips h.sized fits syn_ack framed decoded good)
          (At-grown _ _)

    pub At-fin_ack :
        (last c).flags ≡ psh_ack_flags
        → let ack = u32 (q + 2 + size) in
          At
            (handle_pkt cfg dns_buf decode now (packet src_ip false p n ack fin_ack_flags []) s)
            p
            q
            r
            c
            size
            (chan ++ r ∷ [])
            rows
    At-fin_ack answered =
        rw
          (handle-fin_ack now src_ip p q n r c s small h.listed h.stored size h.sized fits answered)
          (record {
            listed = h.listed;
            stored = h.stored;
            sized = h.sized;
            queue = ap (λ (l : List ℕ). l ++ r ∷ []) h.queue;
            output = h.output;
          })

    pub receive_one :
        (queue : List ℕ)
        → queue ≡ r ∷ []
        → c.root.port ≡ p
        → c.root.seq ≡ q
        → ((receive queue s).written ≡ rows ++ (c.root ∷ c.rest) ∷ [])
          × ((receive queue s).items p q ≡ none)
    unfolding receive write_at write_item
    receive_one queue one port seq = rw one (
        rw (h.stored, write_at)
          (ap (λ (l : List (List ScanItem)). l ++ (c.root ∷ c.rest) ∷ []) h.output, ground arith))
