-- ===== src/TcpScan/Dialogue.antt =====
-- A whole dialogue with one resolver: SYN, SYN-ACK, answer, FIN-ACK, written rows
-- (src/scanner/tcp/tcp_scanner.go).
use odns_measurement_tools.Base.{
  ℕ, ◌+◌, ◌<◌, ◌≡◌, ◌∙◌, ap, refl, arith, true, false, none, some, Option, List, [], ◌∷◌, ◌++◌,
  length, u32, get_elem?-append_last,
}
use odns_measurement_tools.Net.{Ip}
use odns_measurement_tools.Tcp.Flags.{syn_flags, syn_ack_flags, psh_ack_flags, fin_ack_flags}
use odns_measurement_tools.Tcp.Segment.{SenderCfg}
use odns_measurement_tools.TcpScan.State.{
  ScanItem, Scanner, seq_of_id, port_of_id, send_syn, write_results,
}
use odns_measurement_tools.TcpScan.Handle.{dns_of_payload, answers_ip, handle_pkt}
use odns_measurement_tools.TcpScan.Session.{
  packet, At, At-syn_ack, At-psh_ack, At-fin_ack, receive_one,
}

module _ (cfg : SenderCfg) (dns_buf : List ℕ) (decode : List ℕ → Option (List Ip)) where
  module _ (t t1 t2 t3 : ℕ) (id : ℕ) (dst_ip : Ip) (n1 n2 n3 : ℕ) (payload : List ℕ) where
    -- The SYN of a probe, and the three packets of a resolver that answers it in order.
    abbrev pub dialogue : Scanner → Scanner
    dialogue s =
        let size = s.dns_payload_size in
        let seq = seq_of_id id in
        let s1 = send_syn cfg t id dst_ip s in
        let s2 =
          handle_pkt cfg dns_buf decode t1
            (packet dst_ip false (port_of_id id) n1 (u32 (seq + 1)) syn_ack_flags []) s1 in
        let s3 =
          handle_pkt cfg dns_buf decode t2
            (packet dst_ip true (port_of_id id) n2 (u32 (seq + 1 + size)) psh_ack_flags payload)
            s2 in
        handle_pkt cfg dns_buf decode t3
          (packet dst_ip false (port_of_id id) n3 (u32 (seq + 2 + size)) fin_ack_flags []) s3

    abbrev pub syn_item : ScanItem
    syn_item = record {
      id = id;
      ts = t;
      ip = dst_ip;
      port = port_of_id id;
      seq = seq_of_id id;
      ack = 0;
      flags = syn_flags;
      dns_recs = [];
    }

    abbrev pub syn_ack_item : ScanItem
    syn_ack_item = record {
      id = id;
      ts = t1;
      ip = dst_ip;
      port = port_of_id id;
      seq = n1;
      ack = u32 (seq_of_id id + 1);
      flags = syn_ack_flags;
      dns_recs = [];
    }

    abbrev pub answer_item : ℕ → List Ip → ScanItem
    answer_item size ips = record {
      id = id;
      ts = t2;
      ip = dst_ip;
      port = port_of_id id;
      seq = n2;
      ack = u32 (seq_of_id id + 1 + size);
      flags = psh_ack_flags;
      dns_recs = ips;
    }

    module _ (s : Scanner) (pld : List ℕ) (answers ips : List Ip)
        (size : s.dns_payload_size < 65536) (framed : dns_of_payload payload ≡ some pld)
        (decoded : decode pld ≡ some answers) (good : answers_ip answers ≡ some ips) where
      small : seq_of_id id < 4294967296
      unfolding seq_of_id
      small = omega arith

      At-syn :
          At cfg dns_buf decode
            (send_syn cfg t id dst_ip s)
            (port_of_id id)
            (seq_of_id id)
            (length s.heap)
            (record { root = syn_item; rest = [] })
            s.dns_payload_size
            s.write_chan
            s.written
      unfolding send_syn
      At-syn = record {
        listed = ground arith;
        stored = get_elem?-append_last s.heap _;
        sized = refl;
        queue = refl;
        output = refl;
      }

      At-dialogue :
          At cfg dns_buf decode
            (dialogue s)
            (port_of_id id)
            (seq_of_id id)
            (length s.heap)
            (record {
              root = syn_item;
              rest = syn_ack_item ∷ answer_item s.dns_payload_size ips ∷ [];
            })
            s.dns_payload_size
            (s.write_chan ++ length s.heap ∷ [])
            s.written
      At-dialogue =
          let one =
            At-syn_ack cfg dns_buf decode t1 dst_ip _ _ n1 _ _ _ _ _ _ small size At-syn refl in
          let two =
            At-psh_ack cfg dns_buf decode t2 dst_ip _ _ n2 _ _ _ _ _ _ small size one payload pld
              answers ips refl framed decoded good in
          At-fin_ack cfg dns_buf decode t3 dst_ip _ _ n3 _ _ _ _ _ _ small size two refl

      -- A resolver answers the SYN of a probe with a SYN-ACK, a DNS answer and a FIN-ACK, each
      -- acknowledging what was sent. The answer passes the size check, the DNS decoder accepts it,
      -- and all of its records hold addresses. If the writer's channel was empty before, the dialogue
      -- is then what it holds, and the writer's next receive writes the three rows of the dialogue,
      -- with the addresses of the answer, and drops the entry. The query is shorter than 65536 bytes.
      pub dialogue-reported :
          s.write_chan ≡ []
          → ((dialogue s).write_chan ≡ length s.heap ∷ [])
            × ((write_results (dialogue s)).written
                ≡ s.written
                  ++ (syn_item ∷ syn_ack_item ∷ answer_item s.dns_payload_size ips ∷ []) ∷ [])
            × ((write_results (dialogue s)).items (port_of_id id) (seq_of_id id) ≡ none)
      unfolding write_results
      dialogue-reported none_before =
          let queue =
            At-dialogue.queue ∙ ap (λ (l : List ℕ). l ++ length s.heap ∷ []) none_before in
          let (rows, gone) =
            receive_one cfg dns_buf decode 0 dst_ip _ _ 0 _ _ (dialogue s) _ _ _ small size
              At-dialogue (dialogue s).write_chan queue refl refl in
          (queue, rows, gone)
