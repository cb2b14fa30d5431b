-- ===== src/TcpScan/Steps.antt =====
-- The packet handler of the TCP scanner and the invariant (src/scanner/tcp/tcp_scanner.go).
use odns_measurement_tools.Base.{
  ℕ, ◌<◌, ◌≡◌, inl, inr, arith, Bool, true, false, ◌||◌, Option, some, List, [], ◌∷◌, ◌++◌, length,
  get_elem?, All-append, All-get_elem?, get_elem?-lt, Bool-cases, get_elem?-set_self, length-append,
  Option-cases,
}
use odns_measurement_tools.Net.{Ip}
use odns_measurement_tools.Tcp.Flags.{is_psh_ack, is_syn_ack, is_fin_psh_ack, is_fin_ack}
use odns_measurement_tools.Tcp.Segment.{Segment, SenderCfg}
use odns_measurement_tools.TcpScan.State.{ScanItem, Chain, Scanner, last, is_single}
use odns_measurement_tools.TcpScan.Handle.{
  TcpLayer, Packet, sub32, find, send, enqueue, append_item, on_syn_ack, on_fin_ack, on_answer,
  on_psh_ack, store_answer, dns_of_payload, answers_ip, on_tcp, handle_pkt, item_of,
}
use odns_measurement_tools.TcpScan.Invariant.{IsChain, IsDone, IsValid, append_item-IsValid}

find_sound :
    (s : Scanner) (p q : ℕ) {r : ℕ} {c : Chain}
    → find s p q ≡ some (r, c)
    → (s.items p q ≡ some r) × (get_elem? s.heap r ≡ some c)
unfolding find
find_sound s p q h = ground arith

-- The chain that a lookup finds is a dialogue under the port of the lookup.
find-IsValid :
    (s : Scanner) (p q : ℕ) {r : ℕ} {c : Chain}
    → IsValid s
    → find s p q ≡ some (r, c)
    → (get_elem? s.heap r ≡ some c) × IsChain c × (c.root.port ≡ p)
find-IsValid s p q {r} {c} v h =
    let (listed, at) = find_sound s p q h in
    let (d, hd, port, seq) = v.keyed p q r listed in
    let same : d ≡ c = cc in (at, All-get_elem? IsChain s.heap r v.chains at, cc)

send-IsValid : (s : Scanner) (p : Segment) → IsValid s → IsValid (send s p)
send-IsValid s p v = record { chains = v.chains; keyed = v.keyed; queued = v.queued }

enqueue-IsValid : (s : Scanner) (r : ℕ) → IsValid s → IsDone s.heap r → IsValid (enqueue s r)
enqueue-IsValid s r v d = record {
  chains = v.chains;
  keyed = v.keyed;
  queued = All-append (IsDone s.heap) s.write_chan (r ∷ []) v.queued (d, tt);
}

module _ (cfg : SenderCfg) (dns_buf : List ℕ) (now : ℕ) (src_ip : Ip) (tcp : TcpLayer) where
  grow_single :
      (c : Chain)
      → IsChain c
      → is_single c ≡ true
      → is_syn_ack tcp.flags ≡ true
      → c.root.port ≡ tcp.dst_port
      → (length c.rest < 2)
        × IsChain (record c { rest = c.rest ++ item_of now src_ip tcp c [] ∷ [] })
  unfolding is_syn_ack
  grow_single c chain single flags port = ground arith

  on_syn_ack-IsValid :
      (s : Scanner)
      → is_syn_ack tcp.flags ≡ true
      → IsValid s
      → IsValid (on_syn_ack cfg dns_buf now src_ip tcp s)
  unfolding on_syn_ack
  on_syn_ack-IsValid s flags v = elim (Option-cases (find s tcp.dst_port (sub32 tcp.ack 1))) [
    | inl e ↦ rw (e, on_syn_ack) v
    | inr ((r, c), e) ↦
        let (at, chain, port) = find-IsValid s tcp.dst_port (sub32 tcp.ack 1) v e in
        elim (Bool-cases (is_single c)) [
          | inl single ↦
              let (short, grown) = grow_single c chain single flags port in
              rw (e, on_syn_ack, single)
                (send-IsValid _ _ (append_item-IsValid s r c _ v at short grown))
          | inr chained ↦ rw (e, on_syn_ack, chained) v
        ]
  ]

  done_of_psh_ack : (c : Chain) → IsChain c → is_psh_ack (last c).flags ≡ true → length c.rest ≡ 2
  unfolding is_psh_ack
  done_of_psh_ack c chain flags = ground arith

  on_fin_ack-IsValid : (s : Scanner) → IsValid s → IsValid (on_fin_ack cfg dns_buf now src_ip tcp s)
  unfolding on_fin_ack
  on_fin_ack-IsValid s v =
      elim (Option-cases (find s tcp.dst_port (sub32 (sub32 tcp.ack 2) s.dns_payload_size))) [
        | inl e ↦ rw (e, on_fin_ack) v
        | inr ((r, c), e) ↦
            let (at, chain, port) = find-IsValid s tcp.dst_port _ v e in
            elim (Bool-cases (is_psh_ack (last c).flags)) [
              | inl answered ↦
                  rw (e, on_fin_ack, answered)
                    (enqueue-IsValid _ r (send-IsValid s _ v)
                      (c, at, done_of_psh_ack c chain answered))
              | inr missing ↦ rw (e, on_fin_ack, missing) (send-IsValid s _ v)
            ]
      ]

module _ (cfg : SenderCfg) (decode : List ℕ → Option (List Ip)) (now : ℕ) (src_ip : Ip)
    (tcp : TcpLayer) where
  grow_answer :
      (c : Chain) (ips : List Ip)
      → IsChain c
      → is_syn_ack (last c).flags ≡ true
      → (is_psh_ack tcp.flags || is_fin_psh_ack tcp.flags) ≡ true
      → c.root.port ≡ tcp.dst_port
      → (length c.rest ≡ 1)
        × IsChain (record c { rest = c.rest ++ item_of now src_ip tcp c ips ∷ [] })
  unfolding is_syn_ack is_psh_ack is_fin_psh_ack
  grow_answer c ips chain syn_ack answer port = ground arith

  IsDone-of_answer :
      (s : Scanner) (r : ℕ) (c : Chain) (item : ScanItem)
      → get_elem? s.heap r ≡ some c
      → length c.rest ≡ 1
      → IsDone (append_item s r c item).heap r
  IsDone-of_answer s r c item at one = (
    record c { rest = c.rest ++ item ∷ [] },
    get_elem?-set_self s.heap r _ (get_elem?-lt s.heap r at),
    omega (arith, length-append c.rest (item ∷ [])),
  )

  store_answer-IsValid :
      (s : Scanner) (r : ℕ) (c : Chain) (ips : List Ip)
      → IsValid s
      → get_elem? s.heap r ≡ some c
      → length c.rest ≡ 1
      → IsChain (record c { rest = c.rest ++ item_of now src_ip tcp c ips ∷ [] })
      → IsValid (store_answer cfg decode now src_ip tcp r c ips s)
  unfolding store_answer
  store_answer-IsValid s r c ips v at one grown =
      let kept = send-IsValid _ _ (append_item-IsValid s r c _ v at (omega arith) grown) in
      elim (Bool-cases (is_fin_psh_ack tcp.flags)) [
        | inl fin ↦ rw fin (enqueue-IsValid _ r kept (IsDone-of_answer s r c _ at one))
        | inr open_ ↦ rw open_ kept
      ]

  on_answer-IsValid :
      (answers : List Ip) (s : Scanner)
      → (is_psh_ack tcp.flags || is_fin_psh_ack tcp.flags) ≡ true
      → IsValid s
      → IsValid (on_answer cfg decode now src_ip tcp answers s)
  unfolding on_answer
  on_answer-IsValid answers s flags v =
      elim (Option-cases (find s tcp.dst_port (sub32 (sub32 tcp.ack 1) s.dns_payload_size))) [
        | inl e ↦ rw (e, on_answer) v
        | inr ((r, c), e) ↦
            let (at, chain, port) = find-IsValid s tcp.dst_port _ v e in
            elim (Bool-cases (is_psh_ack (last c).flags)) [
              | inl twice ↦ rw (e, on_answer, twice) v
              | inr fresh ↦ elim (Bool-cases (is_syn_ack (last c).flags)) [
                | inr early ↦ rw (e, on_answer, fresh, early) v
                | inl syn_ack ↦ elim (Option-cases (answers_ip answers)) [
                  | inl bad ↦ rw (e, on_answer, fresh, syn_ack, bad) v
                  | inr (ips, good) ↦
                      let (one, grown) = grow_answer c ips chain syn_ack flags port in
                      rw (e, on_answer, fresh, syn_ack, good)
                        (store_answer-IsValid s r c ips v at one grown)
                ]
              ]
            ]
      ]

  on_psh_ack-IsValid :
      (s : Scanner)
      → (is_psh_ack tcp.flags || is_fin_psh_ack tcp.flags) ≡ true
      → IsValid s
      → IsValid (on_psh_ack cfg decode now src_ip tcp s)
  unfolding on_psh_ack
  on_psh_ack-IsValid s flags v = elim (Option-cases (dns_of_payload tcp.payload)) [
    | inl e ↦ rw (e, on_psh_ack) v
    | inr (pld, e) ↦ elim (Option-cases (decode pld)) [
      | inl f ↦ rw (e, on_psh_ack, f) v
      | inr (answers, f) ↦ rw (e, on_psh_ack, f) (on_answer-IsValid answers s flags v)
    ]
  ]

module _ (cfg : SenderCfg) (dns_buf : List ℕ) (decode : List ℕ → Option (List Ip)) (now : ℕ) where
  on_tcp-IsValid :
      (src_ip : Ip) (has_app : Bool) (tcp : TcpLayer) (s : Scanner)
      → IsValid s
      → IsValid (on_tcp cfg dns_buf decode now src_ip has_app tcp s)
  unfolding on_tcp
  on_tcp-IsValid src_ip true tcp s v =
      elim (Bool-cases (is_psh_ack tcp.flags || is_fin_psh_ack tcp.flags)) [
        | inl answer ↦ rw answer (on_psh_ack-IsValid cfg decode now src_ip tcp s answer v)
        | inr other ↦ rw other v
      ]
  on_tcp-IsValid src_ip false tcp s v = elim (Bool-cases (is_syn_ack tcp.flags)) [
    | inl a ↦ rw a (on_syn_ack-IsValid cfg dns_buf now src_ip tcp s a v)
    | inr b ↦ elim (Bool-cases (is_fin_ack tcp.flags)) [
      | inl f ↦ rw (b, f) (on_fin_ack-IsValid cfg dns_buf now src_ip tcp s v)
      | inr g ↦ rw (b, g) v
    ]
  ]

  -- Whatever packet arrives, `Handle_pkt` keeps the invariant.
  pub handle_pkt-IsValid :
      (pkt : Packet) (s : Scanner) → IsValid s → IsValid (handle_pkt cfg dns_buf decode now pkt s)
  unfolding handle_pkt
  handle_pkt-IsValid pkt s v = elim (Option-cases pkt.tcp) [
    | inl e ↦ rw (e, handle_pkt) v
    | inr (tcp, e) ↦ rw (e, handle_pkt) (on_tcp-IsValid pkt.src_ip pkt.has_app tcp s v)
  ]
