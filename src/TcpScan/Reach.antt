-- ===== src/TcpScan/Reach.antt =====
-- The TCP scanner's goroutines as interleaved steps (src/scanner/tcp/tcp_scanner.go,
-- src/scanner/base_scanner.go).
use odns_measurement_tools.Base.{
  ℕ, ◌≡◌, ◌∙◌, inl, inr, refl, arith, ◌&&◌, Option, some, List, [], ◌∷◌, ◌++◌, length, All,
  All-append, All-get_elem?, Bool-cases, get_elem?-lt, get_elem?-append_last, get_elem?-append_lt,
  ◌==◌,
}
use odns_measurement_tools.Net.{Ip, IpNet, should_exclude}
use odns_measurement_tools.Tcp.Flags.{syn_flags}
use odns_measurement_tools.Tcp.Segment.{SenderCfg}
use odns_measurement_tools.TcpScan.State.{
  ScanItem, Chain, Scanner, put, remove, send_syn, init_tcp, timeout, scanner_init, write_item,
  write_at, receive, write_results,
}
use odns_measurement_tools.TcpScan.Handle.{
  Packet, on_syn_ack, on_fin_ack, on_psh_ack, on_answer, handle_pkt,
}
use odns_measurement_tools.TcpScan.Invariant.{
  IsDialogue, IsChain, KeyedAt, IsDone, IsValid, All-map,
}
use odns_measurement_tools.TcpScan.Steps.{handle_pkt-IsValid}

module _ (cfg : SenderCfg) where
  KeyedAt-append :
      (heap : List Chain) (c : Chain) (p q r : ℕ)
      → KeyedAt heap r p q
      → KeyedAt (heap ++ c ∷ []) r p q
  KeyedAt-append heap c p q r (d, at, port, seq) =
      (d, get_elem?-append_lt heap (c ∷ []) r (get_elem?-lt heap r at) ∙ at, port, seq)

  IsDone-append :
      (heap : List Chain) (c : Chain) (r : ℕ) → IsDone heap r → IsDone (heap ++ c ∷ []) r
  IsDone-append heap c r (d, at, two) =
      (d, get_elem?-append_lt heap (c ∷ []) r (get_elem?-lt heap r at) ∙ at, two)

  -- The new entry points at the new chain, and the others stay.
  keyed-put :
      (s : Scanner) (c : Chain) (p q r : ℕ)
      → IsValid s
      → put s.items c.root.port c.root.seq (length s.heap) p q ≡ some r
      → KeyedAt (s.heap ++ c ∷ []) r p q
  keyed-put s c p q r v h = elim (Bool-cases (p == c.root.port && q == c.root.seq)) [
    | inl same ↦
        let h' : some (length s.heap) ≡ some r = rw same at h in
        (c, ground (arith, get_elem?-append_last s.heap c), ground arith, ground arith)
    | inr other ↦ KeyedAt-append s.heap c p q r (v.keyed p q r (rw other at h))
  ]

  pub send_syn-IsValid :
      (now id : ℕ) (dst_ip : Ip) (s : Scanner) → IsValid s → IsValid (send_syn cfg now id dst_ip s)
  unfolding send_syn
  send_syn-IsValid now id dst_ip s v = record {
    chains = All-append IsChain s.heap (_ ∷ []) v.chains ((refl, tt), tt);
    keyed = λ p q r h. keyed-put s _ p q r v h;
    queued =
        All-map (IsDone s.heap) (IsDone (s.heap ++ _ ∷ [])) s.write_chan (IsDone-append s.heap _)
          v.queued;
  }

  pub init_tcp-IsValid :
      (nets : List IpNet) (now : ℕ) (dst_ip : Ip) (s : Scanner)
      → IsValid s
      → IsValid (init_tcp cfg nets now dst_ip s)
  unfolding init_tcp
  init_tcp-IsValid nets now dst_ip s v = elim (Bool-cases (should_exclude nets dst_ip)) [
    | inl excluded ↦ rw excluded v
    | inr kept ↦ rw kept (
        send_syn-IsValid now s.ip_loop_id dst_ip _
          (record { chains = v.chains; keyed = v.keyed; queued = v.queued }))
  ]

pub timeout-IsValid : (now : ℕ) (s : Scanner) → IsValid s → IsValid (timeout now s)
unfolding timeout
timeout-IsValid now s v = record {
  chains = v.chains;
  keyed = λ p q r h. v.keyed p q r (ground arith);
  queued = v.queued;
}

-- The rows of a finished dialogue: SYN, SYN-ACK and answer, under one id and one port.
abbrev pub IsReport : List ScanItem → Type 0
IsReport [] = ⊥
IsReport (a ∷ rest) = (a.flags ≡ syn_flags) × IsDialogue a rest × (length rest ≡ 2)

pub record IsSound (s : Scanner) : Type 0 where
  pub valid : IsValid s
  pub reports : All IsReport s.written

keyed-remove :
    (s : Scanner) (p q p' q' : ℕ) {r : ℕ}
    → remove s.items p q p' q' ≡ some r
    → s.items p' q' ≡ some r
keyed-remove s p q p' q' h = ground arith

write_item-IsSound :
    (s : Scanner) (c : Chain) → IsSound s → IsChain c → length c.rest ≡ 2 → IsSound (write_item c s)
unfolding write_item
write_item-IsSound s c h chain two = record {
  valid = record {
    chains = h.valid.chains;
    keyed = λ p q r e. h.valid.keyed p q r (keyed-remove s c.root.port c.root.seq p q e);
    queued = h.valid.queued;
  };
  reports = All-append IsReport s.written (_ ∷ []) h.reports ((chain.0, chain.1, two), tt);
}

receive-IsSound :
    (q : List ℕ) (s : Scanner) → IsSound s → All (IsDone s.heap) q → IsSound (receive q s)
unfolding receive write_at
receive-IsSound [] s h done = h
receive-IsSound (r ∷ more) s h ((c, at, two), done) =
    rw (at, write_at)
      (write_item-IsSound _ c
        (record {
          valid = record { chains = h.valid.chains; keyed = h.valid.keyed; queued = done };
          reports = h.reports;
        })
        (All-get_elem? IsChain s.heap r h.valid.chains at) two)

write_results-IsSound : (s : Scanner) → IsSound s → IsSound (write_results s)
unfolding write_results
write_results-IsSound s h = receive-IsSound s.write_chan s h h.valid.queued

handle_pkt-written :
    (cfg : SenderCfg) (dns_buf : List ℕ) (decode : List ℕ → Option (List Ip)) (now : ℕ)
    (pkt : Packet) (s : Scanner)
    → (handle_pkt cfg dns_buf decode now pkt s).written ≡ s.written
unfolding handle_pkt on_syn_ack on_fin_ack on_psh_ack on_answer
handle_pkt-written cfg dns_buf decode now pkt s = ground arith

init_tcp-written :
    (cfg : SenderCfg) (nets : List IpNet) (now : ℕ) (dst_ip : Ip) (s : Scanner)
    → (init_tcp cfg nets now dst_ip s).written ≡ s.written
unfolding init_tcp
init_tcp-written cfg nets now dst_ip s = ground arith

timeout-reports :
    (now : ℕ) (s : Scanner) → All IsReport s.written → All IsReport (timeout now s).written
unfolding timeout
timeout-reports now s h = h

-- What the goroutines do to the shared state, one call at a time: a captured packet, a probed
-- address, a round of the timeout, a write.
module _ (cfg : SenderCfg) (decode : List ℕ → Option (List Ip)) (nets : List IpNet) where
  pub data Step (s : Scanner) : Scanner → Type 0 where
    packet :
        (dns_buf : List ℕ) (now : ℕ) (pkt : Packet)
        → Step s (handle_pkt cfg dns_buf decode now pkt s)
    probe : (now : ℕ) (dst_ip : Ip) → Step s (init_tcp cfg nets now dst_ip s)
    expire : (now : ℕ) → Step s (timeout now s)
    write : Step s (write_results s)

  pub data Reach (s : Scanner) : Scanner → Type 0 where
    here : Reach s s
    next : {t u : Scanner} → Reach s t → Step t u → Reach s u

  Step-IsSound : {s t : Scanner} → Step s t → IsSound s → IsSound t
  Step-IsSound {s} (packet dns_buf now pkt) h = record {
    valid = handle_pkt-IsValid cfg dns_buf decode now pkt s h.valid;
    reports = rw (handle_pkt-written cfg dns_buf decode now pkt s) h.reports;
  }
  Step-IsSound {s} (probe now dst_ip) h = record {
    valid = init_tcp-IsValid cfg nets now dst_ip s h.valid;
    reports = rw (init_tcp-written cfg nets now dst_ip s) h.reports;
  }
  Step-IsSound {s} (expire now) h = record {
    valid = timeout-IsValid now s h.valid;
    reports = timeout-reports now s h.reports;
  }
  Step-IsSound {s} write h = write_results-IsSound s h

  Reach-IsSound : {s t : Scanner} → IsSound s → Reach s t → IsSound t
  Reach-IsSound h here = h
  Reach-IsSound h (next r st) = Step-IsSound st (Reach-IsSound h r)

  -- Whatever packets arrive and however the goroutines interleave, every group of rows that
  -- reaches the output file is a SYN, a SYN-ACK and one DNS answer, all under the id and the
  -- port of the SYN.
  pub reports_sound :
      (size : ℕ) {s : Scanner} → Reach (scanner_init size) s → All IsReport s.written
  unfolding scanner_init
  reports_sound size r =
      (Reach-IsSound
        (record {
          valid = record { chains = tt; keyed = λ p q r h. cc; queued = tt };
          reports = tt;
        })
        r).reports
