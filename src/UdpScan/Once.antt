-- ===== src/UdpScan/Once.antt =====
-- The UDP scanner's goroutines as interleaved steps
-- (src/scanner/udp/udp_scanner.go).
use odns_measurement_tools.Base.{
  Distinct, NotIn, ℕ, ◌<◌, ◌≡◌, ◌∙◌, ap, inl, inr, refl, sym, arith, Bool, not, Option, some, List,
  [], ◌∷◌, ◌++◌, length, get_elem?, All, Bool-cases, Option-cases, ◌==◌,
}
use mathlib.Core.List.{append_assoc}
use mathlib.Core.Path.{subst}
use odns_measurement_tools.Net.{Ip, IpNet, should_exclude}
use odns_measurement_tools.UdpScan.State.{
  DnsMsg, UdpCfg, UdpLayer, Scanner, Packet, update_sync_init, init_udp, on_udp, handle_pkt,
  timeout, receive, write_results, store_internal, scanner_init,
}
use odns_measurement_tools.UdpScan.Valid.{
  reported, AtKey, IsValid, send_dns-IsValid, on_dns-IsValid, some_injective,
}

timeout-IsValid : (now : ℕ) (s : Scanner) → IsValid s → IsValid (timeout now s)
unfolding timeout
timeout-IsValid now s v = record {
  keyed = λ p d r h. v.keyed p d r (ground arith);
  open_ = λ p d r h. v.open_ p d r (ground arith);
  distinct = v.distinct;
  old = v.old;
}

module _ (s t : Scanner) (items : t.items ≡ s.items) (heap : t.heap ≡ s.heap)
    (same : reported t ≡ reported s) where
  moved-IsValid : IsValid s → IsValid t
  moved-IsValid v = record {
    keyed = λ p d r h.
        subst (λ l. AtKey l r p d) (sym heap)
          (v.keyed p d r (ap (λ (f : ℕ → ℕ → Option ℕ). f p d) (sym items) ∙ h));
    open_ = λ p d r h.
        subst (NotIn r) (sym same)
          (v.open_ p d r (ap (λ (f : ℕ → ℕ → Option ℕ). f p d) (sym items) ∙ h));
    distinct = subst Distinct (sym same) v.distinct;
    old =
        subst (λ l. All (λ r. r < length t.heap) l) (sym same)
          (subst (λ l. All (λ r. r < length l) (reported s)) (sym heap) v.old);
  }

receive-IsValid : (q : List ℕ) (s : Scanner) → s.write_chan ≡ q → IsValid s → IsValid (receive q s)
unfolding receive
receive-IsValid [] s e v = v
receive-IsValid (r ∷ more) s e v =
    let same : (s.written ++ r ∷ []) ++ more ≡ reported s =
      append_assoc s.written (r ∷ []) more ∙ ap (λ (l : List ℕ). s.written ++ l) (sym e) in
    elim (Option-cases (get_elem? s.heap r)) [
      | inl f ↦ rw (f, receive) (moved-IsValid s _ refl refl same v)
      | inr (item, f) ↦ rw (f, receive) (moved-IsValid s _ refl refl same v)
    ]

init_udp-IsValid :
    (cfg : UdpCfg) (nets : List IpNet) (now : ℕ) (dst_ip : Ip) (s : Scanner)
    → IsValid s
    → IsValid (init_udp cfg nets now dst_ip s)
unfolding init_udp
init_udp-IsValid cfg nets now dst_ip s v = elim (Bool-cases (should_exclude nets dst_ip)) [
  | inl excluded ↦ rw excluded v
  | inr kept ↦ rw kept (
      send_dns-IsValid now (update_sync_init cfg s.ip_loop_id).id dst_ip
        (update_sync_init cfg s.ip_loop_id).port (update_sync_init cfg s.ip_loop_id).dnsid
        (record s { ip_loop_id = update_sync_init cfg s.ip_loop_id })
        (moved-IsValid s _ refl refl refl v))
]

module _ (cfg : UdpCfg) (decode : List ℕ → Option DnsMsg) (nets : List IpNet) where
  on_udp-IsValid :
      (now : ℕ) (ip : Ip) (has_app : Bool) (udp : UdpLayer) (s : Scanner) {t : Scanner}
      → IsValid s
      → on_udp cfg decode now ip has_app udp s ≡ some t
      → IsValid t
  unfolding on_udp
  on_udp-IsValid now ip has_app udp s {t} v h =
      elim (Bool-cases (not (udp.src_port == cfg.dst_port))) [
        | inl wrong ↦ subst IsValid (some_injective (rw (wrong, on_udp) at h)) v
        | inr right ↦ elim (Bool-cases (not has_app)) [
          | inl bare ↦ subst IsValid (some_injective (rw (right, bare, on_udp) at h)) v
          | inr full ↦ elim (Option-cases (decode udp.payload)) [
            | inl e ↦ subst IsValid (some_injective (rw (right, full, e, on_udp) at h)) v
            | inr (dns, e) ↦ on_dns-IsValid now ip udp dns s v (rw (right, full, e, on_udp) at h)
          ]
        ]
      ]

  handle_pkt-IsValid :
      (now : ℕ) (pkt : Packet) (s : Scanner) {t : Scanner}
      → IsValid s
      → handle_pkt cfg decode now pkt s ≡ some t
      → IsValid t
  unfolding handle_pkt on_udp
  handle_pkt-IsValid now pkt s {t} v h = elim (Option-cases pkt.udp) [
    | inl e ↦ subst IsValid (some_injective (rw (e, handle_pkt) at h)) v
    | inr (udp, e) ↦ on_udp-IsValid now pkt.src_ip pkt.has_app udp s v (rw (e, handle_pkt) at h)
  ]

  -- The goroutines of a scan, one call at a time; a handler that panics takes no step.
  pub data Step (s : Scanner) : Scanner → Type 0 where
    packet :
        {t : Scanner} (now : ℕ) (pkt : Packet) → handle_pkt cfg decode now pkt s ≡ some t → Step s t
    probe : (now : ℕ) (dst_ip : Ip) → Step s (init_udp cfg nets now dst_ip s)
    expire : (now : ℕ) → Step s (timeout now s)
    write : Step s (write_results s)
    collect : Step s (store_internal s)

  pub data Reach (s : Scanner) : Scanner → Type 0 where
    here : Reach s s
    next : {t u : Scanner} → Reach s t → Step t u → Reach s u

  Step-IsValid : {s t : Scanner} → Step s t → IsValid s → IsValid t
  unfolding write_results store_internal
  Step-IsValid {s} (packet now pkt h) v = handle_pkt-IsValid now pkt s v h
  Step-IsValid {s} (probe now dst_ip) v = init_udp-IsValid cfg nets now dst_ip s v
  Step-IsValid {s} (expire now) v = timeout-IsValid now s v
  Step-IsValid {s} write v = receive-IsValid s.write_chan s refl v
  Step-IsValid {s} collect v = receive-IsValid s.write_chan s refl v

  Reach-IsValid : {s t : Scanner} → IsValid s → Reach s t → IsValid t
  Reach-IsValid v here = v
  Reach-IsValid v (next r st) = Step-IsValid st (Reach-IsValid v r)

  -- Whatever packets arrive and however the goroutines interleave, no item is put on the
  -- writer's channel twice.
  pub reported_once : {s : Scanner} → Reach (scanner_init cfg) s → Distinct (reported s)
  unfolding scanner_init
  reported_once r =
      (Reach-IsValid
        (record { keyed = λ p d r h. cc; open_ = λ p d r h. cc; distinct = tt; old = tt })
        r).distinct
