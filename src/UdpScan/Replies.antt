-- ===== src/UdpScan/Replies.antt =====
-- The UDP scanner's packet handler on replies of any kind (src/scanner/udp/udp_scanner.go,
-- `Handle_pkt`).
use odns_measurement_tools.Base.{
  ℕ, ◌+◌, ◌*◌, ◌≤◌, ◌≡◌, inl, inr, refl, arith, Bool, not, Option, some, List, [], ◌∷◌, ◌++◌,
  length, set, Bool-cases, Option-cases, ◌==◌,
}
use mathlib.Core.Path.{subst}
use odns_measurement_tools.Net.{Ip}
use odns_measurement_tools.UdpScan.State.{
  DnsMsg, UdpCfg, UdpLayer, Scanner, Packet, remove, answered, flags_of, find, store, on_dns,
  on_udp, handle_pkt,
}
use odns_measurement_tools.UdpScan.Valid.{some_injective}

flags_of-some : (pld : List ℕ) → 12 ≤ length pld → (f : ℕ) × (flags_of pld ≡ some f)
unfolding flags_of
flags_of-some (a ∷ b ∷ c ∷ d ∷ more) h = (c * 256 + d, refl)
flags_of-some [] h = absurd (omega arith)
flags_of-some (a ∷ []) h = absurd (omega arith)
flags_of-some (a ∷ b ∷ []) h = absurd (omega arith)
flags_of-some (a ∷ b ∷ c ∷ []) h = absurd (omega arith)

on_dns-total :
    (now : ℕ) (ip : Ip) (udp : UdpLayer) (dns : DnsMsg) (s : Scanner)
    → 12 ≤ length udp.payload
    → (t : Scanner) × (on_dns now ip udp dns s ≡ some t)
unfolding on_dns store
on_dns-total now ip udp dns s long =
    let (flags, f) = flags_of-some udp.payload long in
    elim (Option-cases (find s udp.dst_port dns.id)) [
      | inl e ↦ (s, rw (e, on_dns))
      | inr ((r, i), e) ↦ (
        record s {
          items = remove s.items udp.dst_port dns.id;
          heap = set s.heap r (answered now ip dns flags (length udp.payload) i);
          write_chan = s.write_chan ++ r ∷ [];
        },
        rw (e, on_dns, f, store),
      )
    ]

-- A second copy of the same answer finds no entry any more.
on_dns-twice :
    (now now' : ℕ) (ip ip' : Ip) (udp : UdpLayer) (dns : DnsMsg) (s : Scanner) {t : Scanner}
    → on_dns now ip udp dns s ≡ some t
    → on_dns now' ip' udp dns t ≡ some t
unfolding on_dns store find
on_dns-twice now now' ip ip' udp dns s {t} h = elim (Option-cases (find s udp.dst_port dns.id)) [
  | inl e ↦
      let same = some_injective (rw (e, on_dns) at h) in
      subst (λ u. on_dns now' ip' udp dns u ≡ some u) same (rw (e, on_dns))
  | inr ((r, i), e) ↦ elim (Option-cases (flags_of udp.payload)) [
    | inl f ↦ cc (rw (e, on_dns, f, store) at h)
    | inr (flags, f) ↦
        subst (λ u. on_dns now' ip' udp dns u ≡ some u)
          (some_injective (rw (e, on_dns, f, store) at h)) (ground arith)
  ]
]

module _ (cfg : UdpCfg) (decode : List ℕ → Option DnsMsg) where
  on_udp-total :
      ((pld : List ℕ) (dns : DnsMsg) → decode pld ≡ some dns → 12 ≤ length pld)
      → (now : ℕ) (ip : Ip) (has_app : Bool) (udp : UdpLayer) (s : Scanner)
      → (t : Scanner) × (on_udp cfg decode now ip has_app udp s ≡ some t)
  unfolding on_udp
  on_udp-total header now ip has_app udp s =
      elim (Bool-cases (not (udp.src_port == cfg.dst_port))) [
        | inl wrong ↦ (s, rw (wrong, on_udp))
        | inr right ↦ elim (Bool-cases (not has_app)) [
          | inl bare ↦ (s, rw (right, bare, on_udp))
          | inr full ↦ elim (Option-cases (decode udp.payload)) [
            | inl e ↦ (s, rw (right, full, e, on_udp))
            | inr (dns, e) ↦
                let (t, h) = on_dns-total now ip udp dns s (header udp.payload dns e) in
                (t, rw (right, full, e, on_udp) h)
          ]
        ]
      ]

  on_udp-twice :
      (now now' : ℕ) (ip : Ip) (has_app : Bool) (udp : UdpLayer) (s t : Scanner)
      → on_udp cfg decode now ip has_app udp s ≡ some t
      → on_udp cfg decode now' ip has_app udp t ≡ some t
  unfolding on_udp
  on_udp-twice now now' ip has_app udp s t h =
      elim (Bool-cases (not (udp.src_port == cfg.dst_port))) [
        | inl wrong ↦ rw (wrong, on_udp)
        | inr right ↦ elim (Bool-cases (not has_app)) [
          | inl bare ↦ rw (right, bare, on_udp)
          | inr full ↦ elim (Option-cases (decode udp.payload)) [
            | inl e ↦ rw (right, full, e, on_udp)
            | inr (dns, e) ↦
                rw (right, full, e, on_udp)
                  (on_dns-twice now now' ip ip udp dns s (rw (right, full, e, on_udp) at h))
          ]
        ]
      ]

  -- If the DNS decoder refuses what is shorter than a DNS header, the handler never panics.
  pub handle_pkt-total :
      ((pld : List ℕ) (dns : DnsMsg) → decode pld ≡ some dns → 12 ≤ length pld)
      → (now : ℕ) (pkt : Packet) (s : Scanner)
      → (t : Scanner) × (handle_pkt cfg decode now pkt s ≡ some t)
  unfolding handle_pkt
  handle_pkt-total header now pkt s = elim (Option-cases pkt.udp) [
    | inl e ↦ (s, rw (e, handle_pkt))
    | inr (udp, e) ↦
        let (t, h) = on_udp-total header now pkt.src_ip pkt.has_app udp s in
        (t, rw (e, handle_pkt) h)
  ]

  -- Receiving the same packet again changes nothing.
  pub handle_pkt-twice :
      (now now' : ℕ) (pkt : Packet) (s t : Scanner)
      → handle_pkt cfg decode now pkt s ≡ some t
      → handle_pkt cfg decode now' pkt t ≡ some t
  unfolding handle_pkt
  handle_pkt-twice now now' pkt s t h = elim (Option-cases pkt.udp) [
    | inl e ↦ rw (e, handle_pkt)
    | inr (udp, e) ↦
        rw (e, handle_pkt)
          (on_udp-twice now now' pkt.src_ip pkt.has_app udp s t (rw (e, handle_pkt) at h))
  ]
