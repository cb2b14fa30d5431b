-- ===== src/UdpScan/Valid.antt =====
-- The invariant of the UDP scanner (src/scanner/udp/udp_scanner.go).
use odns_measurement_tools.Base.{
  set-cases, NotIn, Distinct, ◌≤◌, ℕ, ◌<◌, ◌≡◌, ◌≢◌, ◌∙◌, ap, inl, inr, sym, arith, false, ◌&&◌,
  some, List, [], ◌∷◌, ◌++◌, length, get_elem?, set, All, All-append, Bool-cases, get_elem?-lt,
  get_elem?-append_last, get_elem?-append_lt, length-append, length-set, Option-cases, ◌==◌,
}
use mathlib.Core.List.{append_assoc}
use mathlib.Core.Path.{subst}
use odns_measurement_tools.Net.{Ip}
use odns_measurement_tools.UdpScan.State.{
  DnsMsg, UdpItem, UdpLayer, Scanner, put, remove, send_dns, flags_of, answered, find, store,
  on_dns,
}

Distinct-snoc : (xs : List ℕ) (r : ℕ) → Distinct xs → NotIn r xs → Distinct (xs ++ r ∷ [])
Distinct-snoc [] r d n = (tt, tt)
Distinct-snoc (x ∷ xs) r d n =
    (All-append (λ y. y ≢ x) xs (r ∷ []) d.0 ((λ e. n.0 (sym e)), tt), Distinct-snoc xs r d.1 n.1)

-- The references that were ever put on `Write_chan`, in order.
abbrev pub reported : Scanner → List ℕ
reported s = s.written ++ s.write_chan

abbrev pub AtKey : List UdpItem → ℕ → ℕ → ℕ → Type 0
AtKey heap r p d = (i : UdpItem) × (get_elem? heap r ≡ some i) × (i.port ≡ p) × (i.dnsid ≡ d)

pub record IsValid (s : Scanner) : Type 0 where
  pub keyed : (p d r : ℕ) → s.items p d ≡ some r → AtKey s.heap r p d
  pub open_ : (p d r : ℕ) → s.items p d ≡ some r → NotIn r (reported s)
  pub distinct : Distinct (reported s)
  pub old : All (λ r. r < length s.heap) (reported s)

NotIn-fresh : (n : ℕ) (xs : List ℕ) → All (λ r. r < n) xs → NotIn n xs
NotIn-fresh n [] h = tt
NotIn-fresh n (x ∷ xs) h = ((λ e. absurd (omega arith)), NotIn-fresh n xs h.1)

All-weaken : (n m : ℕ) (xs : List ℕ) → n ≤ m → All (λ r. r < n) xs → All (λ r. r < m) xs
All-weaken n m [] le h = tt
All-weaken n m (x ∷ xs) le h = (omega arith, All-weaken n m xs le h.1)

AtKey-append :
    (heap : List UdpItem) (i : UdpItem) (r p d : ℕ)
    → AtKey heap r p d
    → AtKey (heap ++ i ∷ []) r p d
AtKey-append heap i r p d (j, at, port, dnsid) =
    (j, get_elem?-append_lt heap (i ∷ []) r (get_elem?-lt heap r at) ∙ at, port, dnsid)

keyed-put :
    (s : Scanner) (i : UdpItem) (p d r : ℕ)
    → IsValid s
    → put s.items i.port i.dnsid (length s.heap) p d ≡ some r
    → AtKey (s.heap ++ i ∷ []) r p d × NotIn r (reported s)
keyed-put s i p d r v h = elim (Bool-cases (p == i.port && d == i.dnsid)) [
  | inl same ↦
      let h' : some (length s.heap) ≡ some r = rw same at h in
      let fresh : length s.heap ≡ r = cc in
      (
        (i, ground (arith, get_elem?-append_last s.heap i), ground arith, ground arith),
        rw (← fresh) (NotIn-fresh (length s.heap) (reported s) v.old),
      )
  | inr other ↦
      let old = rw other at h in
      (AtKey-append s.heap i r p d (v.keyed p d r old), v.open_ p d r old)
]

pub send_dns-IsValid :
    (now id : ℕ) (dst_ip : Ip) (port dnsid : ℕ) (s : Scanner)
    → IsValid s
    → IsValid (send_dns now id dst_ip port dnsid s)
unfolding send_dns
send_dns-IsValid now id dst_ip port dnsid s v = record {
  keyed = λ p d r h. (keyed-put s _ p d r v h).0;
  open_ = λ p d r h.
      (keyed-put s
        (record {
          id = id;
          ts_req = now;
          ts_resp = 0;
          ip = dst_ip;
          answerip = [];
          port = port;
          dnsid = dnsid;
          dns_recs = [];
          dns_payload_size = 0;
          dns_flags = 0;
          ttl = 0;
        })
        p d r v h).1;
  distinct = v.distinct;
  old =
      All-weaken (length s.heap) _ (reported s) (omega (arith, length-append s.heap (_ ∷ [])))
        v.old;
}

module _ (s : Scanner) (p d r : ℕ) (item item' : UdpItem) (v : IsValid s)
    (listed : s.items p d ≡ some r) (at : get_elem? s.heap r ≡ some item)
    (same_port : item'.port ≡ item.port) (same_dnsid : item'.dnsid ≡ item.dnsid) where
  AtKey-set : (r' p' d' : ℕ) → AtKey s.heap r' p' d' → AtKey (set s.heap r item') r' p' d'
  AtKey-set r' p' d' (i, hi, port, dnsid) = elim (set-cases s.heap r r' item' hi) [
    | inl (e, g) ↦
        let same : item ≡ i = cc in
        (
          item',
          g,
          same_port ∙ ap (λ (x : UdpItem). x.port) same ∙ port,
          same_dnsid ∙ ap (λ (x : UdpItem). x.dnsid) same ∙ dnsid,
        )
    | inr g ↦ (i, g, port, dnsid)
  ]

  kept_entry :
      (p' d' r' : ℕ)
      → remove s.items p d p' d' ≡ some r'
      → (s.items p' d' ≡ some r') × ((p' == p && d' == d) ≡ false)
  kept_entry p' d' r' h = ground arith

  -- Another entry does not point at the item that is reported.
  other_ref : (p' d' r' : ℕ) → s.items p' d' ≡ some r' → (p' == p && d' == d) ≡ false → r ≢ r'
  other_ref p' d' r' h other e =
      let (i, hi, port, dnsid) = v.keyed p' d' r' h in
      let (j, hj, port', dnsid') = v.keyed p d r listed in
      let same : i ≡ j = cc in
      let ports = ap (λ (x : UdpItem). x.port) same in
      let ids = ap (λ (x : UdpItem). x.dnsid) same in absurd (ground arith)

  abbrev closed : Scanner
  closed = record s {
    items = remove s.items p d;
    heap = set s.heap r item';
    write_chan = s.write_chan ++ r ∷ [];
  }

  longer : reported closed ≡ reported s ++ r ∷ []
  longer = sym (append_assoc s.written s.write_chan (r ∷ []))

  closed-IsValid : IsValid closed
  closed-IsValid = record {
    keyed = λ p' d' r' h. AtKey-set r' p' d' (v.keyed p' d' r' (kept_entry p' d' r' h).0);
    open_ = λ p' d' r' h.
        let (old, other) = kept_entry p' d' r' h in
        subst (NotIn r') (sym longer) (
          All-append (λ x. x ≢ r') (reported s) (r ∷ []) (v.open_ p' d' r' old)
            (other_ref p' d' r' old other, tt));
    distinct =
        subst Distinct (sym longer)
          (Distinct-snoc (reported s) r v.distinct (v.open_ p d r listed));
    old =
        subst (λ l. All (λ x. x < length (set s.heap r item')) l) (sym longer)
          (rw (length-set s.heap r item') (
            All-append (λ x. x < length s.heap) (reported s) (r ∷ []) v.old
              (get_elem?-lt s.heap r at, tt)));
  }

pub some_injective : {s t : Scanner} → some s ≡ some t → s ≡ t
some_injective e = cc

pub find_sound :
    (s : Scanner) (p d : ℕ) {r : ℕ} {i : UdpItem}
    → find s p d ≡ some (r, i)
    → (s.items p d ≡ some r) × (get_elem? s.heap r ≡ some i)
unfolding find
find_sound s p d h = ground arith

answered_key :
    (now : ℕ) (ip : Ip) (dns : DnsMsg) (flags size : ℕ) (i : UdpItem)
    → ((answered now ip dns flags size i).port ≡ i.port)
      × ((answered now ip dns flags size i).dnsid ≡ i.dnsid)
unfolding answered
answered_key now ip dns flags size i = ground arith

pub on_dns-IsValid :
    (now : ℕ) (ip : Ip) (udp : UdpLayer) (dns : DnsMsg) (s : Scanner) {t : Scanner}
    → IsValid s
    → on_dns now ip udp dns s ≡ some t
    → IsValid t
unfolding on_dns store
on_dns-IsValid now ip udp dns s {t} v h = elim (Option-cases (find s udp.dst_port dns.id)) [
  | inl e ↦ subst IsValid (some_injective (rw (e, on_dns) at h)) v
  | inr ((r, i), e) ↦
      let (listed, at) = find_sound s udp.dst_port dns.id e in
      elim (Option-cases (flags_of udp.payload)) [
        | inl f ↦ cc (rw (e, on_dns, f, store) at h)
        | inr (flags, f) ↦
            let (port, dnsid) = answered_key now ip dns flags (length udp.payload) i in
            subst IsValid (some_injective (rw (e, on_dns, f, store) at h))
              (closed-IsValid s udp.dst_port dns.id r i _ v listed at port dnsid)
      ]
]
