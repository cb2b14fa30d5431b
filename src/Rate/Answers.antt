-- ===== src/Rate/Answers.antt =====
-- The answers to the queries of a test (src/ratelimit/ratelimit.go, Handle_pkt).
use odns_measurement_tools.Base.{
  ℕ, zero, suc, ◌+◌, ◌-◌, ◌≤◌, ◌<◌, ◌≡◌, ◌≢◌, refl, ap, ◌∙◌, arith, true, some, List, ◌↔◌, ltb,
  Bool-cases, inl, inr, [], ◌∷◌, ◌==◌, if◌then◌else◌, u16,
}
use odns_measurement_tools.Rate.State.{
  RateCfg, RateData, ResolverEntry, Tester, UdpReply, DnsReply, slots, put, repeat, fresh_data,
  modify, record_answer, with_data, reply_to, on_reply, handle_pkt, begin_test, probe_port,
  is_counted, set_ports,
}
use odns_measurement_tools.Rate.Ports.{IsRange, probe_below, probe_above, set_ports-at}

-- The data of n subroutines of which number i has one answer.
abbrev pub answered : ℕ → ℕ → RateData → List RateData
answered zero i d = []
answered (suc n) zero d = d ∷ repeat n
answered (suc n) (suc i) d = fresh_data ∷ answered n i d

modify-repeat :
    (f : RateData → RateData) (n i : ℕ)
    → i < n
    → modify f i (repeat n) ≡ some (answered n i (f fresh_data))
modify-repeat f zero i h = absurd (omega arith)
modify-repeat f (suc n) zero h = refl
modify-repeat f (suc n) (suc i) h = rw (modify-repeat f n i (omega arith)) refl

put_at : {A : Type 0} (m : ℕ → A) (k : ℕ) (v : A) → put m k v k ≡ v
put_at m k v = ap (λ b. if b then v else m k) (same k)
  where
    same : (n : ℕ) → (n == n) ≡ true
    same n = ground arith

-- Right after a test has begun at a port of the range, an answer that counts, to the port that a
-- subroutine sends from, is recorded for that subroutine, if the sum of the first port and its
-- number is below the last port of the range.
pub handle_pkt-answered :
    (cfg : RateCfg) (p : ℕ) (s : Tester) (subid rec_time size : ℕ) (dns : DnsReply)
    → IsRange cfg
    → cfg.port_min ≤ s.current_port
    → s.current_port + subid < cfg.port_max
    → subid < slots cfg (s.heap p)
    → is_counted dns ≡ true
    → let s2 = begin_test cfg p s in
      handle_pkt rec_time
        (some
          (record { dst_port = probe_port cfg s.current_port subid; size = size; dns = some dns }))
        s2
      ≡ some (record s2 {
        heap = put s2.heap p (record (s2.heap p) {
          rate_data =
              answered (slots cfg (s.heap p)) subid (record_answer rec_time size fresh_data);
        });
      })
unfolding handle_pkt on_reply begin_test
handle_pkt-answered cfg p s subid rec_time size dns (less, wide) low room small counted =
    let port = s.current_port in
    let n = slots cfg (s.heap p) in
    let s2 : Tester = begin_test cfg p s in
    let entry : ResolverEntry = record (s.heap p) { outport = u16 port; rate_data = repeat n } in
    let reply : ℕ → UdpReply = λ d. record { dst_port = d; size = size; dns = some dns } in
    let f : RateData → RateData = record_answer rec_time size in
    ap (λ b. if b then on_reply rec_time (reply (probe_port cfg port subid)) s2 else some s2)
      counted
    ∙ ap (λ d. on_reply rec_time (reply d) s2) (probe_below cfg port subid low room)
    ∙ ap (λ o. reply_to rec_time (reply (port + subid)) s2 o)
        (ap (λ k. set_ports port n 0 (some p) s.active_resolvers k) (omega arith)
          ∙ set_ports-at port n subid (some p) s.active_resolvers small)
    ∙ ap
        (λ (x : ResolverEntry).
          with_data s2 p (modify f (u16 (port + subid + 65536 - x.outport)) x.rate_data))
        (put_at s.heap p entry)
    ∙ ap (λ i. with_data s2 p (modify f i (repeat n))) (index port subid (omega arith))
    ∙ ap (with_data s2 p) (modify-repeat f n subid small)
  where
    index : (a b : ℕ) → a + b < 65535 → u16 (a + b + 65536 - u16 a) ≡ b
    index a b h = omega arith

-- The port that a subroutine of a test sends from, and the number under which the handler looks for
-- an answer to this port.
abbrev pub IsFound : RateCfg → ℕ → ℕ → Tester → ℕ → Type 0
IsFound cfg p port s subid =
    (s.active_resolvers (probe_port cfg port subid) ≡ some p)
    × (u16 (probe_port cfg port subid + 65536 - (s.heap p).outport) ≡ subid)

index_near :
    (q o port subid : ℕ)
    → q ≡ port + subid
    → o ≡ u16 port
    → port + subid < 65535
    → u16 (q + 65536 - o) ≡ subid
index_near q o port subid e f h = omega arith

index_far :
    (q o port subid m : ℕ)
    → q ≡ port + subid - m
    → o ≡ u16 port
    → 0 < m
    → m ≤ 65535
    → subid < m
    → m ≤ port + subid
    → port ≤ 65535
    → u16 (q + 65536 - o) ≢ subid
index_far q o port subid m e f h j k l w found = omega arith

-- Right after a test has begun at a port of the range, with fewer subroutines than the range has
-- ports, the map has the test's entry under the port that a subroutine sends from, and the number
-- that the handler makes of this port is that of the subroutine, exactly if the sum of the first
-- port and the number of the subroutine is below the last port of the range.
pub begin_test-finds_iff :
    (cfg : RateCfg) (p : ℕ) (s : Tester) (subid : ℕ)
    → IsRange cfg
    → cfg.port_min ≤ s.current_port
    → s.current_port ≤ cfg.port_max
    → subid < cfg.port_max - cfg.port_min
    → subid < slots cfg (s.heap p)
    → IsFound cfg p s.current_port (begin_test cfg p s) subid
      ↔ (s.current_port + subid < cfg.port_max)
unfolding begin_test
begin_test-finds_iff cfg p s subid (less, wide) low high small known =
    (below, λ room. (listed room, numbered room))
  where
    port : ℕ
    port = s.current_port

    n : ℕ
    n = slots cfg (s.heap p)

    entry : ResolverEntry
    entry = record (s.heap p) { outport = u16 port; rate_data = repeat n }

    outport : (begin_test cfg p s).heap p ≡ entry
    outport = put_at s.heap p entry

    listed :
        port + subid < cfg.port_max
        → (begin_test cfg p s).active_resolvers (probe_port cfg port subid) ≡ some p
    listed room =
        ap (λ k. set_ports port n 0 (some p) s.active_resolvers k)
          (probe_below cfg port subid low room ∙ omega arith)
        ∙ set_ports-at port n subid (some p) s.active_resolvers known

    numbered :
        port + subid < cfg.port_max
        → u16 (probe_port cfg port subid + 65536 - ((begin_test cfg p s).heap p).outport) ≡ subid
    numbered room =
        index_near (probe_port cfg port subid) ((begin_test cfg p s).heap p).outport port subid
          (probe_below cfg port subid low room) (ap (λ (x : ResolverEntry). x.outport) outport)
          (omega arith)

    below : IsFound cfg p port (begin_test cfg p s) subid → port + subid < cfg.port_max
    below (found, index) = elim (Bool-cases (ltb (port + subid) cfg.port_max)) [
      | inl room ↦ ground arith
      | inr far ↦
          let beyond : cfg.port_max ≤ port + subid = ground arith in
          absurd (
            index_far (probe_port cfg port subid) ((begin_test cfg p s).heap p).outport port subid
              (cfg.port_max - cfg.port_min) (probe_above cfg port subid low high small beyond)
              (ap (λ (x : ResolverEntry). x.outport) outport) (omega arith) (omega arith) small
              (omega arith) (omega arith) index)
    ]
