-- ===== src/Rate/Ports.antt =====
-- The ports of the tests (src/ratelimit/ratelimit.go, send_packets and rate_test_target_sub).
use odns_measurement_tools.Base.{
  ℕ, zero, suc, ◌+◌, ◌-◌, ◌%◌, ◌≤◌, ◌<◌, ◌≡◌, ap, ◌∙◌, arith, true, false, Option, some, length,
  ◌==◌, if◌then◌else◌, u16, Bool-cases, inl, inr,
}
use native.Mathlib.Nat.{mod-eq_of_lt, mod-eq-sub-mod}
use odns_measurement_tools.Rate.State.{
  RateCfg, Tester, ResolverEntry, slots, put, set_ports, begin_test, probe_port, next_port, repeat,
}

-- The port range of the configuration.
abbrev pub IsRange : RateCfg → Type 0
IsRange cfg = (cfg.port_min < cfg.port_max) × (cfg.port_max ≤ 65535)

mod_below : (x m : ℕ) → x < m → x % m ≡ x
mod_below x m h = mod-eq_of_lt h

mod_above : (x m : ℕ) → m ≤ x → x < m + m → x % m ≡ x - m
mod_above x m h k = mod-eq-sub-mod h ∙ mod-eq_of_lt (omega arith)

pub probe_below :
    (cfg : RateCfg) (outport subid : ℕ)
    → cfg.port_min ≤ outport
    → outport + subid < cfg.port_max
    → probe_port cfg outport subid ≡ outport + subid
unfolding probe_port
probe_below cfg outport subid low h =
    ap (λ x. x + cfg.port_min)
      (mod_below (outport - cfg.port_min + subid) (cfg.port_max - cfg.port_min) (omega arith))
    ∙ omega arith

pub probe_above :
    (cfg : RateCfg) (outport subid : ℕ)
    → cfg.port_min ≤ outport
    → outport ≤ cfg.port_max
    → subid < cfg.port_max - cfg.port_min
    → cfg.port_max ≤ outport + subid
    → probe_port cfg outport subid ≡ outport + subid - (cfg.port_max - cfg.port_min)
unfolding probe_port
probe_above cfg outport subid low high small h =
    ap (λ x. x + cfg.port_min)
      (mod_above (outport - cfg.port_min + subid) (cfg.port_max - cfg.port_min) (omega arith)
        (omega arith))
    ∙ omega arith

pub set_ports-at :
    (outport n i : ℕ) (v : Option ℕ) (m : ℕ → Option ℕ)
    → i < n
    → set_ports outport n 0 v m (u16 (outport + i)) ≡ v
unfolding set_ports
set_ports-at outport zero i v m h = absurd (omega arith)
set_ports-at outport (suc n) i v m h = elim (Bool-cases (i == n)) [
  | inl same ↦
      ap (λ b. if b then v else set_ports outport n 0 v m (u16 (outport + i)))
        (same_key (ground arith))
  | inr other ↦ ground (arith, set_ports-at outport n i v m (ground arith))
]
  where
    same_key : i ≡ n → (u16 (outport + i) == u16 (outport + (0 + n))) ≡ true
    same_key e = ground arith

slots-subroutines :
    (cfg : RateCfg) (entry : ResolverEntry)
    → cfg.concurrent_pool ≡ false
    → slots cfg entry ≡ cfg.subroutines
slots-subroutines cfg entry mode =
    ap (λ b. if b then length entry.tfwd_ips else cfg.subroutines) mode

next_port-suc :
    (cfg : RateCfg) (entry : ResolverEntry) (port : ℕ)
    → cfg.concurrent_pool ≡ false
    → cfg.port_max ≤ 65535
    → port < cfg.port_max
    → next_port cfg entry port ≡ port + 1
next_port-suc cfg entry port mode wide room = ground arith

-- If two tests without a concurrent pool begin one after the other, in the middle of the range and
-- with at least two subroutines each, then the second takes over the port of the second subroutine
-- of the first.
pub begin_test-shared :
    (cfg : RateCfg) (p q : ℕ) (s : Tester)
    → cfg.concurrent_pool ≡ false
    → 2 ≤ cfg.subroutines
    → cfg.port_max ≤ 65535
    → s.current_port < cfg.port_max
    → ((begin_test cfg p s).active_resolvers (u16 (s.current_port + 1)) ≡ some p)
      × ((begin_test cfg q (begin_test cfg p s)).active_resolvers (u16 (s.current_port + 1))
          ≡ some q)
unfolding begin_test
begin_test-shared cfg p q s mode two wide room =
    let first = set_ports s.current_port (slots cfg (s.heap p)) 0 (some p) s.active_resolvers in
    let heap = put s.heap p (record (s.heap p) {
      outport = u16 s.current_port;
      rate_data = repeat (slots cfg (s.heap p));
    }) in
    (
      set_ports-at s.current_port (slots cfg (s.heap p)) 1 (some p) s.active_resolvers
          (grind (arith, slots-subroutines cfg (s.heap p) mode)),
      ap (λ port. set_ports port (slots cfg (heap q)) 0 (some q) first (u16 (s.current_port + 1)))
            (next_port-suc cfg (s.heap p) s.current_port mode wide room)
          ∙ ap (λ k. set_ports (s.current_port + 1) (slots cfg (heap q)) 0 (some q) first (u16 k))
              (omega arith)
          ∙ set_ports-at (s.current_port + 1) (slots cfg (heap q)) 0 (some q) first
              (grind (arith, slots-subroutines cfg (heap q) mode)),
    )
