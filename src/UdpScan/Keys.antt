-- ===== src/UdpScan/Keys.antt =====
-- The numbering of queries by port and DNS id (src/scanner/udp/udp_scanner.go,
-- `update_sync_init`).
use odns_measurement_tools.Base.{
  ℕ, zero, suc, ◌+◌, ◌-◌, ◌*◌, ◌/◌, ◌%◌, ◌≤◌, ◌<◌, ◌≡◌, ◌≢◌, sym, ap, ◌∙◌, arith, ltb→lt,
  Bool-cases, inl, inr, ltb, if◌then◌else◌,
}
use native.Mathlib.Decide.{dec_le}
use native.Mathlib.Nat.{div-add-mod, mod-lt, mod-eq_of_lt, mul-add-mod_self_left, mul-mod_right}
use odns_measurement_tools.UdpScan.State.{SyncedInit, UdpCfg, next_port, update_sync_init}

-- The state after `n` calls.
pub calls : UdpCfg → ℕ → SyncedInit → SyncedInit
calls cfg zero s = s
calls cfg (suc n) s = update_sync_init cfg (calls cfg n s)

abbrev pub start : UdpCfg → SyncedInit
start cfg = record { id = 0; port = cfg.port_min; dnsid = 0 }

-- How many pairs of port and DNS id there are.
abbrev pub period : UdpCfg → ℕ
period cfg = (cfg.port_max - cfg.port_min + 1) * 65536

module _ (cfg : UdpCfg) (ordered : cfg.port_min ≤ cfg.port_max) (word : cfg.port_max < 65536) where
  record At (k : ℕ) (s : SyncedInit) : Type 0 where
    port_low : cfg.port_min ≤ s.port
    port_high : s.port ≤ cfg.port_max
    dnsid_high : s.dnsid < 65536
    index : (s.port - cfg.port_min) * 65536 + s.dnsid ≡ k

  update-At :
      (k : ℕ) (s : SyncedInit)
      → At k s
      → k < period cfg
      → At (if ltb (k + 1) (period cfg) then k + 1 else 0) (update_sync_init cfg s)
  unfolding update_sync_init next_port
  update-At k s h small = ground arith

add_sub : (i j : ℕ) → i ≤ j → i + (j - i) ≡ j
add_sub i j le = omega arith

mod_step : (p n : ℕ) → 0 < p → (if ltb (n % p + 1) p then n % p + 1 else 0) ≡ suc n % p
mod_step p n pos = elim (Bool-cases (ltb (n % p + 1) p)) [
  | inl below ↦ rw below (
      sym (
        ap (λ (k : ℕ). k % p) (parted n)
        ∙ mul-add-mod_self_left p (n / p) (n % p + 1)
        ∙ mod-eq_of_lt (ltb→lt _ _ below)))
  | inr wraps ↦ rw wraps (
      sym (
        ap (λ (k : ℕ). k % p) (full n (ground (arith, mod-lt n pos)))
        ∙ mul-mod_right p (n / p + 1)))
]
  where
    parted : (n : ℕ) → suc n ≡ p * (n / p) + (n % p + 1)
    parted n = omega (arith, div-add-mod n p)

    full : (n : ℕ) → n % p + 1 ≡ p → suc n ≡ p * (n / p + 1)
    full n e = omega (arith, div-add-mod n p)

beyond : (p q e d : ℕ) → 0 < d → d < p → p * q + d ≢ p * (q + e)
beyond p q zero d pos small h = absurd (omega arith)
beyond p q (suc e) d pos small h = absurd (omega arith)

before : (p q e d : ℕ) → 0 < d → p * (q + e) + d ≢ p * q
before p q e d pos h = absurd (omega arith)

too_far : (p q q' d : ℕ) → 0 < d → d < p → p * q + d ≢ p * q'
too_far p q q' d pos small h = elim (dec_le q q') [
  | yes le ↦ beyond p q (q' - q) d pos small (h ∙ ap (λ (k : ℕ). p * k) (sym (add_sub q q' le)))
  | no lt ↦ before p q' (q - q') d pos (ap (λ (k : ℕ). p * k + d) (add_sub q' q (omega arith)) ∙ h)
]

mod_differ : (p i d : ℕ) → 0 < d → d < p → (i + d) % p ≢ i % p
mod_differ p i d pos small e =
    too_far p (i / p) ((i + d) / p) d pos small
      (omega (arith, div-add-mod i p, div-add-mod (i + d) p))

module _ (cfg : UdpCfg) (ordered : cfg.port_min ≤ cfg.port_max) (word : cfg.port_max < 65536) where
  calls-At : (n : ℕ) → At cfg ordered word (n % period cfg) (calls cfg n (start cfg))
  unfolding calls
  calls-At zero = record {
    port_low = omega arith;
    port_high = ordered;
    dnsid_high = omega arith;
    index = omega (arith, mod-eq_of_lt {n = 0} {m = period cfg} (omega arith));
  }
  calls-At (suc n) = rw (← mod_step (period cfg) n (omega arith)) (
      update-At cfg ordered word (n % period cfg) (calls cfg n (start cfg)) (calls-At n)
        (mod-lt n (omega arith)))

  -- After any number of calls, the port lies in the configured range and the DNS id is a uint16.
  pub calls-in_range :
      (n : ℕ)
      → (cfg.port_min ≤ (calls cfg n (start cfg)).port)
        × ((calls cfg n (start cfg)).port ≤ cfg.port_max)
        × ((calls cfg n (start cfg)).dnsid < 65536)
  calls-in_range n = ((calls-At n).port_low, (calls-At n).port_high, (calls-At n).dnsid_high)

  -- Two calls with fewer calls between them than there are pairs of port and DNS id return
  -- different pairs.
  pub calls-distinct :
      (i j : ℕ)
      → i < j
      → j < i + period cfg
      → ¬ (
          ((calls cfg i (start cfg)).port ≡ (calls cfg j (start cfg)).port)
          × ((calls cfg i (start cfg)).dnsid ≡ (calls cfg j (start cfg)).dnsid))
  calls-distinct i j less near (port, dnsid) =
      mod_differ (period cfg) i (j - i) (omega arith) (omega arith) (
        ap (λ (k : ℕ). k % period cfg) (add_sub i j (omega arith))
        ∙ omega (arith, (calls-At i).index, (calls-At j).index))
