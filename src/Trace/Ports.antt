-- ===== src/Trace/Ports.antt =====
-- The port arithmetic of the traceroute: the hop count in the port of a probe
-- (src/traceroute/traceroute_tcp.go).
use odns_measurement_tools.Base.{ℕ, ◌+◌, ◌-◌, ◌*◌, ◌≤◌, ◌<◌, ◌≡◌, ◌↔◌, arith, [], ◌∷◌, ◌++◌, u16}
use odns_measurement_tools.Net.{Ip}
use odns_measurement_tools.Trace.State.{
  Params, Tracer, calc_start_port, traceroute_init, id_from_port, store,
}
use odns_measurement_tools.Trace.Handle.{Content, hop}

-- The i-th routine's start port is recognised in every port that it probes from, and gives the
-- routine's number back, for up to 140 routines on top of the lowest port 61024.
pub routine_of_port :
    (i ttl : ℕ)
    → i < 140
    → ttl < 32
    → let port = u16 (u16 (61024 + 32 * i) + ttl) in
      (calc_start_port port ≡ 61024 + 32 * i)
      × (id_from_port 61024 (calc_start_port port) ≡ i)
      × (port - calc_start_port port ≡ ttl)
unfolding calc_start_port id_from_port
routine_of_port i ttl h k = (omega arith, omega arith, omega arith)

-- For up to 2047 routines, the highest port is the one behind the ports of the last routine exactly
-- when there are at most 140 routines; with more it has wrapped around.
pub highest_port_iff :
    (n : ℕ) → n < 2048 → ((traceroute_init n).highest_port ≡ 61024 + 32 * n) ↔ (n ≤ 140)
unfolding traceroute_init
highest_port_iff n h = (λ e. omega arith, λ e. omega arith)

abbrev recorded : ℕ → Ip → Tracer → ℕ → Params → ℕ → Tracer
recorded now src_ip t start params count =
    store t start (record params { syntr_hops = params.syntr_hops ++ hop count now src_ip ∷ [] })
