-- ===== src/Trace/Run.antt =====
-- The goroutines of the TCP traceroute beside the packet handler: starting a trace, the timeout
-- and the writer (src/traceroute/traceroute_tcp.go).
use odns_measurement_tools.Base.{
  ℕ, zero, suc, ◌+◌, Bool, true, false, not, ◌&&◌, ◌||◌, Option, none, some, List, [], ◌∷◌, ◌++◌,
  ltb, if◌then◌else◌,
}
use odns_measurement_tools.Net.{Ip}
use odns_measurement_tools.Tcp.Segment.{SenderCfg}
use odns_measurement_tools.Trace.State.{
  Params, Tracer, zeroed, fresh_params, store, enqueue, send_syn,
}

abbrev pub is_none {ℓ} : {A : Type ℓ} → Option A → Bool
is_none none = true
is_none (some a) = false

abbrev is_nil : Ip → Bool
is_nil [] = true
is_nil (b ∷ ip) = false

-- The condition on which `init_traceroute` waits for a port: its trace is not written out, not
-- finished, or finished less than `reuse` seconds ago.
unfoldable pub in_use : ℕ → ℕ → Params → Bool
in_use reuse now params =
    not (is_nil params.initial_ip)
    && (not params.written || elim params.finished [ none ↦ true | some at ↦ ltb now (at + reuse) ])

-- The loop that sends the SYNs; `acked i` is whether round `i` finds `syn_ack_received` set.
unfoldable pub syn_probes : SenderCfg → (ℕ → Bool) → Ip → ℕ → ℕ → ℕ → Tracer → Tracer
syn_probes cfg acked netip start_port i zero t = t
syn_probes cfg acked netip start_port i (suc n) t =
    let rest =
      syn_probes cfg acked netip start_port (i + 1) n (send_syn cfg i netip i start_port t) in
    if acked i then t else rest

abbrev all_sent : ℕ → ℕ → Tracer → Tracer
all_sent later k t = elim (t.params k) [
  | none ↦ t
  | some params ↦ store t k (record params { all_syns_sent = some later })
]

module _ (cfg : SenderCfg) (reuse : ℕ) (acked : ℕ → Bool) (now later : ℕ) (netip : Ip) (k : ℕ) where
  unfoldable pub start_trace : Params → Tracer → Option Tracer
  start_trace params t =
      let started = all_sent later k (
        syn_probes cfg acked netip k 1 30
          (store t k (record (zeroed params) { initial_ip = netip }))) in
      if in_use reuse now params then none else some started

  -- One address taken by `init_traceroute` for the port `k`; `none` while the port is in use.
  unfoldable pub init_traceroute : Tracer → Option Tracer
  unfolding start_trace
  init_traceroute t = elim (t.params k) [
    | none ↦ start_trace fresh_params (store t k fresh_params)
    | some params ↦ start_trace params t
  ]

-- What `init_traceroute` sets its flag in `init_finished` to when no address comes for a second.
unfoldable pub tick : Option Params → Bool → Bool → Bool
tick (some params) waiting_to_end finished = if params.written then true else finished
tick none waiting_to_end finished = if waiting_to_end then true else finished

unfoldable pub init_is_finished : ℕ → (ℕ → Bool) → Bool
init_is_finished zero flags = true
init_is_finished (suc n) flags = init_is_finished n flags && flags n

-- Whether a trace that is not finished is over at time `now`.
unfoldable pub is_over : ℕ → Params → Bool
is_over now params = elim params.all_syns_sent [
  | none ↦ false
  | some syns ↦ elim params.all_dns_packets_sent [
    | none ↦ is_none params.syn_ack_received && ltb (syns + 3) now
    | some dns ↦ if is_none params.dns_reply_received then ltb (dns + 6) now else ltb (dns + 3) now
  ]
]

abbrev pub finish : ℕ → ℕ → Params → Tracer → Tracer
finish now k params t = enqueue (store t k (record params { finished = some now })) k

unfoldable pub timeout_params : ℕ → ℕ → Params → Tracer → Tracer
timeout_params now k params t =
    if not (is_none params.finished)
    then t
    else if is_over now params
    then finish now k params t
    else t

unfoldable pub timeout_entry : ℕ → ℕ → Tracer → Tracer
unfolding timeout_params
timeout_entry now k t = elim (t.params k) [ none ↦ t | some params ↦ timeout_params now k params t ]

-- One round of `timeout` over the start ports in the map.
unfoldable pub timeout : ℕ → List ℕ → Tracer → Tracer
timeout now [] t = t
timeout now (k ∷ ports) t = timeout now ports (timeout_entry now k t)

unfoldable pub write_params : ℕ → Option Params → Tracer → Tracer
write_params k none t = t
write_params k (some params) t = record (store t k (record params { written = true })) {
  output = t.output ++ params ∷ [];
}

unfoldable pub receive : List ℕ → Tracer → Tracer
unfolding write_params
receive [] t = t
receive (k ∷ more) t = write_params k (t.params k) (record t { write_chan = more })

-- One receive from `write_chan` in `Write_results`.
unfoldable pub write_results : Tracer → Tracer
unfolding receive
write_results t = receive t.write_chan t
