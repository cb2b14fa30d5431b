-- ===== src/Trace/Timeouts.antt =====
-- A round of the traceroute's `timeout` (src/traceroute/traceroute_tcp.go).
use odns_measurement_tools.Base.{
  ℕ, ◌+◌, ◌≡◌, Bool, false, ◌&&◌, ◌||◌, Option, none, some, List, [], ◌∷◌, ltb, ◌==◌, if◌then◌else◌,
}
use odns_measurement_tools.Trace.State.{Params}
use odns_measurement_tools.Trace.Run.{is_none, is_over}

-- Whether a round of the timeout has something to do for an entry.
abbrev due : ℕ → Option Params → Bool
due now none = false
due now (some params) = is_none params.finished && is_over now params

-- The time that the timeout gives a trace: 3 seconds from its last SYN while no SYN-ACK has come, 6
-- seconds from its last DNS query without a reply, and 3 seconds from it with one. There is none while
-- the SYNs are being sent, or the DNS queries.
abbrev pub deadline : Option ℕ → Option ℕ → Option ℕ → Option ℕ → Option ℕ
deadline none dns syn_ack replied = none
deadline (some syns) none none replied = some (syns + 3)
deadline (some syns) none (some at) replied = none
deadline (some syns) (some dns) syn_ack none = some (dns + 6)
deadline (some syns) (some dns) syn_ack (some at) = some (dns + 3)

abbrev pub is_past : ℕ → Option ℕ → Bool
is_past now none = false
is_past now (some time) = ltb time now

abbrev pub overdue : ℕ → Option Params → Bool
overdue now none = false
overdue now (some p) =
    is_none p.finished
    && is_past now
        (deadline p.all_syns_sent p.all_dns_packets_sent p.syn_ack_received p.dns_reply_received)

abbrev pub close : ℕ → Option Params → Option Params
close now none = none
close now (some p) = some (record p { finished = some now })

abbrev pub overdue_ports : ℕ → (ℕ → Option Params) → List ℕ → List ℕ
overdue_ports now m [] = []
overdue_ports now m (k ∷ ports) =
    let rest = overdue_ports now m ports in if overdue now (m k) then k ∷ rest else rest

abbrev pub elem : ℕ → List ℕ → Bool
elem j [] = false
elem j (k ∷ ports) = j == k || elem j ports

abbrev pub AreDistinct : List ℕ → Type 0
AreDistinct [] = Unit
AreDistinct (k ∷ ports) = (elem k ports ≡ false) × AreDistinct ports

abbrev settled : ℕ → List ℕ → (ℕ → Option Params) → ℕ → Option Params
settled now ports m j = if elem j ports && overdue now (m j) then close now (m j) else m j
