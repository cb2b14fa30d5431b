-- ===== src/TcpScan/Tests.antt =====
-- The TCP scanner's theorems at one dialogue with the resolver 192.0.2.7.
use odns_measurement_tools.Base.{
  ℕ, ◌+◌, ◌*◌, ◌/◌, ◌%◌, ◌≤◌, ◌<◌, ◌≡◌, ◌↔◌, refl, arith, true, false, Option, none, some, List, [],
  ◌∷◌, ◌++◌, length, All,
}
use odns_measurement_tools.Net.{Ip, IpNet}
use odns_measurement_tools.Tcp.Flags.{syn_ack_flags, psh_ack_flags, fin_ack_flags}
use odns_measurement_tools.Tcp.Segment.{SenderCfg}
use odns_measurement_tools.TcpScan.State.{
  Scanner, scanner_init, seq_of_id, port_of_id, init_tcp, timeout, write_results,
}
use odns_measurement_tools.TcpScan.Keys.{id_of_key, key_injective}
use odns_measurement_tools.TcpScan.Handle.{
  Packet, dns_corrected, dns_of_payload, answers_ip, handle_pkt,
}
use odns_measurement_tools.TcpScan.Invariant.{IsValid}
use odns_measurement_tools.TcpScan.Steps.{handle_pkt-IsValid}
use odns_measurement_tools.TcpScan.Reach.{IsReport, Step, Reach, init_tcp-IsValid, reports_sound}
use odns_measurement_tools.TcpScan.Payload.{
  IsFramed, dns_corrected-IsFramed_iff, dns_of_payload-framed,
}
use odns_measurement_tools.TcpScan.Session.{packet}
use odns_measurement_tools.TcpScan.Dialogue.{
  dialogue, syn_item, syn_ack_item, answer_item, dialogue-reported,
}

abbrev cfg : SenderCfg
cfg = record { iface_ip = 192 ∷ 0 ∷ 2 ∷ 1 ∷ []; dst_port = 53 }

abbrev resolver : Ip
resolver = 192 ∷ 0 ∷ 2 ∷ 7 ∷ []

abbrev query : List ℕ
query = 1 ∷ 2 ∷ 3 ∷ []

abbrev nets : List IpNet
nets = record { ip = 10 ∷ 0 ∷ 0 ∷ 0 ∷ []; mask = 255 ∷ 0 ∷ 0 ∷ 0 ∷ [] } ∷ []

abbrev message : List ℕ
message = 9 ∷ 8 ∷ 7 ∷ 6 ∷ 5 ∷ []

abbrev answer : List ℕ
answer = 0 ∷ 5 ∷ message

abbrev decode : List ℕ → Option (List Ip)
decode [] = none
decode (b ∷ pld) = some ((b ∷ 8 ∷ 8 ∷ 8 ∷ []) ∷ [])

abbrev answer_packet : Packet
answer_packet = packet resolver true 61440 2000 6 psh_ack_flags answer

abbrev probed : Scanner
probed = init_tcp cfg nets 100 resolver (scanner_init 5)

abbrev acked : Scanner
acked = handle_pkt cfg query decode 101 (packet resolver false 61440 1000 1 syn_ack_flags []) probed

abbrev replied : Scanner
replied = handle_pkt cfg query decode 102 answer_packet acked

abbrev closed : Scanner
closed =
    handle_pkt cfg query decode 103 (packet resolver false 61440 3000 7 fin_ack_flags []) replied

abbrev expired : Scanner
expired = timeout 105 closed

abbrev written : Scanner
written = write_results expired

written_reached : Reach cfg decode nets (scanner_init 5) written
written_reached =
    Reach.next
      (Reach.next
        (Reach.next
          (Reach.next
            (Reach.next (Reach.next Reach.here (Step.probe 100 resolver)) (Step.packet query 101 _))
            (Step.packet query 102 answer_packet))
          (Step.packet query 103 _))
        (Step.expire 105))
      Step.write

reports_sound_example : All IsReport written.written
reports_sound_example = reports_sound cfg decode nets 5 written_reached

answer-framed : dns_of_payload answer ≡ some message
unfolding dns_of_payload
answer-framed = refl

answer-good : answers_ip ((9 ∷ 8 ∷ 8 ∷ 8 ∷ []) ∷ []) ≡ some ((9 ∷ 8 ∷ 8 ∷ 8 ∷ []) ∷ [])
unfolding answers_ip
answer-good = refl

abbrev idle : Scanner
idle = scanner_init 5

size-small : idle.dns_payload_size < 65536
unfolding scanner_init
size-small = omega arith

idle-queue : idle.write_chan ≡ []
unfolding scanner_init
idle-queue = refl

dialogue-reported_example :
    let done = dialogue cfg query decode 100 101 102 103 42 resolver 1000 2000 3000 answer idle in
    (done.write_chan ≡ length idle.heap ∷ [])
    × ((write_results done).written
        ≡ idle.written
          ++ (syn_item cfg query decode 100 101 102 103 42 resolver 1000 2000 3000 answer
              ∷ syn_ack_item cfg query decode 100 101 102 103 42 resolver 1000 2000 3000 answer
              ∷ answer_item cfg query decode 100 101 102 103 42 resolver 1000 2000 3000 answer
                  idle.dns_payload_size
                  ((9 ∷ 8 ∷ 8 ∷ 8 ∷ []) ∷ [])
              ∷ [])
            ∷ [])
    × ((write_results done).items (port_of_id 42) (seq_of_id 42) ≡ none)
dialogue-reported_example =
    dialogue-reported cfg query decode 100 101 102 103 42 resolver 1000 2000 3000 answer idle
      message ((9 ∷ 8 ∷ 8 ∷ 8 ∷ []) ∷ []) ((9 ∷ 8 ∷ 8 ∷ 8 ∷ []) ∷ []) size-small answer-framed refl
      answer-good idle-queue

abbrev big_id : ℕ
big_id = 2097153

abbrev offset : ℕ
offset = 7

key_injective_example : (big_id ≡ big_id) × (offset ≡ offset)
key_injective_example =
    key_injective big_id big_id offset offset (omega arith) (omega arith) (omega arith)
      (omega arith) refl refl

id_of_key_example :
    (61440 ≤ port_of_id 2097153)
    × (port_of_id 2097153 < 63488)
    × (seq_of_id 2097153 < 4294967296)
    × (seq_of_id 2097153 % 2048 ≡ 0)
    × (port_of_id 2097153 * 2097152 + seq_of_id 2097153 / 2048 ≡ 2097153 + 61440 * 2097152)
id_of_key_example = id_of_key 2097153 (omega arith)

dns_of_payload-framed_example : dns_of_payload answer ≡ some message
dns_of_payload-framed_example = dns_of_payload-framed 0 5 9 (8 ∷ 7 ∷ 6 ∷ 5 ∷ []) refl

dns_corrected-IsFramed_iff_example : IsFramed (dns_corrected query) ↔ (length query < 256)
dns_corrected-IsFramed_iff_example = dns_corrected-IsFramed_iff query

start-IsValid : IsValid (scanner_init 5)
unfolding scanner_init
start-IsValid = record { chains = tt; keyed = λ p q r h. cc; queued = tt }

probed-IsValid : IsValid probed
probed-IsValid = init_tcp-IsValid cfg nets 100 resolver (scanner_init 5) start-IsValid

handle_pkt-IsValid_example :
    IsValid
      (handle_pkt cfg query decode 101 (packet resolver false 61440 1000 1 syn_ack_flags []) probed)
handle_pkt-IsValid_example =
    handle_pkt-IsValid cfg query decode 101 (packet resolver false 61440 1000 1 syn_ack_flags [])
      probed probed-IsValid
