-- ===== src/UdpScan/Tests.antt =====
-- The UDP scanner's theorems at one probe of 192.0.2.7 and its answer.
use odns_measurement_tools.Base.{
  ℕ, ◌≤◌, ◌≡◌, refl, arith, true, Option, none, some, List, leb, if◌then◌else◌, [], ◌∷◌, length,
  Distinct,
}
use odns_measurement_tools.Net.{Ip, IpNet, should_exclude}
use odns_measurement_tools.UdpScan.State.{
  DnsMsg, UdpCfg, Scanner, Packet, remove, init_udp, send_dns, find, flags_of, answered, store,
  on_dns, on_udp, handle_pkt, update_sync_init, next_port, timeout, write_results, scanner_init,
}
use odns_measurement_tools.UdpScan.Keys.{calls, start, calls-distinct}
use odns_measurement_tools.UdpScan.Valid.{reported}
use odns_measurement_tools.UdpScan.Once.{Step, Reach, reported_once}
use odns_measurement_tools.UdpScan.Replies.{handle_pkt-total, handle_pkt-twice}

abbrev cfg : UdpCfg
cfg = record { port_min = 61440; port_max = 61441; dst_port = 53 }

abbrev resolver : Ip
resolver = 192 ∷ 0 ∷ 2 ∷ 7 ∷ []

abbrev nets : List IpNet
nets = []

-- A header of twelve bytes: the id 1, the flags 0x8180.
abbrev reply : List ℕ
reply = 0 ∷ 1 ∷ 129 ∷ 128 ∷ 0 ∷ 1 ∷ 0 ∷ 1 ∷ 0 ∷ 0 ∷ 0 ∷ 0 ∷ []

abbrev answer : DnsMsg
answer = record {
  id = 1;
  answers = record { rr_type = 1; ttl = 300; bytes = 192 ∷ 0 ∷ 2 ∷ 8 ∷ [] } ∷ [];
}

abbrev long_enough : List ℕ → Option DnsMsg
long_enough pld = if leb 12 (length pld) then some answer else none

abbrev pkt : Packet
pkt = record {
  src_ip = resolver;
  udp = some (record { src_port = 53; dst_port = 61440; payload = reply });
  has_app = true;
}

abbrev probed : Scanner
probed = init_udp cfg nets 100 resolver (scanner_init cfg)

abbrev stored : Scanner
stored = record probed {
  items = remove probed.items 61440 1;
  heap =
      answered 101 resolver answer 33152 12 (record {
        id = 1;
        ts_req = 100;
        ts_resp = 0;
        ip = resolver;
        answerip = [];
        port = 61440;
        dnsid = 1;
        dns_recs = [];
        dns_payload_size = 0;
        dns_flags = 0;
        ttl = 0;
      })
      ∷ [];
  write_chan = 0 ∷ [];
}

pkt-stored : handle_pkt cfg long_enough 101 pkt probed ≡ some stored
unfolding handle_pkt on_udp on_dns store flags_of find answered scanner_init init_udp send_dns
    should_exclude update_sync_init next_port
pkt-stored = refl

abbrev written : Scanner
written = write_results (timeout 200 stored)

written_reached : Reach cfg long_enough nets (scanner_init cfg) written
written_reached =
    Reach.next
      (Reach.next
        (Reach.next (Reach.next Reach.here (Step.probe 100 resolver))
          (Step.packet 101 pkt pkt-stored))
        (Step.expire 200))
      Step.write

reported_once_example : Distinct (reported written)
reported_once_example = reported_once cfg long_enough nets written_reached

handle_pkt-twice_example : handle_pkt cfg long_enough 102 pkt stored ≡ some stored
handle_pkt-twice_example = handle_pkt-twice cfg long_enough 101 102 pkt probed stored pkt-stored

long_enough-header : (pld : List ℕ) (dns : DnsMsg) → long_enough pld ≡ some dns → 12 ≤ length pld
long_enough-header pld dns h = ground arith

handle_pkt-total_example : (t : Scanner) × (handle_pkt cfg long_enough 101 pkt probed ≡ some t)
handle_pkt-total_example = handle_pkt-total cfg long_enough long_enough-header 101 pkt probed

calls-distinct_example : ¬ (
    ((calls cfg 2 (start cfg)).port ≡ (calls cfg 65538 (start cfg)).port)
    × ((calls cfg 2 (start cfg)).dnsid ≡ (calls cfg 65538 (start cfg)).dnsid))
calls-distinct_example =
    calls-distinct cfg (omega arith) (omega arith) 2 65538 (omega arith) (omega arith)
