-- ===== src/Wire/Query.antt =====
-- The query that the scanner over UDP and the rate limit tester send, by the fields that are filled
-- in, and the ports that are bound (src/common/udp_common/udp_sender.go, udp_bind.go).
use odns_measurement_tools.Base.{
  ℕ, zero, suc, ◌+◌, ◌-◌, ◌^◌, Bool, true, ◌||◌, Option, none, some, List, [], ◌∷◌, if◌then◌else◌,
}
use odns_measurement_tools.Net.{Ip, bytes_eq}
use odns_measurement_tools.Text.Defs.{Text, codes}

-- The values of gopacket's constants.
abbrev pub type_opt : ℕ
type_opt = 41

abbrev pub class_in : ℕ
class_in = 1

-- `Sender_init`: the type of the query, where `none` is the panic.
unfoldable pub dns_type : Text → Option ℕ
dns_type t =
    if bytes_eq t (codes "A")
    then some 1
    else if bytes_eq t (codes "AAAA")
    then some 28
    else if bytes_eq t (codes "DNSKEY")
    then some 48
    else if bytes_eq t (codes "ANY")
    then some 255
    else if bytes_eq t (codes "TXT")
    then some 16
    else none

pub record QueryCfg : Type 0 where
  pub iface_ip : Ip
  pub dst_port : ℕ
  pub dnssec_enabled : Bool
  pub edns0_enabled : Bool

pub record Question : Type 0 where
  pub name : Text
  pub qtype : ℕ
  pub qclass : ℕ

pub record ResourceRecord : Type 0 where
  pub rr_type : ℕ
  pub rr_class : ℕ
  pub ttl : ℕ

pub record DnsQuery : Type 0 where
  pub id : ℕ
  pub rd : Bool
  pub opcode : ℕ
  pub qd_count : ℕ
  pub questions : List Question
  pub ar_count : ℕ
  pub additionals : List ResourceRecord

-- The layers of a packet: the fields of IP and UDP, and the message.
pub record UdpQuery : Type 0 where
  pub version : ℕ
  pub ttl : ℕ
  pub src_ip : Ip
  pub dst_ip : Ip
  pub protocol : ℕ
  pub ip_id : ℕ
  pub src_port : ℕ
  pub dst_port : ℕ
  pub dns : DnsQuery

abbrev pub opt_record : Bool → ResourceRecord
opt_record dnssec = record {
  rr_type = type_opt;
  rr_class = 4096;
  ttl = if dnssec then 2 ^ 15 else 0;
}

-- `Build_dns`, where `draw` is the random id of the packet.
unfoldable pub build_dns : QueryCfg → ℕ → ℕ → Ip → ℕ → ℕ → Text → UdpQuery
build_dns cfg query_type draw dst_ip src_port dnsid query =
    let extended = cfg.edns0_enabled || cfg.dnssec_enabled in
    record {
      version = 4;
      ttl = 64;
      src_ip = cfg.iface_ip;
      dst_ip = dst_ip;
      protocol = 17;
      ip_id = draw;
      src_port = src_port;
      dst_port = cfg.dst_port;
      dns = record {
        id = dnsid;
        rd = true;
        opcode = 0;
        qd_count = 1;
        questions = record { name = query; qtype = query_type; qclass = class_in } ∷ [];
        ar_count = if extended then 1 else 0;
        additionals = if extended then opt_record cfg.dnssec_enabled ∷ [] else [];
      };
    }

-- The loop of `Bind_ports` from a port on: the ports that could be bound. `rounds` is one more than
-- the last port less the first.
unfoldable pub bind_from : (ℕ → Bool) → ℕ → ℕ → List ℕ
bind_from free port zero = []
bind_from free port (suc rounds) =
    let rest = bind_from free (port + 1) rounds in if free port then port ∷ rest else rest

unfoldable pub bind_ports : (ℕ → Bool) → ℕ → ℕ → List ℕ
unfolding bind_from
bind_ports free port_min port_max = bind_from free port_min (port_max + 1 - port_min)
