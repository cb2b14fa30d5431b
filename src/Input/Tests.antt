-- ===== src/Input/Tests.antt =====
-- An exclusion file, the wait behind a file of addresses and the arguments of a scan.
use odns_measurement_tools.Base.{
  ◌≡◌, refl, arith, Bool, true, false, none, some, List, [], ◌∷◌, not, ◌&&◌, ◌==◌, if◌then◌else◌,
}
use odns_measurement_tools.Net.{Ip, IpNet, bytes_eq, contains, to4}
use odns_measurement_tools.Text.Defs.{Text, codes}
use odns_measurement_tools.Text.Number.{pos, negsuc}
use odns_measurement_tools.Tcp.Segment.{SenderCfg}
use odns_measurement_tools.UdpScan.State as UdpState
use odns_measurement_tools.TcpScan.State as TcpState
use odns_measurement_tools.Input.Lines.{NetPackage, is_space, exclude_ips}
use odns_measurement_tools.Input.Addresses.{
  wait_time, read_ips_file, Target, UdpStart, get_cidr_filename, start_tcp, start_udp,
}
use odns_measurement_tools.Input.Excluded.{IsPlain, listed_never_probed}

abbrev ten : IpNet
ten = record { ip = 10 ∷ 0 ∷ 0 ∷ 0 ∷ []; mask = 255 ∷ 0 ∷ 0 ∷ 0 ∷ [] }

-- A package that knows one network and one address.
abbrev net : NetPackage
net = record {
  parse_cidr = λ t. if bytes_eq t (codes "10.0.0.0/8") then some (ten.ip, ten) else none;
  parse_ip = λ t. if bytes_eq t (codes "192.0.2.1") then some (192 ∷ 0 ∷ 2 ∷ 1 ∷ []) else none;
  mask_ones = λ m. 8;
}

abbrev lines : List Text
lines =
    codes "# lab" ∷ [] ∷ codes " 10.0.0.0/8\t# private" ∷ codes "nonsense" ∷ codes "192.0.2.1" ∷ []

exclude_ips_runs :
    exclude_ips net (λ n. false) 0 lines
    ≡ ten ∷ record { ip = 192 ∷ 0 ∷ 2 ∷ 1 ∷ []; mask = 255 ∷ 255 ∷ 255 ∷ 255 ∷ [] } ∷ []
unfolding exclude_ips
exclude_ips_runs = refl

read_ips_runs :
    read_ips_file net (λ n. false) 0 (codes "192.0.2.1" ∷ [] ∷ codes "host" ∷ [])
    ≡ (192 ∷ 0 ∷ 2 ∷ 1 ∷ []) ∷ [] ∷ []
unfolding read_ips_file
read_ips_runs = refl

-- With an unlimited rate the wait gets shorter with the number of queued addresses.
waits :
    (wait_time 1024 (pos 100) ≡ some (pos 20))
    × (wait_time 1024 (negsuc 0) ≡ some (negsuc 1013))
    × (wait_time 1024 (pos 0) ≡ none)
waits = (refl, refl, refl)

targets :
    (start_tcp net (λ t. false) [] ≡ none)
    × (start_tcp net (λ t. false) (codes "10.0.0.0/8" ∷ []) ≡ some (Target.hosts ten.ip (pos 24)))
    × (start_udp net (λ t. true) 6 (codes "ips.txt" ∷ [])
        ≡ UdpStart.started (Target.file (codes "ips.txt")))
    × (start_udp net (λ t. true) 6 [] ≡ UdpStart.panic)
unfolding start_tcp start_udp get_cidr_filename
targets = (refl, refl, refl, refl)

abbrev are_plain : Text → Bool
are_plain [] = true
are_plain (c ∷ s) = not (is_space c) && not (c == b'#') && are_plain s

are_plain-IsPlain : (s : Text) → are_plain s ≡ true → IsPlain s
are_plain-IsPlain [] h = tt
are_plain-IsPlain (c ∷ s) h =
    ((ground arith, λ e. absurd (ground arith)), are_plain-IsPlain s (ground arith))

abbrev udp : UdpState.UdpCfg
udp = record { port_min = 61440; port_max = 65535; dst_port = 53 }

abbrev tcp : SenderCfg
tcp = record { iface_ip = 192 ∷ 0 ∷ 2 ∷ 1 ∷ []; dst_port = 53 }

abbrev dst_ip : Ip
dst_ip = 10 ∷ 1 ∷ 2 ∷ 3 ∷ []

listed_never_probed_example :
    (UdpState.init_udp udp
        (exclude_ips net (λ n. false) 0 lines)
        100
        dst_ip
        (UdpState.scanner_init udp)
      ≡ UdpState.scanner_init udp)
    × (TcpState.init_tcp tcp
          (exclude_ips net (λ n. false) 0 lines)
          100
          dst_ip
          (TcpState.scanner_init 5)
        ≡ TcpState.scanner_init 5)
unfolding contains to4
listed_never_probed_example =
    listed_never_probed net udp tcp 100 (UdpState.scanner_init udp) (TcpState.scanner_init 5)
      (codes "# lab" ∷ [] ∷ []) (codes "nonsense" ∷ codes "192.0.2.1" ∷ []) (codes " ")
      (codes "10.0.0.0/8") (codes "\t") (codes "# private") ten dst_ip (refl, tt)
      (are_plain-IsPlain (codes "10.0.0.0/8") refl) (refl, tt) refl refl refl
