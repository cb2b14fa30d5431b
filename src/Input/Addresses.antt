-- ===== src/Input/Addresses.antt =====
-- `Read_ips_file` (src/scanner/base_scanner.go), `Get_cidr_filename` (src/common/base.go) and the
-- argument of `Start_scan` (src/scanner/tcp/tcp_scanner.go, src/scanner/udp/udp_scanner.go).
use odns_measurement_tools.Base.{
  ℕ, zero, suc, ◌+◌, ◌-◌, ◌/◌, Bool, Option, none, some, List, [], ◌∷◌, ltb, if◌then◌else◌,
}
use odns_measurement_tools.Net.{Ip}
use odns_measurement_tools.Text.Defs.{Text}
use odns_measurement_tools.Text.Number.{ℤ, pos, negsuc}
use odns_measurement_tools.Input.Lines.{NetPackage}

-- `a - b` of numbers that are not negative.
abbrev pub minus : ℕ → ℕ → ℤ
minus a b = if ltb a b then negsuc (b - a - 1) else pos (a - b)

-- `n/Pkts_per_sec + 10`, which rounds towards zero: the result is `none` for the division by zero.
abbrev pub wait_time : ℕ → ℤ → Option ℤ
wait_time n (pos zero) = none
wait_time n (pos (suc rate)) = some (pos (n / suc rate + 10))
wait_time n (negsuc rate) = some (minus 10 (n / suc rate))

-- What package net makes of a line; the nil address is the empty list.
abbrev pub ip_or_nil : Option Ip → Ip
ip_or_nil none = []
ip_or_nil (some ip) = ip

-- A file, or an address with the number of its host bits; the program ends for anything else.
pub data Target : Type 0 where
  file : Text → Target
  hosts : Ip → ℤ → Target
  wrong_input : Target

pub data UdpStart : Type 0 where
  arg_not_given panic : UdpStart
  started : Target → UdpStart

module _ (net : NetPackage) where
  -- The addresses that are put on `Ip_chan`; `waiting_to_end` is the flag at the n-th line.
  unfoldable pub read_ips_file : (ℕ → Bool) → ℕ → List Text → List Ip
  read_ips_file waiting_to_end n [] = []
  read_ips_file waiting_to_end n ([] ∷ lines) =
      let rest = read_ips_file waiting_to_end (n + 1) lines in if waiting_to_end n then [] else rest
  read_ips_file waiting_to_end n ((c ∷ line) ∷ lines) =
      let rest = read_ips_file waiting_to_end (n + 1) lines in
      if waiting_to_end n then [] else ip_or_nil (net.parse_ip (c ∷ line)) ∷ rest

  -- `Get_cidr_filename`; `exists` tells whether the argument is the name of a file.
  unfoldable pub get_cidr_filename : Bool → Text → Target
  get_cidr_filename exists arg = elim (net.parse_ip arg) [
    | some ip ↦ hosts ip (pos 0)
    | none ↦ elim (net.parse_cidr arg) [
      | some (ip, ip_net) ↦ hosts ip (minus 32 (net.mask_ones ip_net.mask))
      | none ↦ if exists then file arg else wrong_input
    ]
  ]

  -- The start of a scan over TCP: without an argument there is none.
  unfoldable pub start_tcp : (Text → Bool) → List Text → Option Target
  unfolding get_cidr_filename
  start_tcp exists [] = none
  start_tcp exists (arg ∷ args) = some (get_cidr_filename (exists arg) arg)

  -- The start of a scan over UDP, which looks at the number of all arguments of the program.
  unfoldable pub start_udp : (Text → Bool) → ℕ → List Text → UdpStart
  unfolding get_cidr_filename
  start_udp exists os_args [] = if ltb os_args 2 then arg_not_given else panic
  start_udp exists os_args (arg ∷ args) =
      if ltb os_args 2 then arg_not_given else started (get_cidr_filename (exists arg) arg)
