-- ===== src/Input/Lines.antt =====
-- `Exclude_ips` (src/scanner/base_scanner.go).
use odns_measurement_tools.Base.{
  ℕ, ◌+◌, Bool, ◌&&◌, ◌||◌, Option, none, some, List, [], ◌∷◌, leb, ◌==◌, if◌then◌else◌,
}
use odns_measurement_tools.Net.{Ip, IpNet}
use odns_measurement_tools.Text.Defs.{Text}

-- What package net makes of a text: a network in CIDR notation with its address, or an address, and
-- the number of leading ones of a mask.
pub record NetPackage : Type 0 where
  pub parse_cidr : Text → Option (Ip × IpNet)
  pub parse_ip : Text → Option Ip
  pub mask_ones : List ℕ → ℕ

-- White space in ASCII.
abbrev pub is_space : ℕ → Bool
is_space c = c == b' ' || leb 9 c && leb c 13

abbrev pub trim_left : Text → Text
trim_left [] = []
trim_left (c ∷ s) = if is_space c then trim_left s else c ∷ s

-- A byte in front of what is left of the rest.
abbrev pub keep : ℕ → Text → Text
keep c [] = if is_space c then [] else c ∷ []
keep c (d ∷ s) = c ∷ d ∷ s

abbrev pub trim_right : Text → Text
trim_right [] = []
trim_right (c ∷ s) = keep c (trim_right s)

-- `strings.TrimSpace` on ASCII.
abbrev pub trim_space : Text → Text
trim_space s = trim_right (trim_left s)

-- The text in front of a comment.
abbrev pub before_comment : Text → Text
before_comment [] = []
before_comment (c ∷ s) = let rest = before_comment s in if c == b'#' then [] else c ∷ rest

module _ (net : NetPackage) where
  abbrev pub single_net : Option Ip → Option IpNet
  single_net none = none
  single_net (some ip) = some (record { ip = ip; mask = 255 ∷ 255 ∷ 255 ∷ 255 ∷ [] })

  -- A network, or else a single address.
  abbrev pub net_or_ip : Text → Option (Ip × IpNet) → Option IpNet
  net_or_ip pos_net none = single_net (net.parse_ip pos_net)
  net_or_ip pos_net (some parsed) = some parsed.1

  abbrev pub parse_net : Text → Option IpNet
  parse_net [] = none
  parse_net (c ∷ pos_net) = net_or_ip (c ∷ pos_net) (net.parse_cidr (c ∷ pos_net))

  -- The network of a line, if there is one.
  abbrev pub blocked_net : Text → Option IpNet
  blocked_net line = parse_net (trim_space (before_comment line))

  abbrev pub add_net : Option IpNet → List IpNet → List IpNet
  add_net none nets = nets
  add_net (some n) nets = n ∷ nets

  -- The networks that the lines add; `waiting_to_end` is the flag at the n-th line.
  unfoldable pub exclude_ips : (ℕ → Bool) → ℕ → List Text → List IpNet
  exclude_ips waiting_to_end n [] = []
  exclude_ips waiting_to_end n (line ∷ lines) =
      let rest = exclude_ips waiting_to_end (n + 1) lines in
      if waiting_to_end n then [] else add_net (blocked_net line) rest
