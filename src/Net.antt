-- ===== src/Net.antt =====
-- What the programs use of Go's package net: addresses as bytes, networks and `Contains`.
use odns_measurement_tools.Base.{
  ℕ, zero, suc, Bool, true, false, ◌&&◌, Option, none, some, List, [], ◌∷◌, length, drop, bit_and,
  ◌==◌, if◌then◌else◌,
}

-- A `net.IP` by its bytes; the nil address is the empty list.
abbrev pub Ip : Type 0
Ip = List ℕ

pub record IpNet : Type 0 where
  pub ip : Ip
  pub mask : List ℕ

abbrev pub bytes_eq : List ℕ → List ℕ → Bool
bytes_eq [] [] = true
bytes_eq [] (y ∷ ys) = false
bytes_eq (x ∷ xs) [] = false
bytes_eq (x ∷ xs) (y ∷ ys) = x == y && bytes_eq xs ys

abbrev v4_in_v6 : List ℕ
v4_in_v6 = 0 ∷ 0 ∷ 0 ∷ 0 ∷ 0 ∷ 0 ∷ 0 ∷ 0 ∷ 0 ∷ 0 ∷ 255 ∷ 255 ∷ []

abbrev take : ℕ → List ℕ → List ℕ
take zero xs = []
take (suc n) [] = []
take (suc n) (x ∷ xs) = x ∷ take n xs

-- `IP.To4`
unfoldable pub to4 : Ip → Option Ip
to4 ip =
    if length ip == 4
    then some ip
    else if length ip == 16 && bytes_eq (take 12 ip) v4_in_v6
    then some (drop 12 ip)
    else none

-- The address of a network and its mask, brought to one length; `none`, for two nil slices, if they
-- do not fit.
network_number_and_mask : IpNet → Option (Ip × List ℕ)
unfolding to4
network_number_and_mask n = elim (to4 n.ip) [
  | some ip ↦
      if length n.mask == 4
      then some (ip, n.mask)
      else if length n.mask == 16
      then some (ip, drop 12 n.mask)
      else none
  | none ↦ if length n.ip == 16 && length n.mask == 16 then some (n.ip, n.mask) else none
]

masked_eq : List ℕ → List ℕ → List ℕ → Bool
masked_eq (a ∷ nn) (m ∷ ms) (b ∷ ip) = bit_and a m == bit_and b m && masked_eq nn ms ip
masked_eq _ _ _ = true

-- `IPNet.Contains`. Where address and mask do not fit, the nil address is in the network.
unfoldable pub contains : IpNet → Ip → Bool
unfolding network_number_and_mask masked_eq to4
contains n ip = elim (network_number_and_mask n) [
  | none ↦ length ip == 0
  | some (nn, m) ↦ elim (to4 ip) [
    | some x ↦ length x == length nn && masked_eq nn m x
    | none ↦ length ip == length nn && masked_eq nn m ip
  ]
]

-- The loop over the blocklist in `init_tcp` and `init_udp`.
unfoldable pub should_exclude : List IpNet → Ip → Bool
unfolding contains
should_exclude [] dst_ip = false
should_exclude (blocked_net ∷ nets) dst_ip =
    if contains blocked_net dst_ip then true else should_exclude nets dst_ip
