-- ===== src/Input/Excluded.antt =====
-- The addresses of listed networks are not probed (src/scanner/base_scanner.go, the loops of init_tcp
-- and init_udp).
use odns_measurement_tools.Base.{
  ℕ, ◌+◌, ◌≡◌, ◌≢◌, refl, ap, ◌∙◌, arith, true, false, Option, none, some, List, [], ◌∷◌, ◌++◌,
  if◌then◌else◌, All, All-append, All-imp, if_both,
}
use odns_measurement_tools.Net.{Ip, IpNet, contains, should_exclude}
use odns_measurement_tools.Text.Defs.{Text}
use odns_measurement_tools.Tcp.Segment.{SenderCfg}
use odns_measurement_tools.UdpScan.State as UdpState
use odns_measurement_tools.TcpScan.State as TcpState
use odns_measurement_tools.Input.Lines.{
  NetPackage, is_space, trim_left, keep, trim_right, trim_space, before_comment, parse_net,
  blocked_net, add_net, exclude_ips,
}

abbrev pub IsSpaces : Text → Type 0
IsSpaces = All (λ c. is_space c ≡ true)

-- Neither white space nor the beginning of a comment.
abbrev pub IsPlain : Text → Type 0
IsPlain = All (λ c. (is_space c ≡ false) × (c ≢ b'#'))

abbrev pub IsComment : Text → Type 0
IsComment [] = Unit
IsComment (c ∷ s) = c ≡ b'#'

trim_left-pad : (pad s : Text) → IsSpaces pad → trim_left (pad ++ s) ≡ trim_left s
trim_left-pad [] s h = refl
trim_left-pad (c ∷ pad) s (space, h) = rw space (trim_left-pad pad s h)

trim_right-pad : (pad : Text) → IsSpaces pad → trim_right pad ≡ []
trim_right-pad [] h = refl
trim_right-pad (c ∷ pad) (space, h) = rw (trim_right-pad pad h, space)

keep-plain : (c : ℕ) (s : Text) → is_space c ≡ false → keep c s ≡ c ∷ s
keep-plain c [] plain = rw plain
keep-plain c (d ∷ s) plain = refl

trim_right-plain :
    (entry pad : Text) → IsPlain entry → IsSpaces pad → trim_right (entry ++ pad) ≡ entry
trim_right-plain [] pad h k = trim_right-pad pad k
trim_right-plain (c ∷ entry) pad ((plain, _), h) k =
    ap (keep c) (trim_right-plain entry pad h k) ∙ keep-plain c entry plain

trim_space-pads :
    (left entry right : Text)
    → IsSpaces left
    → IsPlain entry
    → IsSpaces right
    → trim_space (left ++ (entry ++ right)) ≡ entry
trim_space-pads left [] right h plain k = ap trim_right (trim_left-pad left right h) ∙ blank right k
  where
    blank : (pad : Text) → IsSpaces pad → trim_right (trim_left pad) ≡ []
    blank [] h = refl
    blank (c ∷ pad) (space, h) = rw space (blank pad h)
trim_space-pads left (c ∷ entry) right h ((plain, apart), more) k =
    ap trim_right (trim_left-pad left (c ∷ (entry ++ right)) h)
    ∙ ap (λ b. trim_right (if b then trim_left (entry ++ right) else c ∷ (entry ++ right))) plain
    ∙ trim_right-plain (c ∷ entry) right ((plain, apart), more) k

space_no_comment : (c : ℕ) → is_space c ≡ true → c ≢ b'#'
space_no_comment c h e = absurd (ground arith)

before_comment-comment :
    (s comment : Text)
    → All (λ c. c ≢ b'#') s
    → IsComment comment
    → before_comment (s ++ comment) ≡ s
before_comment-comment [] [] h k = refl
before_comment-comment [] (c ∷ comment) h k = ground arith
before_comment-comment (c ∷ s) comment (apart, h) k =
    ground (arith, before_comment-comment s comment h k)

-- A line with an entry between white space, and a comment behind it or none.
abbrev pub line_of : Text → Text → Text → Text → Text
line_of left entry right comment = (left ++ (entry ++ right)) ++ comment

before_comment-line_of :
    (left entry right comment : Text)
    → IsSpaces left
    → IsPlain entry
    → IsSpaces right
    → IsComment comment
    → before_comment (line_of left entry right comment) ≡ left ++ (entry ++ right)
before_comment-line_of left entry right comment h plain k c =
    before_comment-comment (left ++ (entry ++ right)) comment
      (All-append _ left (entry ++ right) (All-imp left space_no_comment h) (
        All-append _ entry right (All-imp entry (λ x p. p.1) plain)
          (All-imp right space_no_comment k)))
      c

module _ (net : NetPackage) where
  blocked_net-line_of :
      (left entry right comment : Text)
      → IsSpaces left
      → IsPlain entry
      → IsSpaces right
      → IsComment comment
      → blocked_net net (line_of left entry right comment) ≡ parse_net net entry
  blocked_net-line_of left entry right comment h plain k c =
      ap (λ s. parse_net net (trim_space s))
        (before_comment-line_of left entry right comment h plain k c)
      ∙ ap (parse_net net) (trim_space-pads left entry right h plain k)

  should_exclude-add :
      (o : Option IpNet) (nets : List IpNet) (dst_ip : Ip)
      → should_exclude nets dst_ip ≡ true
      → should_exclude (add_net net o nets) dst_ip ≡ true
  unfolding should_exclude
  should_exclude-add none nets dst_ip h = h
  should_exclude-add (some n) nets dst_ip h =
      if_both (λ b. b ≡ true) (contains n dst_ip) true (should_exclude nets dst_ip) refl h

  exclude_ips-member :
      (n : ℕ) (before after : List Text) (line : Text) (blocked : IpNet) (dst_ip : Ip)
      → blocked_net net line ≡ some blocked
      → contains blocked dst_ip ≡ true
      → should_exclude (exclude_ips net (λ i. false) n (before ++ line ∷ after)) dst_ip ≡ true
  unfolding exclude_ips should_exclude
  exclude_ips-member n [] after line blocked dst_ip parsed inside =
      ap (λ o. should_exclude (add_net net o (exclude_ips net (λ i. false) (n + 1) after)) dst_ip)
        parsed
      ∙ ap
          (λ b.
            if b then true else should_exclude (exclude_ips net (λ i. false) (n + 1) after) dst_ip)
          inside
  exclude_ips-member n (l ∷ before) after line blocked dst_ip parsed inside =
      should_exclude-add (blocked_net net l) _ dst_ip
        (exclude_ips-member (n + 1) before after line blocked dst_ip parsed inside)

  module _ (udp : UdpState.UdpCfg) (tcp : SenderCfg) (now : ℕ) (us : UdpState.Scanner)
      (ts : TcpState.Scanner) where
    -- If a line of the exclusion file holds a network or an address that can be read, between white
    -- space and with a comment behind it or none, then neither scanner does anything for an address
    -- in this network, whatever the other lines are and whatever the scanners have done before.
    pub listed_never_probed :
        (before after : List Text) (left entry right comment : Text) (blocked : IpNet) (dst_ip : Ip)
        → IsSpaces left
        → IsPlain entry
        → IsSpaces right
        → IsComment comment
        → parse_net net entry ≡ some blocked
        → contains blocked dst_ip ≡ true
        → let nets =
            exclude_ips net (λ i. false) 0 (before ++ line_of left entry right comment ∷ after) in
          (UdpState.init_udp udp nets now dst_ip us ≡ us)
          × (TcpState.init_tcp tcp nets now dst_ip ts ≡ ts)
    unfolding UdpState.init_udp TcpState.init_tcp
    listed_never_probed before after left entry right comment blocked dst_ip h plain k c parsed
          inside =
        let line = line_of left entry right comment in
        let excluded =
          exclude_ips-member 0 before after line blocked dst_ip
            (blocked_net-line_of left entry right comment h plain k c ∙ parsed) inside in
        (rw excluded refl, rw excluded refl)
