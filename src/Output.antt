-- ===== src/Output.antt =====
-- The strings of the output rows that are put together by loops (src/scanner/tcp/tcp_scanner.go and
-- src/scanner/udp/udp_scanner.go, `scan_item_to_strarr`; src/traceroute/traceroute_tcp.go,
-- `str_dns_answers`). `str` stands for the String methods of addresses and of gopacket's records.
use odns_measurement_tools.Base.{
  ℕ, suc, ◌+◌, ◌≡◌, ◌≢◌, refl, ap, ◌∙◌, arith, Bool, true, false, ◌||◌, List, [], ◌∷◌, ◌++◌, map,
  All, ◌==◌, ==_iff, if◌then◌else◌,
}
use odns_measurement_tools.Net.{Ip}
use odns_measurement_tools.Tcp.Flags.{TcpFlags}
use odns_measurement_tools.UdpScan.State.{DnsRecord}
use mathlib.Core.List.{append_assoc, append-nil}
mod Tests

abbrev when : Bool → ℕ → List ℕ
when b letter = if b then letter ∷ [] else []

-- The letters S, R, F, P and A of the flags that are set.
unfoldable pub flags_str : TcpFlags → List ℕ
flags_str flags =
    when flags.syn 83
    ++ when flags.rst 82
    ++ when flags.fin 70
    ++ when flags.psh 80
    ++ when flags.ack 65

-- A comma follows every address but the last.
unfoldable pub dns_answers : (Ip → List ℕ) → List Ip → List ℕ
dns_answers str [] = []
dns_answers str (ip ∷ []) = str ip
dns_answers str (ip ∷ next ∷ more) = str ip ++ 44 ∷ dns_answers str (next ∷ more)

-- Of the records, those of type A; a comma follows each that is not the last of all records.
unfoldable pub a_records : (DnsRecord → List ℕ) → List DnsRecord → List ℕ
a_records str [] = []
a_records str (rr ∷ []) = if rr.rr_type == 1 then str rr else []
a_records str (rr ∷ next ∷ more) =
    let rest = a_records str (next ∷ more) in if rr.rr_type == 1 then str rr ++ 44 ∷ rest else rest

abbrev has : List ℕ → ℕ → Bool
has [] letter = false
has (x ∷ s) letter = x == letter || has s letter

-- The flags that a row's letters stand for.
abbrev pub read_flags : List ℕ → TcpFlags
read_flags s = record {
  fin = has s 70;
  syn = has s 83;
  rst = has s 82;
  psh = has s 80;
  ack = has s 65;
}

-- The letters of a row tell which flags the packet had.
pub read_flags-flags_str : (flags : TcpFlags) → read_flags (flags_str flags) ≡ flags
unfolding flags_str
read_flags-flags_str flags = ground arith

-- Strings with a comma behind each.
abbrev pub terminated : List (List ℕ) → List ℕ
terminated [] = []
terminated (s ∷ more) = s ++ 44 ∷ terminated more

-- Strings with a comma between each two.
abbrev pub separated : List (List ℕ) → List ℕ
separated [] = []
separated (s ∷ []) = s
separated (s ∷ next ∷ more) = s ++ 44 ∷ separated (next ∷ more)

-- A list of records of type A is written with commas between the records.
pub a_records-separated :
    (str : DnsRecord → List ℕ) (records : List DnsRecord)
    → All (λ rr. rr.rr_type ≡ 1) records
    → a_records str records ≡ separated (map str records)
unfolding a_records
a_records-separated str [] h = refl
a_records-separated str (rr ∷ []) h = rw ((==_iff rr.rr_type 1).1 h.0)
a_records-separated str (rr ∷ next ∷ more) h =
    rw ((==_iff rr.rr_type 1).1 h.0)
      (ap (λ s. str rr ++ 44 ∷ s) (a_records-separated str (next ∷ more) h.1))

-- If a record of another type stands last, behind records of type A, a comma is left over at the
-- end.
pub a_records-terminated :
    (str : DnsRecord → List ℕ) (records : List DnsRecord) (other : DnsRecord)
    → All (λ rr. rr.rr_type ≡ 1) records
    → other.rr_type ≢ 1
    → a_records str (records ++ other ∷ []) ≡ terminated (map str records)
unfolding a_records
a_records-terminated str [] other h apart = ground arith
a_records-terminated str (rr ∷ []) other h apart =
    rw ((==_iff rr.rr_type 1).1 h.0)
      (ap (λ s. str rr ++ 44 ∷ s) (a_records-terminated str [] other tt apart))
a_records-terminated str (rr ∷ next ∷ more) other h apart =
    rw ((==_iff rr.rr_type 1).1 h.0)
      (ap (λ s. str rr ++ 44 ∷ s) (a_records-terminated str (next ∷ more) other h.1 apart))

-- Addresses are written with commas between them.
pub dns_answers-separated :
    (str : Ip → List ℕ) (ips : List Ip) → dns_answers str ips ≡ separated (map str ips)
unfolding dns_answers
dns_answers-separated str [] = refl
dns_answers-separated str (ip ∷ []) = refl
dns_answers-separated str (ip ∷ next ∷ more) =
    ap (λ s. str ip ++ 44 ∷ s) (dns_answers-separated str (next ∷ more))
