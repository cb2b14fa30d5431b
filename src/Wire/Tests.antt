-- ===== src/Wire/Tests.antt =====
-- Addresses as numbers, a query with DNSSEC and the bound ports.
use odns_measurement_tools.Base.{◌≡◌, refl, arith, true, false, not, none, some, [], ◌∷◌, ◌==◌}
use odns_measurement_tools.Text.Defs.{codes}
use odns_measurement_tools.Wire.Bytes.{
  ip42int, int2ip4, htons, to_csv_line, ip42int-int2ip4, htons-htons,
}
use odns_measurement_tools.Wire.Query.{
  QueryCfg, dns_type, opt_record, build_dns, bind_from, bind_ports,
}

long_address :
    ip42int (0 ∷ 0 ∷ 0 ∷ 0 ∷ 0 ∷ 0 ∷ 0 ∷ 0 ∷ 0 ∷ 0 ∷ 255 ∷ 255 ∷ 192 ∷ 0 ∷ 2 ∷ 1 ∷ [])
    ≡ some 3221225985
unfolding ip42int
long_address = refl

there_and_back : ip42int (int2ip4 3221225985) ≡ some 3221225985
there_and_back = ip42int-int2ip4 3221225985 (omega arith)

swapped : htons 3 ≡ 768
unfolding htons
swapped = refl

swapped_twice : htons (htons 3) ≡ 3
swapped_twice = htons-htons 3 (omega arith)

csv_line : to_csv_line (codes "1" ∷ codes "b" ∷ []) ≡ codes "1;b\n"
unfolding to_csv_line
csv_line = refl

wrong_type : dns_type (codes "MX") ≡ none
unfolding dns_type
wrong_type = refl

abbrev cfg : QueryCfg
cfg = record {
  iface_ip = 192 ∷ 0 ∷ 2 ∷ 1 ∷ [];
  dst_port = 53;
  dnssec_enabled = true;
  edns0_enabled = false;
}

-- DNSSEC adds a record of type OPT by itself.
with_dnssec :
    (build_dns cfg 1 7 (192 ∷ 0 ∷ 2 ∷ 9 ∷ []) 61440 5 (codes "a.org")).dns.additionals
    ≡ opt_record true ∷ []
unfolding build_dns
with_dnssec = refl

bound : bind_ports (λ p. not (p == 61442)) 61441 61443 ≡ 61441 ∷ 61443 ∷ []
unfolding bind_ports bind_from
bound = refl
