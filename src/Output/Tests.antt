-- ===== src/Output/Tests.antt =====
-- The row strings of a SYN-ACK and of three records.
use odns_measurement_tools.Base.{ℕ, List, [], ◌∷◌}
use odns_measurement_tools.UdpScan.State.{DnsRecord}

abbrev record_of : ℕ → ℕ → DnsRecord
record_of rr_type b = record { rr_type = rr_type; ttl = 60; bytes = b ∷ [] }

abbrev str : DnsRecord → List ℕ
str rr = rr.bytes

abbrev records : List DnsRecord
records = record_of 1 49 ∷ record_of 1 50 ∷ []
