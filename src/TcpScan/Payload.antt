-- ===== src/TcpScan/Payload.antt =====
-- The DNS payloads of the TCP scanner: the length prefix that is sent and the check of the prefix
-- that is received (src/scanner/tcp/tcp_scanner.go).
use odns_measurement_tools.Base.{
  ◌==◌, if◌then◌else◌, ℕ, ◌+◌, ◌*◌, ◌<◌, ◌≡◌, ◌↔◌, arith, none, some, List, ◌∷◌, length,
}
use odns_measurement_tools.TcpScan.Handle.{dns_corrected, dns_of_payload}

-- The two bytes of length in front of a DNS message, as RFC 1035 has them: high byte first.
abbrev pub IsFramed : List ℕ → Type 0
IsFramed (a ∷ b ∷ msg) = a * 256 + b ≡ length msg
IsFramed _ = ⊥

-- The message that is sent is framed rightly exactly when it is shorter than 256 bytes.
pub dns_corrected-IsFramed_iff : (msg : List ℕ) → IsFramed (dns_corrected msg) ↔ (length msg < 256)
unfolding dns_corrected
dns_corrected-IsFramed_iff msg = (λ h. omega arith, λ h. omega arith)

-- Of a rightly framed answer with a message behind the frame, the check lets that message through
-- if the two bytes of length differ, and drops the answer if they are equal.
pub dns_of_payload-framed :
    (a b c : ℕ) (msg : List ℕ)
    → IsFramed (a ∷ b ∷ c ∷ msg)
    → dns_of_payload (a ∷ b ∷ c ∷ msg) ≡ (if a == b then none else some (c ∷ msg))
unfolding dns_of_payload
dns_of_payload-framed a b c msg framed = ground arith
