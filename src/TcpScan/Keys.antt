-- ===== src/TcpScan/Keys.antt =====
-- The numbering of probes: the port and the sequence number of an id
-- (src/scanner/tcp/tcp_scanner.go, `send_syn`).
use odns_measurement_tools.Base.{ℕ, ◌+◌, ◌*◌, ◌/◌, ◌%◌, ◌≤◌, ◌<◌, ◌≡◌, arith}
use odns_measurement_tools.TcpScan.State.{seq_of_id, port_of_id}

-- For every uint32 id, the source port lies in 61440 .. 63487 and the sequence number is a
-- multiple of 2048 below 2^32, neither wrapped around; together they give the id back.
pub id_of_key :
    (id : ℕ)
    → id < 4294967296
    → (61440 ≤ port_of_id id)
      × (port_of_id id < 63488)
      × (seq_of_id id < 4294967296)
      × (seq_of_id id % 2048 ≡ 0)
      × (port_of_id id * 2097152 + seq_of_id id / 2048 ≡ id + 61440 * 2097152)
unfolding seq_of_id port_of_id
id_of_key id h = omega arith

-- Two uint32 ids whose answers could carry the same port and an acknowledged sequence number
-- within the same 2048 numbers are equal: the padding keeps the probes apart.
pub key_injective :
    (id id' d d' : ℕ)
    → id < 4294967296
    → id' < 4294967296
    → d < 2048
    → d' < 2048
    → port_of_id id ≡ port_of_id id'
    → seq_of_id id + d ≡ seq_of_id id' + d'
    → (id ≡ id') × (d ≡ d')
unfolding seq_of_id port_of_id
key_injective id id' d d' h h' k k' p q = omega arith
