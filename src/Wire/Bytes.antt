-- ===== src/Wire/Bytes.antt =====
-- Addresses as numbers and the order of bytes (src/common/common.go, src/generator/lcg.go).
use odns_measurement_tools.Base.{
  ◌>>=◌, ℕ, ◌+◌, ◌*◌, ◌/◌, ◌%◌, ◌<◌, ◌≡◌, arith, Option, none, some, List, [], ◌∷◌, ◌++◌, length,
  drop, ◌==◌, if◌then◌else◌, u16,
}
use odns_measurement_tools.Net.{Ip}
use odns_measurement_tools.Text.Defs.{Text, join}

-- `binary.BigEndian.Uint32`: fewer than four bytes are an index out of range.
abbrev pub big_endian : List ℕ → Option ℕ
big_endian (a ∷ b ∷ c ∷ d ∷ more) = some (a * 16777216 + b * 65536 + c * 256 + d)
big_endian _ = none

unfoldable pub ip42int : Ip → Option ℕ
ip42int ip = if length ip == 16 then big_endian (drop 12 ip) else big_endian ip

-- `Int2ip4` of a uint32; `Uint322ip` is the same function.
unfoldable pub int2ip4 : ℕ → Ip
int2ip4 nn = nn / 16777216 % 256 ∷ nn / 65536 % 256 ∷ nn / 256 % 256 ∷ nn % 256 ∷ []

-- `(i<<8)&0xff00 | i>>8` of a uint16: the two bytes are swapped.
unfoldable pub htons : ℕ → ℕ
htons i = u16 (i * 256) + i / 256

-- `To_csv_line`
unfoldable pub to_csv_line : List Text → Text
to_csv_line fields = join b';' fields ++ b'\n' ∷ []

pub ip42int-int2ip4 : (nn : ℕ) → nn < 4294967296 → ip42int (int2ip4 nn) ≡ some nn
unfolding ip42int int2ip4
ip42int-int2ip4 nn h = ground arith

pub int2ip4-ip42int :
    (a b c d : ℕ)
    → a < 256
    → b < 256
    → c < 256
    → d < 256
    → (ip42int (a ∷ b ∷ c ∷ d ∷ []) >>= λ nn. some (int2ip4 nn)) ≡ some (a ∷ b ∷ c ∷ d ∷ [])
unfolding ip42int int2ip4
int2ip4-ip42int a b c d ha hb hc hd = ground arith

pub htons-htons : (i : ℕ) → i < 65536 → htons (htons i) ≡ i
unfolding htons
htons-htons i h = ground arith
