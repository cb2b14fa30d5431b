-- ===== src/Rate/Forwarders.antt =====
-- The resolvers and their forwarders as read from a file and as found by a scan
-- (src/ratelimit/ratelimit.go, read_forwarders and find_active_fwds).
use odns_measurement_tools.Base.{
  ◌>>=◌, ℕ, ◌+◌, ◌*◌, Bool, true, false, not, ◌&&◌, ◌||◌, Option, none, some, List, [], ◌∷◌, ◌++◌,
  length, ◌==◌, if◌then◌else◌, get_elem?,
}
use odns_measurement_tools.Net.{Ip, bytes_eq, to4}
use odns_measurement_tools.Text.Defs.{Text, codes, split}
use odns_measurement_tools.Rate.State.{ResolverEntry, fresh_data}

-- `Ip42uint32`: the result is `none` where the address has no four bytes, which is an index out of
-- range.
unfoldable pub ip42uint32 : Ip → Option ℕ
unfolding to4
ip42uint32 ip = to4 ip >>= number
  where
    number : List ℕ → Option ℕ
    number (a ∷ b ∷ c ∷ d ∷ []) = some (a * 16777216 + b * 65536 + c * 256 + d)
    number _ = none

unfoldable pub iparr_contains : List Ip → Ip → Option Bool
unfolding ip42uint32
iparr_contains [] e = some false
iparr_contains (a ∷ s) e =
    let rest = iparr_contains s e in
    ip42uint32 a >>= λ x. ip42uint32 e >>= λ y. if x == y then some true else rest

-- An address is added if it is not there.
unfoldable pub add_ip : List Ip → Ip → Option (List Ip)
unfolding iparr_contains
add_ip ips ip = iparr_contains ips ip >>= λ there. some (if there then ips else ips ++ ip ∷ [])

-- The columns of the file; `none` stands for -1.
pub record CsvPos : Type 0 where
  pub target_ip : Option ℕ
  pub response_ip : Option ℕ
  pub response_type : Option ℕ

pub record ReadCfg : Type 0 where
  pub response_ip_only : Bool
  pub parse_ip : Text → Ip

abbrev pub column : CsvPos → ℕ → Text → CsvPos
column pos i col =
    if bytes_eq col (codes "ip_request")
    then record pos { target_ip = some i }
    else if bytes_eq col (codes "ip_response")
    then record pos { response_ip = some i }
    else if bytes_eq col (codes "response_type")
    then record pos { response_type = some i }
    else pos

unfoldable pub read_header : CsvPos → ℕ → List Text → CsvPos
read_header pos i [] = pos
read_header pos i (col ∷ cols) = read_header (column pos i col) (i + 1) cols

abbrev pub is_missing : ReadCfg → CsvPos → Bool
is_missing cfg pos =
    no_column pos.response_ip || not cfg.response_ip_only && no_column pos.target_ip
  where
    no_column : Option ℕ → Bool
    no_column none = true
    no_column (some i) = false

-- The map of resolvers, as a list.
abbrev pub Resolvers : Type 0
Resolvers = List (Text × ResolverEntry)

abbrev pub lookup : Resolvers → Text → Option ResolverEntry
lookup [] k = none
lookup ((l, v) ∷ resolvers) k = if bytes_eq l k then some v else lookup resolvers k

abbrev pub store : Resolvers → Text → ResolverEntry → Resolvers
store [] k v = (k, v) ∷ []
store ((l, w) ∷ resolvers) k v =
    let rest = store resolvers k v in if bytes_eq l k then (l, v) ∷ resolvers else (l, w) ∷ rest

abbrev pub entry_of : ReadCfg → Text → Option ResolverEntry → ResolverEntry
entry_of cfg k (some entry) = entry
entry_of cfg k none = record {
  resolver_ip = cfg.parse_ip k;
  tfwd_ips = [];
  outport = 0;
  rate_data = fresh_data ∷ [];
}

abbrev pub at : List Text → Option ℕ → Option Text
at cols none = none
at cols (some i) = get_elem? cols i

module _ (cfg : ReadCfg) (pos : CsvPos) where
  unfoldable pub read_row : Resolvers → Text → Option Resolvers
  unfolding add_ip
  read_row resolvers [] = some resolvers
  read_row resolvers (c ∷ line) =
      let cols = split b';' (c ∷ line) in
      at cols pos.response_ip >>= λ key.
      (if cfg.response_ip_only then some key else at cols pos.target_ip) >>= λ fwd.
      let entry = entry_of cfg key (lookup resolvers key) in
      add_ip entry.tfwd_ips (cfg.parse_ip fwd) >>= λ ips.
      some (store resolvers key (record entry { tfwd_ips = ips }))

  unfoldable pub read_rows : Resolvers → List Text → Option Resolvers
  unfolding read_row
  read_rows resolvers [] = some resolvers
  read_rows resolvers (line ∷ file) = read_row resolvers line >>= λ more. read_rows more file

abbrev no_pos : CsvPos
no_pos = record { target_ip = none; response_ip = none; response_type = none }

-- The loops of `read_forwarders` over the lines of the file, whose first has the names of the
-- columns.
unfoldable pub read_forwarders : ReadCfg → List Text → Option Resolvers
unfolding read_header read_rows
read_forwarders cfg [] = some []
read_forwarders cfg (header ∷ file) =
    let pos = read_header no_pos 0 (split b';' header) in
    if is_missing cfg pos then none else read_rows cfg pos [] file

-- What find_active_fwds reads of an item of the UDP scanner.
pub record Detected : Type 0 where
  pub records : ℕ
  pub answer_ip : Option Ip
  pub ip : Ip

module _ (resolver_ip : Ip) where
  unfoldable pub detect_item : List Ip → Detected → Option Ip → Option (List Ip)
  unfolding add_ip ip42uint32
  detect_item ips item none = some ips
  detect_item ips item (some answer) =
      if item.records == 0
      then some ips
      else (ip42uint32 answer >>= λ x.
          ip42uint32 resolver_ip >>= λ y. if x == y then add_ip ips item.ip else some ips)

  unfoldable pub detect : List Ip → List Detected → Option (List Ip)
  unfolding detect_item
  detect ips [] = some ips
  detect ips (item ∷ items) = detect_item ips item item.answer_ip >>= λ more. detect more items

-- The last loop of `find_active_fwds`: the forwarders are set to those that the scan found, and a
-- resolver without any is deleted.
unfoldable pub find_active_fwds : List Detected → Resolvers → Option Resolvers
unfolding detect
find_active_fwds items [] = some []
find_active_fwds items ((k, entry) ∷ resolvers) =
    let rest = find_active_fwds items resolvers in
    detect entry.resolver_ip [] items >>= λ ips. rest >>= λ more.
    some (if length ips == 0 then more else (k, record entry { tfwd_ips = ips }) ∷ more)
