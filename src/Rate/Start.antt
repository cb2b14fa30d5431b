-- ===== src/Rate/Start.antt =====
-- What the rate limit tester reads before its tests, and the injection into caches
-- (src/ratelimit/ratelimit.go).
use odns_measurement_tools.Base.{
  ◌>>=◌, ℕ, ◌+◌, Bool, true, not, ◌&&◌, Option, none, some, List, [], ◌∷◌, ◌++◌, length, get_elem?,
  ltb, ◌==◌, if◌then◌else◌, u16,
}
use odns_measurement_tools.Net.{Ip, bytes_eq}
use odns_measurement_tools.Text.Defs.{Text, codes, split}
use odns_measurement_tools.Text.Number.{ℤ, pos, negsuc, eq_nat, atoi}
use odns_measurement_tools.Rate.State.{ResolverEntry, fresh_data}

-- `strings.Trim` for one byte.
abbrev trim_left : ℕ → Text → Text
trim_left b [] = []
trim_left b (c ∷ s) = let rest = trim_left b s in if c == b then rest else c ∷ s

abbrev trim_right : ℕ → Text → Text
trim_right b [] = []
trim_right b (c ∷ s) = drop_one c (trim_right b s)
  where
    drop_one : ℕ → Text → Text
    drop_one c [] = if c == b then [] else c ∷ []
    drop_one c (d ∷ s) = c ∷ d ∷ s

unfoldable pub trim : ℕ → Text → Text
trim b s = trim_right b (trim_left b s)

-- The values of a rate curve: `none` where one is no number, and the program ends.
unfoldable pub rates : List Text → Option (List ℤ)
unfolding trim
rates [] = some []
rates (value ∷ values) =
    atoi (trim b' ' value) >>= λ rate. rates values >>= λ curve. some (rate ∷ curve)

unfoldable pub rate_curve : Text → Option (List ℤ)
unfolding rates
rate_curve curve = rates (split b',' curve)

-- `n > z`
abbrev pub exceeds : ℕ → ℤ → Bool
exceeds n (pos m) = ltb m n
exceeds n (negsuc m) = true

-- The loop of `read_domain_list` over the lines; a line without a comma is an index out of range.
unfoldable pub read_domain_list : ℤ → List Text → List Text → Option (List Text)
read_domain_list max domains [] = some domains
read_domain_list max domains ([] ∷ lines) = read_domain_list max domains lines
read_domain_list max domains ((c ∷ line) ∷ lines) =
    get_elem? (split b',' (c ∷ line)) 1 >>= λ domain.
    let more = domains ++ domain ∷ [] in
    let rest = read_domain_list max more lines in
    if not (eq_nat 0 max) && exceeds (length more + 1) max then some more else rest

-- The name that a subroutine asks for: `hash` are the digits of the time, `draw` the random index.
-- The result is `none` where the program ends.
unfoldable pub query_domain : Text → Text → List Text → Text → ℕ → Option Text
query_domain mode dns_query domains hash draw =
    if bytes_eq mode (codes "hash")
    then some (hash ++ b'.' ∷ dns_query)
    else if bytes_eq mode (codes "constant")
    then some dns_query
    else if bytes_eq mode (codes "list")
    then get_elem? domains draw
    else if bytes_eq mode (codes "inject")
    then get_elem? domains draw
    else none

pub record Injected : Type 0 where
  pub fwd : Ip
  pub dnsid : ℕ
  pub domain : Text

-- The queries for all domains to one forwarder, and the next id.
unfoldable pub inject_domains : Ip → List Text → ℕ → List Injected × ℕ
inject_domains fwd [] dnsid = ([], dnsid)
inject_domains fwd (domain ∷ domains) dnsid =
    let (packets, next) = inject_domains fwd domains (u16 (dnsid + 1)) in
    (record { fwd = fwd; dnsid = dnsid; domain = domain } ∷ packets, next)

-- The loop over the forwarders of a resolver from an index on.
unfoldable pub inject_fwds : ℤ → List Text → ℕ → List Ip → ℕ → List Injected × ℕ
unfolding inject_domains
inject_fwds max domains idx [] dnsid = ([], dnsid)
inject_fwds max domains idx (fwd ∷ fwds) dnsid =
    let (packets, next) = inject_domains fwd domains dnsid in
    let (more, after) = inject_fwds max domains (idx + 1) fwds next in
    if exceeds idx max then ([], dnsid) else (packets ++ more, after)

-- A goroutine of `inject_cache`, for the resolvers that it takes.
unfoldable pub inject_cache : ℤ → List Text → List (List Ip) → ℕ → List Injected
unfolding inject_fwds
inject_cache max domains [] dnsid = []
inject_cache max domains (tfwd_ips ∷ resolvers) dnsid =
    let (packets, next) = inject_fwds max domains 0 tfwd_ips dnsid in
    packets ++ inject_cache max domains resolvers next

-- The entry for an address on the command line, whose data has the zero value.
abbrev pub single_entry : Ip → ResolverEntry
single_entry netip = record {
  resolver_ip = netip;
  tfwd_ips = netip ∷ [];
  outport = 0;
  rate_data = record fresh_data { first_response_ts = some 0 } ∷ [];
}
