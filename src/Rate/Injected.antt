-- ===== src/Rate/Injected.antt =====
-- How many queries an injection sends and how many domains it reads (src/ratelimit/ratelimit.go).
use odns_measurement_tools.Base.{
  ℕ, suc, ◌+◌, ◌*◌, ◌≤◌, ◌<◌, ◌≡◌, refl, ap, ◌∙◌, arith, not, ◌&&◌, List, [], ◌∷◌, ◌++◌, length,
  length-append, get_elem?, ltb, if◌then◌else◌, Bool-cases, inl, inr, Ensures, any-Ensures,
}
use odns_measurement_tools.Net.{Ip}
use odns_measurement_tools.Text.Defs.{Text, split}
use odns_measurement_tools.Text.Number.{pos, eq_nat}
use odns_measurement_tools.Rate.Start.{
  exceeds, read_domain_list, inject_domains, inject_fwds, inject_cache,
}

length-inject_domains :
    (fwd : Ip) (domains : List Text) (dnsid : ℕ)
    → length (inject_domains fwd domains dnsid).0 ≡ length domains
unfolding inject_domains
length-inject_domains fwd [] dnsid = refl
length-inject_domains fwd (d ∷ domains) dnsid = ap suc (length-inject_domains fwd domains _)

-- The forwarders of a resolver that get queries: one more than the configured maximum, if there are
-- so many.
abbrev pub served : ℕ → ℕ → ℕ
served max count = if ltb max count then max + 1 else count

-- For forwarders from an index on.
abbrev served_from : ℕ → ℕ → List Ip → ℕ
served_from max idx [] = 0
served_from max idx (fwd ∷ fwds) =
    let rest = served_from max (idx + 1) fwds in if ltb max idx then 0 else suc rest

served_from-served :
    (max idx : ℕ) (fwds : List Ip)
    → served_from max idx fwds + idx ≡ (
        if ltb max (idx + length fwds)
        then (if ltb max idx then idx else max + 1)
        else idx + length fwds)
served_from-served max idx [] = ground arith
served_from-served max idx (fwd ∷ fwds) = ground (arith, served_from-served max (idx + 1) fwds)

length-inject_fwds :
    (max idx : ℕ) (domains : List Text) (fwds : List Ip) (dnsid : ℕ)
    → length (inject_fwds (pos max) domains idx fwds dnsid).0
      ≡ served_from max idx fwds * length domains
unfolding inject_fwds
length-inject_fwds max idx domains [] dnsid = omega arith
length-inject_fwds max idx domains (fwd ∷ fwds) dnsid = elim (Bool-cases (ltb max idx)) [
  | inl over ↦ rw over (omega arith)
  | inr within ↦ rw within (
      let (packets, next) = inject_domains fwd domains dnsid in
      let more = (inject_fwds (pos max) domains (idx + 1) fwds next).0 in
      grind (
        arith,
        length-append packets more,
        length-inject_domains fwd domains dnsid,
        length-inject_fwds max (idx + 1) domains fwds next,
      ))
]

-- Of the lines of a list, no more domains are kept than the maximum, if it is positive.
pub read_domain_list-bounded :
    (max : ℕ) (domains : List Text) (lines : List Text)
    → length domains < suc max
    → Ensures (λ kept. length kept ≤ suc max) (read_domain_list (pos (suc max)) domains lines)
unfolding read_domain_list
read_domain_list-bounded max domains [] h = omega arith
read_domain_list-bounded max domains ([] ∷ lines) h = read_domain_list-bounded max domains lines h
read_domain_list-bounded max domains ((c ∷ line) ∷ lines) h =
    any-Ensures _ (get_elem? (split b',' (c ∷ line)) 1) _ λ domain.
      let longer = length-append domains (domain ∷ []) in
      let full =
        not (eq_nat 0 (pos (suc max)))
        && exceeds (length (domains ++ domain ∷ []) + 1) (pos (suc max)) in
      elim (Bool-cases full) [
        | inl over ↦ rw over (omega (arith, longer))
        | inr under ↦
            rw under
              (read_domain_list-bounded max (domains ++ domain ∷ []) lines (ground (arith, longer)))
      ]

-- A resolver gets, for a maximum that is not negative, as many queries as there are domains for each
-- forwarder that is served: all forwarders, but no more than the maximum and one.
inject_fwds-served :
    (max : ℕ) (domains : List Text) (fwds : List Ip) (dnsid : ℕ)
    → length (inject_fwds (pos max) domains 0 fwds dnsid).0
      ≡ served max (length fwds) * length domains
inject_fwds-served max domains fwds dnsid =
    length-inject_fwds max 0 domains fwds dnsid
    ∙ ap (λ n. n * length domains) (ground (arith, served_from-served max 0 fwds))

-- The queries to all resolvers.
abbrev pub queries : ℕ → List Text → List (List Ip) → ℕ
queries max domains [] = 0
queries max domains (tfwd_ips ∷ resolvers) =
    served max (length tfwd_ips) * length domains + queries max domains resolvers

-- For a maximum that is not negative, an injection sends to each resolver as many queries as there
-- are domains for each forwarder that is served: for all its forwarders, but for no more than the
-- maximum and one.
pub inject_cache-queries :
    (max : ℕ) (domains : List Text) (resolvers : List (List Ip)) (dnsid : ℕ)
    → length (inject_cache (pos max) domains resolvers dnsid) ≡ queries max domains resolvers
unfolding inject_cache
inject_cache-queries max domains [] dnsid = refl
inject_cache-queries max domains (tfwd_ips ∷ resolvers) dnsid =
    let (packets, next) = inject_fwds (pos max) domains 0 tfwd_ips dnsid in
    omega (
      arith,
      length-append packets (inject_cache (pos max) domains resolvers next),
      inject_fwds-served max domains tfwd_ips dnsid,
      inject_cache-queries max domains resolvers next,
    )
