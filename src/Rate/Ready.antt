-- ===== src/Rate/Ready.antt =====
-- The forwarders of the resolvers that are tested (src/ratelimit/ratelimit.go).
use odns_measurement_tools.Base.{
  Ensures, bind-Ensures, any-Ensures, if-Ensures, ◌>>=◌, ℕ, suc, ◌≡◌, ◌≢◌, refl, arith, Bool, true,
  false, Option, none, some, List, [], ◌∷◌, ◌++◌, length, ◌==◌, if◌then◌else◌, All, Bool-cases, inl,
  inr,
}
use mathlib.Core.Path.{subst}
use odns_measurement_tools.Net.{Ip, bytes_eq}
use odns_measurement_tools.Text.Defs.{Text, split}
use odns_measurement_tools.Rate.State.{ResolverEntry}
use odns_measurement_tools.Rate.Forwarders.{
  ip42uint32, iparr_contains, add_ip, ReadCfg, CsvPos, Resolvers, Detected, lookup, store, entry_of,
  at, read_row, read_rows, read_header, read_forwarders, detect, detect_item, find_active_fwds,
  is_missing,
}

-- The addresses differ as numbers.
abbrev pub IsDistinct : List Ip → Type 0
IsDistinct [] = Unit
IsDistinct (a ∷ ips) = All (λ b. ip42uint32 a ≢ ip42uint32 b) ips × IsDistinct ips

IsDistinct-append :
    (ips : List Ip) (e : Ip)
    → IsDistinct ips
    → All (λ a. ip42uint32 a ≢ ip42uint32 e) ips
    → IsDistinct (ips ++ e ∷ [])
IsDistinct-append [] e h new = (tt, tt)
IsDistinct-append (a ∷ ips) e (h, hs) (new, news) = (all_end ips h, IsDistinct-append ips e hs news)
  where
    all_end :
        (s : List Ip)
        → All (λ b. ip42uint32 a ≢ ip42uint32 b) s
        → All (λ b. ip42uint32 a ≢ ip42uint32 b) (s ++ e ∷ [])
    all_end [] g = (new, tt)
    all_end (b ∷ s) (g, gs) = (g, all_end s gs)

cons_ne : (a : Ip) (ips : List Ip) → a ∷ ips ≢ []
cons_ne a ips e = cc

-- What the test says when it does not find the address.
abbrev IsNew : Ip → List Ip → Bool → Type 0
IsNew e ips true = ips ≢ []
IsNew e ips false = All (λ a. ip42uint32 a ≢ ip42uint32 e) ips

iparr_contains-IsNew : (ips : List Ip) (e : Ip) → Ensures (IsNew e ips) (iparr_contains ips e)
unfolding iparr_contains
iparr_contains-IsNew [] e = tt
iparr_contains-IsNew (a ∷ ips) e =
    go (ip42uint32 a) (ip42uint32 e) refl refl (iparr_contains ips e) (iparr_contains-IsNew ips e)
  where
    go :
        (o q : Option ℕ)
        → ip42uint32 a ≡ o
        → ip42uint32 e ≡ q
        → (rest : Option Bool) → Ensures (IsNew e ips) rest
        → Ensures (IsNew e (a ∷ ips)) (o >>= λ x. q >>= λ y. if x == y then some true else rest)
    go none q f g rest h = tt
    go (some x) none f g rest h = tt
    go (some x) (some y) f g rest h = elim (Bool-cases (x == y)) [
      | inl same ↦ rw same (cons_ne a ips)
      | inr other ↦ rw other (found rest h (ground arith))
    ]
      where
        found : (r : Option Bool) → Ensures (IsNew e ips) r → x ≢ y → Ensures (IsNew e (a ∷ ips)) r
        found none k d = tt
        found (some true) k d = cons_ne a ips
        found (some false) k d = ((λ eq. d cc), k)

abbrev pub IsReady : List Ip → Type 0
IsReady ips = (ips ≢ []) × IsDistinct ips

nonempty_append : (ips : List Ip) (e : Ip) → ips ++ e ∷ [] ≢ []
nonempty_append [] e eq = cc
nonempty_append (a ∷ ips) e eq = cc

add_ip-IsReady : (ips : List Ip) (e : Ip) → IsDistinct ips → Ensures IsReady (add_ip ips e)
unfolding add_ip
add_ip-IsReady ips e h =
    bind-Ensures IsReady (IsNew e ips) (iparr_contains ips e) _ (iparr_contains-IsNew ips e) added
  where
    added :
        (there : Bool)
        → IsNew e ips there
        → Ensures IsReady (some (if there then ips else ips ++ e ∷ []))
    added true found = (found, h)
    added false new = (nonempty_append ips e, IsDistinct-append ips e h new)

-- Every resolver has forwarders, and they differ.
abbrev pub AreReady : Resolvers → Type 0
AreReady = All (λ kv. IsReady kv.1.tfwd_ips)

store-AreReady :
    (resolvers : Resolvers) (k : Text) (v : ResolverEntry)
    → AreReady resolvers
    → IsReady v.tfwd_ips
    → AreReady (store resolvers k v)
store-AreReady [] k v h new = (new, tt)
store-AreReady ((l, w) ∷ resolvers) k v (h, hs) new = elim (Bool-cases (bytes_eq l k)) [
  | inl same ↦ rw same (new, hs)
  | inr other ↦ rw other (h, store-AreReady resolvers k v hs new)
]

entry_of-IsDistinct :
    (cfg : ReadCfg) (k : Text) (resolvers : Resolvers)
    → AreReady resolvers
    → IsDistinct (entry_of cfg k (lookup resolvers k)).tfwd_ips
entry_of-IsDistinct cfg k [] h = tt
entry_of-IsDistinct cfg k ((l, w) ∷ resolvers) (h, hs) = elim (Bool-cases (bytes_eq l k)) [
  | inl same ↦ rw same h.1
  | inr other ↦ rw other (entry_of-IsDistinct cfg k resolvers hs)
]

module _ (cfg : ReadCfg) (pos : CsvPos) where
  read_row-AreReady :
      (resolvers : Resolvers) (line : Text)
      → AreReady resolvers
      → Ensures AreReady (read_row cfg pos resolvers line)
  unfolding read_row
  read_row-AreReady resolvers [] h = h
  read_row-AreReady resolvers (c ∷ line) h =
      let cols = split b';' (c ∷ line) in
      any-Ensures AreReady (at cols pos.response_ip) _ λ key.
        any-Ensures AreReady (if cfg.response_ip_only then some key else at cols pos.target_ip) _
          λ fwd.
            let entry = entry_of cfg key (lookup resolvers key) in
            bind-Ensures AreReady IsReady (add_ip entry.tfwd_ips (cfg.parse_ip fwd)) _
              (add_ip-IsReady entry.tfwd_ips (cfg.parse_ip fwd)
                (entry_of-IsDistinct cfg key resolvers h))
              λ ips ready. store-AreReady resolvers key (record entry { tfwd_ips = ips }) h ready

  read_rows-AreReady :
      (resolvers : Resolvers) (file : List Text)
      → AreReady resolvers
      → Ensures AreReady (read_rows cfg pos resolvers file)
  unfolding read_rows
  read_rows-AreReady resolvers [] h = h
  read_rows-AreReady resolvers (line ∷ file) h =
      bind-Ensures AreReady AreReady (read_row cfg pos resolvers line) _
        (read_row-AreReady resolvers line h) λ more ready. read_rows-AreReady more file ready

read_forwarders-AreReady :
    (cfg : ReadCfg) (file : List Text) → Ensures AreReady (read_forwarders cfg file)
unfolding read_forwarders
read_forwarders-AreReady cfg [] = tt
read_forwarders-AreReady cfg (header ∷ file) =
    let pos =
      read_header (record { target_ip = none; response_ip = none; response_type = none }) 0
        (split b';' header) in
    if-Ensures AreReady (is_missing cfg pos) none (read_rows cfg pos [] file) tt
      (read_rows-AreReady cfg pos [] file tt)

weaken : (o : Option (List Ip)) → Ensures IsReady o → Ensures IsDistinct o
weaken none h = tt
weaken (some ips) h = h.1

detect_item-IsDistinct :
    (resolver_ip : Ip) (ips : List Ip) (item : Detected) (o : Option Ip)
    → IsDistinct ips
    → Ensures IsDistinct (detect_item resolver_ip ips item o)
unfolding detect_item
detect_item-IsDistinct resolver_ip ips item none h = h
detect_item-IsDistinct resolver_ip ips item (some answer) h =
    if-Ensures IsDistinct (item.records == 0) (some ips) _ h (
      any-Ensures IsDistinct (ip42uint32 answer) _ λ x.
        any-Ensures IsDistinct (ip42uint32 resolver_ip) _ λ y.
          if-Ensures IsDistinct (x == y) (add_ip ips item.ip) (some ips)
            (weaken (add_ip ips item.ip) (add_ip-IsReady ips item.ip h)) h)

detect-IsDistinct :
    (resolver_ip : Ip) (ips : List Ip) (items : List Detected)
    → IsDistinct ips
    → Ensures IsDistinct (detect resolver_ip ips items)
unfolding detect
detect-IsDistinct resolver_ip ips [] h = h
detect-IsDistinct resolver_ip ips (item ∷ items) h =
    bind-Ensures IsDistinct IsDistinct (detect_item resolver_ip ips item item.answer_ip) _
      (detect_item-IsDistinct resolver_ip ips item item.answer_ip h)
      λ more d. detect-IsDistinct resolver_ip more items d

find_active_fwds-AreReady :
    (items : List Detected) (resolvers : Resolvers)
    → Ensures AreReady (find_active_fwds items resolvers)
unfolding find_active_fwds
find_active_fwds-AreReady items [] = tt
find_active_fwds-AreReady items ((k, entry) ∷ resolvers) =
    bind-Ensures AreReady IsDistinct (detect entry.resolver_ip [] items) _
      (detect-IsDistinct entry.resolver_ip [] items tt)
      λ ips distinct.
        bind-Ensures AreReady AreReady (find_active_fwds items resolvers) _
          (find_active_fwds-AreReady items resolvers)
          λ more ready. kept k entry ips more distinct ready
  where
    kept :
        (k : Text) (entry : ResolverEntry) (ips : List Ip) (more : Resolvers)
        → IsDistinct ips
        → AreReady more
        → Ensures AreReady
            (some (if length ips == 0 then more else (k, record entry { tfwd_ips = ips }) ∷ more))
    kept k entry [] more distinct ready = ready
    kept k entry (ip ∷ ips) more distinct ready =
        rw (not_zero (length ips)) ((cons_ne ip ips, distinct), ready)
      where
        not_zero : (n : ℕ) → (suc n == 0) ≡ false
        not_zero n = ground arith

-- If the resolvers are read from a file, and the forwarders are then found by a scan, each time
-- every resolver in the map has at least one forwarder, and its forwarders differ.
pub forwarders-AreReady :
    (cfg : ReadCfg) (file : List Text) (items : List Detected) (read found : Resolvers)
    → read_forwarders cfg file ≡ some read
    → find_active_fwds items read ≡ some found
    → AreReady read × AreReady found
forwarders-AreReady cfg file items read found e f = (
  subst (Ensures AreReady) e (read_forwarders-AreReady cfg file),
  subst (Ensures AreReady) f (find_active_fwds-AreReady items read),
)
