-- ===== src/Qmin/Routines.antt =====
-- The goroutines of the QMIN scanner that test one resolver, and the rounds over the resolvers
-- (src/qmin/scanner/scanner.go).
use odns_measurement_tools.Base.{
  ◌>>=◌, ℕ, zero, suc, ◌+◌, Bool, true, false, not, ◌&&◌, ◌||◌, Option, some, List, [], ◌∷◌, ◌++◌,
  if◌then◌else◌,
}
use odns_measurement_tools.Net.{bytes_eq}
use odns_measurement_tools.Text.Defs.{Text, codes}
use odns_measurement_tools.Text.Number.{ℤ, pos, negsuc, eq_nat}
use odns_measurement_tools.Qmin.Query.{ScanCfg, Network, QueryResult, domain_assembly, dns_query}

pub record InputFileFormat : Type 0 where
  pub queried_ip : Text
  pub resolver_type : Text

pub record ParquetQueryResult : Type 0 where
  pub resolver_ip : Text
  pub resolver_type : Text
  pub requesting_ip : Text
  pub response : Text
  pub induction_ip : Text
  pub induced_res : Text
  pub induced_qmin_check : Bool
  pub mode_check : Bool
  pub nx_check : Bool
  pub nx_optimization : ℤ
  pub file_name : Text

-- The retry with the longer timeout, if the first query timed out.
abbrev pub retry : QueryResult → Option QueryResult → Option QueryResult
retry res again = if eq_nat 3 res.status then again else some res

-- What a routine sees of the world: the answers to its successive queries, and its random draws.
pub record World : Type 0 where
  pub network : ℕ → Network
  pub draw : ℕ → ℕ

module _ (cfg : ScanCfg) (timeout retry_timeout : ℕ) (resolver : InputFileFormat) where
  abbrev pub ask : World → ℕ → Text → ℕ → Option QueryResult
  ask w n domain limit = dns_query cfg (w.network n) domain resolver.queried_ip limit

  -- `dnsQueryRoutine`: the result that is put on the channel.
  unfoldable pub dns_query_routine : World → ℕ → Bool → Bool → Option QueryResult
  dns_query_routine w token_depth induction qmin_mode =
      let domain = λ (n : ℕ).
        domain_assembly cfg (w.draw n) resolver.queried_ip token_depth induction qmin_mode false in
      domain 0 >>= λ d. ask w 0 d timeout >>= λ first.
      retry first (domain 1 >>= λ e. ask w 1 e retry_timeout) >>= λ res. some (record res {
        resolver_type = resolver.resolver_type;
        qmin_mode = qmin_mode;
        induction = induction;
        nxcheck = false;
        nxopti = negsuc 0;
      })

  abbrev pub nx_result : QueryResult → QueryResult
  nx_result res = record res {
    qmin_mode = false;
    induction = false;
    nxcheck = true;
    resolver_type = resolver.resolver_type;
  }

  abbrev pub nx_second : QueryResult → QueryResult → QueryResult
  nx_second res res2 =
      if not (eq_nat 4 res2.status) && not (eq_nat 0 res2.status)
      then record res { nxopti = negsuc 0 }
      else if eq_nat 4 res2.status
      then record res2 { nxopti = pos 1 }
      else if bytes_eq res2.res (codes "false")
      then record res2 { nxopti = pos 0 }
      else res2

  -- `nxOptiRoutine`
  unfoldable pub nx_opti_routine : World → Option QueryResult
  nx_opti_routine w =
      domain_assembly cfg (w.draw 0) resolver.queried_ip 1 false false true >>= λ domain.
      ask w 0 (b'a' ∷ b'.' ∷ domain) timeout >>= λ first.
      retry first (ask w 1 (b'a' ∷ b'.' ∷ domain) retry_timeout) >>= λ res.
      if not (eq_nat 4 res.status)
      then some (record (nx_result res) { nxopti = negsuc 0 })
      else (ask w 2 (b'b' ∷ b'.' ∷ domain) timeout >>= λ second.
          retry second (ask w 3 (b'b' ∷ b'.' ∷ domain) retry_timeout) >>= λ res2.
          some (nx_second (nx_result res) (nx_result res2)))

  -- The four routines of a resolver in a round, each in its own world.
  unfoldable pub routines : (ℕ → World) → ℕ → Option (List QueryResult)
  unfolding dns_query_routine nx_opti_routine
  routines w token_depth = dns_query_routine (w 0) token_depth false false >>= λ plain.
      dns_query_routine (w 1) token_depth true false >>= λ induced.
      dns_query_routine (w 2) token_depth false true >>= λ mode.
      nx_opti_routine (w 3) >>= λ nx. some (plain ∷ induced ∷ mode ∷ nx ∷ [])

abbrev pub res_line : Text → QueryResult → ParquetQueryResult
res_line file_name v = record {
  resolver_ip = v.resolver_ip;
  resolver_type = v.resolver_type;
  requesting_ip = v.requesting_ip;
  response = v.res;
  induction_ip = v.induction_requester;
  induced_res = v.induction_pattern;
  induced_qmin_check = v.induction;
  mode_check = v.qmin_mode;
  nx_check = v.nxcheck;
  nx_optimization = v.nxopti;
  file_name = file_name;
}

abbrev pub lines : Text → List QueryResult → List ParquetQueryResult
lines file_name [] = []
lines file_name (v ∷ results) = res_line file_name v ∷ lines file_name results

-- A row of the input that lacks a value is passed over.
abbrev pub is_skipped : InputFileFormat → Bool
is_skipped res = bytes_eq res.queried_ip [] || bytes_eq res.resolver_type []

module _ (cfg : ScanCfg) (timeout retry_timeout token_depth : ℕ) (file_name : Text) where
  -- One round: the lines that are written, those of a resolver together. The scheduler may put them
  -- in any other order.
  unfoldable pub round :
      (ℕ → ℕ → World) → ℕ → List InputFileFormat → Option (List ParquetQueryResult)
  unfolding routines
  round w n [] = some []
  round w n (res ∷ resolvers) =
      let rest = round w (n + 1) resolvers in
      if is_skipped res
      then rest
      else (routines cfg timeout retry_timeout res (w n) token_depth >>= λ results.
          rest >>= λ more. some (lines file_name results ++ more))

  -- `scanResolvers`
  unfoldable pub scan_resolvers :
      ℕ → (ℕ → ℕ → ℕ → World) → List InputFileFormat → Option (List ParquetQueryResult)
  unfolding round
  scan_resolvers zero w resolvers = some []
  scan_resolvers (suc rounds) w resolvers = scan_resolvers rounds w resolvers >>= λ before.
      round (w rounds) 0 resolvers >>= λ more. some (before ++ more)
