-- ===== src/Qmin/Rounds.antt =====
-- The rows that the rounds of the QMIN scanner write (src/qmin/scanner/scanner.go).
use odns_measurement_tools.Base.{
  Ensures, bind-Ensures, any-Ensures, if-Ensures, ◌>>=◌, ℕ, zero, suc, ◌+◌, ◌≡◌, refl, ap, ◌∙◌,
  arith, Bool, true, false, not, Option, none, some, List, [], ◌∷◌, ◌++◌, map, if◌then◌else◌,
}
use mathlib.Core.Path.{subst}
use odns_measurement_tools.Text.Defs.{Text}
use odns_measurement_tools.Text.Number.{eq_nat, negsuc}
use odns_measurement_tools.Qmin.Query.{ScanCfg, QueryResult, domain_assembly}
use odns_measurement_tools.Qmin.Asked.{address_in, Names, dns_query-Names}
use odns_measurement_tools.Qmin.Routines.{
  InputFileFormat, ParquetQueryResult, World, retry, dns_query_routine, ask, nx_result, nx_second,
  nx_opti_routine, routines, lines, is_skipped, round, scan_resolvers,
}

-- The address and the type of the resolver that a row carries, and its marks for the induction, the
-- mode and the NXDOMAIN test.
abbrev pub Kind : Type 0
Kind = Text × Text × Bool × Bool × Bool

abbrev pub kind : ParquetQueryResult → Kind
kind row =
    (row.resolver_ip, row.resolver_type, row.induced_qmin_check, row.mode_check, row.nx_check)

abbrev result_kind : QueryResult → Kind
result_kind res = (res.resolver_ip, res.resolver_type, res.induction, res.qmin_mode, res.nxcheck)

abbrev pub four_tests : Text → Text → List Kind
four_tests address type =
    (address, type, false, false, false)
    ∷ (address, type, true, false, false)
    ∷ (address, type, false, true, false)
    ∷ (address, type, false, false, true)
    ∷ []

-- The kinds for one round over the resolvers.
abbrev pub expected : ScanCfg → List InputFileFormat → List Kind
expected cfg [] = []
expected cfg (res ∷ resolvers) =
    let rest = expected cfg resolvers in
    if is_skipped res
    then rest
    else four_tests (address_in cfg res.queried_ip) res.resolver_type ++ rest

abbrev pub times : ℕ → List Kind → List Kind
times zero kinds = []
times (suc n) kinds = times n kinds ++ kinds

module _ (cfg : ScanCfg) (timeout retry_timeout : ℕ) (resolver : InputFileFormat) where
  abbrev IsKind : Bool × Bool × Bool → QueryResult → Type 0
  IsKind marks res =
      result_kind res
      ≡ (address_in cfg resolver.queried_ip, resolver.resolver_type, marks.0, marks.1, marks.2)

  abbrev address : Text
  address = address_in cfg resolver.queried_ip

  asked :
      (w : World) (n : ℕ) (domain : Text) (limit : ℕ)
      → Ensures (Names address) (ask cfg timeout retry_timeout resolver w n domain limit)
  asked w n domain limit = dns_query-Names cfg (w.network n) domain resolver.queried_ip limit

  retry-Names :
      (first : QueryResult) (again : Option QueryResult)
      → Names address first
      → Ensures (Names address) again
      → Ensures (Names address) (retry first again)
  retry-Names first again h k = if-Ensures (Names address) (eq_nat 3 first.status) _ _ k h

  marked :
      (res : QueryResult)
      → Names address res
      → (induction mode : Bool)
      → IsKind
          (induction, mode, false)
          (record res {
            resolver_type = resolver.resolver_type;
            qmin_mode = mode;
            induction = induction;
            nxcheck = false;
            nxopti = negsuc 0;
          })
  marked res same induction mode =
      ap (λ a. (a, resolver.resolver_type, induction, mode, false)) same

  dns_query_routine-IsKind :
      (w : World) (depth : ℕ) (induction mode : Bool)
      → Ensures
          (IsKind (induction, mode, false))
          (dns_query_routine cfg timeout retry_timeout resolver w depth induction mode)
  unfolding dns_query_routine
  dns_query_routine-IsKind w depth induction mode =
      let ask = ask cfg timeout retry_timeout resolver w in
      let domain =
        λ (n : ℕ). domain_assembly cfg (w.draw n) resolver.queried_ip depth induction mode false in
      any-Ensures _ (domain 0) _ λ d.
        bind-Ensures _ (Names address) (ask 0 d timeout) _ (asked w 0 d timeout) λ first named.
          bind-Ensures _ (Names address) (retry first (domain 1 >>= λ e. ask 1 e retry_timeout)) _
            (retry-Names first _ named
              (any-Ensures (Names address) (domain 1) _ λ e. asked w 1 e retry_timeout))
            λ res same. marked res same induction mode

  nx_result-IsKind :
      (res : QueryResult)
      → Names address res
      → IsKind (false, false, true) (nx_result cfg timeout retry_timeout resolver res)
  nx_result-IsKind res same = ap (λ a. (a, resolver.resolver_type, false, false, true)) same

  nx_second-IsKind :
      (res res2 : QueryResult)
      → IsKind (false, false, true) res
      → IsKind (false, false, true) res2
      → IsKind (false, false, true) (nx_second cfg timeout retry_timeout resolver res res2)
  nx_second-IsKind res res2 h k = ground arith

  nx_opti_routine-IsKind :
      (w : World)
      → Ensures (IsKind (false, false, true)) (nx_opti_routine cfg timeout retry_timeout resolver w)
  unfolding nx_opti_routine
  nx_opti_routine-IsKind w =
      let ask = ask cfg timeout retry_timeout resolver w in
      let result = nx_result cfg timeout retry_timeout resolver in
      any-Ensures _ (domain_assembly cfg (w.draw 0) resolver.queried_ip 1 false false true) _
        λ domain.
          let a : Text = b'a' ∷ b'.' ∷ domain in
          let b : Text = b'b' ∷ b'.' ∷ domain in
          bind-Ensures _ (Names address) (ask 0 a timeout) _ (asked w 0 a timeout) λ first named.
            bind-Ensures _ (Names address) (retry first (ask 1 a retry_timeout)) _
              (retry-Names first _ named (asked w 1 a retry_timeout))
              λ res same. if-Ensures _ (not (eq_nat 4 res.status)) _ _ (nx_result-IsKind res same) (
                bind-Ensures _ (Names address) (ask 2 b timeout) _ (asked w 2 b timeout)
                  λ second named2.
                    bind-Ensures _ (Names address) (retry second (ask 3 b retry_timeout)) _
                      (retry-Names second _ named2 (asked w 3 b retry_timeout))
                      λ res2 same2.
                        nx_second-IsKind (result res) (result res2) (nx_result-IsKind res same)
                          (nx_result-IsKind res2 same2))

  four :
      {k1 k2 k3 k4 l1 l2 l3 l4 : Kind}
      → k1 ≡ l1
      → k2 ≡ l2
      → k3 ≡ l3
      → k4 ≡ l4
      → k1 ∷ k2 ∷ k3 ∷ k4 ∷ [] ≡ l1 ∷ l2 ∷ l3 ∷ l4 ∷ []
  four e1 e2 e3 e4 = cc

  routines-kind :
      (w : ℕ → World) (depth : ℕ)
      → Ensures
          (λ results. map result_kind results ≡ four_tests address resolver.resolver_type)
          (routines cfg timeout retry_timeout resolver w depth)
  unfolding routines
  routines-kind w depth =
      bind-Ensures _ (IsKind (false, false, false)) _ _
        (dns_query_routine-IsKind (w 0) depth false false)
        λ plain e1.
          bind-Ensures _ (IsKind (true, false, false)) _ _
            (dns_query_routine-IsKind (w 1) depth true false)
            λ induced e2.
              bind-Ensures _ (IsKind (false, true, false)) _ _
                (dns_query_routine-IsKind (w 2) depth false true)
                λ mode e3.
                  bind-Ensures _ (IsKind (false, false, true)) _ _ (nx_opti_routine-IsKind (w 3))
                    λ nx e4. four e1 e2 e3 e4

kind-lines :
    (file_name : Text) (results : List QueryResult)
    → map kind (lines file_name results) ≡ map result_kind results
kind-lines file_name [] = refl
kind-lines file_name (v ∷ results) = ap (λ ks. result_kind v ∷ ks) (kind-lines file_name results)

kind-append : (a b : List ParquetQueryResult) → map kind (a ++ b) ≡ map kind a ++ map kind b
kind-append [] b = refl
kind-append (x ∷ a) b = ap (λ ks. kind x ∷ ks) (kind-append a b)

module _ (cfg : ScanCfg) (timeout retry_timeout depth : ℕ) (file_name : Text) where
  abbrev Rows : List Kind → Option (List ParquetQueryResult) → Type 0
  Rows kinds = Ensures (λ rows. map kind rows ≡ kinds)

  append-Rows :
      (j k : List Kind) (a b : List ParquetQueryResult)
      → map kind a ≡ j
      → map kind b ≡ k
      → map kind (a ++ b) ≡ j ++ k
  append-Rows j k a b e f = kind-append a b ∙ ap (λ ks. ks ++ map kind b) e ∙ ap (λ ks. j ++ ks) f

  if-Rows :
      (b : Bool) (x y : Option (List ParquetQueryResult)) (j k : List Kind)
      → Rows j x
      → Rows k y
      → Rows (if b then j else k) (if b then x else y)
  if-Rows true x y j k h g = h
  if-Rows false x y j k h g = g

  tested-Rows :
      (j k : List Kind) (o : Option (List QueryResult)) (rest : Option (List ParquetQueryResult))
      → Ensures (λ results. map result_kind results ≡ j) o
      → Rows k rest
      → Rows (j ++ k) (o >>= λ results. rest >>= λ more. some (lines file_name results ++ more))
  tested-Rows j k none rest h g = tt
  tested-Rows j k (some results) none h g = tt
  tested-Rows j k (some results) (some more) h g =
      append-Rows j k (lines file_name results) more (kind-lines file_name results ∙ h) g

  pub rounds-Rows :
      (j k : List Kind) (o rest : Option (List ParquetQueryResult))
      → Rows j o
      → Rows k rest
      → Rows (j ++ k) (o >>= λ before. rest >>= λ more. some (before ++ more))
  rounds-Rows j k none rest h g = tt
  rounds-Rows j k (some before) none h g = tt
  rounds-Rows j k (some before) (some more) h g = append-Rows j k before more h g

  round-kind :
      (w : ℕ → ℕ → World) (n : ℕ) (resolvers : List InputFileFormat)
      → Rows
          (expected cfg resolvers)
          (round cfg timeout retry_timeout depth file_name w n resolvers)
  unfolding round
  round-kind w n [] = refl
  round-kind w n (res ∷ resolvers) =
      let rest = round cfg timeout retry_timeout depth file_name w (n + 1) resolvers in
      let ih = round-kind w (n + 1) resolvers in
      if-Rows (is_skipped res) rest _ (expected cfg resolvers) _ ih (
        tested-Rows (four_tests (address_in cfg res.queried_ip) res.resolver_type)
          (expected cfg resolvers) (routines cfg timeout retry_timeout res (w n) depth) rest
          (routines-kind cfg timeout retry_timeout res (w n) depth) ih)

  pub scan_resolvers-Rows :
      (rounds : ℕ) (w : ℕ → ℕ → ℕ → World) (resolvers : List InputFileFormat)
      → Rows
          (times rounds (expected cfg resolvers))
          (scan_resolvers cfg timeout retry_timeout depth file_name rounds w resolvers)
  unfolding scan_resolvers
  scan_resolvers-Rows zero w resolvers = refl
  scan_resolvers-Rows (suc rounds) w resolvers =
      rounds-Rows (times rounds (expected cfg resolvers)) (expected cfg resolvers)
        (scan_resolvers cfg timeout retry_timeout depth file_name rounds w resolvers)
        (round cfg timeout retry_timeout depth file_name (w rounds) 0 resolvers)
        (scan_resolvers-Rows rounds w resolvers) (round-kind (w rounds) 0 resolvers)

  -- If the rounds end, they have written for each resolver with an address and a type, in each
  -- round, four rows with its address and type: the plain test, the induction, the mode and the NXDOMAIN test.
  pub scan_resolvers-kinds :
      (rounds : ℕ) (w : ℕ → ℕ → ℕ → World) (resolvers : List InputFileFormat)
      (rows : List ParquetQueryResult)
      → scan_resolvers cfg timeout retry_timeout depth file_name rounds w resolvers ≡ some rows
      → map kind rows ≡ times rounds (expected cfg resolvers)
  scan_resolvers-kinds rounds w resolvers rows e =
      subst (Rows (times rounds (expected cfg resolvers))) e
        (scan_resolvers-Rows rounds w resolvers)
