-- ===== src/Qmin/Order.antt =====
-- The merged results of a resolver and the order of its rows
-- (src/postprocessing/qmin/postproc_scan_result.go, `combineResults`).
use odns_measurement_tools.Base.{ℕ, ◌+◌, ◌≡◌, refl, sym, ap, ◌∙◌, arith, List, [], ◌∷◌}
use odns_measurement_tools.Qmin.Result.{
  TriBool, nil, ScanResultResolver, merge_tri, combine_results,
}
use mathlib.Core.List.{Permᴰ}

-- The first row's results with those of the other rows merged in.
pub combine_all : ScanResultResolver → List ScanResultResolver → ScanResultResolver
combine_all r [] = r
combine_all r (s ∷ rows) = combine_all (combine_results r s) rows

-- What a resolver was observed to do.
pub record Observed : Type 0 where
  pub qmin_enabled : TriBool
  pub induction_qmin : TriBool
  pub nx_optimization : TriBool
  pub count : ℕ

abbrev pub observed : ScanResultResolver → Observed
observed r = record {
  qmin_enabled = r.qmin_enabled;
  induction_qmin = r.induction_qmin;
  nx_optimization = r.nx_optimization;
  count = r.count;
}

abbrev observe : Observed → ScanResultResolver → Observed
observe o r = record {
  qmin_enabled = merge_tri o.qmin_enabled r.qmin_enabled;
  induction_qmin = merge_tri o.induction_qmin r.induction_qmin;
  nx_optimization = merge_tri o.nx_optimization r.nx_optimization;
  count = o.count + 1;
}

abbrev observe_all : Observed → List ScanResultResolver → Observed
observe_all o [] = o
observe_all o (r ∷ rows) = observe_all (observe o r) rows

observed-combine_all :
    (r : ScanResultResolver) (rows : List ScanResultResolver)
    → observed (combine_all r rows) ≡ observe_all (observed r) rows
unfolding combine_all combine_results
observed-combine_all r [] = refl
observed-combine_all r (s ∷ rows) = observed-combine_all (combine_results r s) rows

merge_tri-swap : (a b c : TriBool) → merge_tri (merge_tri a b) c ≡ merge_tri (merge_tri a c) b
unfolding merge_tri
merge_tri-swap a b c = ground arith

observe-swap :
    (o : Observed) (r s : ScanResultResolver) → observe (observe o r) s ≡ observe (observe o s) r
observe-swap o r s = rw (
  merge_tri-swap o.qmin_enabled r.qmin_enabled s.qmin_enabled,
  merge_tri-swap o.induction_qmin r.induction_qmin s.induction_qmin,
  merge_tri-swap o.nx_optimization r.nx_optimization s.nx_optimization,
)

observe_all-perm :
    (o : Observed) {rows rows' : List ScanResultResolver}
    → Permᴰ rows rows'
    → observe_all o rows ≡ observe_all o rows'
observe_all-perm o Permᴰ.nil = refl
observe_all-perm o (Permᴰ.cons {a = a} {b = b} {l₂ = l} e p) =
    observe_all-perm (observe o a) p ∙ ap (λ x. observe_all (observe o x) l) e
observe_all-perm o (Permᴰ.swap {a = a} {b = b} {a' = a'} {l = l} e e') =
    ap (λ x. observe_all x l) (observe-swap o a b)
    ∙ ap (λ x. observe_all (observe (observe o x) a) l) e'
    ∙ ap (λ x. observe_all (observe (observe o a') x) l) e
observe_all-perm o (Permᴰ.trans p q) = observe_all-perm o p ∙ observe_all-perm o q

-- Two resolvers' rows that are permutations of each other, merged onto the same first row, give
-- the same values of the three observations and the same count.
pub combine_all-order :
    (r : ScanResultResolver) (rows rows' : List ScanResultResolver)
    → Permᴰ rows rows'
    → observed (combine_all r rows) ≡ observed (combine_all r rows')
combine_all-order r rows rows' p =
    observed-combine_all r rows
    ∙ observe_all-perm (observed r) p
    ∙ sym (observed-combine_all r rows')

-- The merge keeps a value that both sides agree on, and what was seen both ways is uncertain.
pub merge_tri-join :
    (a b c : TriBool)
    → (merge_tri nil a ≡ a)
      × (merge_tri a nil ≡ a)
      × (merge_tri a a ≡ a)
      × (merge_tri a b ≡ merge_tri b a)
      × (merge_tri (merge_tri a b) c ≡ merge_tri a (merge_tri b c))
unfolding merge_tri
merge_tri-join a b c = (ground arith, ground arith, ground arith, ground arith, ground arith)
