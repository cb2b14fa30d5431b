-- ===== src/Text/Parts.antt =====
-- Splitting and joining.
use odns_measurement_tools.Base.{
  ℕ, ◌+◌, ◌≡◌, ◌≢◌, refl, ap, ◌∙◌, arith, true, false, List, [], ◌∷◌, ◌++◌, All,
}
use odns_measurement_tools.Text.Defs.{Text, has, count, split, join, Lacks}

module _ (sep : ℕ) where
  pub split-one : (p : Text) → Lacks sep p → split sep p ≡ p ∷ []
  unfolding split
  split-one [] h = refl
  split-one (c ∷ p) h = ground (arith, split-one p h.1)

  pub split-first : (p s : Text) → Lacks sep p → split sep (p ++ sep ∷ s) ≡ p ∷ split sep s
  unfolding split
  split-first [] s h = ground arith
  split-first (c ∷ p) s h = ground (arith, split-first p s h.1)

  pub split-join : (ps : List Text) → ps ≢ [] → All (Lacks sep) ps → split sep (join sep ps) ≡ ps
  split-join [] h lacks = absurd (h refl)
  split-join (p ∷ []) h lacks = split-one p lacks.0
  split-join (p ∷ q ∷ ps) h lacks =
      split-first p (join sep (q ∷ ps)) lacks.0
      ∙ ap (λ t. p ∷ t) (split-join (q ∷ ps) (λ e. cc) lacks.1)

  pub Lacks-append : (p s : Text) → Lacks sep p → Lacks sep s → Lacks sep (p ++ s)
  Lacks-append [] s h k = k
  Lacks-append (c ∷ p) s (h, hs) k = (h, Lacks-append p s hs k)

  pub Lacks-has : (p : Text) → Lacks sep p → has sep p ≡ false
  Lacks-has [] h = refl
  Lacks-has (c ∷ p) h = ground (arith, Lacks-has p h.1)

  pub has-append : (p s : Text) → has sep (p ++ sep ∷ s) ≡ true
  has-append [] s = ground arith
  has-append (c ∷ p) s = ground (arith, has-append p s)

  pub Lacks-count : (p : Text) → Lacks sep p → count sep p ≡ 0
  Lacks-count [] h = refl
  Lacks-count (c ∷ p) h = ground (arith, Lacks-count p h.1)

  pub count-append : (p s : Text) → count sep (p ++ s) ≡ count sep p + count sep s
  count-append [] s = omega arith
  count-append (c ∷ p) s = ground (arith, count-append p s)

  pub has-Lacks : (p : Text) → has sep p ≡ false → Lacks sep p
  has-Lacks [] h = tt
  has-Lacks (c ∷ p) h = ((λ e. absurd (ground arith)), has-Lacks p (ground arith))
