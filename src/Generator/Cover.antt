-- ===== src/Generator/Cover.antt =====
-- Lists of different numbers below a bound, up to order.
use odns_measurement_tools.Base.{
  ℕ, zero, suc, ◌≤◌, ◌<◌, ◌≡◌, ◌≢◌, ◌⊎◌, inl, inr, refl, ap, arith, List, [], ◌∷◌, length, map, All,
  All-Permᴰ, Permᴰ-reflexive, Distinct, Bool-cases, ◌==◌, ==_iff,
}
use mathlib.Core.List.{Permᴰ}

-- The numbers below n.
abbrev pub range : ℕ → List ℕ
range zero = []
range (suc n) = n ∷ range n

module _ {ℓ ℓ'} {A : Type ℓ} {B : Type ℓ'} (f : A → B) where
  pub Permᴰ-map : {xs ys : List A} → Permᴰ xs ys → Permᴰ (map f xs) (map f ys)
  Permᴰ-map Permᴰ.nil = Permᴰ.nil
  Permᴰ-map (Permᴰ.cons e p) = Permᴰ.cons (ap f e) (Permᴰ-map p)
  Permᴰ-map (Permᴰ.swap e e') = Permᴰ.swap (ap f e) (ap f e')
  Permᴰ-map (Permᴰ.trans p q) = Permᴰ.trans (Permᴰ-map p) (Permᴰ-map q)

-- A list of different numbers up to n either avoids n or has it once.
record Split (n : ℕ) (xs : List ℕ) : Type 0 where
  rest : List ℕ
  perm : Permᴰ xs (n ∷ rest)
  distinct : Distinct rest
  below : All (λ x. x < n) rest
  shorter : length xs ≡ suc (length rest)

take_out :
    (n : ℕ) (xs : List ℕ) → Distinct xs → All (λ x. x < suc n) xs → All (λ x. x < n) xs ⊎ Split n xs
take_out n [] d h = inl tt
take_out n (x ∷ xs) (fresh, d) (lt, h) = elim (take_out n xs d h) [
  | inl below ↦ elim (Bool-cases (x == n)) [
    | inl same ↦ inr (record {
      rest = xs;
      perm = Permᴰ.cons ((==_iff x n).0 same) (Permᴰ-reflexive xs);
      distinct = d;
      below = below;
      shorter = refl;
    })
    | inr other ↦ inl (ground arith, below)
  ]
  | inr s ↦
      let (apart, fresh') = All-Permᴰ (λ y. y ≢ x) s.perm fresh in
      inr (record {
        rest = x ∷ s.rest;
        perm = Permᴰ.trans (Permᴰ.cons refl s.perm) (Permᴰ.swap refl refl);
        distinct = (fresh', s.distinct);
        below = (omega (arith, apart), s.below);
        shorter = ap suc s.shorter;
      })
]

at_most : (n : ℕ) (xs : List ℕ) → Distinct xs → All (λ x. x < n) xs → length xs ≤ n
at_most zero [] d h = omega arith
at_most zero (x ∷ xs) d (lt, h) = absurd (omega arith)
at_most (suc n) xs d h = elim (take_out n xs d h) [
  | inl below ↦ omega (arith, at_most n xs d below)
  | inr s ↦ omega (arith, s.shorter, at_most n s.rest s.distinct s.below)
]

pub covers :
    (n : ℕ) (xs : List ℕ) → Distinct xs → All (λ x. x < n) xs → length xs ≡ n → Permᴰ xs (range n)
covers zero [] d h e = Permᴰ.nil
covers zero (x ∷ xs) d (lt, h) e = absurd (omega arith)
covers (suc n) xs d h e = elim (take_out n xs d h) [
  | inl below ↦ absurd (omega (arith, at_most n xs d below))
  | inr s ↦
      Permᴰ.trans s.perm
        (Permᴰ.cons refl (covers n s.rest s.distinct s.below (omega (arith, s.shorter))))
]
