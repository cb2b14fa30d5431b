-- ===== src/Rate/Pool.antt =====
-- The subroutines that a round starts and those that are done (src/ratelimit/ratelimit.go).
use odns_measurement_tools.Base.{
  ℕ, zero, suc, ◌+◌, ◌≤◌, ◌<◌, ◌≡◌, ◌≢◌, refl, ap, arith, Bool, false, ◌||◌, Option, none, some,
  List, [], ◌∷◌, ◌++◌, length, map, ◌==◌, if◌then◌else◌, All, Distinct, All-imp, Bool-cases, inl,
  inr, length-append,
}
use mathlib.Core.List.{append_assoc, append-nil}
use odns_measurement_tools.Rate.Rounds.{intarr_contains, launched, AreNew, subids}

intarr_contains-append :
    (pool : List ℕ) (s x : ℕ)
    → intarr_contains (pool ++ s ∷ []) x ≡ (intarr_contains pool x || s == x)
intarr_contains-append [] s x = ground arith
intarr_contains-append (c ∷ pool) s x = ground (arith, intarr_contains-append pool s x)

-- A subroutine that a round may start: it is not done.
abbrev pub IsOpen : List ℕ → ℕ → ℕ → Type 0
IsOpen pool n x = (intarr_contains pool x ≡ false) × (x < n)

weaken : (pool : List ℕ) (n i x : ℕ) → (i + 1 ≤ x) × IsOpen pool n x → (i ≤ x) × IsOpen pool n x
weaken pool n i x p = (omega (arith, p.0), p.1)

differs : (pool : List ℕ) (n i x : ℕ) → (i + 1 ≤ x) × IsOpen pool n x → x ≢ i
differs pool n i x p same = absurd (omega (arith, p.0))

pub launched-IsOpen :
    (pool : List ℕ) (i k n : ℕ)
    → i + k ≤ n
    → All (λ x. (i ≤ x) × IsOpen pool n x) (launched pool i k) × Distinct (launched pool i k)
unfolding launched
launched-IsOpen pool i zero n h = (tt, tt)
launched-IsOpen pool i (suc k) n h =
    let (later, distinct) = launched-IsOpen pool (i + 1) k n (omega arith) in
    let lower = All-imp (launched pool (i + 1) k) (weaken pool n i) later in
    elim (Bool-cases (intarr_contains pool i)) [
      | inl started ↦ rw started (lower, distinct)
      | inr fresh ↦ rw fresh (
        ((omega arith, (fresh, omega arith)), lower),
        (All-imp (launched pool (i + 1) k) (differs pool n i) later, distinct),
      )
    ]

-- A subroutine that is done is not started any more, and all others are.
launched-append :
    (pool : List ℕ) (i k s : ℕ)
    → intarr_contains pool s ≡ false
    → ((i ≤ s)
        → s < i + k
        → length (launched (pool ++ s ∷ []) i k) + 1 ≡ length (launched pool i k))
      × ((s < i) → length (launched (pool ++ s ∷ []) i k) ≡ length (launched pool i k))
unfolding launched
launched-append pool i zero s fresh = ((λ h h'. absurd (omega arith)), (λ h. refl))
launched-append pool i (suc k) s fresh =
    ground (arith, launched-append pool (i + 1) k s fresh, intarr_contains-append pool s i)

launched-all : (i k : ℕ) → length (launched [] i k) ≡ k
unfolding launched
launched-all i zero = refl
launched-all i (suc k) = ap suc (launched-all (i + 1) k)

abbrev pub return_of : (ℕ → Bool) → ℕ → Option ℕ
return_of done x = if done x then some x else none

module _ (n : ℕ) where
  -- All subroutines are done or are started by the next round.
  abbrev pub IsWhole : List ℕ → Type 0
  IsWhole pool = length (launched pool 0 n) + length pool ≡ n

  pub fresh_IsWhole : IsWhole []
  fresh_IsWhole = omega (arith, launched-all 0 n)

  module _ (done : ℕ → Bool) where
    still-IsOpen :
        (pool : List ℕ) (s : ℕ) (xs : List ℕ)
        → All (λ x. x ≢ s) xs
        → All (IsOpen pool n) xs
        → All (IsOpen (pool ++ s ∷ []) n) xs
    still-IsOpen pool s [] h k = tt
    still-IsOpen pool s (x ∷ xs) (ne, h) ((fresh, small), k) =
        ((ground (arith, intarr_contains-append pool s x), small), still-IsOpen pool s xs h k)

    grown : (pool : List ℕ) (x : ℕ) → IsOpen pool n x → IsWhole pool → IsWhole (pool ++ x ∷ [])
    grown pool x (fresh, small) whole =
        let fewer = (launched-append pool 0 n x fresh).0 (omega arith) (omega arith) in
        omega (arith, fewer, length-append pool (x ∷ []))

    -- The returns of a round count each subroutine once, and leave all done or open.
    pub returns-IsWhole :
        (pool xs : List ℕ)
        → Distinct xs
        → All (IsOpen pool n) xs
        → IsWhole pool
        → AreNew pool (map (return_of done) xs) × IsWhole (pool ++ subids (map (return_of done) xs))
    returns-IsWhole pool [] h k whole = (tt, rw (append-nil pool) whole)
    returns-IsWhole pool (x ∷ xs) (ne, h) ((fresh, small), k) whole = elim (Bool-cases (done x)) [
      | inr going_on ↦ rw going_on (returns-IsWhole pool xs h k whole)
      | inl finished ↦ rw finished (
          let (new, all) =
            returns-IsWhole (pool ++ x ∷ []) xs h (still-IsOpen pool x xs ne k)
              (grown pool x (fresh, small) whole) in
          ((fresh, new), rw (append_assoc pool (x ∷ []) (subids (map (return_of done) xs))) at all))
    ]
