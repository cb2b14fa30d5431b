-- ===== src/Rate/Rounds.antt =====
-- The rounds of a test (src/ratelimit/ratelimit.go, rate_test_target).
use odns_measurement_tools.Base.{
  ℕ, zero, suc, ◌+◌, ◌-◌, ◌≡◌, sym, ap, ◌∙◌, length-append, arith, Bool, true, false, Option, none,
  some, List, [], ◌∷◌, ◌++◌, length, ◌==◌, ◌||◌, if◌then◌else◌,
}
use mathlib.Core.List.{append_assoc, append-nil}

abbrev pub intarr_contains : List ℕ → ℕ → Bool
intarr_contains [] b = false
intarr_contains (c ∷ a) b = c == b || intarr_contains a b

-- The subroutines from i on that a round starts.
unfoldable pub launched : List ℕ → ℕ → ℕ → List ℕ
launched pool i zero = []
launched pool i (suc n) =
    let rest = launched pool (i + 1) n in if intarr_contains pool i then rest else i ∷ rest

-- A receive from the channel: -1 is `none`.
abbrev pub on_return : Option ℕ → List ℕ × ℕ → List ℕ × ℕ
on_return none (pool, count) = (pool, count + 1)
on_return (some subid) (pool, count) =
    (if intarr_contains pool subid then pool else pool ++ subid ∷ [], count)

-- The loop that waits for the returns of a round of `length_n` subroutines. The result is `none`
-- where it still waits after the last return; else the pool and the returns that it has not read.
unfoldable pub collect : ℕ → List (Option ℕ) → List ℕ × ℕ → Option (List ℕ × List (Option ℕ))
collect length_n [] s = none
collect length_n (r ∷ returns) s =
    let next = on_return r s in
    let rest = collect length_n returns next in
    if next.1 == length_n - length next.0 then some (next.0, returns) else rest

-- The subroutines that are done: those that return their number.
abbrev pub subids : List (Option ℕ) → List ℕ
subids [] = []
subids (none ∷ returns) = subids returns
subids (some s ∷ returns) = s ∷ subids returns

-- Each number is returned once, and by none that is done.
abbrev pub AreNew : List ℕ → List (Option ℕ) → Type 0
AreNew pool [] = Unit
AreNew pool (none ∷ returns) = AreNew pool returns
AreNew pool (some s ∷ returns) = (intarr_contains pool s ≡ false) × AreNew (pool ++ s ∷ []) returns

on_return-new :
    (s : ℕ) (pool : List ℕ) (count : ℕ)
    → intarr_contains pool s ≡ false
    → on_return (some s) (pool, count) ≡ (pool ++ s ∷ [], count)
on_return-new s pool count fresh = ap (λ b. (if b then pool else pool ++ s ∷ [], count)) fresh

stop : (count m n : ℕ) → count + 1 + m ≡ n → (count + 1 == n - m) ≡ true
stop count m n e = ground arith

stop_new :
    (count : ℕ) (pool : List ℕ) (s n : ℕ)
    → count + 1 + length pool ≡ n
    → (count == n - length (pool ++ s ∷ [])) ≡ true
stop_new count pool s n e = ground (arith, length-append pool (s ∷ []))

go_on : (count m k n : ℕ) → count + suc k + m ≡ n → (count == n - m) ≡ false
go_on count m k n e = ground arith

-- A round reads the returns of all subroutines that are not done, whatever their order, and then
-- ends; those that returned their number are done.
pub collect-all :
    (length_n : ℕ) (r : Option ℕ) (returns : List (Option ℕ)) (pool : List ℕ) (count : ℕ)
    → AreNew pool (r ∷ returns)
    → count + length (r ∷ returns) + length pool ≡ length_n
    → collect length_n (r ∷ returns) (pool, count) ≡ some (pool ++ subids (r ∷ returns), [])
unfolding collect
collect-all length_n none [] pool count new e =
    ap (λ b. if b then some (pool, []) else none) (stop count (length pool) length_n e)
    ∙ ap (λ p. some (p, [])) (sym (append-nil pool))
collect-all length_n (some s) [] pool count (fresh, new) e =
    ap (λ next. if next.1 == length_n - length next.0 then some (next.0, []) else none)
      (on_return-new s pool count fresh)
    ∙ ap (λ b. if b then some (pool ++ s ∷ [], []) else none) (stop_new count pool s length_n e)
collect-all length_n none (q ∷ returns) pool count new e =
    ap
      (λ b.
        if b then some (pool, q ∷ returns) else collect length_n (q ∷ returns) (pool, count + 1))
      (go_on (count + 1) (length pool) (length returns) length_n (omega arith))
    ∙ collect-all length_n q returns pool (count + 1) new (omega arith)
collect-all length_n (some s) (q ∷ returns) pool count (fresh, new) e =
    let longer = length-append pool (s ∷ []) in
    ap
      (λ next.
        if next.1 == length_n - length next.0
        then some (next.0, q ∷ returns)
        else collect length_n (q ∷ returns) next)
      (on_return-new s pool count fresh)
    ∙ ap
        (λ b.
          if b
          then some (pool ++ s ∷ [], q ∷ returns)
          else collect length_n (q ∷ returns) (pool ++ s ∷ [], count))
        (go_on count (length (pool ++ s ∷ [])) (length returns) length_n (grind (arith, longer)))
    ∙ collect-all length_n q returns (pool ++ s ∷ []) count new (grind (arith, longer))
    ∙ ap (λ p. some (p, [])) (append_assoc pool (s ∷ []) (subids (q ∷ returns)))
