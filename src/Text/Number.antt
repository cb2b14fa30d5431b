-- ===== src/Text/Number.antt =====
-- Decimal numbers: `strconv.Itoa`, `strconv.ParseInt(…, 10, 64)` and `strconv.Atoi`.
use odns_measurement_tools.Base.{
  ℕ, zero, suc, ◌+◌, ◌-◌, ◌*◌, ◌/◌, ◌%◌, ◌≤◌, ◌<◌, ◌≡◌, refl, ap, arith, Bool, true, false, ◌||◌,
  Option, none, some, [], ◌∷◌, ◌++◌, length, ltb, ◌==◌, if◌then◌else◌, All, All-append, Bool-cases,
  inl, inr, sym,
}
use mathlib.Core.Path.{subst}
use odns_measurement_tools.Text.Defs.{Text, Lacks}

-- An int: `pos n` is n, `negsuc n` is -(n + 1).
pub data ℤ : Type 0 where
  pos : ℕ → ℤ
  negsuc : ℕ → ℤ

-- Adding a natural number.
infixl 60 ◌+ℤ◌
abbrev pub ◌+ℤ◌ : ℤ → ℕ → ℤ
pos m +ℤ n = pos (m + n)
negsuc m +ℤ n = if ltb m n then pos (n - (m + 1)) else negsuc (m - n)

-- `z == n`
abbrev pub eq_nat : ℕ → ℤ → Bool
eq_nat n (pos m) = m == n
eq_nat n (negsuc m) = false

-- `z - 1`
abbrev pub pred : ℤ → ℤ
pred (pos zero) = negsuc 0
pred (pos (suc n)) = pos n
pred (negsuc n) = negsuc (n + 1)

-- The number of rounds of a loop that counts down to 1.
abbrev pub rounds_of : ℤ → ℕ
rounds_of (pos n) = n
rounds_of (negsuc n) = 0

digits : ℕ → ℕ → Text
digits zero n = []
digits (suc fuel) n =
    let rest = digits fuel (n / 10) in
    if ltb n 10 then (b'0' + n) ∷ [] else rest ++ (b'0' + n % 10) ∷ []

-- There are at most as many digits as the number and one.
unfoldable pub itoa : ℕ → Text
unfolding digits
itoa n = digits (suc n) n

unfoldable pub itoa_int : ℤ → Text
unfolding itoa
itoa_int (pos n) = itoa n
itoa_int (negsuc n) = b'-' ∷ itoa (n + 1)

abbrev pub max_int : ℕ
max_int = 9223372036854775807

abbrev max_uint : ℕ
max_uint = 18446744073709551615

-- What ParseUint finds: a number, a text that is none, or a number that is too large.
pub data Parsed : Type 0 where
  number : ℕ → Parsed
  syntax range : Parsed

scan : Text → ℕ → Parsed
scan [] n = number n
scan (c ∷ s) n =
    let m = n * 10 + (c - b'0') in
    if ltb c b'0' || ltb b'9' c then syntax else if ltb max_uint m then range else scan s m

parse_uint : Text → Parsed
unfolding scan
parse_uint [] = syntax
parse_uint (c ∷ s) = scan (c ∷ s) 0

-- The result of ParseInt: the value that is returned, and whether there is no error.
pub record ParseInt : Type 0 where
  pub value : ℤ
  pub ok : Bool

positive : Parsed → ParseInt
positive (number n) =
    if ltb max_int n
    then record { value = pos max_int; ok = false }
    else record { value = pos n; ok = true }
positive syntax = record { value = pos 0; ok = false }
positive range = record { value = pos max_int; ok = false }

negative : Parsed → ParseInt
negative (number zero) = record { value = pos 0; ok = true }
negative (number (suc n)) =
    if ltb max_int n
    then record { value = negsuc max_int; ok = false }
    else record { value = negsuc n; ok = true }
negative syntax = record { value = pos 0; ok = false }
negative range = record { value = negsuc max_int; ok = false }

unfoldable pub parse_int : Text → ParseInt
unfolding parse_uint positive negative
parse_int [] = record { value = pos 0; ok = false }
parse_int (c ∷ s) =
    if c == b'-'
    then negative (parse_uint s)
    else if c == b'+'
    then positive (parse_uint s)
    else positive (parse_uint (c ∷ s))

unfoldable pub atoi : Text → Option ℤ
unfolding parse_int
atoi s = let r = parse_int s in if r.ok then some r.value else none

itoa_small : itoa 1024 ≡ b'1' ∷ b'0' ∷ b'2' ∷ b'4' ∷ []
unfolding itoa digits
itoa_small = refl

-- Appending a digit behind a number that was read.
scan-append : (s t : Text) (n m : ℕ) → scan s n ≡ number m → scan (s ++ t) n ≡ scan t m
unfolding scan
scan-append [] t n m h = ap (scan t) (number_injective h)
  where
    number_injective : {a b : ℕ} → number a ≡ number b → a ≡ b
    number_injective e = cc
scan-append (c ∷ s) t n m h = ground (arith, scan-append s t (n * 10 + (c - b'0')) m)

scan-digits : (fuel n : ℕ) → n < fuel → n ≤ max_uint → scan (digits fuel n) 0 ≡ number n
unfolding scan digits
scan-digits zero n h fits = absurd (omega arith)
scan-digits (suc fuel) n h fits = ground (
  arith,
  scan-digits fuel (n / 10),
  scan-append (digits fuel (n / 10)) ((b'0' + n % 10) ∷ []) 0 (n / 10),
)

abbrev pub IsDigit : ℕ → Type 0
IsDigit c = (b'0' ≤ c) × (c ≤ b'9')

digits-All : (fuel n : ℕ) → All IsDigit (digits fuel n)
unfolding digits
digits-All zero n = tt
digits-All (suc fuel) n = elim (Bool-cases (ltb n 10)) [
  | inl small ↦ rw small (ground arith, tt)
  | inr large ↦ rw large (
      All-append IsDigit (digits fuel (n / 10)) _ (digits-All fuel (n / 10))
        ((omega arith, omega arith), tt))
]

pub itoa-All : (n : ℕ) → All IsDigit (itoa n)
unfolding itoa
itoa-All n = digits-All (suc n) n

pub All-Lacks : (b : ℕ) (s : Text) → (IsDigit b → ⊥) → All IsDigit s → Lacks b s
All-Lacks b [] out h = tt
All-Lacks b (c ∷ s) out (d, h) = ((λ e. out (subst IsDigit e d)), All-Lacks b s out h)

abbrev Cons : Text → Type 0
Cons t = (c : ℕ) × (s : Text) × (t ≡ c ∷ s)

snoc-Cons : (s : Text) (c : ℕ) → Cons (s ++ c ∷ [])
snoc-Cons [] c = (c, [], refl)
snoc-Cons (d ∷ s) c = (d, s ++ c ∷ [], refl)

-- A number is not written as the empty text.
itoa-Cons : (n : ℕ) → Cons (itoa n)
unfolding itoa digits
itoa-Cons n = elim (Bool-cases (ltb n 10)) [
  | inl small ↦ rw small (b'0' + n, [], refl)
  | inr large ↦ rw large (snoc-Cons (digits n (n / 10)) (b'0' + n % 10))
]

parse_digits :
    (c : ℕ) (s : Text) (n : ℕ)
    → IsDigit c
    → n ≤ max_int
    → scan (c ∷ s) 0 ≡ number n
    → parse_int (c ∷ s) ≡ record { value = pos n; ok = true }
unfolding parse_int parse_uint positive
parse_digits c s n d fits h = ground arith

-- Every int that is not negative is read back from its print.
pub parse_int-itoa :
    (n : ℕ) → n ≤ max_int → parse_int (itoa n) ≡ record { value = pos n; ok = true }
unfolding itoa
parse_int-itoa n fits =
    let (c, s, e) = itoa-Cons n in
    let d = subst (All IsDigit) e (itoa-All n) in
    let scanned : scan (c ∷ s) 0 ≡ number n =
      subst (λ t. scan t 0 ≡ number n) e (scan-digits (suc n) n (omega arith) (omega arith)) in
    subst (λ t. parse_int t ≡ record { value = pos n; ok = true }) (sym e)
      (parse_digits c s n d.0 fits scanned)

pub itoa_nonempty : (n : ℕ) → 0 < length (itoa n)
itoa_nonempty n = let (c, s, e) = itoa-Cons n in subst (λ t. 0 < length t) (sym e) (ground arith)
