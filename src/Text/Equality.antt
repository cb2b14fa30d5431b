-- ===== src/Text/Equality.antt =====
-- Comparison of strings, and of strings that are made of others.
use odns_measurement_tools.Base.{
  ℕ, ◌+◌, ◌-◌, ◌≡◌, refl, sym, ap, suc, ◌∙◌, arith, true, false, [], ◌∷◌, ◌++◌, length, drop,
  length-append,
}
use mathlib.Core.List.{append-nil}
use odns_measurement_tools.Net.{bytes_eq}
use odns_measurement_tools.Text.Defs.{Text, has_prefix, has_suffix, contains, take}

pub bytes_eq-append : (p a b : Text) → bytes_eq (p ++ a) (p ++ b) ≡ bytes_eq a b
bytes_eq-append [] a b = refl
bytes_eq-append (x ∷ p) a b = ground (arith, bytes_eq-append p a b)

pub bytes_eq_sound : (a b : Text) → bytes_eq a b ≡ true → a ≡ b
bytes_eq_sound [] [] h = refl
bytes_eq_sound [] (y ∷ b) h = cc
bytes_eq_sound (x ∷ a) [] h = cc
bytes_eq_sound (x ∷ a) (y ∷ b) h =
    let first : x ≡ y = ground arith in let more : a ≡ b = bytes_eq_sound a b (ground arith) in cc

pub bytes_eq_self : (a : Text) → bytes_eq a a ≡ true
bytes_eq_self [] = refl
bytes_eq_self (x ∷ a) = ground (arith, bytes_eq_self a)

pub bytes_eq-longer : (a : Text) (x : ℕ) (b : Text) → bytes_eq a (a ++ x ∷ b) ≡ false
bytes_eq-longer [] x b = refl
bytes_eq-longer (y ∷ a) x b = ground (arith, bytes_eq-longer a x b)

pub drop-append : (p s : Text) → drop (length p) (p ++ s) ≡ s
drop-append [] s = refl
drop-append (c ∷ p) s = drop-append p s

pub take-append : (p s : Text) → take (length p) (p ++ s) ≡ p
take-append [] s = refl
take-append (c ∷ p) s = ap (λ t. c ∷ t) (take-append p s)

pub has_prefix-append : (p s : Text) → has_prefix (p ++ s) p ≡ true
has_prefix-append [] s = refl
has_prefix-append (c ∷ p) s = ground (arith, has_prefix-append p s)

pub contains-append : (p s t : Text) → contains (p ++ s ++ t) s ≡ true
unfolding contains
contains-append [] [] [] = refl
contains-append [] [] (d ∷ t) = refl
contains-append [] (c ∷ s) t = ground (arith, has_prefix-append (c ∷ s) t)
contains-append (c ∷ p) s t = ground (arith, contains-append p s t)

pub contains-suffix : (p s : Text) → contains (p ++ s) s ≡ true
contains-suffix p s = ap (λ t. contains t s) (sym (append-nil (p ++ s))) ∙ contains-append p s []

sub_lem : (a b : ℕ) → a + suc b - b - 1 ≡ a
sub_lem a b = omega arith

-- What stands before a separator and a text of known length.
pub take-before : (p s : Text) (c : ℕ) → take (length (p ++ c ∷ s) - length s - 1) (p ++ c ∷ s) ≡ p
take-before p s c =
    ap (λ n. take (n - length s - 1) (p ++ c ∷ s)) (length-append p (c ∷ s))
    ∙ ap (λ n. take n (p ++ c ∷ s)) (sub_lem (length p) (length s))
    ∙ take-append p (c ∷ s)

add_sub : (a b : ℕ) → a + b - b ≡ a
add_sub a b = omega arith

pub has_suffix-append : (p s : Text) → has_suffix (p ++ s) s ≡ true
unfolding has_suffix
has_suffix-append p s = ground (
  arith,
  length-append p s,
  ap (λ n. drop n (p ++ s)) (add_sub (length p) (length s)),
  drop-append p s,
  bytes_eq_self s,
)
