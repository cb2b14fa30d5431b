-- ===== src/Rate/Ramp.antt =====
-- From the configured curve to the end of a test (src/ratelimit/ratelimit.go, Start_ratetest and
-- rate_test_target).
use odns_measurement_tools.Base.{
  ℕ, suc, ◌+◌, ◌<◌, ◌≡◌, refl, sym, ap, ◌∙◌, arith, Bool, some, List, [], ◌∷◌, length,
  some_injective, bind_some,
}
use mathlib.Core.List.{Permᴰ}
use odns_measurement_tools.Text.Defs.{Text, split, cons_first}
use odns_measurement_tools.Text.Number.{ℤ, atoi}
use odns_measurement_tools.Rate.Start.{trim, rates, rate_curve}
use odns_measurement_tools.Rate.Target.{Test, Course, rate_test_target, fresh_test}
use odns_measurement_tools.Rate.Pool.{fresh_IsWhole}
use odns_measurement_tools.Rate.Ends.{test-ends}

cons_first_nonempty : (c : ℕ) (ps : List Text) → 0 < length (cons_first c ps)
cons_first_nonempty c [] = omega arith
cons_first_nonempty c (p ∷ ps) = omega arith

split_nonempty : (sep : ℕ) (s : Text) → 0 < length (split sep s)
unfolding split
split_nonempty sep [] = omega arith
split_nonempty sep (c ∷ s) = ground (arith, cons_first_nonempty c (split sep s))

length-rates :
    (values : List Text) {curve : List ℤ} → rates values ≡ some curve → length curve ≡ length values
unfolding rates
length-rates [] e = sym (ap (length {A = ℤ}) (some_injective e))
length-rates (value ∷ values) {curve} e =
    let (rate, read, e') = bind_some (atoi (trim b' ' value)) _ e in
    let (more, rest, e'') = bind_some (rates values) _ e' in
    sym (ap (length {A = ℤ}) (some_injective e'')) ∙ ap suc (length-rates values rest)

pub rate_curve_nonempty :
    (text : Text) {curve : List ℤ} → rate_curve text ≡ some curve → 0 < length curve
unfolding rate_curve
rate_curve_nonempty text e =
    omega (arith, length-rates (split b',' text) e, split_nonempty b',' text)

-- If the rate curve of the configuration can be read, a test has at least one subroutine and all
-- subroutines of a round return, in whatever order, then the test of a resolver ends: it makes no
-- more rounds than the curve has rates, reads no rate beyond the curve, waits for no return that does
-- not come, and at its end all subroutines are done and there are sums for each of its rounds.
pub rate_test_target-ends :
    (text : Text) (curve : List ℤ) (ignore_threshold : Bool) (length_n : ℕ) (course : Course)
    → rate_curve text ≡ some curve
    → 0 < length_n
    → ((rate_pos : ℕ) (subs : List ℕ) → Permᴰ subs (course.arrivals rate_pos subs))
    → (end : Test) × (rate_test_target ignore_threshold
          (length curve)
          course
          length_n
          (length curve)
          fresh_test
        ≡ some end)
      × (length end.pool ≡ length_n)
      × (end.rate_pos < length curve)
      × (length end.acc_rate_data ≡ end.rate_pos + 1)
rate_test_target-ends text curve ignore_threshold length_n course read h all_arrive =
    test-ends ignore_threshold (length curve) length_n course all_arrive (length curve) fresh_test
      (omega arith) (rate_curve_nonempty text read) (fresh_IsWhole length_n) (omega arith) refl
