-- ===== src/Rate/Ends.antt =====
-- How the test of a resolver ends (src/ratelimit/ratelimit.go, rate_test_target).
use odns_measurement_tools.Base.{
  ℕ, zero, suc, ◌+◌, ◌<◌, ◌≡◌, refl, ap, arith, Bool, true, false, Option, some, List, [], ◌∷◌,
  ◌++◌, length, map, lt→ltb, ◌==◌, Bool-cases, inl, inr, length-append, All-Permᴰ, Distinct-Permᴰ,
  length-Permᴰ, All-imp,
}
use mathlib.Core.List.{Permᴰ}
use odns_measurement_tools.Rate.Rounds.{launched, collect, subids, AreNew, collect-all}
use odns_measurement_tools.Rate.Target.{
  Test, Course, is_done, returns, with_round, rate_test_target, accumulate, no_rate,
}
use odns_measurement_tools.Rate.Pool.{IsWhole, return_of, launched-IsOpen, returns-IsWhole}

length-map : (f : ℕ → Option ℕ) (xs : List ℕ) → length (map f xs) ≡ length xs
length-map f [] = refl
length-map f (x ∷ xs) = ap suc (length-map f xs)

-- If all return their numbers.
subids-all :
    (done : ℕ → Bool) (xs : List ℕ)
    → ((x : ℕ) → done x ≡ true)
    → subids (map (return_of done) xs) ≡ xs
subids-all done [] all = refl
subids-all done (x ∷ xs) all = rw (all x) (ap (λ t. x ∷ t) (subids-all done xs all))

collect_returns :
    (n : ℕ) (done : ℕ → Bool) (pool xs : List ℕ)
    → AreNew pool (map (return_of done) xs)
    → length xs + length pool ≡ n
    → length pool < n
    → collect n (map (return_of done) xs) (pool, 0)
      ≡ some (pool ++ subids (map (return_of done) xs), [])
collect_returns n done pool [] new whole h = absurd (omega arith)
collect_returns n done pool (x ∷ xs) new whole h =
    collect-all n (return_of done x) (map (return_of done) xs) pool 0 new
      (omega (arith, length-map (return_of done) xs))

module _ (ignore_threshold : Bool) (curve_length length_n : ℕ) (course : Course)
    (all_arrive : (rate_pos : ℕ) (subs : List ℕ) → Permᴰ subs (course.arrivals rate_pos subs)) where
  -- What is known of the subroutines in the order in which they return.
  record Round (rate_pos : ℕ) (pool : List ℕ) : Type 0 where
    waited :
        collect length_n
          (returns ignore_threshold curve_length course length_n rate_pos pool)
          (pool, 0)
        ≡ some (
          pool ++ subids (returns ignore_threshold curve_length course length_n rate_pos pool),
          [],
        )
    whole :
        IsWhole length_n
          (pool ++ subids (returns ignore_threshold curve_length course length_n rate_pos pool))
    last :
        rate_pos + 1 ≡ curve_length
        → length
            (pool ++ subids (returns ignore_threshold curve_length course length_n rate_pos pool))
          ≡ length_n

  all_done :
      (rate_pos : ℕ)
      → rate_pos + 1 ≡ curve_length
      → (x : ℕ) → is_done ignore_threshold curve_length course rate_pos x ≡ true
  all_done rate_pos e x = ground arith

  round :
      (rate_pos : ℕ) (pool : List ℕ)
      → IsWhole length_n pool
      → length pool < length_n
      → Round rate_pos pool
  round rate_pos pool whole h =
      let subs = launched pool 0 length_n in
      let perm = all_arrive rate_pos subs in
      let (facts, distinct) = launched-IsOpen pool 0 length_n length_n (omega arith) in
      let xs = course.arrivals rate_pos subs in
      let done = is_done ignore_threshold curve_length course rate_pos in
      let (new, all) =
        returns-IsWhole length_n done pool xs (Distinct-Permᴰ perm distinct)
          (All-imp xs (λ x p. p.1) (All-Permᴰ _ perm facts)) whole in
      record {
        waited =
            collect_returns length_n done pool xs new (omega (arith, whole, length-Permᴰ perm)) h;
        whole = all;
        last = λ e. omega (
          arith,
          whole,
          length-Permᴰ perm,
          length-append pool (subids (map (return_of done) xs)),
          ap (length {A = ℕ}) (subids-all done xs (all_done rate_pos e)),
        );
      }

  goes_on :
      (fuel rate_pos done : ℕ)
      → rate_pos + suc fuel ≡ curve_length
      → (rate_pos + 1 ≡ curve_length → done ≡ length_n)
      → (done == length_n) ≡ false
      → 0 < fuel
  goes_on zero rate_pos done at last more =
      let all : done ≡ length_n = last (omega arith) in absurd (ground arith)
  goes_on (suc fuel) rate_pos done at last more = omega arith

  -- The test ends at the last position of the curve at the latest.
  pub test-ends :
      (fuel : ℕ) (t : Test)
      → t.rate_pos + fuel ≡ curve_length
      → 0 < fuel
      → IsWhole length_n t.pool
      → length t.pool < length_n
      → length t.acc_rate_data ≡ t.rate_pos
      → (end : Test) × (rate_test_target ignore_threshold curve_length course length_n fuel t
          ≡ some end)
        × (length end.pool ≡ length_n)
        × (end.rate_pos < curve_length)
        × (length end.acc_rate_data ≡ end.rate_pos + 1)
  unfolding rate_test_target
  test-ends zero t at h whole short counted = absurd (omega arith)
  test-ends (suc fuel) t at h whole short counted =
      let r = round t.rate_pos t.pool whole short in
      let pool =
        t.pool
        ++ subids (returns ignore_threshold curve_length course length_n t.rate_pos t.pool) in
      let done = with_round ignore_threshold curve_length course length_n pool t in
      let counted' =
        length-append t.acc_rate_data
          (accumulate t.rate_pos (course.data_after t.rate_pos) no_rate ∷ []) in
      rw (lt→ltb t.rate_pos curve_length (omega arith), r.waited)
        (elim (Bool-cases (length pool == length_n)) [
          | inl over ↦
              rw over (done, refl, ground arith, omega arith, omega (arith, counted, counted'))
          | inr more ↦ rw more (
              test-ends fuel (record done { rate_pos = t.rate_pos + 1 }) (omega arith)
                (goes_on fuel t.rate_pos (length pool) at r.last more) r.whole
                (ground (arith, r.whole)) (omega (arith, counted, counted')))
        ])
