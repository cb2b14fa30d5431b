-- ===== src/Rate/Target.antt =====
-- The test of a resolver, round after round, each at a rate of the curve (src/ratelimit/ratelimit.go,
-- rate_test_target and the returns of rate_test_target_sub).
use odns_measurement_tools.Base.{
  ◌>>=◌, ℕ, zero, suc, ◌+◌, Bool, true, false, Option, none, some, List, [], ◌∷◌, ◌++◌, length, map,
  get_elem?, ltb, ◌==◌, if◌then◌else◌,
}
use odns_measurement_tools.Rate.State.{RatePair, RateData}
use odns_measurement_tools.Rate.Rounds.{launched, collect}

-- The sums over the subroutines of a round, by numbers of packets; the target and the duration are
-- those of the first subroutine that has a pair.
pub record Accumulated : Type 0 where
  pub target : Option (ℕ × ℕ)
  pub received : ℕ
  pub sent : ℕ

abbrev pub no_rate : Accumulated
no_rate = record { target = none; received = 0; sent = 0 }

abbrev pub or_first : Option (ℕ × ℕ) → RatePair → Option (ℕ × ℕ)
or_first none pair = some (pair.target_tx_rate, pair.duration)
or_first (some t) pair = some t

abbrev pub add_pair : Option RatePair → Accumulated → Accumulated
add_pair none acc = acc
add_pair (some pair) acc = record {
  target = or_first acc.target pair;
  received = acc.received + pair.received;
  sent = acc.sent + pair.sent;
}

-- The loop over the data of the subroutines.
unfoldable pub accumulate : ℕ → List RateData → Accumulated → Accumulated
accumulate rate_pos [] acc = acc
accumulate rate_pos (d ∷ rate_data) acc =
    accumulate rate_pos rate_data (add_pair (get_elem? d.rate_curve_pair rate_pos) acc)

-- What a test has found: the subroutines that are done, the position on the curve, the sums of the
-- rounds and those of the best round.
pub record Test : Type 0 where
  pub pool : List ℕ
  pub rate_pos : ℕ
  pub acc_rate_data : List Accumulated
  pub acc_max_rate : Accumulated

abbrev pub fresh_test : Test
fresh_test = record { pool = []; rate_pos = 0; acc_rate_data = []; acc_max_rate = no_rate }

-- How a test goes: whether a subroutine receives too little at a position of the curve, the order in
-- which the subroutines of a round return, and their data after the round.
pub record Course : Type 0 where
  pub too_small : ℕ → ℕ → Bool
  pub arrivals : ℕ → List ℕ → List ℕ
  pub data_after : ℕ → List RateData

module _ (ignore_threshold : Bool) (curve_length : ℕ) (course : Course) where
  -- Whether a subroutine returns its number, or else -1.
  abbrev pub is_done : ℕ → ℕ → Bool
  is_done rate_pos subid =
      if rate_pos + 1 == curve_length
      then true
      else if ignore_threshold
      then false
      else course.too_small rate_pos subid

  abbrev pub sub_return : ℕ → ℕ → Option ℕ
  sub_return rate_pos subid = if is_done rate_pos subid then some subid else none

  module _ (length_n : ℕ) where
    -- The returns of a round in the order of their arrival.
    abbrev pub returns : ℕ → List ℕ → List (Option ℕ)
    returns rate_pos pool =
        map (sub_return rate_pos) (course.arrivals rate_pos (launched pool 0 length_n))

    -- The sums behind a round.
    abbrev pub with_round : List ℕ → Test → Test
    with_round pool t =
        let sums = accumulate t.rate_pos (course.data_after t.rate_pos) no_rate in
        record t {
          pool = pool;
          acc_rate_data = t.acc_rate_data ++ sums ∷ [];
          acc_max_rate = if ltb t.acc_max_rate.received sums.received then sums else t.acc_max_rate;
        }

    -- `rate_test_target`: the result is `none` where a round waits for ever, where the position leaves
    -- the curve, and without fuel.
    unfoldable pub rate_test_target : ℕ → Test → Option Test
    unfolding collect launched accumulate
    rate_test_target zero t = none
    rate_test_target (suc fuel) t =
        if ltb t.rate_pos curve_length
        then (collect length_n (returns t.rate_pos t.pool) (t.pool, 0) >>= λ waited.
            let done = with_round waited.0 t in
            let rest = rate_test_target fuel (record done { rate_pos = t.rate_pos + 1 }) in
            if length waited.0 == length_n then some done else rest)
        else none
