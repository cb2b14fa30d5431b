-- ===== src/Rate/RampTests.antt =====
-- Tests of a resolver along a curve of rates, and injections, at concrete inputs.
use odns_measurement_tools.Base.{
  ℕ, ◌+◌, ◌<◌, ◌≡◌, refl, arith, true, false, none, some, List, [], ◌∷◌, length, ◌==◌,
  Permᴰ-reflexive,
}
use odns_measurement_tools.Net.{Ip}
use odns_measurement_tools.Text.Defs.{Text, codes, split}
use odns_measurement_tools.Text.Number.{pos, atoi, parse_int}
use odns_measurement_tools.Rate.Rounds.{collect, launched}
use odns_measurement_tools.Rate.State.{RateData}
use odns_measurement_tools.Rate.Target.{
  Accumulated, Test, Course, accumulate, rate_test_target, fresh_test,
}
use odns_measurement_tools.Rate.Start.{
  trim, rates, rate_curve, read_domain_list, query_domain, inject_cache,
}
use odns_measurement_tools.Rate.Injected.{inject_cache-queries}
use odns_measurement_tools.Rate.Ramp.{rate_test_target-ends}

abbrev curve : Text
curve = codes "50, 100,200 "

curve_reads : rate_curve curve ≡ some (pos 50 ∷ pos 100 ∷ pos 200 ∷ [])
unfolding rate_curve rates trim split atoi parse_int
curve_reads = refl

bad_curve : rate_curve (codes "50,,100") ≡ none
unfolding rate_curve rates trim split atoi parse_int
bad_curve = refl

abbrev received : ℕ → List RateData
received n =
    record {
      answer_data = [];
      rate_curve_pair =
          record { target_tx_rate = 50; duration = 2000; received = n; sent = 100 } ∷ [];
      moving_sent_packets = 0;
      first_response_ts = none;
    }
    ∷ []

-- Subroutine 1 receives too little in the second round.
abbrev course : Course
course = record {
  too_small = λ rate_pos subid. rate_pos == 1;
  arrivals = λ rate_pos subs. subs;
  data_after = λ rate_pos. received 90;
}

abbrev sums : Accumulated
sums = record { target = some (50, 2000); received = 90; sent = 100 }

abbrev no_sums : Accumulated
no_sums = record { target = none; received = 0; sent = 0 }

test_runs :
    rate_test_target false 3 course 2 3 fresh_test
    ≡ some (record {
      pool = 0 ∷ 1 ∷ [];
      rate_pos = 1;
      acc_rate_data = sums ∷ no_sums ∷ [];
      acc_max_rate = sums;
    })
unfolding rate_test_target collect launched accumulate
test_runs = refl

rate_test_target-ends_example :
    (end : Test) × (rate_test_target true 3 course 2 3 fresh_test ≡ some end)
    × (length end.pool ≡ 2)
    × (end.rate_pos < 3)
    × (length end.acc_rate_data ≡ end.rate_pos + 1)
rate_test_target-ends_example =
    rate_test_target-ends curve (pos 50 ∷ pos 100 ∷ pos 200 ∷ []) true 2 course curve_reads
      (omega arith) (λ rate_pos subs. Permᴰ-reflexive subs)

domains_read :
    read_domain_list (pos 2) [] (codes "1,a.org" ∷ [] ∷ codes "2,b.org" ∷ codes "3,c.org" ∷ [])
    ≡ some (codes "a.org" ∷ codes "b.org" ∷ [])
unfolding read_domain_list split
domains_read = refl

domain_without_comma : read_domain_list (pos 0) [] (codes "a.org" ∷ []) ≡ none
unfolding read_domain_list split
domain_without_comma = refl

hashed :
    query_domain (codes "hash") (codes "b.org") [] (codes "0a1b2c3d") 0
    ≡ some (codes "0a1b2c3d.b.org")
unfolding query_domain
hashed = refl

abbrev forwarders : List Ip
forwarders = (192 ∷ 0 ∷ 2 ∷ 1 ∷ []) ∷ (192 ∷ 0 ∷ 2 ∷ 2 ∷ []) ∷ (192 ∷ 0 ∷ 2 ∷ 3 ∷ []) ∷ []

-- With a maximum of one, two of the three forwarders get queries.
injection_runs :
    length (inject_cache (pos 1) (codes "a.org" ∷ codes "b.org" ∷ []) (forwarders ∷ []) 65535) ≡ 4
injection_runs = inject_cache-queries 1 (codes "a.org" ∷ codes "b.org" ∷ []) (forwarders ∷ []) 65535
