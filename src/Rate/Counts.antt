-- ===== src/Rate/Counts.antt =====
-- The count of received packets (src/ratelimit/ratelimit.go, calc_last_second_rate).
use odns_measurement_tools.Base.{
  ℕ, suc, ◌≤◌, ◌<◌, ◌≡◌, refl, arith, ◌&&◌, not, List, [], ◌∷◌, ltb, if◌then◌else◌,
}
use odns_measurement_tools.Rate.State.{AnswerEntry, count_received}

-- All answers in the span of time.
unfoldable pub count_between : ℕ → ℕ → List AnswerEntry → ℕ
count_between from to [] = 0
count_between from to (a ∷ answers) =
    let rest = count_between from to answers in
    if not (ltb a.ts from) && ltb a.ts to then suc rest else rest

-- The latest first.
abbrev pub IsBefore : ℕ → List AnswerEntry → Type 0
IsBefore t [] = Unit
IsBefore t (a ∷ answers) = (a.ts ≤ t) × IsBefore a.ts answers

older-count :
    (from to t : ℕ) (answers : List AnswerEntry)
    → IsBefore t answers
    → t < from
    → count_between from to answers ≡ 0
unfolding count_between
older-count from to t [] h old = refl
older-count from to t (a ∷ answers) (h, hs) old =
    ground (arith, older-count from to a.ts answers hs)

-- On answers in the order of their arrival, the loop that ends at the first old one counts all
-- answers of the span.
pub count_received-between :
    (from to t : ℕ) (answers : List AnswerEntry)
    → IsBefore t answers
    → count_received from to answers ≡ count_between from to answers
unfolding count_received count_between
count_received-between from to t [] h = refl
count_received-between from to t (a ∷ answers) (h, hs) =
    ground
      (arith, count_received-between from to a.ts answers hs, older-count from to a.ts answers hs)
