-- ===== src/Fragment/Tests.antt =====
-- The fragment buffer's theorems at a UDP packet of nine bytes in two fragments.
use odns_measurement_tools.Base.{◌≡◌, refl, arith, true, false, List, [], ◌∷◌, length, All}
use mathlib.Core.List.{Memᴰ, Permᴰ}
use odns_measurement_tools.Fragment.Process.{
  Frag, FragMap, udp, put, scan, rounds, finish, deliver, process_pkt,
}
use odns_measurement_tools.Fragment.Sound.{payloads, Joins, process_pkt-udp_sound}
use odns_measurement_tools.Fragment.Complete.{process_pkt_complete}

abbrev first : Frag
first = record {
  id = 7;
  protocol = 17;
  frag_offset = 0;
  more = true;
  payload = 0 ∷ 53 ∷ 240 ∷ 0 ∷ 0 ∷ 9 ∷ 0 ∷ 0 ∷ [];
}

abbrev second : Frag
second = record { id = 7; protocol = 17; frag_offset = 1; more = false; payload = 42 ∷ [] }

-- The second fragment has come first.
abbrev buffer : FragMap
buffer = put (λ k. []) 7 (second ∷ [])

process_pkt_complete_example :
    process_pkt buffer first ≡ (put buffer 7 [], udp (payloads (first ∷ second ∷ [])))
process_pkt_complete_example =
    process_pkt_complete buffer first (first ∷ second ∷ []) (Permᴰ.swap refl refl)
      (refl, omega arith, refl, (refl, omega arith, refl, tt)) (omega arith) refl

first-delivers : (process_pkt buffer first).1 ≡ udp (payloads (first ∷ second ∷ []))
unfolding process_pkt rounds scan finish deliver
first-delivers = refl

process_pkt-udp_sound_example :
    (picked : List Frag) × (length picked ≡ 2)
    × All (λ g. Memᴰ g (second ∷ first ∷ [])) picked
    × Joins 0 picked
    × (payloads (first ∷ second ∷ []) ≡ payloads picked)
    × ((process_pkt buffer first).0 7 ≡ [])
process_pkt-udp_sound_example =
    process_pkt-udp_sound buffer first (payloads (first ∷ second ∷ [])) first-delivers
