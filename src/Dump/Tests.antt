-- ===== src/Dump/Tests.antt =====
-- A dump of four packets into two files: the third is written to the former file while a new one is
-- opened.
use odns_measurement_tools.Base.{ℕ, ◌≡◌, refl, List, [], ◌∷◌}
use odns_measurement_tools.Text.Defs.{codes}
use odns_measurement_tools.Text.Number.{itoa}
use odns_measurement_tools.Dump.Files.{
  Event, file_name, write_packet, check_writer, step, run, dump,
}
use odns_measurement_tools.Dump.Complete.{packets_in, IsNumbered, dump_complete}
use Event.{captured, tick}

-- Two packets are too much for a file.
abbrev size : List (List ℕ) → ℕ
size [] = 24
size (pkt ∷ []) = 1000
size (pkt ∷ next ∷ more) = 314572801

abbrev events : List Event
events =
    captured (1 ∷ [])
    ∷ tick
    ∷ captured (2 ∷ [])
    ∷ tick
    ∷ captured (3 ∷ [])
    ∷ tick
    ∷ captured (4 ∷ [])
    ∷ []

dump_runs :
    dump size events
    ≡ record { number = 0; packets = (1 ∷ []) ∷ (2 ∷ []) ∷ (3 ∷ []) ∷ [] }
      ∷ record { number = 1; packets = (4 ∷ []) ∷ [] }
      ∷ []
unfolding dump run step write_packet check_writer
dump_runs = refl

second_name : file_name 1 ≡ codes "udpdump1.pcap"
unfolding file_name itoa
second_name = refl

dump_complete_example :
    (packets_in (dump size events) ≡ (1 ∷ []) ∷ (2 ∷ []) ∷ (3 ∷ []) ∷ (4 ∷ []) ∷ [])
    × IsNumbered 0 (dump size events)
dump_complete_example = dump_complete size events
