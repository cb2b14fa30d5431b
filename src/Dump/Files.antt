-- ===== src/Dump/Files.antt =====
-- The capture files of the packet dump and their rotation (src/util/dump/dump_pcaps.go). A packet is
-- its bytes.
use odns_measurement_tools.Base.{ℕ, ◌+◌, ◌*◌, List, [], ◌∷◌, ◌++◌, ltb, if◌then◌else◌}
use odns_measurement_tools.Text.Defs.{Text, codes}
use odns_measurement_tools.Text.Number.{itoa}

-- A file by its number and its packets.
pub record PcapFile : Type 0 where
  pub number : ℕ
  pub packets : List (List ℕ)

-- Where `check_writer` stands: it waits for the next second; it has set `pcap_file` to a new file and
-- not yet `pcap_writer`; or it has set both and sleeps before it zips the former file.
pub data Rotation : Type 0 where
  waiting : Rotation
  opened : (cur_pcap_file : PcapFile) → Rotation
  switched : (cur_pcap_file : PcapFile) → Rotation

-- The files that are zipped and deleted, in their order, and the file `pcap_file`. The writer writes
-- to the former file while a new one is opened, else to this one.
pub record Dumper : Type 0 where
  pub zipped : List PcapFile
  pub rotation : Rotation
  pub pcap_file : PcapFile
  pub pcap_counter : ℕ

abbrev pub pcap_part_size : ℕ
pcap_part_size = 300 * 1024 * 1024

unfoldable pub file_name : ℕ → Text
file_name counter = codes "udpdump" ++ (itoa counter ++ codes ".pcap")

-- A file that is created has the number of the counter.
abbrev pub new_file : ℕ → PcapFile
new_file counter = record { number = counter; packets = [] }

-- The first writer in `main`.
abbrev pub start : Dumper
start = record { zipped = []; rotation = waiting; pcap_file = new_file 0; pcap_counter = 1 }

abbrev pub add_packet : List ℕ → PcapFile → PcapFile
add_packet pkt f = record f { packets = f.packets ++ pkt ∷ [] }

abbrev pub write_to : List ℕ → Dumper → Rotation → Dumper
write_to pkt d waiting = record d { rotation = waiting; pcap_file = add_packet pkt d.pcap_file }
write_to pkt d (opened cur) = record d { rotation = opened (add_packet pkt cur) }
write_to pkt d (switched cur) = record d {
  rotation = switched cur;
  pcap_file = add_packet pkt d.pcap_file;
}

-- A packet in `packet_capture`, written by `pcap_writer`.
unfoldable pub write_packet : List ℕ → Dumper → Dumper
write_packet pkt d = write_to pkt d d.rotation

abbrev pub advance : (List (List ℕ) → ℕ) → Dumper → Rotation → Dumper
advance size d waiting =
    if ltb pcap_part_size (size d.pcap_file.packets)
    then record d { rotation = opened d.pcap_file; pcap_file = new_file d.pcap_counter }
    else record d { rotation = waiting }
advance size d (opened cur) = record d {
  rotation = switched cur;
  pcap_counter = d.pcap_counter + 1;
}
advance size d (switched cur) = record d { zipped = d.zipped ++ cur ∷ []; rotation = waiting }

-- `check_writer`, one stage further. `size` is the size of a file with these packets.
unfoldable pub check_writer : (List (List ℕ) → ℕ) → Dumper → Dumper
check_writer size d = advance size d d.rotation

-- Where `check_writer` returns: it ends a rotation that it has begun.
abbrev pub settle : (List (List ℕ) → ℕ) → Dumper → Rotation → Dumper
settle size d waiting = record d { rotation = waiting }
settle size d (opened cur) = advance size (advance size d (opened cur)) (switched cur)
settle size d (switched cur) = advance size d (switched cur)

-- What the two goroutines do, one after the other: a write, and a stage of `check_writer`.
pub data Event : Type 0 where
  captured : List ℕ → Event
  tick : Event

unfoldable pub step : (List (List ℕ) → ℕ) → Event → Dumper → Dumper
unfolding write_packet check_writer
step size (captured pkt) d = write_packet pkt d
step size tick d = check_writer size d

unfoldable pub run : (List (List ℕ) → ℕ) → List Event → Dumper → Dumper
unfolding step
run size [] d = d
run size (e ∷ events) d = run size events (step size e d)

-- `main` from the first writer to its end: the files that are zipped.
unfoldable pub dump : (List (List ℕ) → ℕ) → List Event → List PcapFile
unfolding run
dump size events =
    let d = run size events start in
    let last = settle size d d.rotation in last.zipped ++ last.pcap_file ∷ []
