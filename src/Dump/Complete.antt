-- ===== src/Dump/Complete.antt =====
-- What the files of a dump hold (src/util/dump/dump_pcaps.go).
use odns_measurement_tools.Base.{
  ℕ, ◌+◌, ◌≡◌, refl, sym, ap, ◌∙◌, arith, List, [], ◌∷◌, ◌++◌, length, length-append, ltb, if_both,
}
use mathlib.Core.Path.{subst}
use mathlib.Core.List.{append_assoc, append-nil}
use odns_measurement_tools.Dump.Files.{
  PcapFile, Rotation, Dumper, Event, new_file, start, pcap_part_size, add_packet, write_to,
  write_packet, advance, check_writer, settle, step, run, dump,
}
use Event.{captured, tick}
use Rotation.{waiting, opened, switched}

-- The packets that are captured.
abbrev pub captures : List Event → List (List ℕ)
captures [] = []
captures (captured pkt ∷ events) = pkt ∷ captures events
captures (tick ∷ events) = captures events

abbrev pub packets_in : List PcapFile → List (List ℕ)
packets_in [] = []
packets_in (f ∷ files) = f.packets ++ packets_in files

-- The files are numbered one after the other, so no two have one name.
abbrev pub IsNumbered : ℕ → List PcapFile → Type 0
IsNumbered i [] = Unit
IsNumbered i (f ∷ files) = (f.number ≡ i) × IsNumbered (i + 1) files

packets_in-append : (fs gs : List PcapFile) → packets_in (fs ++ gs) ≡ packets_in fs ++ packets_in gs
packets_in-append [] gs = refl
packets_in-append (f ∷ fs) gs =
    ap (λ t. f.packets ++ t) (packets_in-append fs gs)
    ∙ sym (append_assoc f.packets (packets_in fs) (packets_in gs))

-- What is added at the end of the last files is added at the end.
packets_in-add :
    (zs l m : List PcapFile) (pkt : List ℕ)
    → packets_in m ≡ packets_in l ++ pkt ∷ []
    → packets_in (zs ++ m) ≡ packets_in (zs ++ l) ++ pkt ∷ []
packets_in-add zs l m pkt e =
    packets_in-append zs m
    ∙ ap (λ t. packets_in zs ++ t) e
    ∙ sym (append_assoc (packets_in zs) (packets_in l) (pkt ∷ []))
    ∙ ap (λ t. t ++ pkt ∷ []) (sym (packets_in-append zs l))

add_last : (ps : List (List ℕ)) (pkt : List ℕ) → (ps ++ pkt ∷ []) ++ [] ≡ (ps ++ []) ++ pkt ∷ []
add_last ps pkt = append-nil (ps ++ pkt ∷ []) ∙ ap (λ t. t ++ pkt ∷ []) (sym (append-nil ps))

IsNumbered-append :
    (i : ℕ) (fs : List PcapFile) (f : PcapFile)
    → IsNumbered i fs
    → f.number ≡ i + length fs
    → IsNumbered i (fs ++ f ∷ [])
IsNumbered-append i [] f h e = (omega arith, tt)
IsNumbered-append i (g ∷ fs) f (first, h) e =
    (first, IsNumbered-append (i + 1) fs f h (omega arith))

-- The files at the end may be written to.
IsNumbered-end :
    (i : ℕ) (zs l m : List PcapFile)
    → ((j : ℕ) → IsNumbered j l → IsNumbered j m)
    → IsNumbered i (zs ++ l)
    → IsNumbered i (zs ++ m)
IsNumbered-end i [] l m f h = f i h
IsNumbered-end i (z ∷ zs) l m f (first, h) = (first, IsNumbered-end (i + 1) zs l m f h)

-- The files that are not yet zipped.
abbrev open_files : Rotation → PcapFile → List PcapFile
open_files waiting f = f ∷ []
open_files (opened cur) f = cur ∷ f ∷ []
open_files (switched cur) f = cur ∷ f ∷ []

-- The counter is the number of the next file, once the last one has been counted. A file that is
-- just opened is empty.
abbrev Counts : Rotation → PcapFile → ℕ → ℕ → Type 0
Counts waiting f counter files = counter ≡ files
Counts (opened cur) f counter files = (counter + 1 ≡ files) × (f.packets ≡ [])
Counts (switched cur) f counter files = counter ≡ files

-- The files hold these packets.
record Held (packets : List (List ℕ)) (zipped : List PcapFile) (r : Rotation) (f : PcapFile)
    (counter : ℕ) : Type 0 where
  whole : packets_in (zipped ++ open_files r f) ≡ packets
  numbered : IsNumbered 0 (zipped ++ open_files r f)
  counted : Counts r f counter (length (zipped ++ open_files r f))

abbrev Holds : List (List ℕ) → Dumper → Type 0
Holds packets d = Held packets d.zipped d.rotation d.pcap_file d.pcap_counter

same_length : (zs l m : List PcapFile) → length l ≡ length m → length (zs ++ l) ≡ length (zs ++ m)
same_length zs l m e = omega (arith, e, length-append zs l, length-append zs m)

write_to-Holds :
    (pkt : List ℕ) {packets : List (List ℕ)} (d : Dumper) (r : Rotation)
    → Held packets d.zipped r d.pcap_file d.pcap_counter
    → Holds (packets ++ pkt ∷ []) (write_to pkt d r)
write_to-Holds pkt {packets} d waiting h =
    let f = d.pcap_file in
    let g = add_packet pkt f in
    record {
      whole =
          packets_in-add d.zipped (f ∷ []) (g ∷ []) pkt (add_last f.packets pkt)
          ∙ ap (λ t. t ++ pkt ∷ []) h.whole;
      numbered = IsNumbered-end 0 d.zipped (f ∷ []) (g ∷ []) (λ j n. n) h.numbered;
      counted = h.counted ∙ same_length d.zipped (f ∷ []) (g ∷ []) refl;
    }
write_to-Holds pkt {packets} d (opened cur) h =
    let f = d.pcap_file in
    let g = add_packet pkt cur in
    let (count, empty) = h.counted in
    record {
      whole =
          packets_in-add d.zipped (cur ∷ f ∷ []) (g ∷ f ∷ []) pkt (
            ap (λ ps. (cur.packets ++ pkt ∷ []) ++ (ps ++ [])) empty
            ∙ add_last cur.packets pkt
            ∙ ap (λ ps. (cur.packets ++ (ps ++ [])) ++ pkt ∷ []) (sym empty))
          ∙ ap (λ t. t ++ pkt ∷ []) h.whole;
      numbered = IsNumbered-end 0 d.zipped (cur ∷ f ∷ []) (g ∷ f ∷ []) (λ j n. n) h.numbered;
      counted = (count ∙ same_length d.zipped (cur ∷ f ∷ []) (g ∷ f ∷ []) refl, empty);
    }
write_to-Holds pkt {packets} d (switched cur) h =
    let f = d.pcap_file in
    let g = add_packet pkt f in
    record {
      whole =
          packets_in-add d.zipped (cur ∷ f ∷ []) (cur ∷ g ∷ []) pkt (
            ap (λ ps. cur.packets ++ ps) (add_last f.packets pkt)
            ∙ sym (append_assoc cur.packets (f.packets ++ []) (pkt ∷ [])))
          ∙ ap (λ t. t ++ pkt ∷ []) h.whole;
      numbered = IsNumbered-end 0 d.zipped (cur ∷ f ∷ []) (cur ∷ g ∷ []) (λ j n. n) h.numbered;
      counted = h.counted ∙ same_length d.zipped (cur ∷ f ∷ []) (cur ∷ g ∷ []) refl;
    }

open-Holds :
    {packets : List (List ℕ)} (d : Dumper)
    → Held packets d.zipped waiting d.pcap_file d.pcap_counter
    → Holds packets
        (record d { rotation = opened d.pcap_file; pcap_file = new_file d.pcap_counter })
open-Holds d h =
    let f = d.pcap_file in
    let next = new_file d.pcap_counter in
    record {
      whole =
          packets_in-append d.zipped (f ∷ next ∷ [])
          ∙ sym (packets_in-append d.zipped (f ∷ []))
          ∙ h.whole;
      numbered =
          subst (IsNumbered 0) (append_assoc d.zipped (f ∷ []) (next ∷ []))
            (IsNumbered-append 0 (d.zipped ++ f ∷ []) next h.numbered (omega (arith, h.counted)));
      counted = (
        omega (
          arith,
          h.counted,
          length-append d.zipped (f ∷ []),
          length-append d.zipped (f ∷ next ∷ []),
        ),
        refl,
      );
    }

zip-Holds :
    {packets : List (List ℕ)} (d : Dumper) (cur : PcapFile)
    → Held packets d.zipped (switched cur) d.pcap_file d.pcap_counter
    → Holds packets (record d { zipped = d.zipped ++ cur ∷ []; rotation = waiting })
zip-Holds d cur h =
    let moved = append_assoc d.zipped (cur ∷ []) (d.pcap_file ∷ []) in
    record {
      whole = ap packets_in moved ∙ h.whole;
      numbered = subst (IsNumbered 0) (sym moved) h.numbered;
      counted = h.counted ∙ ap (λ (l : List PcapFile). length l) (sym moved);
    }

advance-Holds :
    (size : List (List ℕ) → ℕ) {packets : List (List ℕ)} (d : Dumper) (r : Rotation)
    → Held packets d.zipped r d.pcap_file d.pcap_counter
    → Holds packets (advance size d r)
advance-Holds size {packets} d waiting h =
    if_both (Holds packets) (ltb pcap_part_size (size d.pcap_file.packets)) _ _ (open-Holds d h)
      (record { whole = h.whole; numbered = h.numbered; counted = h.counted })
advance-Holds size d (opened cur) h = record {
  whole = h.whole;
  numbered = h.numbered;
  counted = h.counted.0;
}
advance-Holds size d (switched cur) h = zip-Holds d cur h

run-Holds :
    (size : List (List ℕ) → ℕ) (events : List Event) {packets : List (List ℕ)} (d : Dumper)
    → Holds packets d
    → Holds (packets ++ captures events) (run size events d)
unfolding run step write_packet check_writer
run-Holds size [] {packets} d h = rw (append-nil packets) h
run-Holds size (captured pkt ∷ events) {packets} d h =
    let next = write_to pkt d d.rotation in
    subst (λ t. Holds t (run size events next)) (append_assoc packets (pkt ∷ []) (captures events))
      (run-Holds size events next (write_to-Holds pkt d d.rotation h))
run-Holds size (tick ∷ events) d h =
    let next = advance size d d.rotation in
    run-Holds size events next (advance-Holds size d d.rotation h)

-- At the end all files but the last have been zipped.
settle-Holds :
    (size : List (List ℕ) → ℕ) {packets : List (List ℕ)} (d : Dumper) (r : Rotation)
    → Held packets d.zipped r d.pcap_file d.pcap_counter
    → let last = settle size d r in
      (packets_in (last.zipped ++ last.pcap_file ∷ []) ≡ packets)
      × IsNumbered 0 (last.zipped ++ last.pcap_file ∷ [])
settle-Holds size d waiting h = (h.whole, h.numbered)
settle-Holds size d (opened cur) h =
    let zipped =
      zip-Holds (advance size d (opened cur)) cur (advance-Holds size d (opened cur) h) in
    (zipped.whole, zipped.numbered)
settle-Holds size d (switched cur) h =
    let zipped = zip-Holds d cur h in (zipped.whole, zipped.numbered)

-- However the captures and the stages of the rotation interleave, and whatever the sizes of the files
-- are, the files that are zipped hold all captured packets in their order, also those that are
-- written to the former file while a new one is opened, and no two files have the same number.
pub dump_complete :
    (size : List (List ℕ) → ℕ) (events : List Event)
    → (packets_in (dump size events) ≡ captures events) × IsNumbered 0 (dump size events)
unfolding dump
dump_complete size events =
    let d = run size events start in
    settle-Holds size d d.rotation (
      run-Holds size events {packets = []} start
        (record { whole = refl; numbered = (refl, tt); counted = refl }))
