-- ===== src/Fragment/Process.antt =====
-- The packet entry point of every program, with its fragment buffer (src/common/base.go).
use odns_measurement_tools.Base.{
  ℕ, zero, suc, ◌*◌, Bool, true, false, not, ◌&&◌, ◌||◌, Option, none, some, List, [], ◌∷◌, ◌++◌,
  length, ◌==◌, if◌then◌else◌,
}

-- The fields of a captured IPv4 packet that `Process_pkt` reads; `more` is the flag
-- `Flags & 0x1`, and the offset counts units of eight bytes.
pub record Frag : Type 0 where
  pub id : ℕ
  pub protocol : ℕ
  pub frag_offset : ℕ
  pub more : Bool
  pub payload : List ℕ

-- What becomes of a packet: dropped or kept in the buffer, handed to `Handle_pkt` as it is, or
-- handed on as a UDP or TCP packet made of the reassembled bytes.
pub data Outcome : Type 0 where
  waiting : Outcome
  whole : Frag → Outcome
  udp : List ℕ → Outcome
  tcp : List ℕ → Outcome

-- The buffer: the packets of each identification, none where the map has no entry.
abbrev pub FragMap : Type 0
FragMap = ℕ → List Frag

abbrev pub is_last : Frag → Bool
is_last f = not (f.frag_offset == 0) && not f.more

-- The inner loop: the first packet at the wanted offset, and whether a last one was passed.
unfoldable pub scan : List Frag → ℕ → Bool → Bool × Option (List ℕ)
scan [] offset last_seen = (last_seen, none)
scan (f ∷ frags) offset last_seen =
    let rest = scan frags offset (last_seen || is_last f) in
    if f.frag_offset * 8 == offset then (last_seen || is_last f, some f.payload) else rest

abbrev pub then_round :
    (List ℕ → Bool → Option (List ℕ × Bool))
    → List ℕ
    → Bool × Option (List ℕ)
    → Option (List ℕ × Bool)
then_round next transp_pkt (last_seen, none) = none
then_round next transp_pkt (last_seen, some payload) = next (transp_pkt ++ payload) last_seen

-- The outer loop makes as many rounds as there are packets; `none` is the early return.
unfoldable pub rounds : ℕ → List Frag → List ℕ → Bool → Option (List ℕ × Bool)
rounds zero frags transp_pkt last_seen = some (transp_pkt, last_seen)
rounds (suc n) frags transp_pkt last_seen =
    then_round (rounds n frags) transp_pkt (scan frags (length transp_pkt) last_seen)

abbrev pub put : FragMap → ℕ → List Frag → FragMap
put m id frags k = if k == id then frags else m k

unfoldable pub deliver : ℕ → List ℕ → Outcome
deliver protocol transp_pkt =
    if protocol == 17 then udp transp_pkt else if protocol == 6 then tcp transp_pkt else waiting

unfoldable pub finish : FragMap → Frag → List Frag → Option (List ℕ × Bool) → FragMap × Outcome
unfolding deliver
finish m f frags none = (put m f.id frags, waiting)
finish m f frags (some (transp_pkt, false)) = (put m f.id frags, waiting)
finish m f frags (some (transp_pkt, true)) = (put m f.id [], deliver f.protocol transp_pkt)

unfoldable pub process_pkt : FragMap → Frag → FragMap × Outcome
unfolding rounds scan finish
process_pkt m f =
    if f.more || not (f.frag_offset == 0)
    then (let frags = m f.id ++ f ∷ [] in finish m f frags (rounds (length frags) frags [] false))
    else (m, whole f)
