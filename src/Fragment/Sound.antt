-- ===== src/Fragment/Sound.antt =====
-- The make-up of reassembled packets (src/common/base.go, `Process_pkt`).
use odns_measurement_tools.Base.{
  ℕ, zero, suc, ◌+◌, ◌*◌, ◌≡◌, refl, sym, ap, ◌∙◌, ◌⊎◌, inl, inr, arith, Bool, true, false, not,
  ◌||◌, Option, none, some, List, [], ◌∷◌, ◌++◌, length, length-append, All, Bool-cases, ◌==◌,
}
use mathlib.Core.List.{Memᴰ, append-nil, append_assoc}
use mathlib.Core.Path.{subst}
use odns_measurement_tools.Fragment.Process.{
  Frag, FragMap, udp, process_pkt, finish, is_last, scan, then_round, rounds,
}

abbrev pub payloads : List Frag → List ℕ
payloads [] = []
payloads (f ∷ frags) = f.payload ++ payloads frags

-- Each fragment starts where the one before it ends.
abbrev pub Joins : ℕ → List Frag → Type 0
Joins n [] = Unit
Joins n (f ∷ frags) = (f.frag_offset * 8 ≡ n) × Joins (n + length f.payload) frags

scan_sound :
    (frags : List Frag) (n : ℕ) (seen : Bool) {seen' : Bool} {p : List ℕ}
    → scan frags n seen ≡ (seen', some p)
    → (f : Frag) × Memᴰ f frags × (f.frag_offset * 8 ≡ n) × (f.payload ≡ p)
unfolding scan
scan_sound [] n seen h = cc
scan_sound (f ∷ frags) n seen {p = p} h = elim (Bool-cases (f.frag_offset * 8 == n)) [
  | inl here ↦ (f, Memᴰ.head refl, ground arith, ground arith)
  | inr there ↦
      let (g, m, offset, payload) = scan_sound frags n (seen || is_last f) (rw there at h) in
      (g, Memᴰ.tail m, offset, payload)
]

round-cases :
    (r : Bool × Option (List ℕ))
    → ((s : Bool) × (r ≡ (s, none))) ⊎ ((s : Bool) × (p : List ℕ) × (r ≡ (s, some p)))
round-cases (s, none) = inl (s, refl)
round-cases (s, some p) = inr (s, p, refl)

rounds_sound :
    (n : ℕ) (frags : List Frag) (pkt : List ℕ) (seen : Bool) {out : List ℕ} {seen' : Bool}
    → rounds n frags pkt seen ≡ some (out, seen')
    → (picked : List Frag) × (length picked ≡ n)
      × All (λ f. Memᴰ f frags) picked
      × Joins (length pkt) picked
      × (out ≡ pkt ++ payloads picked)
unfolding rounds
rounds_sound zero frags pkt seen h = ([], refl, tt, tt, rw append-nil (cc))
rounds_sound (suc n) frags pkt seen {out} {seen'} h =
    elim (round-cases (scan frags (length pkt) seen)) [
      | inl (s, e) ↦ cc (moved (s, none) e)
      | inr (s, p, e) ↦
          let (f, m, offset, payload) = scan_sound frags (length pkt) seen e in
          let (picked, n', ms, joins, eq) =
            rounds_sound n frags (pkt ++ p) s (moved (s, some p) e) in
          (
            f ∷ picked,
            ap suc n',
            (m, ms),
            (
              offset,
              subst (λ k. Joins k picked)
                  (length-append pkt p ∙ ap (λ (l : List ℕ). length pkt + length l) (sym payload))
                  joins,
            ),
            eq
                ∙ append_assoc pkt p (payloads picked)
                ∙ ap (λ (l : List ℕ). pkt ++ (l ++ payloads picked)) (sym payload),
          )
    ]
  where
    moved :
        (r : Bool × Option (List ℕ))
        → scan frags (length pkt) seen ≡ r
        → then_round (rounds n frags) pkt r ≡ some (out, seen')
    moved r e = subst (λ r'. then_round (rounds n frags) pkt r' ≡ some (out, seen')) e h

finish-udp :
    (m : FragMap) (f : Frag) (frags : List Frag) (r : Option (List ℕ × Bool)) (pkt : List ℕ)
    → (finish m f frags r).1 ≡ udp pkt
    → (r ≡ some (pkt, true)) × ((finish m f frags r).0 f.id ≡ [])
unfolding finish
finish-udp m f frags none pkt h = cc
finish-udp m f frags (some (out, false)) pkt h = cc
finish-udp m f frags (some (out, true)) pkt h = (ground arith, ground arith)

-- What `Process_pkt` hands on as a UDP packet is made of buffered fragments, one for each
-- fragment in the buffer, that join without gap or overlap from offset 0, and the buffer of the
-- identification is then empty.
pub process_pkt-udp_sound :
    (m : FragMap) (f : Frag) (pkt : List ℕ)
    → (process_pkt m f).1 ≡ udp pkt
    → (picked : List Frag) × (length picked ≡ length (m f.id ++ f ∷ []))
      × All (λ g. Memᴰ g (m f.id ++ f ∷ [])) picked
      × Joins 0 picked
      × (pkt ≡ payloads picked)
      × ((process_pkt m f).0 f.id ≡ [])
unfolding process_pkt
process_pkt-udp_sound m f pkt h = elim (Bool-cases (f.more || not (f.frag_offset == 0))) [
  | inr direct ↦ cc (rw direct at h)
  | inl fragment ↦
      let frags = m f.id ++ f ∷ [] in
      let (e, empty) =
        finish-udp m f frags (rounds (length frags) frags [] false) pkt (rw fragment at h) in
      let (picked, n, ms, joins, eq) = rounds_sound (length frags) frags [] false e in
      (picked, n, ms, joins, eq, rw fragment empty)
]
