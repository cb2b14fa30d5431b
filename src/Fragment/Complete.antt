-- ===== src/Fragment/Complete.antt =====
-- The arrival of the last of the fragments of a packet (src/common/base.go, `Process_pkt`).
use odns_measurement_tools.Base.{
  ℕ, suc, ◌+◌, ◌*◌, ◌≤◌, ◌<◌, ◌≡◌, refl, sym, ap, ◌∙◌, ◌⊎◌, inl, inr, arith, Bool, true, false, not,
  ◌||◌, Option, some, List, [], ◌∷◌, ◌++◌, length, length-append, All, Bool-cases, ◌==◌,
}
use mathlib.Core.List.{Memᴰ, Permᴰ, append-nil, append_assoc}
use mathlib.Core.Path.{subst}
use odns_measurement_tools.Fragment.Process.{
  Frag, FragMap, udp, is_last, put, scan, then_round, rounds, finish, process_pkt,
}
use odns_measurement_tools.Fragment.Sound.{payloads}

abbrev pub has_more : List Frag → Bool
has_more [] = false
has_more (f ∷ frags) = true

-- A packet cut up from offset `n`: each fragment starts where the one before it ends, none is
-- empty, and all but the last are flagged.
abbrev pub IsCut : ℕ → List Frag → Type 0
IsCut n [] = Unit
IsCut n (f ∷ rest) =
    (f.frag_offset * 8 ≡ n)
    × (0 < length f.payload)
    × (f.more ≡ has_more rest)
    × IsCut (n + length f.payload) rest

Permᴰ-length : {xs ys : List Frag} → Permᴰ xs ys → length xs ≡ length ys
Permᴰ-length Permᴰ.nil = refl
Permᴰ-length (Permᴰ.cons e p) = ap suc (Permᴰ-length p)
Permᴰ-length (Permᴰ.swap e e') = refl
Permᴰ-length (Permᴰ.trans p q) = Permᴰ-length p ∙ Permᴰ-length q

Permᴰ-mem : {xs ys : List Frag} (f : Frag) → Permᴰ xs ys → Memᴰ f xs → Memᴰ f ys
Permᴰ-mem f Permᴰ.nil m = elim m [ ]
Permᴰ-mem f (Permᴰ.cons e p) (Memᴰ.head h) = Memᴰ.head (h ∙ e)
Permᴰ-mem f (Permᴰ.cons e p) (Memᴰ.tail m) = Memᴰ.tail (Permᴰ-mem f p m)
Permᴰ-mem f (Permᴰ.swap e e') (Memᴰ.head h) = Memᴰ.tail (Memᴰ.head (h ∙ e))
Permᴰ-mem f (Permᴰ.swap e e') (Memᴰ.tail (Memᴰ.head h)) = Memᴰ.head (h ∙ e')
Permᴰ-mem f (Permᴰ.swap e e') (Memᴰ.tail (Memᴰ.tail m)) = Memᴰ.tail (Memᴰ.tail m)
Permᴰ-mem f (Permᴰ.trans p q) m = Permᴰ-mem f q (Permᴰ-mem f p m)

Permᴰ-symm : {xs ys : List Frag} → Permᴰ xs ys → Permᴰ ys xs
Permᴰ-symm Permᴰ.nil = Permᴰ.nil
Permᴰ-symm (Permᴰ.cons e p) = Permᴰ.cons (sym e) (Permᴰ-symm p)
Permᴰ-symm (Permᴰ.swap e e') = Permᴰ.swap (sym e') (sym e)
Permᴰ-symm (Permᴰ.trans p q) = Permᴰ.trans (Permᴰ-symm q) (Permᴰ-symm p)

IsCut-le :
    (n : ℕ) (frags : List Frag) (g : Frag) → IsCut n frags → Memᴰ g frags → n ≤ g.frag_offset * 8
IsCut-le n [] g cut m = elim m [ ]
IsCut-le n (f ∷ rest) g cut (Memᴰ.head e) = omega (arith, ap (λ (x : Frag). x.frag_offset) e)
IsCut-le n (f ∷ rest) g cut (Memᴰ.tail m) =
    omega (arith, IsCut-le (n + length f.payload) rest g cut.3 m)

-- Fragments of a cut with the same offset are the same.
IsCut-unique :
    (n : ℕ) (frags : List Frag) (f g : Frag)
    → IsCut n frags
    → Memᴰ f frags
    → Memᴰ g frags
    → f.frag_offset ≡ g.frag_offset
    → f ≡ g
IsCut-unique n [] f g cut m m' same = elim m [ ]
IsCut-unique n (x ∷ rest) f g cut (Memᴰ.head e) (Memᴰ.head e') same = e ∙ sym e'
IsCut-unique n (x ∷ rest) f g cut (Memᴰ.head e) (Memᴰ.tail m) same = absurd (
    omega
      (arith, IsCut-le (n + length x.payload) rest g cut.3 m, ap (λ (y : Frag). y.frag_offset) e))
IsCut-unique n (x ∷ rest) f g cut (Memᴰ.tail m) (Memᴰ.head e) same = absurd (
    omega
      (arith, IsCut-le (n + length x.payload) rest f cut.3 m, ap (λ (y : Frag). y.frag_offset) e))
IsCut-unique n (x ∷ rest) f g cut (Memᴰ.tail m) (Memᴰ.tail m') same =
    IsCut-unique (n + length x.payload) rest f g cut.3 m m' same

behind :
    (x : Frag) (frags : List Frag) (n : ℕ) (f : Frag)
    → Memᴰ f (x ∷ frags)
    → f.frag_offset * 8 ≡ n
    → (x.frag_offset * 8 == n) ≡ false
    → Memᴰ f frags
behind x frags n f (Memᴰ.head e) at there =
    absurd (ground (arith, ap (λ (y : Frag). y.frag_offset) e))
behind x frags n f (Memᴰ.tail m) at there = m

or_monotone : (a b c : Bool) → (a || c) ≡ true → ((a || b) || c) ≡ true
or_monotone a b c h = ground arith

-- The inner loop finds the one fragment at the wanted offset.
scan_finds :
    (frags : List Frag) (n : ℕ) (seen : Bool) (f : Frag)
    → Memᴰ f frags
    → f.frag_offset * 8 ≡ n
    → ((g : Frag) → Memᴰ g frags → g.frag_offset ≡ f.frag_offset → g ≡ f)
    → (b : Bool) × (scan frags n seen ≡ (b, some f.payload))
      × ((seen || is_last f) ≡ true → b ≡ true)
unfolding scan
scan_finds [] n seen f m at unique = elim m [ ]
scan_finds (x ∷ frags) n seen f m at unique = elim (Bool-cases (x.frag_offset * 8 == n)) [
  | inl here ↦
      let same : x ≡ f = unique x (Memᴰ.head refl) (ground arith) in
      (
        seen || is_last x,
        rw here (
            ap {B = Bool × Option (List ℕ)} (λ (y : Frag). (seen || is_last x, some y.payload))
              same),
        λ h. subst (λ y. (seen || is_last y) ≡ true) (sym same) h,
      )
  | inr there ↦
      let (b, e, last) =
        scan_finds frags n (seen || is_last x) f (behind x frags n f m at there) at
          (λ g m'. unique g (Memᴰ.tail m')) in
      (b, rw there e, λ h. last (or_monotone seen (is_last x) (is_last f) h))
]

-- The condition under which the rounds that are left pass the last fragment.
abbrev Passes : Bool → ℕ → List Frag → Type 0
Passes seen n rest = (seen ≡ true) ⊎ ((0 < length rest) × (2 ≤ length rest + n))

Passes-next :
    (f : Frag) (rest : List Frag) (pkt : List ℕ) (seen b : Bool)
    → IsCut (length pkt) (f ∷ rest)
    → ((seen || is_last f) ≡ true → b ≡ true)
    → Passes seen (length pkt) (f ∷ rest)
    → Passes b (length (pkt ++ f.payload)) rest
Passes-next f [] pkt seen b cut last passes = inl (last (ground arith))
Passes-next f (g ∷ rest) pkt seen b cut last passes =
    inr (omega arith, omega (arith, length-append pkt f.payload))

rounds_complete :
    (rest frags : List Frag) (pkt : List ℕ) (seen : Bool)
    → IsCut (length pkt) rest
    → All (λ f. Memᴰ f frags) rest
    → ((f g : Frag) → Memᴰ f frags → Memᴰ g frags → f.frag_offset ≡ g.frag_offset → f ≡ g)
    → Passes seen (length pkt) rest
    → rounds (length rest) frags pkt seen ≡ some (pkt ++ payloads rest, true)
unfolding rounds
rounds_complete [] frags pkt seen cut ms unique (inl h) = rw (h, append-nil)
rounds_complete [] frags pkt seen cut ms unique (inr h) = absurd (omega arith)
rounds_complete (f ∷ rest) frags pkt seen cut ms unique passes =
    let (b, e, last) =
      scan_finds frags (length pkt) seen f ms.0 cut.0 (λ g m same. unique g f m ms.0 same) in
    subst
      (λ r.
        ◌≡◌ {A = Option (List ℕ × Bool)} (then_round (rounds (length rest) frags) pkt r)
          (some (pkt ++ (f.payload ++ payloads rest), true)))
      (sym e)
      (rounds_complete rest frags (pkt ++ f.payload) b (rw (length-append pkt f.payload) cut.3) ms.1
          unique (Passes-next f rest pkt seen b cut last passes)
        ∙ ap {B = Option (List ℕ × Bool)} (λ (l : List ℕ). some (l, true))
            (append_assoc pkt f.payload (payloads rest)))

All-mem : (xs ys : List Frag) → ((f : Frag) → Memᴰ f xs → Memᴰ f ys) → All (λ f. Memᴰ f ys) xs
All-mem [] ys k = tt
All-mem (x ∷ xs) ys k = (k x (Memᴰ.head refl), All-mem xs ys (λ f m. k f (Memᴰ.tail m)))

Memᴰ_last : (xs : List Frag) (f : Frag) → Memᴰ f (xs ++ f ∷ [])
Memᴰ_last [] f = Memᴰ.head refl
Memᴰ_last (x ∷ xs) f = Memᴰ.tail (Memᴰ_last xs f)

-- Each fragment of a cut with two parts takes the fragment path of `Process_pkt`.
cut_tested :
    (n : ℕ) (frags : List Frag) (f : Frag)
    → IsCut n frags
    → Memᴰ f frags
    → 2 ≤ length frags + n
    → (f.more || not (f.frag_offset == 0)) ≡ true
cut_tested n [] f cut m two = elim m [ ]
cut_tested n (x ∷ []) f cut (Memᴰ.head e) two =
    subst (λ y. (y.more || not (y.frag_offset == 0)) ≡ true) (sym e) (ground arith)
cut_tested n (x ∷ y ∷ rest) f cut (Memᴰ.head e) two =
    subst (λ y. (y.more || not (y.frag_offset == 0)) ≡ true) (sym e) (ground arith)
cut_tested n (x ∷ []) f cut (Memᴰ.tail m) two = elim m [ ]
cut_tested n (x ∷ y ∷ rest) f cut (Memᴰ.tail m) two =
    cut_tested (n + length x.payload) (y ∷ rest) f cut.3 m (omega arith)

-- When the fragments of a UDP packet that was cut in at least two parts have all arrived, each
-- once and in any order, the arrival of the last one hands on the payload in one piece, and
-- removes the fragments from the buffer.
pub process_pkt_complete :
    (m : FragMap) (f : Frag) (chunks : List Frag)
    → Permᴰ (m f.id ++ f ∷ []) chunks
    → IsCut 0 chunks
    → 2 ≤ length chunks
    → f.protocol ≡ 17
    → process_pkt m f ≡ (put m f.id [], udp (payloads chunks))
unfolding process_pkt finish
process_pkt_complete m f chunks perm cut two is_udp =
    let frags = m f.id ++ f ∷ [] in
    let done : rounds (length frags) frags [] false ≡ some (payloads chunks, true) =
      rw (Permᴰ-length perm) (
        rounds_complete chunks frags [] false cut
          (All-mem chunks frags (λ g. Permᴰ-mem g (Permᴰ-symm perm)))
          (λ g h mg mh. IsCut-unique 0 chunks g h cut (Permᴰ-mem g perm mg) (Permᴰ-mem h perm mh))
          (inr (omega arith, omega arith))) in
    rw (cut_tested 0 chunks f cut (Permᴰ-mem f perm (Memᴰ_last (m f.id) f)) (omega arith))
      (rw (done, finish) (ground arith))
