-- ===== src/Qmin/Ids.antt =====
-- The id token that the QMIN scanner puts into a domain (src/qmin/scanner/scanner.go).
use odns_measurement_tools.Base.{
  ℕ, ◌+◌, ◌*◌, ◌/◌, ◌%◌, ◌≤◌, ◌<◌, ◌≡◌, ◌≢◌, ◌⊎◌, refl, sym, ap, ◌∙◌, arith, Bool, true, List, [],
  ◌∷◌, ◌++◌, length, ◌==◌, ltb, leb, not, ◌&&◌, length-append, All, Bool-cases, inl, inr,
}
use mathlib.Core.Path.{subst}
use odns_measurement_tools.Text.Defs.{Text, has, split, Lacks}
use odns_measurement_tools.Text.Number.{itoa, itoa-All, All-Lacks, IsDigit, itoa_nonempty}
use odns_measurement_tools.Text.Parts.{split-one, split-first, Lacks-append, has-append}
use odns_measurement_tools.Qmin.Query.{hex_bytes, nibble, id_token}

abbrev pub IsHexDigit : ℕ → Type 0
IsHexDigit c = IsDigit c ⊎ ((b'a' ≤ c) × (c ≤ b'f'))

pub hex-Lacks : (b : ℕ) (s : Text) → (IsHexDigit b → ⊥) → All IsHexDigit s → Lacks b s
hex-Lacks b [] out h = tt
hex-Lacks b (c ∷ s) out (d, h) = ((λ e. out (subst IsHexDigit e d)), hex-Lacks b s out h)

-- A byte that stands in no part of an id token, and is not the dash between them.
abbrev pub IsForeign : ℕ → Type 0
IsForeign b = (IsHexDigit b → ⊥) × (b ≢ b'-')

abbrev pub is_foreign : ℕ → Bool
is_foreign b = not (leb b'0' b && leb b b'9') && not (leb b'a' b && leb b b'f') && not (b == b'-')

pub foreign : (b : ℕ) → is_foreign b ≡ true → IsForeign b
foreign b h = (outside, λ e. ground arith)
  where
    outside : IsHexDigit b → ⊥
    outside (inl d) = ground arith
    outside (inr d) = ground arith

pub id_token-Lacks :
    (b : ℕ) (hex : Text) (depth draw : ℕ)
    → IsForeign b
    → All IsHexDigit hex
    → Lacks b (id_token hex depth draw)
id_token-Lacks b hex depth draw (out, dash) h =
    let digits = λ (n : ℕ). All-Lacks b (itoa n) (λ d. out (inl d)) (itoa-All n) in
    Lacks-append b hex _ (hex-Lacks b hex out h) (
      (λ e. dash (sym e)),
      Lacks-append b (itoa depth) _ (digits depth) ((λ e. dash (sym e)), digits draw),
    )

itoa-dash : (n : ℕ) → Lacks b'-' (itoa n)
itoa-dash n = All-Lacks b'-' (itoa n) (λ d. omega arith) (itoa-All n)

not_hex_dash : IsHexDigit b'-' → ⊥
not_hex_dash (inl d) = omega arith
not_hex_dash (inr d) = omega arith

pub split-id_token :
    (hex : Text) (depth draw : ℕ)
    → All IsHexDigit hex
    → split b'-' (id_token hex depth draw) ≡ hex ∷ itoa depth ∷ itoa draw ∷ []
split-id_token hex depth draw h =
    split-first b'-' hex (itoa depth ++ b'-' ∷ itoa draw) (hex-Lacks b'-' hex not_hex_dash h)
    ∙ ap (λ u. hex ∷ u) (split-first b'-' (itoa depth) (itoa draw) (itoa-dash depth))
    ∙ ap (λ u. hex ∷ itoa depth ∷ u) (split-one b'-' (itoa draw) (itoa-dash draw))

pub has-id_token : (hex : Text) (depth draw : ℕ) → has b'-' (id_token hex depth draw) ≡ true
has-id_token hex depth draw = has-append b'-' hex (itoa depth ++ b'-' ∷ itoa draw)

pub length-id_token :
    (hex : Text) (depth draw : ℕ)
    → length (id_token hex depth draw) ≡ length hex + length (itoa depth) + length (itoa draw) + 2
length-id_token hex depth draw = grind (
  arith,
  length-append hex (b'-' ∷ (itoa depth ++ b'-' ∷ itoa draw)),
  length-append (itoa depth) (b'-' ∷ itoa draw),
)

pub length-id_token_min :
    (hex : Text) (depth draw : ℕ) → length hex + 4 ≤ length (id_token hex depth draw)
length-id_token_min hex depth draw =
    grind (arith, length-id_token hex depth draw, itoa_nonempty depth, itoa_nonempty draw)

nibble-IsHexDigit : (n : ℕ) → n < 16 → IsHexDigit (nibble b'a' n)
nibble-IsHexDigit n h = elim (Bool-cases (ltb n 10)) [
  | inl small ↦ rw small (inl (omega arith, ground arith))
  | inr large ↦ rw large (inr (ground arith, ground arith))
]

pub hex_bytes-All : (bytes : List ℕ) → All (λ b. b < 256) bytes → All IsHexDigit (hex_bytes bytes)
unfolding hex_bytes
hex_bytes-All [] h = tt
hex_bytes-All (b ∷ bytes) (small, h) = (
  nibble-IsHexDigit (b / 16) (omega arith),
  (nibble-IsHexDigit (b % 16) (omega arith), hex_bytes-All bytes h),
)

pub length-hex_bytes : (bytes : List ℕ) → length (hex_bytes bytes) ≡ 2 * length bytes
unfolding hex_bytes
length-hex_bytes [] = refl
length-hex_bytes (b ∷ bytes) = ground (arith, length-hex_bytes bytes)
