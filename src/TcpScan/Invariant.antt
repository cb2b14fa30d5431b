-- ===== src/TcpScan/Invariant.antt =====
-- The invariant of the TCP scanner (src/scanner/tcp/tcp_scanner.go).
use odns_measurement_tools.Base.{
  set-cases, ℕ, ◌<◌, ◌≡◌, ◌∙◌, ap, ◌⊎◌, inl, inr, arith, some, List, [], ◌∷◌, ◌++◌, length,
  get_elem?, set, All, All-set,
}
use odns_measurement_tools.Tcp.Flags.{
  TcpFlags, syn_flags, syn_ack_flags, psh_ack_flags, fin_psh_ack_flags,
}
use odns_measurement_tools.TcpScan.State.{ScanItem, Chain, Scanner}
use odns_measurement_tools.TcpScan.Handle.{append_item}

abbrev pub IsAnswer : TcpFlags → Type 0
IsAnswer f = (f ≡ psh_ack_flags) ⊎ (f ≡ fin_psh_ack_flags)

-- What may hang on a SYN: nothing, a SYN-ACK, or a SYN-ACK and one DNS answer.
abbrev pub IsDialogue : ScanItem → List ScanItem → Type 0
IsDialogue root [] = Unit
IsDialogue root (a ∷ []) = (a.flags ≡ syn_ack_flags) × (a.id ≡ root.id) × (a.port ≡ root.port)
IsDialogue root (a ∷ b ∷ []) =
    (a.flags ≡ syn_ack_flags)
    × (a.id ≡ root.id)
    × (a.port ≡ root.port)
    × IsAnswer b.flags
    × (b.id ≡ root.id)
    × (b.port ≡ root.port)
IsDialogue root (a ∷ b ∷ c ∷ more) = ⊥

abbrev pub IsChain : Chain → Type 0
IsChain c = (c.root.flags ≡ syn_flags) × IsDialogue c.root c.rest

abbrev pub KeyedAt : List Chain → ℕ → ℕ → ℕ → Type 0
KeyedAt heap r p q =
    (c : Chain) × (get_elem? heap r ≡ some c) × (c.root.port ≡ p) × (c.root.seq ≡ q)

-- A finished dialogue: SYN, SYN-ACK and answer.
abbrev pub IsDone : List Chain → ℕ → Type 0
IsDone heap r = (c : Chain) × (get_elem? heap r ≡ some c) × (length c.rest ≡ 2)

pub record IsValid (s : Scanner) : Type 0 where
  pub chains : All IsChain s.heap
  pub keyed : (p q r : ℕ) → s.items p q ≡ some r → KeyedAt s.heap r p q
  pub queued : All (IsDone s.heap) s.write_chan

module _ (heap : List Chain) (r : ℕ) (c : Chain) (item : ScanItem)
    (at : get_elem? heap r ≡ some c) where
  abbrev grown : List Chain
  grown = set heap r (record c { rest = c.rest ++ item ∷ [] })

  KeyedAt-grown : (r' p q : ℕ) → KeyedAt heap r' p q → KeyedAt grown r' p q
  KeyedAt-grown r' p q (d, hd, port, seq) =
      elim (set-cases heap r r' (record c { rest = c.rest ++ item ∷ [] }) hd) [
        | inl (e, g) ↦
            let same : c ≡ d = cc in
            (
              record c { rest = c.rest ++ item ∷ [] },
              g,
              ap (λ (x : Chain). x.root.port) same ∙ port,
              ap (λ (x : Chain). x.root.seq) same ∙ seq,
            )
        | inr g ↦ (d, g, port, seq)
      ]

  IsDone-grown : length c.rest < 2 → (r' : ℕ) → IsDone heap r' → IsDone grown r'
  IsDone-grown short r' (d, hd, two) =
      elim (set-cases heap r r' (record c { rest = c.rest ++ item ∷ [] }) hd) [
        | inl (e, g) ↦
            let same : c ≡ d = cc in absurd (omega (arith, ap (λ (x : Chain). length x.rest) same))
        | inr g ↦ (d, g, two)
      ]

pub All-map {ℓ} :
    {A : Type ℓ} (P Q : A → Type 0) (xs : List A) → ((x : A) → P x → Q x) → All P xs → All Q xs
All-map P Q [] f h = tt
All-map P Q (x ∷ xs) f (h, hs) = (f x h, All-map P Q xs f hs)

-- Growing a chain that is not finished keeps the invariant.
pub append_item-IsValid :
    (s : Scanner) (r : ℕ) (c : Chain) (item : ScanItem)
    → IsValid s
    → get_elem? s.heap r ≡ some c
    → length c.rest < 2
    → IsChain (record c { rest = c.rest ++ item ∷ [] })
    → IsValid (append_item s r c item)
append_item-IsValid s r c item v at short chain = record {
  chains = All-set IsChain s.heap r _ v.chains chain;
  keyed = λ p q r' h. KeyedAt-grown s.heap r c item at r' p q (v.keyed p q r' h);
  queued =
      All-map (IsDone s.heap) (IsDone (grown s.heap r c item at)) s.write_chan
        (IsDone-grown s.heap r c item at short) v.queued;
}
