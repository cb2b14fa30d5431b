-- ===== src/Qmin/Total.antt =====
-- The handler of the DNS server on every request (src/qmin/dns_server/dns_server.go).
use odns_measurement_tools.Base.{
  ℕ, ◌≡◌, ◌≢◌, refl, ap, arith, Bool, true, false, Option, none, some, List, [], ◌∷◌, length, ltb,
  if◌then◌else◌, Bool-cases, inl, inr,
}
use mathlib.Core.Path.{subst}
use odns_measurement_tools.Net.{bytes_eq}
use odns_measurement_tools.Text.Defs.{Text, split, last, contains, to_lower}
use odns_measurement_tools.Text.Number.{ℤ}
use odns_measurement_tools.Qmin.Result.{put}
use odns_measurement_tools.Qmin.Server.{
  ServerCfg, Request, Reply, Probes, ProbeData, ResourceRecord, Update, induced_key, extend,
  repeat_txt, strip_rtypes, update_probe_entry, with_update, update_unknown, update_by,
  update_probe, updated,
}
use odns_measurement_tools.Qmin.Handler.{
  finish, track, check_id, handle_tokens, handle_domain, dispatch, predefined, request_response,
  strip_underscore,
}

-- Every entry has a token.
abbrev pub IsValid : Probes → Type 0
IsValid probes = (k : Text) (p : ProbeData) → probes k ≡ some p → p.token_sequence ≢ []

abbrev GoodUpdate : Option Update → Type 0
GoodUpdate o = (u : Update) × (o ≡ some u) × (u.updated_seq ≢ [])

cons_ne : (x : Text) (xs : List Text) → x ∷ xs ≢ []
cons_ne x xs e = cc

choose_good :
    (b : Bool) (u v : Update)
    → u.updated_seq ≢ []
    → v.updated_seq ≢ []
    → GoodUpdate (some (if b then u else v))
choose_good true u v h k = (u, refl, h)
choose_good false u v h k = (v, refl, k)

repeat_txt-GoodUpdate :
    (l : ℤ) (again : Bool) (type : Text) (seq : List Text) (m : ℕ) (e : Bool)
    → seq ≢ []
    → GoodUpdate
        (repeat_txt l again type (record { updated_seq = seq; token_num = m; extended = e }))
repeat_txt-GoodUpdate l again type [] m e h = absurd (h refl)
repeat_txt-GoodUpdate l again type (x ∷ seq) m e h = choose_good _ _ _ (cons_ne _ _) (cons_ne _ _)

extended_nonempty :
    (b : Bool) (x : Text) (seq : List Text) (m : ℕ)
    → (b ≡ false → seq ≢ [])
    → (if◌then◌else◌ {A = Update} b
        (record { updated_seq = x ∷ seq; token_num = m; extended = true })
        (record { updated_seq = seq; token_num = 0; extended = false })).updated_seq
      ≢ []
extended_nonempty true x seq m h = λ e. cc
extended_nonempty false x seq m h = h refl

extend-nonempty :
    (seq : List Text) (c : ℕ) (s : Text) (tokens : List Text) (type : Text)
    → (extend seq (strip_rtypes seq) (c ∷ s) tokens type).updated_seq ≢ []
unfolding extend strip_rtypes contains
extend-nonempty [] c s tokens type =
    extended_nonempty _ _ [] (length tokens) (λ e. absurd (ground arith))
extend-nonempty (x ∷ seq) c s tokens type =
    extended_nonempty _ _ (x ∷ seq) (length tokens) (λ e. λ e2. cc)

update_probe_entry-GoodUpdate :
    (type_to_string : ℕ → Text) (l : ℤ) (seq : List Text) (c : ℕ) (s : Text) (tokens : List Text)
    (q : ℕ)
    → GoodUpdate (update_probe_entry type_to_string l seq (c ∷ s) tokens q)
unfolding update_probe_entry
update_probe_entry-GoodUpdate type_to_string l seq c s tokens q =
    repeat_txt-GoodUpdate l _ (type_to_string q) _ _ _
      (extend-nonempty seq c s tokens (type_to_string q))

put-IsValid :
    (probes : Probes) (k : Text) (p : ProbeData)
    → IsValid probes
    → p.token_sequence ≢ []
    → IsValid (put probes k p)
put-IsValid probes k p valid h j q e = elim (Bool-cases (bytes_eq j k)) [
  | inl same ↦ subst (λ (o : ProbeData). o.token_sequence ≢ []) (same_entry same) h
  | inr other ↦ valid j q (ground arith)
]
  where
    same_entry : bytes_eq j k ≡ true → p ≡ q
    same_entry same = ground arith

module _ {R : Type 0} (cfg : ServerCfg R) (now : ℕ) (r : Request) (probes : Probes)
    (valid : IsValid probes) where
  abbrev GoodEntry : Option (Text × ProbeData) → Type 0
  GoodEntry o = (e : Text × ProbeData) × (o ≡ some e) × (e.1.token_sequence ≢ [])

  abbrev Good : Option (Probes × Reply R) → Type 0
  Good o = (res : Probes × Reply R) × (o ≡ some res) × IsValid res.0

  update_unknown-GoodEntry :
      (c : ℕ) (s : Text) (tokens : List Text) (id : Text) (meta : List Text) (o : Option ProbeData)
      → probes (induced_key id) ≡ o
      → GoodEntry (update_unknown cfg now r (c ∷ s) tokens id meta o)
  unfolding update_unknown
  update_unknown-GoodEntry c s tokens id meta none e = (_, refl, λ e. cc)
  update_unknown-GoodEntry c s tokens id meta (some p) e =
      let (u, h, _) =
        update_probe_entry-GoodUpdate cfg.type_to_string p.token_length
          p.induction_probe.token_sequence c s tokens r.qtype in
      (_, ap (with_update cfg now r (induced_key id) _) h, valid (induced_key id) p e)

  update_probe-GoodEntry :
      (c : ℕ) (s : Text) (tokens : List Text) (id : Text) (meta : List Text) (o : Option ProbeData)
      → probes id ≡ o
      → GoodEntry (update_by cfg now r probes (c ∷ s) tokens id meta o)
  unfolding update_by update_unknown
  update_probe-GoodEntry c s tokens id meta none e =
      update_unknown-GoodEntry c s tokens id meta (probes (induced_key id)) refl
  update_probe-GoodEntry c s tokens id meta (some p) e =
      let (u, h, k) =
        update_probe_entry-GoodUpdate cfg.type_to_string p.token_length p.token_sequence c s tokens
          r.qtype in
      (_, ap (with_update cfg now r id (updated cfg now r p)) h, k)

  track-Good :
      (c : ℕ) (s : Text) (tokens : List Text) (id : Text) (meta : List Text)
      → Good (track cfg now r probes (c ∷ s) tokens id meta)
  unfolding track update_probe finish
  track-Good c s tokens id meta =
      let ((key, p), h, k) = update_probe-GoodEntry c s tokens id meta (probes id) refl in
      (_, ap (finish cfg now r probes meta) h, put-IsValid probes key p valid k)

  same-Good : (a : Reply R) → Good (some (probes, a))
  same-Good a = (_, refl, valid)

  if-Good :
      (b : Bool) {x y : Option (Probes × Reply R)} → Good x → Good y → Good (if b then x else y)
  if-Good true h k = h
  if-Good false h k = k

  handle_tokens-Good : (token_seq : Text) → Good (handle_tokens cfg now r probes token_seq)
  unfolding handle_tokens check_id split
  handle_tokens-Good [] = same-Good _
  handle_tokens-Good (c ∷ s) =
      let tokens = split b'.' (c ∷ s) in
      let id = last tokens in
      let meta = split b'-' id in
      if-Good (ltb (length id) 10) (same-Good _)
        (if-Good (ltb (length meta) 3) (same-Good _) (track-Good c s tokens id meta))

  handle_domain-Good : (domain : Text) → Good (handle_domain cfg now r probes domain)
  unfolding handle_domain
  handle_domain-Good domain = if-Good _ (same-Good _) (handle_tokens-Good _)

  dispatch-Good :
      (o : Option ResourceRecord) (domain : Text) → Good (dispatch cfg now r probes o domain)
  unfolding dispatch
  dispatch-Good none domain = handle_domain-Good (strip_underscore domain)
  dispatch-Good (some rec) domain = same-Good _

  -- From a map in which every entry has a token, the handler answers every request and leaves such
  -- a map.
  pub request_response-IsValid :
      (res : Probes × Reply R) × (request_response cfg now r probes ≡ some res) × IsValid res.0
  unfolding request_response
  request_response-IsValid =
      dispatch-Good (predefined cfg now r (to_lower r.name)) (to_lower r.name)
