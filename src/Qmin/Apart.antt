-- ===== src/Qmin/Apart.antt =====
-- Requests with other id tokens (src/qmin/dns_server/dns_server.go).
use odns_measurement_tools.Base.{
  ℕ, ◌-◌, ◌≡◌, ◌≢◌, refl, sym, ap, ◌∙◌, arith, Bool, true, false, not, ◌||◌, Option, none, some,
  List, length, ltb, leb, if◌then◌else◌, Bool-cases, inl, inr,
}
use mathlib.Core.Path.{subst}
use odns_measurement_tools.Net.{bytes_eq}
use odns_measurement_tools.Text.Defs.{Text, take, split, last, has_suffix, to_lower}
use odns_measurement_tools.Text.Equality.{bytes_eq_sound}
use odns_measurement_tools.Qmin.Result.{put}
use odns_measurement_tools.Qmin.Server.{
  ServerCfg, Request, Reply, Probes, ProbeData, ResourceRecord, Update, induced_key, with_update,
  update_unknown, update_by, update_probe, updated,
}
use odns_measurement_tools.Qmin.Handler.{
  finish, track, check_id, handle_tokens, handle_domain, dispatch, predefined, request_response,
  strip_underscore,
}

-- The id token of a requested name below the base domain.
abbrev pub token_of : Text → Text → Text
token_of base_url domain = last (split b'.' (take (length domain - length base_url - 1) domain))

bytes_eq_apart : (a b : Text) → a ≢ b → bytes_eq a b ≡ false
bytes_eq_apart a b h = elim (Bool-cases (bytes_eq a b)) [
  | inl same ↦ absurd (h (bytes_eq_sound a b same))
  | inr other ↦ other
]

put_other :
    (probes : Probes) (key k : Text) (p : ProbeData) → k ≢ key → put probes key p k ≡ probes k
put_other probes key k p h = ground (arith, bytes_eq_apart k key h)

module _ {R : Type 0} (cfg : ServerCfg R) (now : ℕ) (r : Request) (probes : Probes) (k : Text) where
  abbrev Keeps : Option (Probes × Reply R) → Type 0
  Keeps o = (res : Probes × Reply R) → o ≡ some res → res.0 k ≡ probes k

  abbrev KeyApart : Option (Text × ProbeData) → Type 0
  KeyApart o = (e : Text × ProbeData) → o ≡ some e → k ≢ e.0

  same-Keeps : (a : Reply R) → Keeps (some (probes, a))
  same-Keeps a res e = ap (λ o. o k) (sym (first_of e))
    where
      first_of : some (probes, a) ≡ some res → probes ≡ res.0
      first_of e = cc

  if-Keeps :
      (b : Bool) {x y : Option (Probes × Reply R)} → Keeps x → Keeps y → Keeps (if b then x else y)
  if-Keeps true h j = h
  if-Keeps false h j = j

  finish-Keeps :
      (meta : List Text) (o : Option (Text × ProbeData))
      → KeyApart o
      → Keeps (finish cfg now r probes meta o)
  unfolding finish
  finish-Keeps meta none h res e = absurd cc
  finish-Keeps meta (some (key, p)) h res e =
      ap (λ (o : Probes). o k) (sym (first_of e)) ∙ put_other probes key k p (h (key, p) refl)
    where
      first_of : {x y : Probes × Reply R} → some x ≡ some y → x.0 ≡ y.0
      first_of e = cc

  with_update-KeyApart :
      (key : Text) (f : Update → ProbeData) (o : Option Update)
      → k ≢ key
      → KeyApart (with_update cfg now r key f o)
  with_update-KeyApart key f none h e eq = absurd cc
  with_update-KeyApart key f (some u) h e eq = subst (λ (t : Text). k ≢ t) key_of h
    where
      key_of : key ≡ e.0
      key_of = cc

  update_unknown-KeyApart :
      (s : Text) (tokens : List Text) (id : Text) (meta : List Text) (o : Option ProbeData)
      → k ≢ id
      → k ≢ induced_key id
      → KeyApart (update_unknown cfg now r s tokens id meta o)
  unfolding update_unknown
  update_unknown-KeyApart s tokens id meta none h j e eq = subst (λ (t : Text). k ≢ t) key_of h
    where
      key_of : id ≡ e.0
      key_of = cc
  update_unknown-KeyApart s tokens id meta (some p) h j e eq =
      with_update-KeyApart (induced_key id) _ _ j e eq

  update_by-KeyApart :
      (s : Text) (tokens : List Text) (id : Text) (meta : List Text) (o : Option ProbeData)
      → k ≢ id
      → k ≢ induced_key id
      → KeyApart (update_by cfg now r probes s tokens id meta o)
  unfolding update_by
  update_by-KeyApart s tokens id meta none h j =
      update_unknown-KeyApart s tokens id meta (probes (induced_key id)) h j
  update_by-KeyApart s tokens id meta (some p) h j =
      with_update-KeyApart id (updated cfg now r p) _ h

  check_id-Keeps :
      (s : Text) (tokens : List Text) (id : Text) (meta : List Text)
      → k ≢ id
      → k ≢ induced_key id
      → Keeps (check_id cfg now r probes s tokens id meta)
  unfolding check_id track update_probe
  check_id-Keeps s tokens id meta h j = if-Keeps (ltb (length id) 10) (same-Keeps _) (
      if-Keeps (ltb (length meta) 3) (same-Keeps _)
        (finish-Keeps meta _ (update_by-KeyApart s tokens id meta (probes id) h j)))

  abbrev Other : Text → Type 0
  Other domain =
      (k ≢ token_of cfg.base_url domain) × (k ≢ induced_key (token_of cfg.base_url domain))

  handle_domain-Keeps :
      (domain : Text) → Other domain → Keeps (handle_domain cfg now r probes domain)
  unfolding handle_domain handle_tokens
  handle_domain-Keeps domain (h, j) =
      if-Keeps (leb (length domain) (length cfg.base_url) || not (has_suffix domain cfg.base_url))
        (same-Keeps _) (check_id-Keeps _ _ _ _ h j)

  dispatch-Keeps :
      (o : Option ResourceRecord) (domain : Text)
      → Other (strip_underscore domain)
      → Keeps (dispatch cfg now r probes o domain)
  unfolding dispatch
  dispatch-Keeps none domain other = handle_domain-Keeps (strip_underscore domain) other
  dispatch-Keeps (some rec) domain other = same-Keeps _

-- A request that is answered leaves every entry as it is but that under its id token and that under
-- its id token with -induction behind it. Its id token is the last label of the requested name in
-- front of the base domain.
pub request_response-other :
    {R : Type 0} (cfg : ServerCfg R) (now : ℕ) (r : Request) (probes probes2 : Probes) (k : Text)
    (answer : Reply R)
    → k ≢ token_of cfg.base_url (strip_underscore (to_lower r.name))
    → k ≢ induced_key (token_of cfg.base_url (strip_underscore (to_lower r.name)))
    → request_response cfg now r probes ≡ some (probes2, answer)
    → probes2 k ≡ probes k
unfolding request_response
request_response-other cfg now r probes probes2 k answer other not_induced returned =
    dispatch-Keeps cfg now r probes k (predefined cfg now r (to_lower r.name)) (to_lower r.name)
      (other, not_induced) (probes2, answer) returned
