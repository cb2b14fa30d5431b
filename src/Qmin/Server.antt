-- ===== src/Qmin/Server.antt =====
-- The DNS server that the QMIN scanner's queries lead to (src/qmin/dns_server/dns_server.go).
use odns_measurement_tools.Base.{
  ℕ, ◌+◌, ◌-◌, Bool, true, false, not, ◌&&◌, Option, none, some, List, [], ◌∷◌, ◌++◌, length, map,
  ltb, ◌==◌, if◌then◌else◌,
}
use odns_measurement_tools.Net.{bytes_eq}
use odns_measurement_tools.Text.Defs.{Text, codes, take, has_suffix, contains, split, first, join}
use odns_measurement_tools.Text.Number.{ℤ, pred, itoa_int, parse_int}
use odns_measurement_tools.Qmin.Result.{put}

-- `inducedProbe`
pub record InducedProbe : Type 0 where
  pub token_sequence : List Text
  pub curr_token_num : ℕ
  pub resolver : Text

-- `probeData`
pub record ProbeData : Type 0 where
  pub token_length : ℤ
  pub incoming_resolver : Text
  pub last_seen : ℕ
  pub token_sequence : List Text
  pub curr_token_num : ℕ
  pub induction : Bool
  pub induction_probe : InducedProbe

pub record ResourceRecord : Type 0 where
  pub name : Text
  pub qtype : Text
  pub value : Text

-- The map `probes`.
abbrev pub Probes : Type 0
Probes = Text → Option ProbeData

-- What the handler reads of a request: the question, and the address that it came from.
pub record Request : Type 0 where
  pub name : Text
  pub qtype : ℕ
  pub remote : Text

pub data Answer (R : Type 0) : Type 0 where
  rr : R → Answer R
  cname : Text → Text → Answer R

pub record Reply (R : Type 0) : Type 0 where
  pub rcode : ℕ
  pub authoritative : Bool
  pub answers : List (Answer R)

-- The server's configuration, and of package dns: `New`, `TypeToString` and `StringToType`.
pub record ServerCfg (R : Type 0) : Type 0 where
  pub base_url : Text
  pub timeout : ℕ
  pub resource_records : Text → Option ResourceRecord
  pub dns_new : Text → Option R
  pub type_to_string : ℕ → Text
  pub string_to_type : Text → ℕ

-- The records of the configuration in a map by their names.
unfoldable pub load_records :
    List ResourceRecord → (Text → Option ResourceRecord) → Text → Option ResourceRecord
load_records [] m = m
load_records (rec ∷ records) m = load_records records (put m rec.name rec)

-- One round of `cleanProbes`, with times in milliseconds.
unfoldable pub clean_probes : ℕ → ℕ → Probes → Probes
clean_probes timeout now probes k = elim (probes k) [
  | none ↦ none
  | some v ↦ if ltb (v.last_seen + timeout) now then none else some v
]

abbrev pub type_txt : ℕ
type_txt = 16

abbrev pub strip : Text → Text
strip token = first (split b'_' token)

unfoldable pub strip_rtypes : List Text → Text
strip_rtypes seq = join b'.' (map strip seq)

pub record Update : Type 0 where
  pub updated_seq : List Text
  pub token_num : ℕ
  pub extended : Bool

-- The first block of `updateProbeEntry`: a request that is longer than what was recorded.
unfoldable pub extend : List Text → Text → Text → List Text → Text → Update
extend probe_seq domain token_seq tokens type =
    let new_seq =
      if length domain == 0
      then token_seq
      else take (length token_seq - length domain - 1) token_seq in
    if ltb (length domain) (length token_seq) && contains token_seq domain
    then record {
      updated_seq = (new_seq ++ b'_' ∷ type) ∷ probe_seq;
      token_num = length tokens;
      extended = true;
    }
    else record { updated_seq = probe_seq; token_num = 0; extended = false }

-- The result is `none` where `updatedSeq[0]` is out of range.
abbrev pub repeat_txt : ℤ → Bool → Text → Update → Option Update
repeat_txt token_length again type u = elim u.updated_seq [
  | [] ↦ none
  | recent_tok ∷ _ ↦ some (
      if again && not (has_suffix recent_tok (codes "_TXT"))
      then record u { updated_seq = (itoa_int (pred token_length) ++ b'_' ∷ type) ∷ u.updated_seq }
      else u)
]

unfoldable pub update_probe_entry :
    (ℕ → Text) → ℤ → List Text → Text → List Text → ℕ → Option Update
unfolding strip_rtypes extend
update_probe_entry type_to_string token_length probe_seq token_seq tokens qtype =
    let domain = strip_rtypes probe_seq in
    repeat_txt token_length
      (length domain == length token_seq && contains token_seq domain && qtype == type_txt)
      (type_to_string qtype) (extend probe_seq domain token_seq tokens (type_to_string qtype))

-- Whether the id token has a fourth part, and it is `mark`.
abbrev pub has_mark : List Text → Text → Bool
has_mark (a ∷ b ∷ c ∷ d ∷ more) mark = bytes_eq d mark
has_mark _ mark = false

abbrev pub address_of : Text → Text
address_of remote = first (split b':' remote)

abbrev second : List Text → Text
second (a ∷ b ∷ more) = b
second _ = []

abbrev pub induced_key : Text → Text
induced_key id_token = id_token ++ codes "-induction"

module _ {R : Type 0} (cfg : ServerCfg R) (now : ℕ) (r : Request) where
  -- The entry of a probe whose id token is not known yet.
  abbrev pub fresh_probe : Text → List Text → List Text → ProbeData
  fresh_probe token_seq tokens probe_meta_data = record {
    token_length = (parse_int (second probe_meta_data)).value;
    incoming_resolver = address_of r.remote;
    last_seen = now;
    token_sequence = (token_seq ++ b'_' ∷ cfg.type_to_string r.qtype) ∷ [];
    curr_token_num = length tokens;
    induction = has_mark probe_meta_data (codes "induction");
    induction_probe = record { token_sequence = []; curr_token_num = 0; resolver = [] };
  }

  abbrev pub updated : ProbeData → Update → ProbeData
  updated probe u = record probe {
    token_sequence = u.updated_seq;
    curr_token_num = if u.extended then u.token_num else probe.curr_token_num;
    last_seen = now;
  }

  abbrev pub updated_induced : InducedProbe → Update → InducedProbe
  updated_induced p u = record {
    token_sequence = u.updated_seq;
    curr_token_num = if u.extended then u.token_num else p.curr_token_num;
    resolver = if u.extended then address_of r.remote else p.resolver;
  }

  abbrev pub with_update : Text → (Update → ProbeData) → Option Update → Option (Text × ProbeData)
  with_update key f none = none
  with_update key f (some u) = some (key, f u)

  -- The case of an id token with no entry of its own, by the entry of its induction.
  unfoldable pub update_unknown :
      Text → List Text → Text → List Text → Option ProbeData → Option (Text × ProbeData)
  unfolding update_probe_entry
  update_unknown token_seq tokens id_token probe_meta_data none =
      some (id_token, fresh_probe token_seq tokens probe_meta_data)
  update_unknown token_seq tokens id_token probe_meta_data (some p) =
      with_update (induced_key id_token)
        (λ u. record p { induction_probe = updated_induced p.induction_probe u; last_seen = now })
        (update_probe_entry cfg.type_to_string p.token_length p.induction_probe.token_sequence
          token_seq tokens r.qtype)

  unfoldable pub update_by :
      Probes → Text → List Text → Text → List Text → Option ProbeData → Option (Text × ProbeData)
  unfolding update_probe_entry update_unknown
  update_by probes token_seq tokens id_token probe_meta_data (some probe) =
      with_update id_token (updated probe) (
        update_probe_entry cfg.type_to_string probe.token_length probe.token_sequence token_seq
          tokens r.qtype)
  update_by probes token_seq tokens id_token probe_meta_data none =
      update_unknown token_seq tokens id_token probe_meta_data (probes (induced_key id_token))

  -- The block under the mutex: the key and the new entry of the probe.
  unfoldable pub update_probe :
      Probes → Text → List Text → Text → List Text → Option (Text × ProbeData)
  unfolding update_probe_entry update_by
  update_probe probes token_seq tokens id_token probe_meta_data =
      update_by probes token_seq tokens id_token probe_meta_data (probes id_token)
