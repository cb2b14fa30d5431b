-- ===== src/Cli/Settings.antt =====
-- Which setting a tool sees: that of an alias, of a flag or of the configuration file
-- (src/dns_tool.go).
use odns_measurement_tools.Base.{
  ℕ, zero, suc, ◌≡◌, refl, arith, if_both, ◌||◌, Bool, true, false, Option, none, some, List, [],
  ◌∷◌, if◌then◌else◌, All,
}
use odns_measurement_tools.Text.Defs.{Text}
use odns_measurement_tools.Text.Number.{ℤ, pos, negsuc}
use odns_measurement_tools.Cli.Flags.{ScannerFlags}
use odns_measurement_tools.Cli.Outcome.{
  Config, Effect, Tool, Error, Outcome, System, ToolEnd, follow, load_or_panic,
}
use odns_measurement_tools.Cli.Scanner.{
  Choice, given, above_neg, not_minus_one, uint16, merge_aliases, overwrite, choose, choose_scan,
  choose_trace, carry_out, profiled, run_loaded, run,
}
use Effect.{start}
use Tool.{tcp_scan, udp_scan, tcp_traceroute, ratelimit}

-- The first setting that is there.
abbrev first_of {ℓ} : {A : Type ℓ} → List (Option A) → A → A
first_of [] default = default
first_of (none ∷ settings) default = first_of settings default
first_of (some a ∷ settings) default = a

abbrev text : Text → Option Text
text [] = none
text (c ∷ s) = some (c ∷ s)

-- A packet rate is set unless it is -2 or less, a verbosity unless it is -1 or less.
abbrev rate : ℤ → Option ℤ
rate (pos m) = some (pos m)
rate (negsuc zero) = some (negsuc zero)
rate (negsuc (suc m)) = none

abbrev level : ℤ → Option ℤ
level (pos m) = some (pos m)
level (negsuc m) = none

abbrev port : ℤ → Option ℕ
port (pos m) = some (uint16 (pos m))
port (negsuc zero) = none
port (negsuc (suc m)) = some (uint16 (negsuc (suc m)))

abbrev pub settings : ScannerFlags → Config → Config
settings flags c = record {
  craft_ethernet = c.craft_ethernet;
  pkts_per_sec = first_of (rate flags.pktrate_alias ∷ rate flags.pktrate ∷ []) c.pkts_per_sec;
  dns_query = first_of (text flags.qname_alias ∷ text flags.qname ∷ []) c.dns_query;
  verbosity = first_of (level flags.debug_alias ∷ level flags.debug_level ∷ []) c.verbosity;
  dst_port = first_of (port flags.port ∷ []) c.dst_port;
}

text_first :
    (a f c : Text)
    → (let s = if given a then a else f in if given s then s else c)
      ≡ first_of (text a ∷ text f ∷ []) c
text_first [] [] c = refl
text_first [] (x ∷ f) c = refl
text_first (x ∷ a) f c = refl

rate_first :
    (a f c : ℤ)
    → (let s = if above_neg 2 a then a else f in if above_neg 2 s then s else c)
      ≡ first_of (rate a ∷ rate f ∷ []) c
rate_first a f c = ground arith

level_first :
    (a f c : ℤ)
    → (let s = if above_neg 1 a then a else f in if above_neg 1 s then s else c)
      ≡ first_of (level a ∷ level f ∷ []) c
level_first a f c = ground arith

port_first : (p : ℤ) (c : ℕ) → (if not_minus_one p then uint16 p else c) ≡ first_of (port p ∷ []) c
port_first p c = ground arith

overwrite-settings :
    (flags : ScannerFlags) (c : Config) → overwrite (merge_aliases flags) c ≡ settings flags c
unfolding overwrite merge_aliases
overwrite-settings flags c = ground (
  arith,
  text_first flags.qname_alias flags.qname c.dns_query,
  rate_first flags.pktrate_alias flags.pktrate c.pkts_per_sec,
  level_first flags.debug_alias flags.debug_level c.verbosity,
  port_first flags.port c.dst_port,
)

-- What a tool of the subcommand sees, a tool that does not read the configuration aside.
abbrev Reads : Config → Tool → Type 0
Reads c (tcp_scan args out seen) = seen ≡ c
Reads c (udp_scan args out seen) = seen ≡ c
Reads c (tcp_traceroute args seen) = seen ≡ c
Reads c (ratelimit args out seen) = seen ≡ c
Reads c _ = ⊥

abbrev pub Sees : Config → Effect → Type 0
Sees c (start t) = Reads c t
Sees c _ = Unit

record Chooses (c : Config) (choice : Choice) : Type 0 where
  effects : (sys : System) → All (Sees c) (carry_out sys false choice).effects
  profiled_effects : (sys : System) → All (Sees c) (carry_out sys true choice).effects

pick_choice :
    (c : Config) (b : Bool) (x y : Choice)
    → Chooses c x
    → Chooses c y
    → Chooses c (if b then x else y)
pick_choice c = if_both (Chooses c)

refuses : (c : Config) (e : Error) → Chooses c (Choice.refused e)
unfolding carry_out
refuses c e = record { effects = λ sys. tt; profiled_effects = λ sys. tt }

follow-Sees :
    (c : Config) (e : ToolEnd) (t : Tool) (o : Outcome)
    → Reads c t
    → All (Sees c) o.effects
    → All (Sees c) (follow e t o).effects
unfolding follow
follow-Sees c ToolEnd.gives_back t o h hs = (h, hs)
follow-Sees c (ToolEnd.exits status) t o h hs = (h, tt)
follow-Sees c ToolEnd.panics t o h hs = (h, tt)

chooses : (c : Config) (t : Tool) → Reads c t → Chooses c (Choice.chosen t)
unfolding carry_out
chooses c t h = record {
  effects = λ sys. follow-Sees c (sys.ends t) t _ h tt;
  profiled_effects = λ sys. follow-Sees c (sys.ends t) t _ h (tt, tt);
}

choose-Chooses : (sc : ScannerFlags) (c : Config) → Chooses c (choose sc c)
unfolding choose choose_scan choose_trace
choose-Chooses sc c = search (pick_choice, refuses, chooses) depth 12

profiled-Sees :
    (c : Config) (sys : System) (profile : Bool) (choice : Choice)
    → Chooses c choice
    → All (Sees c) (profiled sys profile (carry_out sys profile choice)).effects
profiled-Sees c sys true choice h =
    if_both (λ (o : Outcome). All (Sees c) o.effects) sys.profiles _ _ (tt, h.profiled_effects sys)
      (tt, tt)
profiled-Sees c sys false choice h = h.effects sys

run_loaded-Sees :
    (sys : System) (flags : ScannerFlags) (c : Config)
    → All (Sees (settings flags c)) (run_loaded sys (merge_aliases flags) c).effects
unfolding run_loaded
run_loaded-Sees sys flags c = rw (overwrite-settings flags c) (
    profiled-Sees (settings flags c) sys _ _
      (choose-Chooses (merge_aliases flags) (settings flags c)))

abbrev pub file_of : ScannerFlags → Text
file_of flags = first_of (text flags.config_alias ∷ []) flags.config_path

-- What the file is loaded onto: the flag on the Ethernet header comes before it.
abbrev pub onto : ScannerFlags → Config → Config
onto flags cfg = record cfg { craft_ethernet = flags.ethernet_alias || flags.ethernet_header }

file_first : (a f : Text) → (if given a then a else f) ≡ first_of (text a ∷ []) f
file_first [] f = refl
file_first (x ∷ a) f = refl

loaded-Sees :
    (sys : System) (load : Text → Config → Option Config) (cfg : Config) (flags : ScannerFlags)
    (path : Text) {c : Config}
    → load path (onto flags cfg) ≡ some c
    → All
        (Sees (settings flags c))
        (load_or_panic path
          (load path (onto flags cfg))
          (run_loaded sys (merge_aliases flags))).effects
loaded-Sees sys load cfg flags path {c} e = rw e (tt, run_loaded-Sees sys flags c)

if-Sees :
    (c : Config) (b : Bool) (x y : Outcome)
    → All (Sees c) x.effects
    → All (Sees c) y.effects
    → All (Sees c) (if b then x else y).effects
if-Sees c = if_both (λ o. All (Sees c) o.effects)

-- If the configuration file can be read, then a tool that the scanner command starts sees as packet
-- rate, query name and verbosity what the alias sets, or else what the flag sets, or else what the
-- file sets, as port what the flag sets, or else the file, and as choice of the Ethernet header what
-- the file makes of the flags.
pub run-Sees :
    (sys : System) (load : Text → Config → Option Config) (cfg : Config) (flags : ScannerFlags)
    {c : Config}
    → load (file_of flags) (onto flags cfg) ≡ some c
    → All (Sees (settings flags c)) (run sys load cfg flags).effects
unfolding run merge_aliases
run-Sees sys load cfg flags {c} e =
    if-Sees (settings flags c) flags.help_flag _ _ (tt, tt)
      (if-Sees (settings flags c)
        (given (if given flags.config_alias then flags.config_alias else flags.config_path)) _ _
        (rw (file_first flags.config_alias flags.config_path)
          (loaded-Sees sys load cfg flags (file_of flags) e))
        tt)
