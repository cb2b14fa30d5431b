-- ===== src/Cli/Starts.antt =====
-- How often a run starts a tool, and how it ends (src/dns_tool.go).
use odns_measurement_tools.Base.{
  ◌≡◌, ◌≢◌, refl, sym, ap, ◌∙◌, ◌⊎◌, inl, inr, ◌↔◌, arith, if_both, some_injective, ◌≤◌, ℕ, Bool,
  true, false, Option, none, some, List, [], ◌∷◌, if◌then◌else◌,
}
use odns_measurement_tools.Text.Defs.{Text}
use odns_measurement_tools.Cli.Flags.{ScannerFlags}
use odns_measurement_tools.Cli.Outcome.{
  Config, Effect, Error, Outcome, Tool, System, ToolEnd, refuse, finish, follow, launch,
  load_or_panic, starts, exit_status,
}
use odns_measurement_tools.Cli.Scanner
use odns_measurement_tools.Cli.Scanner.{Choice, carry_out, profiled, run_loaded}
use Effect.{usage, list_commands, start}

-- All that is done is to print the help of a subcommand or the list of them.
abbrev pub IsHelp : List Effect → Type 0
IsHelp (usage ∷ []) = Unit
IsHelp (list_commands ∷ []) = Unit
IsHelp _ = ⊥

-- The exit status that the end of a tool asks for, where 2 is that of a panic.
abbrev pub status_of : ToolEnd → ℕ
status_of ToolEnd.gives_back = 0
status_of (ToolEnd.exits status) = status
status_of ToolEnd.panics = 2

-- That of the tool that is started.
abbrev pub tool_status : (Tool → ToolEnd) → List Effect → Option ℕ
tool_status ends [] = none
tool_status ends (start t ∷ es) = some (status_of (ends t))
tool_status ends (e ∷ es) = tool_status ends es

-- At most one tool is started, and the status is 0 exactly if there is a tool that asks for it.
record IsRun (sys : System) (o : Outcome) : Type 0 where
  few : starts o.effects ≤ 1
  fits : (exit_status o.ending ≡ 0) ↔ (tool_status sys.ends o.effects ≡ some 0)

-- The same, or help has been printed.
record IsAccounted (sys : System) (o : Outcome) : Type 0 where
  few : starts o.effects ≤ 1
  fits : (exit_status o.ending ≡ 0) ↔ ((tool_status sys.ends o.effects ≡ some 0) ⊎ IsHelp o.effects)

no_tool : {code : ℕ} → code ≢ 0 → (code ≡ 0) ↔ (◌≡◌ {A = Option ℕ} none (some 0))
no_tool h = ((λ e. absurd (h e)), (λ e. absurd cc))

no_help : {A B H : Type 0} → A ↔ B → ¬ H → A ↔ (B ⊎ H)
no_help {A = A} {B = B} {H = H} (f, g) quiet = ((λ a. inl (f a)), from g)
  where
    from : (B → A) → B ⊎ H → A
    from g (inl b) = g b
    from g (inr h) = absurd (quiet h)

-- A tool with its own status, and nothing behind it that starts another one.
follow-IsRun :
    (sys : System) (e : ToolEnd) (t : Tool) (more : List Effect)
    → sys.ends t ≡ e
    → starts more ≡ 0
    → IsRun sys (follow e t (finish more))
unfolding follow
follow-IsRun sys ToolEnd.gives_back t more same idle = record {
  few = omega arith;
  fits = ((λ z. ap (λ x. some (status_of x)) same), (λ z. refl));
}
follow-IsRun sys (ToolEnd.exits status) t more same idle = record {
  few = omega arith;
  fits = (
    (λ z. ap (λ x. some (status_of x)) same ∙ ap some z),
    λ z. some_injective (ap (λ x. some (status_of x)) (sym same) ∙ z),
  );
}
follow-IsRun sys ToolEnd.panics t more same idle = record {
  few = omega arith;
  fits = (
    (λ z. absurd (omega arith)),
    λ z. some_injective (ap (λ x. some (status_of x)) (sym same) ∙ z),
  );
}

refuse-IsRun : (sys : System) (e : Error) → IsRun sys (refuse e)
refuse-IsRun sys e = record { few = omega arith; fits = no_tool (λ z. omega arith) }

carry_out-IsRun : (sys : System) (profile : Bool) (c : Choice) → IsRun sys (carry_out sys profile c)
unfolding carry_out
carry_out-IsRun sys true (Choice.refused e) = refuse-IsRun sys e
carry_out-IsRun sys true (Choice.chosen t) = follow-IsRun sys (sys.ends t) t _ refl refl
carry_out-IsRun sys false (Choice.refused e) = refuse-IsRun sys e
carry_out-IsRun sys false (Choice.chosen t) = follow-IsRun sys (sys.ends t) t _ refl refl

profiled-IsRun :
    (sys : System) (profile : Bool) (o : Outcome) → IsRun sys o → IsRun sys (profiled sys profile o)
profiled-IsRun sys true o h =
    if_both (IsRun sys) sys.profiles _ _ (record { few = h.few; fits = h.fits })
      (record { few = omega arith; fits = no_tool (λ z. omega arith) })
profiled-IsRun sys false o h = h

run_loaded-IsRun :
    (sys : System) (sc : ScannerFlags) (cfg : Config) → IsRun sys (run_loaded sys sc cfg)
unfolding run_loaded
run_loaded-IsRun sys sc cfg = profiled-IsRun sys sc.profile _ (carry_out-IsRun sys sc.profile _)

load_or_panic-IsAccounted {ℓ} :
    {A : Type ℓ} (sys : System) (path : Text) (o : Option A) (k : A → Outcome)
    → ((a : A) → IsRun sys (k a))
    → IsAccounted sys (load_or_panic path o k)
load_or_panic-IsAccounted sys path none k h = record {
  few = omega arith;
  fits = no_help (no_tool (λ z. omega arith)) (λ x. x);
}
load_or_panic-IsAccounted sys path (some a) k h = record {
  few = (h a).few;
  fits = no_help (h a).fits (λ x. x);
}

help : (sys : System) → IsAccounted sys (finish (usage ∷ []))
help sys = record { few = omega arith; fits = ((λ _. inr tt), (λ _. refl)) }

pick :
    (sys : System) (b : Bool) (x y : Outcome)
    → IsAccounted sys x
    → IsAccounted sys y
    → IsAccounted sys (if b then x else y)
pick sys = if_both (IsAccounted sys)

-- Of the tool that a command starts at its end.
started : (sys : System) (t : Tool) → IsRun sys (launch sys t (finish []))
started sys t = follow-IsRun sys (sys.ends t) t [] refl refl

failed : (sys : System) (e : Error) → IsAccounted sys (refuse e)
failed sys e = record { few = omega arith; fits = no_help (refuse-IsRun sys e).fits (λ x. x) }

IsHelp-follow : (e : ToolEnd) (t : Tool) → ¬ IsHelp (follow e t (finish [])).effects
unfolding follow
IsHelp-follow ToolEnd.gives_back t h = h
IsHelp-follow (ToolEnd.exits status) t h = h
IsHelp-follow ToolEnd.panics t h = h

done : (sys : System) (t : Tool) → IsAccounted sys (launch sys t (finish []))
done sys t = record {
  few = (started sys t).few;
  fits = no_help (started sys t).fits (IsHelp-follow (sys.ends t) t);
}

listed : (sys : System) → IsAccounted sys (finish (list_commands ∷ []))
listed sys = record { few = omega arith; fits = ((λ _. inr tt), (λ _. refl)) }

ruleset accounting =
    (pick, help, load_or_panic-IsAccounted, run_loaded-IsRun, started, failed, done, listed)
