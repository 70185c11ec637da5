-- ===== src/Tests/Commands.antt =====
-- The command at small inputs: a module in the folder "m", and a system of one file.
use gremlins.Prelude.{
  List, ℕ, ◌+◌, ◌≡◌, ◌⊎◌, arith, refl, true, false, [], ◌∷◌, ◌++◌, Option, none, some, Text, codes,
  text_eq, if◌then◌else◌,
}
use gremlins.Prelude.GoText.{has_suffix}
use gremlins.FilePath.{join, dir}
use gremlins.FilePath.Climb.{find_above, find_above-FirstAbove, FirstAbove}
use gremlins.GoModule.{GoModule, Files, found, init_module}
use gremlins.Engine.PkgName.{pkg_name, pkg_name_lem}
use gremlins.Coverage.Parse.{Coverage, parse}
use gremlins.Coverage.Run.{System, new_coverage, run_coverage, gathered}
use gremlins.Report.Assess.{Config, unset}
use gremlins.Command.Unleash.{Tools, Options}
use gremlins.Command.Flags.{FlagLib}
use gremlins.Command.Root.{Surroundings, unleashes}
use gremlins.Command.Cancel
use gremlins.Command.Signals
use gremlins.Tests.Toy.{toy_module, float_ℕ}

find_above-FirstAbove_example :
    FirstAbove (text_eq (codes "m")) (codes "m/a") (find_above (text_eq (codes "m")) (codes "m/a"))
find_above-FirstAbove_example = find_above-FirstAbove (text_eq (codes "m")) (codes "m/a")

-- A go.mod in the folder "m", whose first line names the module.
abbrev toy_files : Files
toy_files = record {
  is_file = text_eq (codes "m/go.mod");
  first_line = λ p. if text_eq p (codes "m/go.mod") then some (codes "module x") else none;
}

abbrev here : GoModule
here = record { name = codes "x"; root = codes "m"; calling_dir = codes "a" }

init_module-here : init_module toy_files (codes "m/a") ≡ found here
unfolding init_module join dir
init_module-here = refl

pkg_name_lem_example :
    (o : Option Text) × FirstAbove
      (λ p. has_suffix p (codes "util"))
      (dir (toy_module.calling_dir ++ codes "/" ++ codes "util/a.go"))
      o
    × (((o ≡ none) × (pkg_name toy_module (codes "util/a.go") (codes "util") ≡ toy_module.name))
        ⊎ ((p : Text) × (o ≡ some p)
            × (pkg_name toy_module (codes "util/a.go") (codes "util")
                ≡ toy_module.name ++ codes "/" ++ p)))
pkg_name_lem_example = pkg_name_lem toy_module (codes "util/a.go") (codes "util")

-- Every command goes well in three nanoseconds, and leaves a profile of no file.
abbrev pub toy_system : System
toy_system = record {
  World = ℕ;
  chdir = λ folder w. w;
  go = λ args w. (true, 3, w + 1);
  open_file = λ p w. some (codes "mode: set");
  parse_profiles = λ text. some [];
}

abbrev toy_coverage : Coverage
toy_coverage = new_coverage (codes "/tmp") here [] [] false

gathered_here : run_coverage toy_system toy_coverage 0 ≡ (gathered [] 3, 2)
unfolding run_coverage parse
gathered_here = refl

abbrev pub toy_tools : Tools
toy_tools = record {
  sys = toy_system;
  git = λ r. none;
  parse_diff = λ text. none;
  compile = λ s. none;
  files = toy_files;
  mkdir_temp = λ w. (some (codes "/tmp"), w);
  remove_all = λ folder w. w;
  engine = λ m code elapsed w.
      (some (record { module_name = m.name; mutants = []; elapsed = elapsed }), w);
  clean = λ w. w;
}

abbrev pub toy_options : Options
toy_options = record {
  diff_ref = [];
  exclude_files = [];
  build_tags = [];
  cover_pkg = [];
  integration_mode = false;
}

abbrev toy_config : Config float_ℕ
toy_config = record { dry_run = false; output = []; efficacy = unset; mutant_coverage = unset }

reported_after_signal_example :
    (s : Cancel.State ℕ) × Cancel.Reach (λ r. false) Cancel.start s
    × (s.seen ≡ true)
    × (s.given ≡ some 7)
    × (s.ended ≡ some (Cancel.with_report 7))
reported_after_signal_example = Cancel.reported_after_signal (λ r. false) 7 refl

-- A library of flags that keeps the names of the flags.
abbrev toy_flags : FlagLib
toy_flags = record {
  FlagSet = List Text;
  define = λ name v names. name ∷ names;
  define_p = λ name shorthand v names. name ∷ names;
  bind = λ key name names. some names;
}

abbrev toy_surroundings : Surroundings toy_tools float_ℕ toy_flags
toy_surroundings = record {
  call = λ unleash root. unleashes [] [];
  env = record {
    home_config = none;
    home_gremlins = none;
    xdg_config_home = [];
    getwd = codes "m";
    is_file = λ path. false;
  };
  readable = λ path. false;
  config = λ read. toy_config;
  options = λ read. toy_options;
  cwd = codes "m/a";
  cancelled = false;
  second_signal = none;
}

-- One interrupt.
second_signal_panics_example : (t : Signals.State) × Signals.Doomed (Signals.deliver Signals.init) t
unfolding Signals.deliver
second_signal_panics_example =
    Signals.second_signal_panics (Signals.next Signals.here (Signals.signal refl refl)) refl
      (ground arith)
