-- ===== src/Command/Root.antt =====
-- cmd/gremlins.go and cmd/gremlins/main.go: the root command, and the exit code of the program.
-- What cobra makes of the arguments is a parameter, and so is what viper reads.
pub mod Codes
use gremlins.Prelude.{
  ℕ, Bool, true, false, List, [], ◌∷◌, ◌++◌, Option, none, some, Text, codes, text_eq, length, leb,
  if◌then◌else◌, map,
}
use gremlins.Mutator.{types}
use gremlins.Configuration.Values.{string}
use gremlins.Configuration.Paths as Paths
use gremlins.Configuration.Paths.{Env, init_config}
use gremlins.Command.Flags.{
  FlagLib, unleash_flags, mutant_type_flag, silent_flag, set_flags, set_all,
}
use gremlins.Command.Unleash.{Tools, Options, Finish, gives, panicked, run_unleash}
use gremlins.Execution.{Failure, fails, main_exit_code}
use gremlins.Report.Float.{Float64}
use gremlins.Report.Assess.{Config}

-- `buildVersion`.
unfoldable pub build_version : Text → Text → Text → Text
build_version version goos goarch = version ++ (codes " " ++ (goos ++ (codes "/" ++ goarch)))

-- What cobra finds in the arguments: help or the version is shown, they are not understood, or they
-- call `unleash` with the file given by `--config`, "" if none is, and the arguments left.
pub data Call : Type 0 where
  shows misused : Call
  unleashes : Text → List Text → Call

-- How the call of `Execute` ends: it returns to `main`, or the program exits from within, as Go's
-- runtime does with the code 2 on a panic.
pub data Ended : Type 0 where
  returned : Option Failure → Ended
  exited : ℕ → Ended

code_of : Ended → ℕ
unfolding main_exit_code
code_of (returned failure) = main_exit_code failure
code_of (exited n) = n

ended_by : Finish → Ended
ended_by (gives failure) = returned failure
ended_by panicked = exited 2

-- `newUnleashCmd`: the flags of `unleash`, or an error.
unfoldable pub new_unleash_cmd : (lib : FlagLib) → lib.FlagSet → Option lib.FlagSet
unfolding unleash_flags mutant_type_flag types set_all
new_unleash_cmd lib fs = set_all lib (unleash_flags ++ map mutant_type_flag types) fs

-- `newRootCmd`: the flags of `unleash` and the persistent flags, or an error.
unfoldable pub new_root_cmd :
    (lib : FlagLib) → Text → lib.FlagSet → Option (lib.FlagSet × lib.FlagSet)
unfolding new_unleash_cmd set_flags text_eq
new_root_cmd lib version fs = if text_eq version [] then none else elim (new_unleash_cmd lib fs) [
  | none ↦ none
  | some unleash ↦ elim (set_flags lib silent_flag fs) [
    | none ↦ none
    | some persistent ↦ some (unleash, persistent)
  ]
]

module _ (t : Tools) (f : Float64) (lib : FlagLib) where
  -- What the command reads of its surroundings: the arguments, the environment of `Init`, the files
  -- that viper can read, the values it then has, the working directory, whether `runUnleash` sees a
  -- cancellation, and whether a second signal comes.
  pub record Surroundings : Type 0 where
    pub call : lib.FlagSet → lib.FlagSet → Call
    pub env : Env
    pub readable : Text → Bool
    pub config : Paths.InitResult → Config f
    pub options : Paths.InitResult → Options
    pub cwd : Text
    pub cancelled : Bool
    -- The world that is left where a second signal comes while the program runs: see Command/Signals.
    pub second_signal : Option t.World

  -- `cobra.MaximumNArgs(1)`, and then `runUnleash`.
  unleash : Surroundings → Paths.InitResult → List Text → t.World → Ended × t.World
  unfolding run_unleash ended_by
  unleash e read args w =
      let (finish, w') =
        run_unleash t f (e.config read) (e.options read) e.cancelled e.cwd args w in
      if leb (length args) 1
      then (ended_by finish, w')
      else (returned (some (fails (codes "too many arguments"))), w)

  -- The function given to `OnInitialize`, and then the command.
  initialised : Surroundings → List Text → Paths.InitResult → t.World → Ended × t.World
  unfolding unleash
  initialised e args Paths.cannot_read w = (exited 1, w)
  initialised e args (Paths.set file folders) w = unleash e (Paths.set file folders) args w

  dispatch : Surroundings → Call → t.World → Ended × t.World
  unfolding initialised init_config
  dispatch e shows w = (returned none, w)
  dispatch e misused w = (returned (some (fails (codes "usage"))), w)
  dispatch e (unleashes file args) w =
      initialised e args (init_config e.env e.readable (file ∷ [])) w

  -- `Execute`, once the root command is built or has failed to be; its `execute` adds `--config`.
  built : Surroundings → Option (lib.FlagSet × lib.FlagSet) → t.World → Ended × t.World
  unfolding dispatch
  built e none w = (returned (some (fails (codes "root command"))), w)
  built e (some (unl, persistent)) w =
      dispatch e (e.call unl (lib.define (codes "config") (string []) persistent)) w

  -- `Execute`.
  unfoldable pub execute : Surroundings → Text → lib.FlagSet → t.World → Ended × t.World
  unfolding built new_root_cmd
  execute e version fs w = built e (new_root_cmd lib version fs) w

  -- The program ends where `Execute` does, if a second signal does not end it before.
  left_with : Option t.World → Ended × t.World → ℕ × t.World
  unfolding code_of
  left_with none (ended, w) = (code_of ended, w)
  left_with (some w₂) after = (2, w₂)

  -- `main`: the exit code of the program.
  unfoldable pub main : Surroundings → Text → Text → Text → lib.FlagSet → t.World → ℕ × t.World
  unfolding left_with execute build_version
  main e version goos goarch fs w =
      left_with e.second_signal (execute e (build_version version goos goarch) fs w)
