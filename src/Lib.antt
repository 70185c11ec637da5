-- ===== src/Lib.antt =====
-- gremlins: a model of the mutation tester in this repository, and what holds of it.
--
-- The program. `gremlins unleash` runs the tests of a Go module once for a coverage profile,
-- reads the diff of the working tree if it is asked to, and walks over the module's files. At
-- each syntax node whose token can be mutated it makes one mutant for each enabled type. A pool
-- of workers tests the mutants: each has a copy of the module, writes the mutated file there,
-- runs `go test`, and writes the old content back. A report counts the outcomes, and the exit
-- code says whether the thresholds are met.
--
-- The files:
-- * Mutator models internal/mutator/mutator.go (`Status`, `Type`, `String`, the interface
--   `Mutator` as the record `Mutant`); Mutator/Names is about the names.
-- * Token models what internal/engine uses of go/token.
-- * FilePath models what the program uses of path/filepath: `Clean`, `Join`, `Dir`, `Rel`, with
--   the separator `/`.
-- * FilePath/Climb models the loop up over the folders of a path, which `findModuleRoot` (twice)
--   and `pkgName` share; FilePath/Sizes is about the lengths of paths, and FilePath/Plain about
--   `Rel` between paths with no `.` or `..`.
-- * GoModule models internal/gomodule/gomodule.go (`Init` is init_module, `modPkg`,
--   `findModuleRoot`); GoModule/Laws is about the module found.
-- * Engine/Mappings models internal/engine/mappings.go (`TokenMutantType` is token_mutant_type,
--   `tokenMutations` is token_mutations); Mappings/Tables and Mappings/Meaning are about the
--   tables.
-- * Engine/Node models internal/engine/node.go: a syntax node is an address, and the token
--   fields of the trees are a store that every mutant of a file shares, so that `SetTok` is seen
--   by all of them.
-- * Engine/Snippet models `extractSnippet`, and Engine/TokenMutator the rest of
--   internal/engine/tokenmutator.go (`Apply`, `writeMutatedFile`, `Rollback`, the setters);
--   TokenMutator/Laws and Snippet/Laws are about them.
-- * Engine/Locks models `Apply` again, by several workers on shared trees with the table of
--   `fileLock` and `cachedLock`, as a step relation; Locks/Spec is what the locks are for,
--   Locks/Invariant, Locks/Preservation and Locks/Refinement relate the two.
-- * Engine/Executor models internal/engine/executor.go (`NewExecutorDealer`, `Start`,
--   `runTests`, `run`, `getTestArgs`, `getTestFailedStatus`); Executor/Laws and Executor/Sent
--   are about `Start`, and Executor/Bounds is about the time of a test run.
-- * Engine/Process models `run` again, with `setupProcessGroup` and `killProcessGroup` of
--   internal/engine/process_unix.go and process_windows.go, as a step relation between its
--   goroutines, the processes of the command and the clock; Process/Orphans and Process/Timeout
--   are about it.
-- * Engine/Workdir models internal/engine/workdir/workdir.go (`Get`, `Clean`, the copy of the
--   tree and the cache); Workdir/Laws is about the cache. Workdir/Shared models `Get` by several
--   workers on one cache as a step relation, and Shared/Invariant and Shared/Apart are about
--   their folders.
-- * Engine/Pool models internal/engine/workerpool/workerpool.go with `executeTests` of
--   internal/engine/engine.go, as a step relation; Pool/Invariant, Pool/Progress and Pool/Size
--   are about it. Its workers are only counted; Engine/Workers models the same with a name, a
--   place and a `stopCh` for each (`NewWorker`, `Worker.Start`, `Pool.Start`, `Pool.Stop`),
--   Workers/Invariant, Workers/Refinement and Workers/Progress relate the two, Workers/Ending is
--   about the end of its histories, Workers/Cancelled about what follows a cancellation,
--   Workers/None is about a pool without workers, and Workers/Folders has the identifier by
--   which `Start` asks for a folder.
-- * Engine/PkgName models `pkgName` and `normalisePkgPath` of internal/engine/engine.go.
-- * Engine/Totals relates the stream of mutants to the statistics of the report. Engine/Run
--   models `New` with its options, and `Run` as a whole, as a relation between an engine and its
--   results; Run/Report is about the report that is made of them.
-- * Engine/Walk models the search of internal/engine/engine.go (`Run`, `runOnFile`,
--   `findMutations`, `mutationStatus`); Walk/Laws and Walk/Reference are about the mutants it
--   finds.
-- * Coverage/Profile and Coverage/Parse model internal/coverage/profile.go and coverage.go;
--   Coverage/Run models its `Run`; Profile/Intervals and Parse/Laws are about `IsCovered` and
--   `parse`, and Parse/Names about `removeModuleFromPath`.
-- * Diff models internal/diff/diff.go and parse.go; Diff/Lines and Diff/Files are about the
--   changed lines.
-- * Exclusion models internal/exclusion/rules.go; Exclusion/Laws is about it.
-- * Execution models internal/execution/execution.go, and the exit code of cmd/gremlins/main.go.
-- * Report and Report/Assess model internal/report/report.go and
--   internal/report/internal/structure.go; Report/Counters and Report/Thresholds are about the
--   statistics and the result, and Report/Float holds the operations of float64.
-- * Report/Lines models the lines that `Mutant` and `MutantDiff` log, with `generateDiff`;
--   Report/Summary models the lines that `Do` logs.
-- * Report/Logger models internal/report/logger.go; Logger/Shown is about the mutants that are
--   logged.
-- * Configuration models the keys and defaults of internal/configuration, Configuration/Paths
--   its `Init`, Configuration/Values its `Get` and `Set`.
-- * Log models internal/log/log.go; Log/Order is about what its writers get.
-- * Command/Flags models the flags of cmd/unleash.go, cmd/gremlins.go and
--   cmd/internal/flags/flags.go, Command/Unleash `run` and `runUnleash`, Command/Cancel the
--   goroutines of `runWithCancel` and Command/Signals that of `ctxDoneOnSignal` of
--   cmd/gremlins/main.go as step relations, Command/Root `newRootCmd` and `Execute` of
--   cmd/gremlins.go with `main` of cmd/gremlins/main.go; Unleash/Outcome, Unleash/Counts and
--   Root/Codes are about them.
-- * Prelude holds the names that the others share, and Tests applies the theorems at concrete
--   inputs.
--
-- How the parts interact. Engine.Walk asks Coverage.Profile and Diff for the status of a
-- position, and makes the mutants of Engine.TokenMutator. Engine.Executor takes its folder from
-- a `Dealer`, the interface that Engine.Workdir implements, and drives `apply` and `rollback`.
-- Engine.Pool abstracts from what a worker does: its mutants are of any type. Engine.Workers
-- refines it, and its workers are those that ask the cache of Engine.Workdir.Shared.
-- Engine.Process refines the function `run` of Engine.Executor. Report takes the mutants as the
-- records `Mutant` that `view` makes. Engine.Locks refines the single step that `apply` is in
-- Engine.TokenMutator. Command.Root calls Command.Unleash. Command.Unleash puts GoModule, Diff,
-- Exclusion, Coverage.Run, the engine and Report.Assess one after the other.
--
-- What is a parameter, with its documented behaviour as hypotheses where a theorem needs it: the
-- file system and go/printer (`Os` with `OsLaws` for the mutants; `Fs` with `FsLaws` for the
-- copies of the module), the run of a command (`Exec`), the text of numbers and durations
-- (`Format`), float64 (`Float64` with `FloatLaws`), go/parser and the walks of go/ast and io/fs,
-- the parser of coverage profiles, git and its parser of diffs, viper, pflag, the diff library
-- of the logger, and the compiler of regular expressions. Tests/Toy gives concrete functions for
-- them, for which the hypotheses hold.
--
-- Numbers and bounds. Lines, columns, counters and durations are natural numbers; a measured
-- duration in nanoseconds is below 2 ^ 63, and the counters are below 2 ^ 63 too. Where an int
-- of Go may be negative (exit codes, the numbers of workers and of CPUs, the coefficient and the
-- time of a test run, thresholds) it is ℤ of Prelude; products, sums and quotients of these wrap
-- around to 64 bits (Prelude/Int64). Every loop is a recursion on its list, but for the loop of
-- FilePath/Climb, which has the length of its path and three more as fuel; a theorem says that
-- this is enough. A history of the pool is a finite sequence of steps; its length is bounded by
-- a theorem.
--
-- What is not modelled: a panic but for those of a worker without a folder and of a second
-- signal, the locks of viper, the texts of the help, and the formatting and the colours of
-- messages. They are calls of libraries, system calls and output. In Command/Unleash the engine
-- is a parameter, since Engine/Run has many outcomes where it has one; Unleash/Counts has as a
-- hypothesis that its results are those of one of them. A run in Engine/Run has for each mutant
-- that is delivered a worker of the pool and a world in which the `Start` of its executor sends
-- it; what one executor leaves for the next is followed in Engine/Locks and TokenMutator/Laws
-- only. That a worker panics, and that a second signal comes, are outcomes of the engine and of
-- the surroundings; Engine/Executor and Command/Signals have them in detail.
pub mod Prelude
pub mod Mutator
pub mod Token
pub mod FilePath
pub mod GoModule
pub mod Engine
pub mod Coverage
pub mod Diff
pub mod Exclusion
pub mod Execution
pub mod Report
pub mod Configuration
pub mod Log
pub mod Command
mod Tests
