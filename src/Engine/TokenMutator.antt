-- ===== src/Engine/TokenMutator.antt =====
-- internal/engine/tokenmutator.go: a mutant of one token, applied to a file and rolled back.
-- The file system, the printer of go/printer and the positions of a `token.FileSet` are parameters.
-- The lock on the file is held for the whole of `Apply`, so an application is one step here.
pub mod Laws
use mathlib.Core.Path.{fun_ext}
use gremlins.Prelude.{ℕ, Bool, true, false, Option, none, some, List, [], Text, if◌then◌else◌}
use gremlins.FilePath.{join}
use gremlins.Token.{Token, Position, illegal}
use gremlins.Mutator.{Status, MutantType, Mutant, not_covered, arithmetic_base}
use gremlins.Engine.Mappings.{mutated_token}
use gremlins.Engine.Node.{Store, NodeToken, node_tok, set_tok}
use gremlins.Engine.Snippet.{extract_snippet}

-- What the program uses of the operating system and of go/printer. The flag is true if there is no
-- error; an operation that fails may still have read or written something.
pub record Os : Type 1 where
  pub Disk : Type 0
  pub read_file : Text → Disk → Text × Bool
  pub write_file : Text → Text → Disk → Disk × Bool
  pub print_file : ℕ → Store → Option Text

-- The fields of `TokenMutator`. `file` names the syntax tree; a tree that is shared is named twice.
pub record TokenMutator : Type 0 where
  pub pkg : Text
  pub fs : ℕ → Position
  pub file : ℕ
  pub token_node : NodeToken
  pub work_dir : Text
  pub orig_file : Text
  pub status : Status
  pub mutant_type : MutantType
  pub actual_token : Token
  pub orig_snippet : Text
  pub mutated_snippet : Text

-- `NewTokenMutant`: what is not given has its zero value.
unfoldable pub new_token_mutant : Text → (ℕ → Position) → ℕ → NodeToken → TokenMutator
new_token_mutant pkg fs file node = record {
  pkg = pkg;
  fs = fs;
  file = file;
  token_node = node;
  work_dir = [];
  orig_file = [];
  status = not_covered;
  mutant_type = arithmetic_base;
  actual_token = illegal;
  orig_snippet = [];
  mutated_snippet = [];
}

-- `Position`.
abbrev pub position : TokenMutator → Position
position m = m.fs m.token_node.tok_pos

-- `SetType`, `SetStatus`, `SetWorkdir`.
unfoldable pub set_type : MutantType → TokenMutator → TokenMutator
set_type mt m = record m { mutant_type = mt }

unfoldable pub set_status : Status → TokenMutator → TokenMutator
set_status s m = record m { status = s }

unfoldable pub set_workdir : Text → TokenMutator → TokenMutator
set_workdir path m = record m { work_dir = path }

-- What the interface shows of the mutant.
unfoldable pub view : TokenMutator → Mutant
view m = record {
  mutant_type = m.mutant_type;
  status = m.status;
  position = position m;
  pkg = m.pkg;
  workdir = m.work_dir;
  orig_snippet = m.orig_snippet;
  mutated_snippet = m.mutated_snippet;
}

-- The file that a mutant is written to.
abbrev pub target : TokenMutator → Text
target m = join m.work_dir (position m).filename

pub data ApplyError : Type 0 where
  read_failed print_failed write_failed : ApplyError

module _ (os : Os) where
  open os use {Disk, read_file, write_file, print_file}

  -- The shared state: the token fields of the syntax trees, and the disk.
  pub record World : Type 0 where
    pub ast : Store
    pub disk : Disk

  -- `writeMutatedFile`.
  unfoldable pub write_mutated_file :
      Text → TokenMutator → World → Option ApplyError × TokenMutator × World
  write_mutated_file filename m w = elim (print_file m.file w.ast) [
    | none ↦ (some print_failed, m, w)
    | some payload ↦
        let (disk', fine) = write_file filename payload w.disk in
        if fine
        then (
          none,
          record m { mutated_snippet = extract_snippet payload (position m).line 3 },
          record w { disk = disk' },
        )
        else (some write_failed, m, record w { disk = disk' })
  ]

  -- What `Apply` does once the file is written: with an error it returns at once, otherwise it puts
  -- the token back.
  put_back : Option ApplyError × TokenMutator × World → Option ApplyError × TokenMutator × World
  put_back (some e, m, w) = (some e, m, w)
  put_back (none, m, w) = (none, m, record w { ast = set_tok m.token_node m.actual_token w.ast })

  -- `Apply`, once the file is read.
  apply_read : TokenMutator → World → Option ApplyError × TokenMutator × World
  unfolding write_mutated_file put_back
  apply_read m w =
      let snippet = extract_snippet m.orig_file (position m).line 3 in
      let actual = node_tok m.token_node w.ast in
      let m' = record m { orig_snippet = snippet; actual_token = actual } in
      let tok = mutated_token m.mutant_type actual in
      put_back
        (write_mutated_file (target m) m' (record w { ast = set_tok m.token_node tok w.ast }))

  -- `Apply`.
  unfoldable pub apply : TokenMutator → World → Option ApplyError × TokenMutator × World
  unfolding apply_read
  apply m w =
      let (content, fine) = read_file (target m) w.disk in
      let m' = record m { orig_file = content } in
      if fine then apply_read m' w else (some read_failed, m', w)

  -- `Rollback`, with `resetOrigFile`; the flag is true if there is no error.
  unfoldable pub rollback : TokenMutator → World → Bool × TokenMutator × World
  rollback m w =
      let (disk', fine) = write_file (target m) m.orig_file w.disk in
      (fine, record m { orig_file = [] }, record w { disk = disk' })
