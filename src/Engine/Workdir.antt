-- ===== src/Engine/Workdir.antt =====
-- internal/engine/workdir/workdir.go: a copy of the module for each worker.
-- The file system is a parameter. `filepath.Walk` is the list of what it visits; it stops at the
-- first error of the function that it calls.
pub mod Laws
pub mod Shared
use gremlins.Prelude.{
  Bool, true, false, List, [], ◌∷◌, Option, none, some, Text, codes, text_eq, if◌then◌else◌,
}
use gremlins.Prelude.GoMap.{GoMap, lookup, insert}
use gremlins.FilePath.{join, rel}

pub data Mode : Type 0 where
  directory regular irregular : Mode

-- One call of the function that `filepath.Walk` is given.
pub record Visit : Type 0 where
  pub src_path : Text
  pub mode : Mode
  pub failed : Bool

pub data Mkdir : Type 0 where
  made already_exists mkdir_failed : Mkdir

-- What the program uses of the file system; a flag is true if there is no error.
pub record Fs : Type 1 where
  pub Disk : Type 0
  pub mkdir_temp : Text → Disk → Option Text × Disk
  pub walk : Text → Disk → List Visit
  pub mkdir : Text → Disk → Mkdir × Disk
  pub open_source : Text → Disk → Bool
  pub open_target : Text → Disk → Bool × Disk
  pub io_copy : Text → Text → Disk → Bool × Disk
  pub remove_tree : Text → Disk → Bool × Disk

-- The interface `Dealer` of a disk.
pub record Dealer (Disk : Type 0) : Type 1 where
  pub Cache : Type 0
  pub get : Text → Cache → Disk → Option Text × Cache × Disk
  pub work_dir : Cache → Text

-- `CachedDealer`: the folders by identifier.
pub record CachedDealer : Type 0 where
  pub cache : GoMap Text
  pub work_dir : Text
  pub src_dir : Text

-- `NewCachedDealer`.
unfoldable pub new_cached_dealer : Text → Text → CachedDealer
new_cached_dealer work_dir src_dir = record { cache = []; work_dir = work_dir; src_dir = src_dir }

-- `fromCache`.
unfoldable pub from_cache : CachedDealer → Text → Option Text
from_cache cd idf = lookup idf cd.cache

-- `setCache`.
unfoldable pub set_cache : CachedDealer → Text → Text → CachedDealer
set_cache cd idf folder = record cd { cache = insert idf folder cd.cache }

module _ (fs : Fs) where
  open fs use {Disk, mkdir_temp, walk, mkdir, open_source, open_target, io_copy, remove_tree}

  -- `doCopy`.
  unfoldable pub do_copy : Text → Text → Disk → Bool × Disk
  do_copy src dst d =
      let (opened, d') = open_target dst d in
      if open_source src d then if opened then io_copy src dst d' else (false, d') else (false, d)

  copy_dir : Mkdir → Bool
  copy_dir made = true
  copy_dir already_exists = true
  copy_dir mkdir_failed = false

  -- `copyPath`.
  unfoldable pub copy_path : Text → Text → Mode → Disk → Bool × Disk
  unfolding do_copy copy_dir
  copy_path src dst directory d = let (result, d') = mkdir dst d in (copy_dir result, d')
  copy_path src dst regular d = do_copy src dst d
  copy_path src dst irregular d = (true, d)

  -- `copyTo`.
  unfoldable pub copy_to : CachedDealer → Text → Visit → Disk → Bool × Disk
  unfolding copy_path text_eq
  copy_to cd dst v d = if v.failed then (false, d) else elim (rel cd.src_dir v.src_path) [
    | none ↦ (false, d)
    | some path ↦
        if text_eq path (codes ".")
        then (true, d)
        else copy_path v.src_path (join dst path) v.mode d
  ]

  unfoldable pub copy_all : CachedDealer → Text → List Visit → Disk → Bool × Disk
  unfolding copy_to
  copy_all cd dst [] d = (true, d)
  copy_all cd dst (v ∷ vs) d =
      let (fine, d') = copy_to cd dst v d in
      let rest = copy_all cd dst vs d' in if fine then rest else (false, d')

  -- What `Get` does where the cache has no folder.
  unfoldable pub get_new : Text → CachedDealer → Disk → Option Text × CachedDealer × Disk
  unfolding copy_all set_cache
  get_new idf cd d =
      let (made_dir, d₁) = mkdir_temp cd.work_dir d in
      elim made_dir [
        | none ↦ (none, cd, d₁)
        | some dst ↦
            let (fine, d₂) = copy_all cd dst (walk cd.src_dir d₁) d₁ in
            if fine then (some dst, set_cache cd idf dst, d₂) else (none, cd, d₂)
      ]

  -- `Get`; `none` is an error.
  unfoldable pub get : Text → CachedDealer → Disk → Option Text × CachedDealer × Disk
  unfolding get_new from_cache
  get idf cd d = elim (from_cache cd idf) [ some dst ↦ (some dst, cd, d) | none ↦ get_new idf cd d ]

  remove_folders : GoMap Text → Disk → Disk
  remove_folders [] d = d
  remove_folders ((idf, folder) ∷ c) d = remove_folders c (remove_tree folder d).1

  -- `Clean`; an error is logged.
  unfoldable pub clean : CachedDealer → Disk → CachedDealer × Disk
  unfolding remove_folders
  clean cd d = (record cd { cache = [] }, remove_folders cd.cache d)

  -- The cached dealer implements the interface.
  abbrev pub cached_dealer : Dealer Disk
  cached_dealer = record { Cache = CachedDealer; get = get; work_dir = λ cd. cd.work_dir }
