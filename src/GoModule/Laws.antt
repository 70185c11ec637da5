-- ===== src/GoModule/Laws.antt =====
-- The module that `Init` finds.
use mathlib.Core.Path.{subst}
use gremlins.Prelude.{
  ◌≡◌, ◌≢◌, ◌⊎◌, inl, inr, refl, [], ◌∷◌, ◌++◌, Option, none, some, Text, codes, arith,
  Option-cases,
}
use gremlins.Prelude.GoText.{trim_prefix}
use gremlins.FilePath.{clean, rel}
use gremlins.FilePath.Climb.{find_above, FirstAbove, find_above-FirstAbove}
use gremlins.GoModule.{
  GoModule, Files, has_go_mod, find_module_root, mod_pkg, InitResult, unreadable, found, or_empty,
  init_module,
}

-- The root is the first folder on the way up that has a go.mod, or is empty where none has.
abbrev pub IsRoot : Files → Text → Text → Type 0
IsRoot fs path root =
    FirstAbove (has_go_mod fs) (clean path) (some root)
    ⊎ ((root ≡ []) × FirstAbove (has_go_mod fs) (clean path) none)

find_module_root-IsRoot : (fs : Files) (path : Text) → IsRoot fs path (find_module_root fs path)
unfolding find_module_root
find_module_root-IsRoot fs path =
    go (find_above (has_go_mod fs) (clean path))
      (find_above-FirstAbove (has_go_mod fs) (clean path))
  where
    go :
        (o : Option Text)
        → FirstAbove (has_go_mod fs) (clean path) o
        → IsRoot fs path (elim o [ none ↦ [] | some root ↦ root ])
    go none h = inr (refl, h)
    go (some r) h = inl h

-- What `Init` says of a module: its root, its name from the first line of the root's go.mod, and the
-- way from the root to the path.
abbrev pub IsModule : Files → Text → GoModule → Type 0
IsModule fs path m =
    IsRoot fs path m.root
    × ((line : Text) × (fs.first_line (m.root ++ codes "/go.mod") ≡ some line)
        × (m.name ≡ trim_prefix line (codes "module ")))
    × (m.calling_dir ≡ or_empty (rel m.root path))

-- The result, from that of `modPkg`.
abbrev of_pkg : Text → Option (Text × Text) → InitResult
of_pkg path none = unreadable
of_pkg path (some (name, root)) =
    found (record { name = name; root = root; calling_dir = or_empty (rel root path) })

mod_pkg_bad :
    (fs : Files) (path : Text) (m : GoModule)
    → fs.first_line (find_module_root fs path ++ codes "/go.mod") ≡ none
    → of_pkg path (mod_pkg fs path) ≢ found m
unfolding mod_pkg
mod_pkg_bad fs path m bad e = ground arith

found_same :
    (fs : Files) (path : Text) (m : GoModule) (line : Text)
    → fs.first_line (find_module_root fs path ++ codes "/go.mod") ≡ some line
    → of_pkg path (mod_pkg fs path) ≡ found m
    → ◌≡◌ {A = GoModule}
        (record {
          name = trim_prefix line (codes "module ");
          root = find_module_root fs path;
          calling_dir = or_empty (rel (find_module_root fs path) path);
        })
        m
unfolding mod_pkg
found_same fs path m line ok e = ground arith

-- The module that `Init` gives for a path: its root is the first folder on the way up from the path
-- with a go.mod, or empty where none has; its name is the first line of the root's go.mod without
-- "module "; and it was called from the way from the root to the path.
init_module_found :
    (fs : Files) (path : Text) (m : GoModule) → init_module fs path ≡ found m → IsModule fs path m
unfolding init_module
init_module_found fs [] m e = cc
init_module_found fs (c ∷ path) m e =
    elim (Option-cases (fs.first_line (find_module_root fs (c ∷ path) ++ codes "/go.mod"))) [
      | inl bad ↦ absurd (mod_pkg_bad fs (c ∷ path) m bad e)
      | inr (line, ok) ↦
          let same = found_same fs (c ∷ path) m line ok e in
          subst (IsModule fs (c ∷ path)) same
            (find_module_root-IsRoot fs (c ∷ path), (line, ok, refl), refl)
    ]
