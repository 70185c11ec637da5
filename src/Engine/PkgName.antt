-- ===== src/Engine/PkgName.antt =====
-- internal/engine/engine.go: `pkgName` and `normalisePkgPath`, the package whose tests are run for a
-- mutant.
use gremlins.Prelude.{◌++◌, ◌≡◌, ◌⊎◌, inl, inr, refl, Option, none, some, Text, codes}
use gremlins.Prelude.GoText.{has_suffix, replace_byte, replace_byte_same}
use gremlins.FilePath.{slash, dir}
use gremlins.FilePath.Climb.{find_above, FirstAbove, find_above-FirstAbove}
use gremlins.GoModule.{GoModule}

-- `normalisePkgPath`; the separator of the system is a slash here.
unfoldable pub normalise_pkg_path : Text → Text
unfolding replace_byte
normalise_pkg_path pkg = replace_byte slash slash pkg

-- Where the search of `pkgName` starts: the folder of the file.
abbrev pub folder_of : GoModule → Text → Text
folder_of m file_name = dir (m.calling_dir ++ codes "/" ++ file_name)

-- The package named after a folder, or after the module alone.
abbrev pub package_at : GoModule → Option Text → Text
package_at m none = m.name
package_at m (some p) = m.name ++ codes "/" ++ p

-- `pkgName`, of a file and the name of the package that it declares.
unfoldable pub pkg_name : GoModule → Text → Text → Text
unfolding normalise_pkg_path find_above has_suffix dir
pkg_name m file_name f_pkg =
    normalise_pkg_path (package_at m (find_above (λ p. has_suffix p f_pkg) (folder_of m file_name)))

named :
    (m : GoModule) (found : Option Text) (pkg : Text)
    → pkg ≡ package_at m found
    → ((found ≡ none) × (pkg ≡ m.name))
      ⊎ ((p : Text) × (found ≡ some p) × (pkg ≡ m.name ++ codes "/" ++ p))
named m none pkg e = inl (refl, e)
named m (some p) pkg e = inr (p, refl, e)

-- The search starts at the folder of the file, as seen from the root of the module, and goes up to
-- the first folder whose path ends in the name of the package that the file declares. The package is
-- the name of the module, a slash, and the path of that folder; where there is none, it is the name
-- of the module alone.
pub pkg_name_lem :
    (m : GoModule) (file_name f_pkg : Text)
    → (found : Option Text) × FirstAbove
        (λ p. has_suffix p f_pkg)
        (dir (m.calling_dir ++ codes "/" ++ file_name))
        found
      × (((found ≡ none) × (pkg_name m file_name f_pkg ≡ m.name))
          ⊎ ((p : Text) × (found ≡ some p)
              × (pkg_name m file_name f_pkg ≡ m.name ++ codes "/" ++ p)))
unfolding pkg_name normalise_pkg_path
pkg_name_lem m file_name f_pkg =
    let found = find_above (λ p. has_suffix p f_pkg) (folder_of m file_name) in
    (
      found,
      find_above-FirstAbove (λ p. has_suffix p f_pkg) (folder_of m file_name),
      named m found (pkg_name m file_name f_pkg) (replace_byte_same slash (package_at m found)),
    )
