-- ===== src/Tests/Names.antt =====
-- The names of files in a coverage profile, at small inputs.
use gremlins.Prelude.{◌≡◌, refl, [], ◌∷◌, codes, arith}
use gremlins.Prelude.GoText.{has_prefix, remove_all}
use gremlins.FilePath.{join_with, rel}
use gremlins.FilePath.Plain.{Plain}
use gremlins.GoModule.{GoModule}
use gremlins.Coverage.Parse.{remove_module_from_path}
use gremlins.Coverage.Parse.Names.{remove_module_from_path_file}

-- The module "u", called in its folder "a".
abbrev called_in_a : GoModule
called_in_a = record { name = codes "u"; root = codes "/u"; calling_dir = codes "a" }

Plain-a : Plain (codes "a")
Plain-a = (cc, (omega arith, tt), cc, cc)

Plain-b : Plain (codes "b")
Plain-b = (cc, (omega arith, tt), cc, cc)

remove_module_from_path_file_example :
    remove_module_from_path called_in_a (codes "u/a/b") ≡ codes "b"
unfolding join_with has_prefix
remove_module_from_path_file_example =
    remove_module_from_path_file called_in_a (codes "a" ∷ []) (codes "b") [] refl (Plain-a, tt)
      (Plain-a, (Plain-b, tt)) Plain-b (refl, (refl, (refl, tt)))

-- The module "u", called in its root: in the path of a file of its package "menu" the name of the
-- module is found a second time.
abbrev called_in_root : GoModule
called_in_root = record { name = codes "u"; root = codes "/u"; calling_dir = codes "." }

module_name_again : remove_module_from_path called_in_root (codes "u/menu/b.go") ≡ codes "menb.go"
unfolding remove_module_from_path rel remove_all
module_name_again = refl
