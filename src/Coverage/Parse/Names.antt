-- ===== src/Coverage/Parse/Names.antt =====
-- internal/coverage/coverage.go: the names `removeModuleFromPath` gives to the files of a module.
use gremlins.Prelude.{◌≡◌, refl, List, ◌∷◌, ◌++◌, Text, codes}
use gremlins.Prelude.GoText.{Without, remove_all-append}
use gremlins.FilePath.Plain.{AllPlain, Plain, folder, rel-folder}
use gremlins.GoModule.{GoModule}
use gremlins.Coverage.Parse.{remove_module_from_path}

-- A profile names a file "<module>/<folder the program was called in>/<f>/<fs>". If no part of what
-- follows the module's name and its slash is that name with its slash again, the file gets the name
-- "<f>/<fs>", its path from the folder the program was called in.
pub remove_module_from_path_file :
    (m : GoModule) (es : List Text) (f : Text) (fs : List Text)
    → m.calling_dir ≡ folder es
    → AllPlain es
    → AllPlain (es ++ f ∷ fs)
    → Plain f
    → Without (m.name ++ codes "/") (folder (es ++ f ∷ fs))
    → remove_module_from_path m ((m.name ++ codes "/") ++ folder (es ++ f ∷ fs)) ≡ folder (f ∷ fs)
unfolding remove_module_from_path
remove_module_from_path_file m es f fs called p q r free =
    rw
      (
        remove_module_from_path,
        remove_all-append (m.name ++ codes "/") (folder (es ++ f ∷ fs)) free,
        called,
        rel-folder es f fs p q r,
      )
      refl
