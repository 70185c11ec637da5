-- ===== src/FilePath.antt =====
-- What the program uses of Go's path/filepath, on a system whose separator is a slash.
pub mod Sizes
pub mod Climb
pub mod Plain
use mathlib.Core.List.{reverse}
use gremlins.Prelude.{
  ℕ, Bool, true, false, ◌||◌, List, [], ◌∷◌, ◌++◌, Option, none, some, Text, codes, text_eq, ◌==◌,
  if◌then◌else◌, map, ◌≡◌, refl,
}

abbrev pub slash : ℕ
slash = b'/'

-- A text cut at a byte, as `strings.Split` and `bytes.Split` do: always at least one piece.
split_onto : ℕ → Text → Text → List Text
split_onto sep piece [] = reverse piece ∷ []
split_onto sep piece (c ∷ s) =
    let rest = split_onto sep [] s in
    let more = split_onto sep (c ∷ piece) s in if c == sep then reverse piece ∷ rest else more

unfoldable pub split : ℕ → Text → List Text
unfolding split_onto
split sep s = split_onto sep [] s

-- `strings.Join` and `bytes.Join` with a separator of one byte.
unfoldable pub join_with : ℕ → List Text → Text
join_with sep [] = []
join_with sep (p ∷ []) = p
join_with sep (p ∷ q ∷ ps) = p ++ sep ∷ join_with sep (q ∷ ps)

is_rooted : Text → Bool
is_rooted [] = false
is_rooted (c ∷ s) = c == slash

-- `..` onto the elements before it.
up_onto : Bool → Text → List Text → List Text
unfolding text_eq
up_onto rooted e [] = if rooted then [] else e ∷ []
up_onto rooted e (top ∷ rest) = if text_eq top (codes "..") then e ∷ top ∷ rest else rest

-- One element of a path onto the elements before it, the last one first.
push_element : Bool → List Text → Text → List Text
unfolding text_eq up_onto
push_element rooted done e =
    if text_eq e [] || text_eq e (codes ".")
    then done
    else if text_eq e (codes "..")
    then up_onto rooted e done
    else e ∷ done

elements_onto : Bool → List Text → List Text → List Text
unfolding push_element
elements_onto rooted done [] = reverse done
elements_onto rooted done (e ∷ es) = elements_onto rooted (push_element rooted done e) es

-- The elements of the cleaned path.
elements : Text → List Text
unfolding elements_onto is_rooted split
elements p = elements_onto (is_rooted p) [] (split slash p)

or_dot : Text → Text
or_dot [] = codes "."
or_dot (c ∷ s) = c ∷ s

-- `filepath.Clean`.
unfoldable pub clean : Text → Text
unfolding elements is_rooted join_with or_dot
clean p = or_dot ((if is_rooted p then slash ∷ [] else []) ++ join_with slash (elements p))

-- The text up to its last slash, that slash included, read from its end.
to_last_slash : Text → Text
to_last_slash [] = []
to_last_slash (c ∷ s) = if c == slash then c ∷ s else to_last_slash s

-- `filepath.Dir`.
unfoldable pub dir : Text → Text
unfolding clean to_last_slash
dir p = clean (reverse (to_last_slash (reverse p)))

-- `filepath.Join` of two paths: an empty one is left out.
unfoldable pub join : Text → Text → Text
unfolding clean
join [] [] = []
join [] (d ∷ q) = clean (d ∷ q)
join (c ∷ p) [] = clean (c ∷ p)
join (c ∷ p) (d ∷ q) = clean (c ∷ p ++ slash ∷ d ∷ q)

-- The way from one list of elements to another: up from what is left of the first, down the second.
way : List Text → List Text → Option (List Text)
unfolding text_eq
way [] ts = some ts
way (b ∷ bs) [] = if text_eq b (codes "..") then none else some (map (λ _. codes "..") (b ∷ bs))
way (b ∷ bs) (t ∷ ts) =
    if text_eq b t
    then way bs ts
    else if text_eq b (codes "..")
    then none
    else some (map (λ _. codes "..") (b ∷ bs) ++ t ∷ ts)

same_root : Bool → Bool → Bool
same_root true true = true
same_root false false = true
same_root _ _ = false

-- `filepath.Rel`; `none` is its error.
unfoldable pub rel : Text → Text → Option Text
unfolding way elements is_rooted same_root join_with or_dot
rel base target =
    if same_root (is_rooted base) (is_rooted target)
    then elim (way (elements base) (elements target)) [
      | none ↦ none
      | some es ↦ some (or_dot (join_with slash es))
    ]
    else none

-- `filepath.Ext`, read from the end: the part of the last element from its last dot.
ext_onto : Text → Text → Text
ext_onto seen [] = []
ext_onto seen (c ∷ s) =
    if c == slash then [] else if c == b'.' then c ∷ seen else ext_onto (c ∷ seen) s

unfoldable pub ext : Text → Text
unfolding ext_onto
ext p = ext_onto [] (reverse p)

clean_dots : clean (codes "a//./b/../c/") ≡ codes "a/c"
unfolding clean
clean_dots = refl

dir_dots : dir (codes "./a/b.go") ≡ codes "a"
unfolding dir
dir_dots = refl

rel_dots : rel (codes "a/b") (codes "a/c/d.go") ≡ some (codes "../c/d.go")
unfolding rel
rel_dots = refl
