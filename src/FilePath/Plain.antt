-- ===== src/FilePath/Plain.antt =====
-- Paths made of plain elements: what `Rel` gives from one to a longer one.
use mathlib.Core.List.{reverse, reverse-cons, append_assoc, append-nil}
use gremlins.Prelude.{
  ◌≡◌, ◌≢◌, refl, sym, ap, ◌∙◌, Bool, false, List, [], ◌∷◌, ◌++◌, some, Text, codes, text_eq_iff,
  text_eq_refl, ◌==◌, ==_iff, arith, Bool-cases, inl, inr,
}
use gremlins.FilePath.{
  slash, split_onto, split, join_with, is_rooted, push_element, elements_onto, elements, or_dot,
  way, same_root, rel,
}

abbrev NoSlash : Text → Type 0
NoSlash [] = Unit {0}
NoSlash (c ∷ s) = (c ≢ slash) × NoSlash s

-- An element that `Clean` keeps: not empty, with no slash, and not one of the two dots.
abbrev pub Plain : Text → Type 0
Plain e = (e ≢ []) × NoSlash e × (e ≢ codes ".") × (e ≢ codes "..")

abbrev pub AllPlain : List Text → Type 0
AllPlain [] = Unit {0}
AllPlain (e ∷ es) = Plain e × AllPlain es

-- The path of a folder by its elements, "." if there is none.
abbrev pub folder : List Text → Text
folder [] = codes "."
folder (e ∷ es) = join_with slash (e ∷ es)

split_onto_last :
    (piece e : Text) → NoSlash e → split_onto slash piece e ≡ (reverse piece ++ e) ∷ []
unfolding split_onto
split_onto_last piece [] n = ap (λ (x : Text). x ∷ []) (sym (append-nil (reverse piece)))
split_onto_last piece (c ∷ e) n = elim (Bool-cases (c == slash)) [
  | inl is_slash ↦ absurd (n.0 ((==_iff c slash).0 is_slash))
  | inr other ↦ rw other (
      split_onto_last (c ∷ piece) e n.1
      ∙ ap (λ (x : Text). x ∷ [])
          (ap (λ (x : Text). x ++ e) (reverse-cons c piece)
            ∙ append_assoc (reverse piece) (c ∷ []) e))
]

split_onto_more :
    (piece e s : Text)
    → NoSlash e
    → split_onto slash piece (e ++ slash ∷ s) ≡ (reverse piece ++ e) ∷ split_onto slash [] s
unfolding split_onto
split_onto_more piece [] s n =
    ap (λ (x : Text). x ∷ split_onto slash [] s) (sym (append-nil (reverse piece)))
split_onto_more piece (c ∷ e) s n = elim (Bool-cases (c == slash)) [
  | inl is_slash ↦ absurd (n.0 ((==_iff c slash).0 is_slash))
  | inr other ↦ rw other (
      split_onto_more (c ∷ piece) e s n.1
      ∙ ap (λ (x : Text). x ∷ split_onto slash [] s)
          (ap (λ (x : Text). x ++ e) (reverse-cons c piece)
            ∙ append_assoc (reverse piece) (c ∷ []) e))
]

split-join_with :
    (e : Text) (es : List Text)
    → AllPlain (e ∷ es)
    → split_onto slash [] (join_with slash (e ∷ es)) ≡ e ∷ es
unfolding join_with
split-join_with e [] p = split_onto_last [] e p.0.1
split-join_with e (d ∷ es) p =
    split_onto_more [] e (join_with slash (d ∷ es)) p.0.1 ∙ ap (◌∷◌ e) (split-join_with d es p.1)

push_element-Plain :
    (r : Bool) (done : List Text) (e : Text) → Plain e → push_element r done e ≡ e ∷ done
unfolding push_element
push_element-Plain r done e p =
    ground (arith, text_eq_iff e [], text_eq_iff e (codes "."), text_eq_iff e (codes ".."))

elements_onto-Plain :
    (r : Bool) (done es : List Text) → AllPlain es → elements_onto r done es ≡ reverse done ++ es
unfolding elements_onto
elements_onto-Plain r done [] p = sym (append-nil (reverse done))
elements_onto-Plain r done (e ∷ es) p = rw (push_element-Plain r done e p.0) (
    elements_onto-Plain r (e ∷ done) es p.1
    ∙ ap (λ (x : List Text). x ++ es) (reverse-cons e done)
    ∙ append_assoc (reverse done) (e ∷ []) es)

not_rooted : (e : Text) (es : List Text) → Plain e → is_rooted (join_with slash (e ∷ es)) ≡ false
unfolding is_rooted join_with
not_rooted [] es p = absurd (p.0 refl)
not_rooted (c ∷ e) [] p = ground arith
not_rooted (c ∷ e) (d ∷ es) p = ground arith

-- The elements of a folder are its elements again.
elements-folder : (es : List Text) → AllPlain es → elements (folder es) ≡ es
unfolding elements split elements_onto push_element split_onto is_rooted
elements-folder [] p = refl
elements-folder (e ∷ es) p =
    rw (not_rooted e es p.0, split-join_with e es p) (elements_onto-Plain false [] (e ∷ es) p)

rooted-folder : (es : List Text) → AllPlain es → is_rooted (folder es) ≡ false
unfolding is_rooted
rooted-folder [] p = refl
rooted-folder (e ∷ es) p = not_rooted e es p.0

way-append : (es fs : List Text) → way es (es ++ fs) ≡ some fs
unfolding way
way-append [] fs = refl
way-append (e ∷ es) fs = rw (text_eq_refl e) (way-append es fs)

or_dot-join_with :
    (f : Text) (fs : List Text)
    → Plain f
    → or_dot (join_with slash (f ∷ fs)) ≡ join_with slash (f ∷ fs)
unfolding or_dot join_with
or_dot-join_with [] fs p = absurd (p.0 refl)
or_dot-join_with (c ∷ f) [] p = refl
or_dot-join_with (c ∷ f) (d ∷ fs) p = refl

-- `Rel` from a folder to a path below it is the rest of the path.
pub rel-folder :
    (es : List Text) (f : Text) (fs : List Text)
    → AllPlain es
    → AllPlain (es ++ f ∷ fs)
    → Plain f
    → rel (folder es) (folder (es ++ f ∷ fs)) ≡ some (folder (f ∷ fs))
unfolding rel same_root
rel-folder es f fs p q r =
    rw
      (
        elements-folder es p,
        elements-folder (es ++ f ∷ fs) q,
        rooted-folder es p,
        rooted-folder (es ++ f ∷ fs) q,
        way-append es (f ∷ fs),
      )
      (ap some (or_dot-join_with f fs r))
