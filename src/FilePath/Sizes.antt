-- ===== src/FilePath/Sizes.antt =====
-- A path is no longer after `Clean`, and ends in no slash but that of the root.
use mathlib.Core.List.{reverse, reverse-cons, append_assoc}
use mathlib.Core.Path.{subst}
use gremlins.Prelude.{
  ℕ, ◌+◌, ◌≤◌, ◌≡◌, ◌≢◌, ◌⊎◌, inl, inr, refl, sym, ap, ◌∙◌, Bool, true, false, ◌||◌, List, [], ◌∷◌,
  ◌++◌, Text, codes, text_eq, ◌==◌, if◌then◌else◌, length, length-append, arith, Bool-cases, ==_iff,
}
use gremlins.FilePath.{
  slash, split_onto, split, join_with, is_rooted, up_onto, push_element, elements_onto, elements,
  or_dot, clean,
}

pub length-reverse {ℓ} : {A : Type ℓ} (xs : List A) → length (reverse xs) ≡ length xs
length-reverse [] = refl
length-reverse (x ∷ xs) =
    ap length (reverse-cons x xs)
    ∙ length-append (reverse xs) (x ∷ [])
    ∙ omega (arith, length-reverse xs)

-- The bytes of a list of elements, each with a separator.
abbrev total : List Text → ℕ
total [] = 0
total (e ∷ es) = length e + 1 + total es

total-append : (xs ys : List Text) → total (xs ++ ys) ≡ total xs + total ys
total-append [] ys = omega arith
total-append (x ∷ xs) ys = omega (arith, total-append xs ys)

total-reverse : (xs : List Text) → total (reverse xs) ≡ total xs
total-reverse [] = refl
total-reverse (x ∷ xs) =
    ap total (reverse-cons x xs)
    ∙ total-append (reverse xs) (x ∷ [])
    ∙ omega (arith, total-reverse xs)

total-split_onto :
    (sep : ℕ) (piece s : Text) → total (split_onto sep piece s) ≡ length piece + length s + 1
unfolding split_onto
total-split_onto sep piece [] = omega (arith, length-reverse {0} piece)
total-split_onto sep piece (c ∷ s) =
    ground
      (arith, length-reverse piece, total-split_onto sep [] s, total-split_onto sep (c ∷ piece) s)

total-push_element :
    (r : Bool) (done : List Text) (e : Text)
    → total (push_element r done e) ≤ total done + total (e ∷ [])
unfolding push_element up_onto
total-push_element r [] e = ground arith
total-push_element r (top ∷ rest) e = ground arith

total-elements_onto :
    (r : Bool) (done es : List Text) → total (elements_onto r done es) ≤ total done + total es
unfolding elements_onto
total-elements_onto r done [] = omega (arith, total-reverse done)
total-elements_onto r done (e ∷ es) =
    omega (arith, total-elements_onto r (push_element r done e) es, total-push_element r done e)

length-join_with :
    (sep : ℕ) (e : Text) (es : List Text) → length (join_with sep (e ∷ es)) + 1 ≡ total (e ∷ es)
unfolding join_with
length-join_with sep e [] = omega arith
length-join_with sep e (d ∷ es) =
    omega (arith, length-append {0} e (sep ∷ join_with sep (d ∷ es)), length-join_with sep d es)

-- The elements of a path are no longer than it, and leave room for the slash of a rooted one.
total-elements_rooted :
    (s : Text) → total (elements_onto true [] (split slash (slash ∷ s))) ≤ length s + 1
unfolding split split_onto elements_onto push_element
total-elements_rooted s =
    omega (arith, total-elements_onto true [] (split_onto slash [] s), total-split_onto slash [] s)

total-elements_relative : (s : Text) → total (elements_onto false [] (split slash s)) ≤ length s + 1
unfolding split
total-elements_relative s =
    omega (arith, total-elements_onto false [] (split_onto slash [] s), total-split_onto slash [] s)

length-or_dot : (s : Text) (n : ℕ) → length s ≤ n → 1 ≤ n → length (or_dot s) ≤ n
unfolding or_dot
length-or_dot [] n h k = omega arith
length-or_dot (c ∷ s) n h k = h

length-join_le : (sep n : ℕ) (es : List Text) → total es ≤ n + 1 → length (join_with sep es) ≤ n
unfolding join_with
length-join_le sep n [] h = omega arith
length-join_le sep n (e ∷ es) h = omega (arith, length-join_with sep e es)

total-elements :
    (c : ℕ) (s : Text)
    → total (elements_onto (c == slash) [] (split slash (c ∷ s))) + (if c == slash then 1 else 0)
      ≤ length s + 2
total-elements c s = elim (Bool-cases (c == slash)) [
  | inl rooted ↦ rw ((==_iff c slash).0 rooted) (omega (arith, total-elements_rooted s))
  | inr relative ↦ rw relative (omega (arith, total-elements_relative (c ∷ s)))
]

rooted_le :
    (es : List Text) (n : ℕ) → total es + 1 ≤ n + 1 → 1 ≤ n → length (join_with slash es) + 1 ≤ n
unfolding join_with
rooted_le [] n h k = omega arith
rooted_le (e ∷ es) n h k = omega (arith, length-join_with slash e es)

length-joined :
    (r : Bool) (es : List Text) (n : ℕ)
    → total es + (if r then 1 else 0) ≤ n + 1
    → 1 ≤ n
    → length (or_dot ((if r then slash ∷ [] else []) ++ join_with slash es)) ≤ n
length-joined true es n h k = length-or_dot _ n (omega (arith, rooted_le es n h k)) k
length-joined false es n h k = length-or_dot _ n (length-join_le slash n es (omega arith)) k

-- `Clean` makes no path longer, but for the empty one, which becomes ".".
pub length-clean : (p : Text) (n : ℕ) → length p ≤ n → 1 ≤ n → length (clean p) ≤ n
unfolding clean elements is_rooted
length-clean [] n h k = omega arith
length-clean (c ∷ s) n h k =
    length-joined (c == slash) (elements_onto (c == slash) [] (split slash (c ∷ s))) n
      (omega (arith, total-elements c s)) k

-- A path that ends in a byte that is not a slash.
abbrev pub Tip : Text → Type 0
Tip p = (q : Text) × (c : ℕ) × (p ≡ q ++ c ∷ []) × (c ≢ slash)

-- Each of a list of elements does, or is empty.
abbrev Tips : List Text → Type 0
Tips [] = Unit {0}
Tips (e ∷ es) = ((e ≡ []) ⊎ Tip e) × Tips es

abbrev Full : List Text → Type 0
Full [] = Unit {0}
Full (e ∷ es) = Tip e × Full es

-- A piece under way, read backwards, starts with no slash.
abbrev Piece : Text → Type 0
Piece [] = Unit {0}
Piece (c ∷ s) = c ≢ slash

Piece-reverse : (piece : Text) → Piece piece → (reverse piece ≡ []) ⊎ Tip (reverse piece)
Piece-reverse [] h = inl refl
Piece-reverse (c ∷ s) h = inr (reverse s, c, reverse-cons c s, h)

Tips-split_onto : (piece s : Text) → Piece piece → Tips (split_onto slash piece s)
unfolding split_onto
Tips-split_onto piece [] h = (Piece-reverse piece h, tt)
Tips-split_onto piece (c ∷ s) h = elim (Bool-cases (c == slash)) [
  | inl here ↦ rw here (Piece-reverse piece h, Tips-split_onto [] s tt)
  | inr other ↦ rw other (Tips-split_onto (c ∷ piece) s (ground arith))
]

Full-up_onto :
    (r : Bool) (e : Text) (done : List Text) → Tip e → Full done → Full (up_onto r e done)
unfolding up_onto
Full-up_onto true e [] t f = tt
Full-up_onto false e [] t f = (t, tt)
Full-up_onto r e (top ∷ rest) t f = elim (Bool-cases (text_eq top (codes ".."))) [
  | inl same ↦ rw same (t, f)
  | inr other ↦ rw other f.1
]

Full-push_element :
    (r : Bool) (done : List Text) (e : Text)
    → Full done
    → (e ≡ []) ⊎ Tip e
    → Full (push_element r done e)
unfolding push_element
Full-push_element r done e f (inl empty) = rw empty f
Full-push_element r done e f (inr tip) = elim (Bool-cases (text_eq e [] || text_eq e (codes "."))) [
  | inl skip ↦ rw skip f
  | inr keep ↦ elim (Bool-cases (text_eq e (codes ".."))) [
    | inl up ↦ rw (keep, up) (Full-up_onto r e done tip f)
    | inr down ↦ rw (keep, down) (tip, f)
  ]
]

Full-append : (xs ys : List Text) → Full xs → Full ys → Full (xs ++ ys)
Full-append [] ys f g = g
Full-append (x ∷ xs) ys f g = (f.0, Full-append xs ys f.1 g)

Full-reverse : (xs : List Text) → Full xs → Full (reverse xs)
Full-reverse [] f = tt
Full-reverse (x ∷ xs) f =
    subst Full (sym (reverse-cons x xs)) (Full-append _ _ (Full-reverse xs f.1) (f.0, tt))

Full-elements_onto :
    (r : Bool) (done es : List Text) → Full done → Tips es → Full (elements_onto r done es)
unfolding elements_onto
Full-elements_onto r done [] f t = Full-reverse done f
Full-elements_onto r done (e ∷ es) f t =
    Full-elements_onto r (push_element r done e) es (Full-push_element r done e f t.0) t.1

Tip-append : (p q : Text) → Tip q → Tip (p ++ q)
Tip-append p q (q', c, e, n) = (p ++ q', c, rw e (sym (append_assoc p q' (c ∷ []))), n)

Tip-join_with : (e : Text) (es : List Text) → Full (e ∷ es) → Tip (join_with slash (e ∷ es))
unfolding join_with
Tip-join_with e [] f = f.0
Tip-join_with e (d ∷ es) f = Tip-append e _ (Tip-append (slash ∷ []) _ (Tip-join_with d es f.1))

Tip-or_dot : (s : Text) → Tip s → Tip (or_dot s)
unfolding or_dot
Tip-or_dot [] t = ([], b'.', refl, omega arith)
Tip-or_dot (c ∷ s) t = t

cleaned :
    (r : Bool) (es : List Text)
    → Full es
    → let p = or_dot ((if r then slash ∷ [] else []) ++ join_with slash es) in
      (p ≡ codes "/") ⊎ Tip p
unfolding or_dot join_with
cleaned true [] f = inl refl
cleaned false [] f = inr ([], b'.', refl, omega arith)
cleaned true (e ∷ es) f = inr (Tip-append (slash ∷ []) _ (Tip-join_with e es f))
cleaned false (e ∷ es) f = inr (Tip-or_dot _ (Tip-join_with e es f))

-- `Clean` gives the root, or a path that ends in no slash.
pub Tip-clean : (p : Text) → (clean p ≡ codes "/") ⊎ Tip (clean p)
unfolding clean elements split
Tip-clean p =
    cleaned (is_rooted p) (elements_onto (is_rooted p) [] (split_onto slash [] p))
      (Full-elements_onto (is_rooted p) [] _ tt (Tips-split_onto [] p tt))
