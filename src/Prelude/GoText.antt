-- ===== src/Prelude/GoText.antt =====
-- Go strings and byte slices: lists of bytes. A literal is written `codes "…"`.
use Prim.Native.Nat.{ℕ, zero, suc, ◌-◌}
use Prim.Native.Char.{code}
use Prim.Native.String.{String}
use mathlib.Core.Path.{◌≡◌, refl, ap, ◌∙◌}
use mathlib.Core.Logic.{◌↔◌}
use mathlib.Core.Bool.{Bool, true, false, ◌&&◌}
use mathlib.Core.List.{List, [], ◌∷◌, ◌++◌}
use native.Mathlib.Omega.{arith}
use gremlins.Prelude.Lists.{length, drop}
use gremlins.Prelude.Tests.{◌==◌, if◌then◌else◌}

abbrev pub Text : Type 0
Text = List ℕ

-- The code points of a literal: its bytes, since every literal here is ASCII.
abbrev pub codes : String → Text
codes String.[] = []
codes (String.◌∷◌ c s) = code c ∷ codes s

unfoldable pub text_eq : Text → Text → Bool
text_eq [] [] = true
text_eq [] (d ∷ t) = false
text_eq (c ∷ s) [] = false
text_eq (c ∷ s) (d ∷ t) = c == d && text_eq s t

text_eq_sound : (s t : Text) → text_eq s t ≡ true → s ≡ t
unfolding text_eq
text_eq_sound [] [] h = refl
text_eq_sound [] (d ∷ t) h = cc
text_eq_sound (c ∷ s) [] h = cc
text_eq_sound (c ∷ s) (d ∷ t) h = ground (arith, text_eq_sound s t)

pub text_eq_refl : (s : Text) → text_eq s s ≡ true
unfolding text_eq
text_eq_refl [] = refl
text_eq_refl (c ∷ s) = ground (arith, text_eq_refl s)

pub text_eq_iff : (s t : Text) → (text_eq s t ≡ true) ↔ (s ≡ t)
text_eq_iff s t = (text_eq_sound s t, λ e. rw e (text_eq_refl t))

-- `strings.HasPrefix`.
unfoldable pub has_prefix : Text → Text → Bool
has_prefix s [] = true
has_prefix [] (d ∷ p) = false
has_prefix (c ∷ s) (d ∷ p) = c == d && has_prefix s p

-- `strings.HasSuffix`: some tail of the text is the suffix.
unfoldable pub has_suffix : Text → Text → Bool
unfolding text_eq
has_suffix [] p = text_eq [] p
has_suffix (c ∷ s) p = if text_eq (c ∷ s) p then true else has_suffix s p

-- `strings.ReplaceAll` of one byte by another.
unfoldable pub replace_byte : ℕ → ℕ → Text → Text
replace_byte old new [] = []
replace_byte old new (c ∷ s) = (if c == old then new else c) ∷ replace_byte old new s

-- `strings.ReplaceAll` of a text by nothing. `skip` counts the bytes of a match still to drop.
remove_from : Text → ℕ → Text → Text
remove_from p skip [] = []
remove_from p (suc skip) (c ∷ s) = remove_from p skip s
remove_from p zero (c ∷ s) =
    let hit = remove_from p (length p - 1) s in
    let miss = c ∷ remove_from p zero s in if has_prefix (c ∷ s) p then hit else miss

-- The text to remove is not empty wherever the program calls this.
unfoldable pub remove_all : Text → Text → Text
unfolding remove_from has_prefix
remove_all p s = remove_from p zero s

-- `strings.TrimPrefix` and `bytes.TrimPrefix`.
unfoldable pub trim_prefix : Text → Text → Text
unfolding has_prefix
trim_prefix s p = if has_prefix s p then drop (length p) s else s

-- To replace a byte by itself changes nothing.
pub replace_byte_same : (c : ℕ) (s : Text) → replace_byte c c s ≡ s
unfolding replace_byte
replace_byte_same c [] = refl
replace_byte_same c (d ∷ s) = ground (arith, replace_byte_same c s)

-- `strings.Contains`.
unfoldable pub contains : Text → Text → Bool
unfolding has_prefix
contains [] p = has_prefix [] p
contains (c ∷ s) p = if has_prefix (c ∷ s) p then true else contains s p

-- The text `p` does not begin anywhere in the text `s`.
abbrev pub Without : Text → Text → Type 0
Without p [] = Unit {0}
Without p (c ∷ s) = (has_prefix (c ∷ s) p ≡ false) × Without p s

remove_from-Without : (p s : Text) → Without p s → remove_from p zero s ≡ s
unfolding remove_from
remove_from-Without p [] h = refl
remove_from-Without p (c ∷ s) h = rw (h.0) (ap (◌∷◌ c) (remove_from-Without p s h.1))

remove_from_skip : (p x s : Text) → remove_from p (length x) (x ++ s) ≡ remove_from p zero s
unfolding remove_from
remove_from_skip p [] s = refl
remove_from_skip p (c ∷ x) s = remove_from_skip p x s

has_prefix_append : (p s : Text) → has_prefix (p ++ s) p ≡ true
unfolding has_prefix
has_prefix_append [] [] = refl
has_prefix_append [] (c ∷ s) = refl
has_prefix_append (c ∷ p) s = ground (arith, has_prefix_append p s)

one_less : (n : ℕ) → suc n - 1 ≡ n
one_less n = omega arith

-- To remove a text from itself followed by a text it does not occur in leaves the second text.
pub remove_all-append : (p s : Text) → Without p s → remove_all p (p ++ s) ≡ s
unfolding remove_all remove_from
remove_all-append [] s h = remove_from-Without [] s h
remove_all-append (c ∷ p) s h =
    rw (has_prefix_append (c ∷ p) s, one_less (length p))
      (remove_from_skip (c ∷ p) p s ∙ remove_from-Without (c ∷ p) s h)
