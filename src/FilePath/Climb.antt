-- ===== src/FilePath/Climb.antt =====
-- The loop from a path up over its folders, by `filepath.Dir`, until a test holds or the top is
-- reached: that of `findModuleRoot` in internal/gomodule/gomodule.go and in
-- internal/configuration/configuration.go, and that of `pkgName` in internal/engine/engine.go.
-- The fuel is what the length of the path gives; with it the loop ends.
use mathlib.Core.List.{reverse, reverse-append}
use mathlib.Core.Path.{subst}
use native.Mathlib.Decide.{dec_lt}
use gremlins.Prelude.{
  ℕ, zero, suc, ◌+◌, ◌-◌, ◌≤◌, ◌<◌, ◌≡◌, ◌≢◌, ◌⊎◌, inl, inr, refl, sym, ap, ◌∙◌, Bool, true, false,
  [], ◌∷◌, Option, none, some, Text, codes, text_eq, text_eq_iff, if◌then◌else◌, length,
  length-append, arith, Bool-cases, Option-cases,
}
use gremlins.FilePath.{clean, to_last_slash, dir}
use gremlins.FilePath.Sizes.{length-reverse, length-clean, Tip, Tip-clean}

-- `none` means that the fuel ran out, `some none` that no folder passes the test.
unfoldable pub climb : (Text → Bool) → ℕ → Text → Option (Option Text)
climb test zero path = none
climb test (suc fuel) path =
    let rest = climb test fuel (dir path) in
    if test path then some (some path) else if text_eq (dir path) path then some none else rest

-- Enough fuel for a path.
unfoldable pub fuel_of : Text → ℕ
fuel_of path = suc (suc (suc (length path)))

-- The loop, with the fuel of its path.
unfoldable pub find_above : (Text → Bool) → Text → Option Text
unfolding climb fuel_of
find_above test path = elim (climb test (fuel_of path) path) [ none ↦ none | some found ↦ found ]

to_last_slash-le : (s : Text) → length (to_last_slash s) ≤ length s
unfolding to_last_slash
to_last_slash-le [] = omega arith
to_last_slash-le (c ∷ s) = ground (arith, to_last_slash-le s)

-- What `Dir` cuts off a path that ends in no slash is not empty.
cut_lt : (p : Text) → Tip p → length (reverse (to_last_slash (reverse p))) < length p
unfolding to_last_slash
cut_lt p (q, c, e, n) =
    rw (e, reverse-append q (c ∷ []))
      (ground (
        arith,
        n,
        length-reverse (to_last_slash (reverse q)),
        length-reverse q,
        to_last_slash-le (reverse q),
        length-append q (c ∷ []),
      ))

-- What falls from one folder to the next: the length, with "." below all else.
abbrev weight : Text → ℕ
weight p = if text_eq p (codes ".") then 0 else length p

-- A path that `Clean` leaves alone, as far as the loop needs it.
abbrev IsClean : Text → Type 0
IsClean p = (p ≡ codes "/") ⊎ Tip p

length-dir : (p : Text) (n : ℕ) → Tip p → length p ≤ suc n → 1 ≤ n → length (dir p) ≤ n
unfolding dir
length-dir p n t h k =
    length-clean (reverse (to_last_slash (reverse p))) n (omega (arith, cut_lt p t)) k

dir_root : dir (codes "/") ≡ codes "/"
unfolding dir
dir_root = refl

dir_dot : dir (codes ".") ≡ codes "."
unfolding dir
dir_dot = refl

empty_of_length : (s : Text) → length s ≡ 0 → s ≡ []
empty_of_length [] h = refl
empty_of_length (c ∷ s) h = absurd (omega arith)

-- The folder of a single byte is ".".
dir_single : (p : Text) → Tip p → length p ≤ 1 → dir p ≡ codes "."
unfolding dir clean
dir_single p t h =
    rw (empty_of_length (reverse (to_last_slash (reverse p))) (omega (arith, cut_lt p t))) refl

weight-le : (p : Text) → weight p ≤ length p
weight-le p = ground arith

falls : (p : Text) → Tip p → text_eq p (codes ".") ≡ false → weight (dir p) < weight p
unfolding text_eq
falls p t no_dot = elim (dec_lt 1 (length p)) [
  | yes long ↦
      omega
        (arith, weight-le (dir p), length-dir p (length p - 1) t (omega arith) (omega arith), full)
  | no short ↦ rw (dir_single p t (omega arith)) (omega (arith, full, cut_lt p t))
]
  where
    full : weight p ≡ length p
    full = rw no_dot refl

dir_falls : (p : Text) → IsClean p → (dir p ≡ p) ⊎ (weight (dir p) < weight p)
dir_falls p (inl root) = inl (ap dir root ∙ dir_root ∙ sym root)
dir_falls p (inr t) = elim (Bool-cases (text_eq p (codes "."))) [
  | inl dot ↦
      let e : p ≡ codes "." = (text_eq_iff p (codes ".")).0 dot in inl (ap dir e ∙ dir_dot ∙ sym e)
  | inr no_dot ↦ inr (falls p t no_dot)
]

dir-IsClean : (p : Text) → IsClean (dir p)
unfolding dir
dir-IsClean p = Tip-clean (reverse (to_last_slash (reverse p)))

-- From a clean path the loop ends within its weight.
climb_ends :
    (test : Text → Bool) (fuel : ℕ) (p : Text)
    → IsClean p
    → weight p < fuel
    → climb test fuel p ≢ none
unfolding climb
climb_ends test zero p c h = absurd (omega arith)
climb_ends test (suc fuel) p c h = elim (dir_falls p c) [
  | inl top ↦ ground (arith, text_eq_iff (dir p) p, top)
  | inr fall ↦ ground (arith, climb_ends test fuel (dir p) (dir-IsClean p), fall)
]

weight-dir : (p : Text) → weight (dir p) ≤ length p + 1
unfolding dir
weight-dir p = omega (
  arith,
  weight-le (dir p),
  length-clean (reverse (to_last_slash (reverse p))) (length p + 1)
      (omega (
        arith,
        length-reverse {0} (to_last_slash (reverse p)),
        length-reverse {0} p,
        to_last_slash-le (reverse p),
      ))
      (omega arith),
)

climb_starts :
    (test : Text → Bool) (fuel : ℕ) (p : Text)
    → length p + 1 < fuel
    → climb test (suc fuel) p ≢ none
unfolding climb
climb_starts test fuel p h =
    ground (arith, climb_ends test fuel (dir p) (dir-IsClean p), weight-dir p)

-- With the fuel of its path the loop ends, from any path.
pub climb-fuel_of : (test : Text → Bool) (p : Text) → climb test (fuel_of p) p ≢ none
unfolding fuel_of
climb-fuel_of test p = climb_starts test (suc (suc (length p))) p (omega arith)

-- The folder that so many steps up from a path lead to.
abbrev pub above : ℕ → Text → Text
above zero p = p
above (suc n) p = above n (dir p)

-- What the loop finds: the first folder on the way up that passes the test.
abbrev pub FirstAbove : (Text → Bool) → Text → Option Text → Type 0
FirstAbove test p (some q) =
    (n : ℕ) × (q ≡ above n p) × (test q ≡ true) × ((k : ℕ) → k < n → test (above k p) ≡ false)
FirstAbove test p none = (n : ℕ) → test (above n p) ≡ false

above_top : (n : ℕ) (p : Text) → dir p ≡ p → above n p ≡ p
above_top zero p top = refl
above_top (suc n) p top = above_top n (dir p) (ap dir top) ∙ top

FirstAbove-dir :
    (test : Text → Bool) (p : Text) (found : Option Text)
    → test p ≡ false
    → FirstAbove test (dir p) found
    → FirstAbove test p found
FirstAbove-dir test p (some q) e (n, at, passes, before) = (suc n, at, passes, fails)
  where
    fails : (k : ℕ) → k < suc n → test (above k p) ≡ false
    fails zero lt = e
    fails (suc k) lt = before k (omega arith)
FirstAbove-dir test p none e all = fails
  where
    fails : (n : ℕ) → test (above n p) ≡ false
    fails zero = e
    fails (suc n) = all n

climb-FirstAbove :
    (test : Text → Bool) (fuel : ℕ) (p : Text) (found : Option Text)
    → climb test fuel p ≡ some found
    → FirstAbove test p found
unfolding climb
climb-FirstAbove test zero p found e = cc
climb-FirstAbove test (suc fuel) p found e = elim (Bool-cases (test p)) [
  | inl passes ↦
      let e' : ◌≡◌ {A = Option Text} (some p) found = ground arith in
      subst (FirstAbove test p) e' (0, refl, passes, λ k lt. absurd (omega arith))
  | inr fails ↦ elim (Bool-cases (text_eq (dir p) p)) [
    | inl same ↦
        let top : dir p ≡ p = (text_eq_iff (dir p) p).0 same in
        let e' : ◌≡◌ {A = Option Text} none found = ground arith in
        subst (FirstAbove test p) e' (λ n. ap test (above_top n p top) ∙ fails)
    | inr more ↦
        FirstAbove-dir test p found fails (climb-FirstAbove test fuel (dir p) found (ground arith))
  ]
]

-- Whatever the path, the loop ends, and what it finds is the first folder on the way up from the
-- path that passes the test; it finds nothing only where no folder does.
pub find_above-FirstAbove : (test : Text → Bool) (p : Text) → FirstAbove test p (find_above test p)
unfolding find_above
find_above-FirstAbove test p = elim (Option-cases (climb test (fuel_of p) p)) [
  | inl out ↦ absurd (climb-fuel_of test p out)
  | inr (found, e) ↦
      let same : find_above test p ≡ found = rw (e, find_above) refl in
      subst (FirstAbove test p) (sym same) (climb-FirstAbove test (fuel_of p) p found e)
]
