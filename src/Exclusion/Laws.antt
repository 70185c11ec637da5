-- ===== src/Exclusion/Laws.antt =====
-- What the exclusion rules decide.
use gremlins.Prelude.{
  ℕ, suc, ◌+◌, ◌≡◌, ◌≢◌, refl, ap, ◌↔◌, ◌⊎◌, inl, inr, true, List, [], ◌∷◌, ◌++◌, Option, none,
  some, Text, length, arith, Option-cases,
}
use gremlins.Exclusion.{
  Rule, Rules, RulesResult, ok, bad_value, compile_from, new, any_matches, is_file_excluded,
}

-- The expression compiled, and matches the path.
abbrev pub Hits : Option Rule → Text → Type 0
Hits none path = ⊥
Hits (some r) path = r path ≡ true

-- Some value of the list compiles to a rule that matches the path.
abbrev pub Matched : (Text → Option Rule) → Text → List Text → Type 0
Matched compile path [] = ⊥
Matched compile path (s ∷ ss) = Hits (compile s) path ⊎ Matched compile path ss

any_matches-append :
    (rs qs : Rules) (path : Text)
    → (any_matches (rs ++ qs) path ≡ true)
      ↔ ((any_matches rs path ≡ true) ⊎ (any_matches qs path ≡ true))
unfolding any_matches
any_matches-append [] qs path = ground arith
any_matches-append (r ∷ rs) qs path = ground (arith, any_matches-append rs qs path)

is_file_excluded-any : (rs : Rules) (path : Text) → is_file_excluded rs path ≡ any_matches rs path
unfolding is_file_excluded
is_file_excluded-any [] path = refl
is_file_excluded-any (r ∷ rs) path = refl

compile_from_ok :
    (compile : Text → Option Rule) (i : ℕ) (acc rs : Rules) (ss : List Text) (path : Text)
    → compile_from compile i acc ss ≡ ok rs
    → (any_matches rs path ≡ true) ↔ ((any_matches acc path ≡ true) ⊎ Matched compile path ss)
unfolding compile_from any_matches
compile_from_ok compile i acc rs [] path h = ground arith
compile_from_ok compile i acc rs (s ∷ ss) path h = elim (Option-cases (compile s)) [
  | inl e ↦ cc (rw (e, compile_from) at h)
  | inr (r, e) ↦
      let rest : compile_from compile (suc i) (acc ++ r ∷ []) ss ≡ ok rs =
        rw (e, compile_from) at h in
      one_more r e (compile_from_ok compile (suc i) (acc ++ r ∷ []) rs ss path rest)
]
  where
    one_more :
        (r : Rule)
        → compile s ≡ some r
        → (any_matches rs path ≡ true)
          ↔ ((any_matches (acc ++ r ∷ []) path ≡ true) ⊎ Matched compile path ss)
        → (any_matches rs path ≡ true)
          ↔ ((any_matches acc path ≡ true) ⊎ Matched compile path (s ∷ ss))
    one_more r e ih = rw e (ground (arith, any_matches-append acc (r ∷ []) path))

-- When every value compiles, a file is excluded exactly when the expression of some value matches
-- its path.
pub is_file_excluded-new :
    (compile : Text → Option Rule) (values : List Text) (rs : Rules) (path : Text)
    → new compile values ≡ ok rs
    → (is_file_excluded rs path ≡ true) ↔ Matched compile path values
unfolding new any_matches
is_file_excluded-new compile values rs path h =
    rw (is_file_excluded-any rs path)
      (ground (arith, compile_from_ok compile 0 [] rs values path h))

-- Every value of the list compiles.
abbrev pub AllCompile : (Text → Option Rule) → List Text → Type 0
AllCompile compile [] = Unit {0}
AllCompile compile (s ∷ ss) = (compile s ≢ none) × AllCompile compile ss

compile_from_all :
    (compile : Text → Option Rule) (i : ℕ) (acc rs : Rules) (ss : List Text)
    → compile_from compile i acc ss ≡ ok rs
    → AllCompile compile ss
unfolding compile_from
compile_from_all compile i acc rs [] h = tt
compile_from_all compile i acc rs (s ∷ ss) h = elim (Option-cases (compile s)) [
  | inl e ↦ absurd (not_ok (rw (e, compile_from) at h))
  | inr (r, e) ↦ (
    λ missing. absurd (ground arith),
    compile_from_all compile (suc i) (acc ++ r ∷ []) rs ss (rw (e, compile_from) at h),
  )
]
  where
    not_ok : bad_value i ≢ ok rs
    not_ok e = cc

-- The value at a position is the first of the list that does not compile.
abbrev pub FirstBad : (Text → Option Rule) → List Text → ℕ → Type 0
FirstBad compile values j =
    (before : List Text) × (s : Text) × (after : List Text) × (values ≡ before ++ s ∷ after)
    × (length before ≡ j)
    × AllCompile compile before
    × (compile s ≡ none)

compile_from_bad :
    (compile : Text → Option Rule) (i j : ℕ) (acc : Rules) (ss : List Text)
    → compile_from compile i acc ss ≡ bad_value j
    → (k : ℕ) × (j ≡ i + k) × FirstBad compile ss k
unfolding compile_from
compile_from_bad compile i j acc [] h = cc
compile_from_bad compile i j acc (s ∷ ss) h = elim (Option-cases (compile s)) [
  | inl e ↦
      let here : bad_value i ≡ bad_value j = rw (e, compile_from) at h in
      (0, ground arith, ([], s, ss, refl, refl, tt, e))
  | inr (r, e) ↦
      let rest : compile_from compile (suc i) (acc ++ r ∷ []) ss ≡ bad_value j =
        rw (e, compile_from) at h in
      let (k, at, (before, t, after, split, len, good, bad)) =
        compile_from_bad compile (suc i) j (acc ++ r ∷ []) ss rest in
      (
        suc k,
        omega arith,
        (
          s ∷ before,
          t,
          after,
          ap (λ q. s ∷ q) split,
          ap suc len,
          (λ missing. absurd (ground arith), good),
          bad,
        ),
      )
]

-- The error names the position of the first value that does not compile.
pub new_bad_value :
    (compile : Text → Option Rule) (values : List Text) (j : ℕ)
    → new compile values ≡ bad_value j
    → FirstBad compile values j
unfolding new
new_bad_value compile values j h =
    let (k, at, (before, s, after, split, len, good, bad)) =
      compile_from_bad compile 0 j [] values h in
    (before, s, after, split, omega arith, good, bad)

-- What the result of `New` says.
abbrev pub Compiled : (Text → Option Rule) → List Text → RulesResult → Type 0
Compiled compile values (ok rs) =
    AllCompile compile values
    × ((path : Text) → (is_file_excluded rs path ≡ true) ↔ Matched compile path values)
Compiled compile values (bad_value j) = FirstBad compile values j

-- Every result of `New`: it gives rules only if every value compiles, and they exclude a file exactly
-- when the expression of some value matches its path; an error names the position of the
-- first value that does not compile.
pub new-Compiled :
    (compile : Text → Option Rule) (values : List Text)
    → Compiled compile values (new compile values)
unfolding new
new-Compiled compile values = of_result (new compile values) refl
  where
    all_compile : (rs : Rules) → new compile values ≡ ok rs → AllCompile compile values
    all_compile rs e = compile_from_all compile 0 [] rs values e

    of_result : (r : RulesResult) → new compile values ≡ r → Compiled compile values r
    of_result (ok rs) e = (all_compile rs e, λ path. is_file_excluded-new compile values rs path e)
    of_result (bad_value j) e = new_bad_value compile values j e
