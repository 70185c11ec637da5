-- ===== src/Report/Logger/Shown.antt =====
-- What the two values of the configuration let through.
use gremlins.Prelude.{
  ℕ, ◌≡◌, ◌↔◌, ◌⊎◌, true, List, [], ◌∷◌, Option, none, some, Text, codes, OneOf, arith,
  Option-cases, sym, inl, inr, refl,
}
use gremlins.Mutator.{
  Mutant, Status, Status-discrete, not_covered, runnable, skipped, lived, killed, not_viable,
  timed_out,
}
use gremlins.Report.Logger.{
  filter_letter, diff_letter, parse_letters, parse_by, result_of, filter_of, new_logger, has_key,
  passes, is_key, print_mutant, print_diff, log_mutant,
}

-- The letter of a status.
abbrev pub letter : Status → ℕ
letter lived = 108
letter not_covered = 99
letter timed_out = 116
letter killed = 107
letter not_viable = 118
letter skipped = 115
letter runnable = 114

-- Every letter of the text is one of those allowed.
abbrev pub Allowed : Text → Text → Type 0
Allowed letters [] = Unit {0}
Allowed letters (c ∷ s) = OneOf c letters × Allowed letters s

filter_letter_iff : (c : ℕ) (st : Status) → (filter_letter c ≡ some st) ↔ (c ≡ letter st)
unfolding filter_letter
filter_letter_iff c lived = ground arith
filter_letter_iff c not_covered = ground arith
filter_letter_iff c timed_out = ground arith
filter_letter_iff c killed = ground arith
filter_letter_iff c not_viable = ground arith
filter_letter_iff c skipped = ground arith
filter_letter_iff c runnable = ground arith

filter_letter_accepts :
    (c : ℕ) (st : Status) → filter_letter c ≡ some st → OneOf c (codes "lctkvsr")
unfolding filter_letter
filter_letter_accepts c st e = ground arith

filter_letter_refuses : (c : ℕ) → filter_letter c ≡ none → ¬ OneOf c (codes "lctkvsr")
unfolding filter_letter
filter_letter_refuses c e = ground arith

diff_letter_iff :
    (c : ℕ) (st : Status)
    → (diff_letter c ≡ some st) ↔ ((c ≡ letter st) × ((st ≡ lived) ⊎ (st ≡ killed)))
unfolding diff_letter
diff_letter_iff c lived = ground arith
diff_letter_iff c not_covered = ground arith
diff_letter_iff c timed_out = ground arith
diff_letter_iff c killed = ground arith
diff_letter_iff c not_viable = ground arith
diff_letter_iff c skipped = ground arith
diff_letter_iff c runnable = ground arith

diff_letter_accepts : (c : ℕ) (st : Status) → diff_letter c ≡ some st → OneOf c (codes "lk")
unfolding diff_letter
diff_letter_accepts c st e = ground arith

diff_letter_refuses : (c : ℕ) → diff_letter c ≡ none → ¬ OneOf c (codes "lk")
unfolding diff_letter
diff_letter_refuses c e = ground arith

has_key_iff : (st : Status) (ks : List Status) → (has_key st ks ≡ true) ↔ OneOf st ks
unfolding has_key
has_key_iff st [] = ground arith
has_key_iff st (k ∷ ks) = elim (Status-discrete st k) [
  | yes e ↦ ground (arith, has_key_iff st ks)
  | no n ↦ ground (arith, has_key_iff st ks)
]

module _ (read : ℕ → Option Status) (letters : Text) (On : Status → Type 0)
    (reads : (c : ℕ) (st : Status) → (read c ≡ some st) ↔ ((c ≡ letter st) × On st))
    (accepts : (c : ℕ) (st : Status) → read c ≡ some st → OneOf c letters)
    (refuses : (c : ℕ) → read c ≡ none → ¬ OneOf c letters) where
  -- The keys that the letters of a text give.
  abbrev Keys : Text → List Status → Type 0
  Keys s ks = (st : Status) → OneOf st ks ↔ (OneOf (letter st) s × On st)

  same_status : (c : ℕ) (st st' : Status) → read c ≡ some st → read c ≡ some st' → st ≡ st'
  same_status c st st' e e' = cc

  Keys-step :
      (c : ℕ) (s : Text) (st : Status) (ks : List Status)
      → read c ≡ some st
      → Keys s ks
      → Keys (c ∷ s) (st ∷ ks)
  Keys-step c s st ks e k st' = (
    λ h. elim h [
      | inl same ↦ rw same (inl (sym ((reads c st).0 e).0), ((reads c st).0 e).1)
      | inr old ↦ let (place, on) = (k st').0 old in (inr place, on)
    ],
    λ h. elim h.0 [
      | inl same ↦ inl (same_status c st' st ((reads c st').1 (sym same, h.1)) e)
      | inr place ↦ inr ((k st').1 (place, h.1))
    ],
  )

  parse_cases :
      (s : Text)
      → (Allowed letters s × (ks : List Status) × (parse_letters read s ≡ some ks) × Keys s ks)
        ⊎ ((¬ Allowed letters s) × (parse_letters read s ≡ none))
  unfolding parse_letters
  parse_cases [] = inl (tt, [], refl, λ st. ((λ h. absurd h), λ h. absurd h.0))
  parse_cases (c ∷ s) = elim (Option-cases (read c)) [
    | inl bad ↦ inr ((λ h. refuses c bad h.0), rw (bad, parse_letters) refl)
    | inr (st, e) ↦ elim (parse_cases s) [
      | inl (a, ks, p, k) ↦
          inl ((accepts c st e, a), st ∷ ks, rw (e, p, parse_letters) refl, Keys-step c s st ks e k)
      | inr (n, p) ↦ inr ((λ h. n h.1), rw (e, p, parse_letters) refl)
    ]
  ]

-- A mutant's status passes the value: it is empty, or has a letter that is not allowed, or has the
-- letter of the status.
abbrev pub Shown : Text → Status → Type 0
Shown value st = (value ≡ []) ⊎ (¬ Allowed (codes "lctkvsr") value) ⊎ OneOf (letter st) value

-- The diff is asked for: the value has only letters that are allowed, and that of the status.
abbrev pub DiffShown : Text → Status → Type 0
DiffShown value st = Allowed (codes "lk") value × OneOf (letter st) value

passes_iff :
    (value : Text) (st : Status)
    → (passes (filter_of (parse_by filter_letter value)) st ≡ true) ↔ Shown value st
unfolding parse_by result_of filter_of passes
passes_iff [] st = ((λ h. inl refl), λ h. refl)
passes_iff (c ∷ s) st =
    elim (parse_cases filter_letter (codes "lctkvsr") (λ st. Unit {0})
      (λ c st. ground (arith, filter_letter_iff c st)) filter_letter_accepts filter_letter_refuses
      (c ∷ s)) [
        | inl (a, ks, p, k) ↦ ground (arith, has_key_iff st ks, k st, p)
        | inr (n, p) ↦ rw p ((λ h. inr (inl n)), λ h. refl)
      ]

letter_lk : (st : Status) → OneOf (letter st) (codes "lk") → (st ≡ lived) ⊎ (st ≡ killed)
letter_lk lived h = inl refl
letter_lk killed h = inr refl
letter_lk not_covered h = absurd (ground arith)
letter_lk timed_out h = absurd (ground arith)
letter_lk not_viable h = absurd (ground arith)
letter_lk skipped h = absurd (ground arith)
letter_lk runnable h = absurd (ground arith)

allowed_status : (value : Text) (st : Status) → DiffShown value st → (st ≡ lived) ⊎ (st ≡ killed)
allowed_status [] st h = absurd h.1
allowed_status (c ∷ s) st ((a, rest), here_or) = elim here_or [
  | inl e ↦ ground (arith, letter_lk st)
  | inr place ↦ allowed_status s st (rest, place)
]

is_key_iff :
    (value : Text) (st : Status)
    → (is_key (filter_of (parse_by diff_letter value)) st ≡ true) ↔ DiffShown value st
unfolding parse_by result_of filter_of is_key
is_key_iff [] st = ((λ h. absurd (ground arith)), λ h. absurd h.1)
is_key_iff (c ∷ s) st =
    elim (parse_cases diff_letter (codes "lk") (λ st. (st ≡ lived) ⊎ (st ≡ killed)) diff_letter_iff
      diff_letter_accepts diff_letter_refuses (c ∷ s)) [
        | inl (a, ks, p, k) ↦ ground (arith, has_key_iff st ks, k st, p, allowed_status (c ∷ s) st)
        | inr (n, p) ↦ ground (arith, p)
      ]

-- A mutant is logged exactly when the value of output-statuses is empty, or has an invalid letter,
-- or has the letter of the mutant's status. Its diff follows exactly when it is logged and the value
-- of the diff statuses has only the letters l and k, that of the mutant's status among them.
pub calls-new_logger :
    (output diff : Text) (m : Mutant)
    → let calls = log_mutant (new_logger output diff) m in
      (OneOf (print_mutant m) calls ↔ Shown output m.status)
      × (OneOf (print_diff m) calls ↔ (Shown output m.status × DiffShown diff m.status))
unfolding log_mutant new_logger
calls-new_logger output diff m =
    ground (arith, passes_iff output m.status, is_key_iff diff m.status)
