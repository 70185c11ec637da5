-- ===== src/Coverage/Profile/Intervals.antt =====
-- A block covers the positions from its start to its end, in the order of the text.
use gremlins.Prelude.{
  ℕ, ◌≤◌, ◌<◌, ◌≡◌, ◌↔◌, ◌⊎◌, inl, inr, true, List, [], ◌∷◌, arith, Option-cases,
}
use gremlins.Prelude.GoMap.{lookup, values_at}
use gremlins.Token.{Position}
use gremlins.Coverage.Profile.{Block, Profile, any_covers, is_covered}

-- One place is not after another: by line, then by column.
abbrev pub NotAfter : ℕ → ℕ → ℕ → ℕ → Type 0
NotAfter l c l' c' = (l < l') ⊎ ((l ≡ l') × (c ≤ c'))

abbrev pub Within : Block → Position → Type 0
Within b pos =
    NotAfter b.start_line b.start_col pos.line pos.column
    × NotAfter pos.line pos.column b.end_line b.end_col

-- Some block of the list reaches over the position.
abbrev pub WithinAny : List Block → Position → Type 0
WithinAny [] pos = ⊥
WithinAny (b ∷ bs) pos = Within b pos ⊎ WithinAny bs pos

any_covers_sound : (bs : List Block) (pos : Position) → any_covers bs pos ≡ true → WithinAny bs pos
unfolding any_covers
any_covers_sound [] pos h = cc
any_covers_sound (b ∷ bs) pos h = ground (arith, any_covers_sound bs pos)

any_covers_complete :
    (bs : List Block) (pos : Position) → WithinAny bs pos → any_covers bs pos ≡ true
unfolding any_covers
any_covers_complete [] pos h = elim h [ ]
any_covers_complete (b ∷ bs) pos h = ground (arith, any_covers_complete bs pos)

-- The tests of `IsCovered`, one for each shape of a block, amount to one order of the text: a
-- position is covered exactly when it lies between the start and the end, both included, of a block
-- of its own file.
pub is_covered_iff :
    (p : Profile) (pos : Position)
    → (is_covered p pos ≡ true) ↔ WithinAny (values_at pos.filename p) pos
unfolding is_covered
is_covered_iff p pos = elim (Option-cases (lookup pos.filename p)) [
  | inl e ↦ rw (e, is_covered, values_at) (ground arith)
  | inr (bs, e) ↦
      rw (e, is_covered, values_at) (any_covers_sound bs pos, any_covers_complete bs pos)
]
