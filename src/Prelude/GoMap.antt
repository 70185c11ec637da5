-- ===== src/Prelude/GoMap.antt =====
-- Go's `map[string]V`: an association list. `insert` is `m[k] = v`, `lookup` is `v, ok := m[k]`.
use mathlib.Core.Path.{◌≡◌, refl, sym}
use mathlib.Core.Bool.{Bool, true, false}
use mathlib.Core.List.{List, [], ◌∷◌, ◌++◌, append-nil}
use mathlib.Core.Option.{Option, none, some}
use native.Mathlib.Omega.{arith}
use gremlins.Prelude.Tests.{if◌then◌else◌}
use gremlins.Prelude.GoText.{Text, text_eq, text_eq_iff}

abbrev pub GoMap {ℓ} : Type ℓ → Type ℓ
GoMap V = List (Text × V)

module _ {ℓ} {V : Type ℓ} where
  unfoldable pub lookup : Text → GoMap V → Option V
  lookup k [] = none
  lookup k ((j, v) ∷ m) = if text_eq j k then some v else lookup k m

  unfoldable pub insert : Text → V → GoMap V → GoMap V
  insert k v [] = (k, v) ∷ []
  insert k v ((j, w) ∷ m) = if text_eq j k then (k, v) ∷ m else (j, w) ∷ insert k v m

  pub lookup-insert :
      (k j : Text) (v : V) (m : GoMap V)
      → lookup j (insert k v m) ≡ (if text_eq k j then some v else lookup j m)
  unfolding lookup insert
  lookup-insert k j v [] = refl
  lookup-insert k j v ((i, w) ∷ m) =
      ground (arith, text_eq_iff k j, text_eq_iff i k, text_eq_iff i j, lookup-insert k j v m)

-- Maps of slices. `values_at` is `m[k]`, where the zero value of a missing slice is the empty one;
-- `append_at` is `m[k] = append(m[k], v)`.
module _ {ℓ} {V : Type ℓ} where
  abbrev pub values_at : Text → GoMap (List V) → List V
  values_at k m = elim (lookup k m) [ none ↦ [] | some vs ↦ vs ]

  unfoldable pub append_at : Text → V → GoMap (List V) → GoMap (List V)
  append_at k v m = insert k (values_at k m ++ v ∷ []) m

  pub values_at-insert :
      (k j : Text) (vs : List V) (m : GoMap (List V))
      → values_at j (insert k vs m) ≡ (if text_eq k j then vs else values_at j m)
  values_at-insert k j vs m = ground (arith, lookup-insert k j vs m)

  pub values_at-append_at :
      (k j : Text) (v : V) (m : GoMap (List V))
      → values_at j (append_at k v m) ≡ values_at j m ++ (if text_eq k j then v ∷ [] else [])
  unfolding append_at
  values_at-append_at k j v m =
      rw (values_at-insert k j (values_at k m ++ v ∷ []) m) (kept (text_eq k j) refl)
    where
      kept :
          (same : Bool)
          → text_eq k j ≡ same
          → (if same then values_at k m ++ v ∷ [] else values_at j m)
            ≡ values_at j m ++ (if same then v ∷ [] else [])
      kept true e = rw ((text_eq_iff k j).0 e)
      kept false e = sym (append-nil (values_at j m))
