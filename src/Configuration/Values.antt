-- ===== src/Configuration/Values.antt =====
-- `Get`, `Set` and `Reset` of internal/configuration/configuration.go, over viper.
use gremlins.Prelude.{ℤ, pos, ◌≡◌, Bool, false, List, [], Option, none, some, Text, refl}

-- A value, by its dynamic type; `F` is float64.
pub data Value (F : Type 0) : Type 0 where
  bool : Bool → Value F
  string : Text → Value F
  int : ℤ → Value F
  float : F → Value F
  strings : List Text → Value F

-- The types at which the program asks for values: how a value is asserted to be one, how one is
-- stored, and the zero value.
pub record Asked (F A : Type 0) : Type 0 where
  pub assert : Value F → Option A
  pub wrap : A → Value F
  pub zero_value : A

-- The type assertion finds a stored value again.
abbrev pub IsAsked : {F A : Type 0} → Asked F A → Type 0
IsAsked {F} {A} t = (a : A) → t.assert (t.wrap a) ≡ some a

abbrev pub asked_bool : {F : Type 0} → Asked F Bool
asked_bool = record {
  assert = λ v. elim v [ bool b ↦ some b | _ ↦ none ];
  wrap = bool;
  zero_value = false;
}

abbrev pub asked_string : {F : Type 0} → Asked F Text
asked_string = record {
  assert = λ v. elim v [ string s ↦ some s | _ ↦ none ];
  wrap = string;
  zero_value = [];
}

abbrev pub asked_int : {F : Type 0} → Asked F ℤ
asked_int = record {
  assert = λ v. elim v [ int n ↦ some n | _ ↦ none ];
  wrap = int;
  zero_value = pos 0;
}

-- What the program uses of viper: `Get`, `Set` and `Reset`.
pub record Viper (F : Type 0) : Type 1 where
  pub State : Type 0
  pub get_value : Text → State → Option (Value F)
  pub set_value : Text → Value F → State → State
  pub reset : State → State

-- Viper's documentation: a value that is set overrides flags, environment and files, and leaves the
-- other keys alone.
pub record ViperLaws {F : Type 0} (v : Viper F) : Type 1 where
  pub get-set : (k : Text) (x : Value F) (s : v.State) → v.get_value k (v.set_value k x s) ≡ some x

module _ {F : Type 0} (v : Viper F) where
  open v use {State, get_value, set_value}

  of_value : {A : Type 0} → Asked F A → Option (Value F) → A
  of_value t none = t.zero_value
  of_value t (some x) = elim (t.assert x) [ none ↦ t.zero_value | some a ↦ a ]

  -- `Get`: the zero value where the key has no value, or one of another type.
  unfoldable pub get : {A : Type 0} → Asked F A → Text → State → A
  unfolding of_value
  get t k s = of_value t (get_value k s)

  -- `Set`.
  unfoldable pub set : {A : Type 0} → Asked F A → Text → A → State → State
  set t k a s = set_value k (t.wrap a) s

  -- A value that is set is what `Get` gives at its type, and at any type to which it is not asserted
  -- `Get` gives the zero value.
  pub get-set :
      ViperLaws v
      → {A B : Type 0} (t : Asked F A) (u : Asked F B) (k : Text) (a : A) (s : State) → IsAsked t
      → u.assert (t.wrap a) ≡ none
      → (get t k (set t k a s) ≡ a) × (get u k (set t k a s) ≡ u.zero_value)
  unfolding get set
  get-set laws t u k a s h n = (
    rw (laws.get-set k (t.wrap a) s, of_value, h a) refl,
    rw (laws.get-set k (t.wrap a) s, of_value, n) refl,
  )
