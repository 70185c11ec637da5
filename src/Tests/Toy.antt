-- ===== src/Tests/Toy.antt =====
-- A small file system, a printer, floats, and a few mutants.
use native.Mathlib.Nat.{div-le_of_le-mul}
use gremlins.Prelude.{
  ℕ, zero, suc, ◌*◌, ◌≤◌, ◌<◌, ◌≡◌, ◌≢◌, refl, sym, ap, ◌∙◌, Bool, true, false, List, [], ◌∷◌,
  Option, some, Text, codes, text_eq, text_eq_iff, text_eq_refl, ltb, leb, ◌==◌, if◌then◌else◌,
  arith, pos, negsuc, ◌/◌, inl, inr, Bool-cases,
}
use gremlins.Token.{Token, Position, add, sub, illegal}
use gremlins.Mutator.{MutantType, runnable}
use gremlins.GoModule.{GoModule}
use gremlins.Report.Float.{Float64, FloatLaws}
use gremlins.Engine.Node.{Store}
use gremlins.Engine.TokenMutator.{Os, TokenMutator, World}
use gremlins.Engine.TokenMutator.Laws.{OsLaws}
use gremlins.Engine.Workdir.{Dealer}
use gremlins.Engine.Executor.{Settings, Format, TestRun, finished, exit_error}

-- A disk that forgets nothing; the file "ro" cannot be written.
abbrev pub toy_write : Text → Text → (Text → Text) → (Text → Text) × Bool
toy_write p b d =
    if text_eq p (codes "ro") then (d, false) else (λ q. if text_eq p q then b else d q, true)

abbrev pub toy_print : ℕ → Store → Option Text
toy_print f ast = some (sign (ast 0) ∷ sign (ast 1) ∷ [])
  where
    sign : Token → ℕ
    sign add = b'+'
    sign sub = b'-'
    sign _ = b'?'

abbrev pub toy_os : Os
toy_os = record {
  Disk = Text → Text;
  read_file = λ p d. (d p, true);
  write_file = toy_write;
  print_file = toy_print;
}

toy_read-write :
    (p b : Text) (d d' : Text → Text)
    → toy_write p b d ≡ (d', true)
    → ◌≡◌ {A = Text × Bool} (d' p, true) (b, true)
toy_read-write p b d d' h = elim (Bool-cases (text_eq p (codes "ro"))) [
  | inl refused ↦ cc (rw refused at h)
  | inr allowed ↦
      let wrote = rw allowed at h in
      let here = ap (λ (r : (Text → Text) × Bool). r.0 p) wrote in
      let b_here : (if text_eq p p then b else d p) ≡ b = rw (text_eq_refl p) refl in
      let there : d' p ≡ b = sym here ∙ b_here in λ i. (there i, true)
]

toy_read-write_ne :
    (p q b : Text) (d : Text → Text)
    → q ≢ p
    → ◌≡◌ {A = Text × Bool} ((toy_write p b d).0 q, true) (d q, true)
toy_read-write_ne p q b d n = ground (arith, text_eq_iff p q)

pub toy_laws : OsLaws toy_os
toy_laws = record { read-write = toy_read-write; read-write_ne = toy_read-write_ne }

abbrev pub float_ℕ : Float64
float_ℕ = record {
  F = ℕ;
  of_int = elim [ pos n ↦ n | negsuc n ↦ 0 ];
  div = ◌/◌;
  mul = ◌*◌;
  lt = ltb;
  le = leb;
  eq = ◌==◌;
}

lt→leb : (a b : ℕ) → a ≤ b → leb a b ≡ true
lt→leb a b h = ground arith

div_small : (a b : ℕ) → 0 < b → a ≤ b → a / b ≤ 1
div_small a b h k = div-le_of_le-mul b (omega arith)

pub float_laws : FloatLaws float_ℕ
float_laws = record {
  div_nonneg = λ a b h. ground arith;
  div_le_one = λ a b h k. lt→leb (a / b) 1 (div_small a b h k);
  mul_mono_hundred = λ x y h. ground arith;
  mul_int = λ a b h k. refl;
  le_refl_int = λ a h. ground arith;
  lt_int = λ a b h k. ground arith;
  eq_int = λ a b h k. ground arith;
  zero_le_hundred = refl;
}

abbrev pub at : ℕ → ℕ → Position
at line column = record { filename = codes "a.go"; line = line; column = column }

abbrev pub toy_module : GoModule
toy_module = record { name = codes "m"; root = codes "/m"; calling_dir = codes "." }

-- The syntax tree holds `+` at address 0, `-` at address 1, and nothing that can be mutated after.
abbrev pub toy_ast : Store
toy_ast zero = add
toy_ast (suc zero) = sub
toy_ast (suc (suc a)) = illegal

abbrev pub toy_mutant : Text → ℕ → MutantType → TokenMutator
toy_mutant name tok mt = record {
  pkg = codes "m";
  fs = λ p. record { filename = name; line = 1; column = 2 };
  file = 0;
  token_node = record { tok = tok; tok_pos = 7 };
  work_dir = [];
  orig_file = [];
  status = runnable;
  mutant_type = mt;
  actual_token = illegal;
  orig_snippet = [];
  mutated_snippet = [];
}

abbrev pub toy_world : World toy_os
toy_world = record { ast = toy_ast; disk = λ p. codes "+-" }

-- A dealer that gives every worker the folder of its name.
abbrev pub toy_dealer : Dealer (Text → Text)
toy_dealer = record {
  Cache = ℕ;
  get = λ worker cache disk. (some worker, cache, disk);
  work_dir = λ cache. codes "t";
}

abbrev pub toy_settings : Settings
toy_settings = record {
  module_ = toy_module;
  build_tags = [];
  test_execution_time = pos 5000000000;
  dry_run = false;
  integration_mode = false;
  test_cpu = pos 0;
}

abbrev pub toy_format : Format
toy_format = record { decimal = λ n. codes "1"; duration = λ n. codes "7s" }

-- Tests that fail, and that overwrite every file.
abbrev pub toy_exec : List Text → List Text → Text → (Text → Text) → TestRun × (Text → Text)
toy_exec args env folder disk =
    (record { ended = finished (exit_error (pos 1)); deadline_passed = false }, λ p. codes "junk")
