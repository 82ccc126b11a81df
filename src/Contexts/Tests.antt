-- ===== src/Contexts/Tests.antt =====
-- A context manager for the tests: an array, with commands served at once.
use nica.Base.{ℕ, Bool, true, false, refl, store}
use nica.Contexts.{Codes, ContextManager}

abbrev pub array_access :
    {C : Type 0} → (ℕ → C) → ℕ → Bool → (C → ℕ) → (ℕ → C → C) → ℕ → (ℕ → C) × ℕ × ℕ
array_access c i true get put v = (c, get (c i), 0)
array_access c i false get put v = (store c i (put v (c i)), v, 0)

abbrev pub array_manager : {C : Type 0} → ContextManager C
array_manager {C} = record {
  Contexts = ℕ → C;
  at = λ (c : ℕ → C). c;
  assign = store;
  update = λ (c : ℕ → C). (c, false);
  access = array_access;
  at-assign = λ (c : ℕ → C) (i j : ℕ) (x : C). refl;
}

abbrev pub codes : Codes
codes = record { done = 0; fail = 1; busy = 2 }
