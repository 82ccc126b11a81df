-- ===== src/Contexts.antt =====
-- The gateway's return codes and `context_manager`, both of a submodule: one context per ikernel,
-- which the gateway reads and writes through a queue of commands.
pub mod Tests
use nica.Base.{ℕ, Bool, ◌==◌, ◌≡◌, if◌then◌else◌}

pub record Codes : Type 0 where
  pub done : ℕ
  pub fail : ℕ
  pub busy : ℕ

pub record ContextManager (C : Type 0) : Type 1 where
  pub Contexts : Type 0
  -- `contexts[i]`, read and assigned to.
  pub at : Contexts → ℕ → C
  pub assign : Contexts → ℕ → C → Contexts
  -- Serves a command of the gateway, if there is one.
  pub update : Contexts → Contexts × Bool
  -- `gateway_access_field` and `gateway_rmw`: a command that reads or writes one field, with the
  -- number that is left in `*v` and the code.
  pub access : Contexts → ℕ → Bool → (C → ℕ) → (ℕ → C → C) → ℕ → Contexts × ℕ × ℕ
  pub at-assign :
      (c : Contexts) (i j : ℕ) (x : C) → at (assign c i x) j ≡ (if i == j then x else at c j)
