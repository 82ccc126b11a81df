-- ===== src/Base/Arrays.antt =====
-- C arrays of a fixed size, as functions of the index. Bounds are theorems about the code.
use Prim.Native.Nat.{ℕ, zero, suc, ◌+◌, ◌<◌, ◌≤◌}
use mathlib.Core.Path.{◌≡◌, refl}
use mathlib.Core.Bool.{Bool}
use mathlib.Core.Logic.{◌≢◌}
use native.Mathlib.Omega.{arith}
use nica.Base.Tests.{◌==◌, if◌then◌else◌}

module _ {ℓ} {A : Type ℓ} where
  -- `a[i] = v`
  abbrev pub store : (ℕ → A) → ℕ → A → ℕ → A
  store a i v j = if i == j then v else a j

  pub store-same : (a : ℕ → A) (i : ℕ) (v : A) → store a i v i ≡ v
  store-same a i v = ground arith

  pub store-other : (a : ℕ → A) (i j : ℕ) (v : A) → i ≢ j → store a i v j ≡ a j
  store-other a i j v ne = ground arith

  -- The number of indices below `n` at which `p` holds: with every `p`, the multiset of the values.
  unfoldable pub count : (A → Bool) → ℕ → (ℕ → A) → ℕ
  count p zero a = 0
  count p (suc n) a = (if p (a n) then 1 else 0) + count p n a

  abbrev pub SameValues : ℕ → (ℕ → A) → (ℕ → A) → Type ℓ
  SameValues n a b = (p : A → Bool) → count p n a ≡ count p n b

  pub count-store_above :
      (p : A → Bool) (n : ℕ) (a : ℕ → A) (i : ℕ) (v : A)
      → n ≤ i
      → count p n (store a i v) ≡ count p n a
  unfolding count
  count-store_above p zero a i v h = refl
  count-store_above p (suc n) a i v h = ground (arith, count-store_above p n a i v)

  pub count-store :
      (p : A → Bool) (n : ℕ) (a : ℕ → A) (i : ℕ) (v : A)
      → i < n
      → count p n (store a i v) + (if p (a i) then 1 else 0) ≡ count p n a + (if p v then 1 else 0)
  unfolding count
  count-store p zero a i v h = absurd (omega arith)
  count-store p (suc n) a i v h = ground (arith, count-store_above p n a i v, count-store p n a i v)

  -- `std::swap(a[i], a[j])`
  abbrev pub swap : (ℕ → A) → ℕ → ℕ → ℕ → A
  swap a i j = store (store a i (a j)) j (a i)

  swap_kept : (a : ℕ → A) (i j : ℕ) → store a i (a j) j ≡ a j
  swap_kept a i j = ground arith

  pub swap-SameValues : (n : ℕ) (a : ℕ → A) (i j : ℕ) → i < n → j < n → SameValues n (swap a i j) a
  swap-SameValues n a i j hi hj p =
      let second = count-store p n (store a i (a j)) j (a i) hj in
      let second' = rw (swap_kept a i j) at second in
      omega (arith, second', count-store p n a i (a j) hi)
