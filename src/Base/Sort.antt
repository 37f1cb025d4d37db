-- ===== src/Base/Sort.antt =====
-- `xs.sort(compare)`, which is stable: an insertion sort by the test "`compare(x, y) > 0`, so that `x`
-- goes behind `y`". The result of a stable sort does not depend on the algorithm.
use Prim.Native.Nat.{ℕ, ◌+◌, ◌≤◌}
use mathlib.Core.Path.{◌≡◌, refl}
use mathlib.Core.Logic.{inl, inr}
use mathlib.Core.Bool.{Bool, true, false}
use mathlib.Core.List.{List, [], ◌∷◌}
use native.Mathlib.Omega.{arith}
use valla_pos.Base.Tests.{if◌then◌else◌, Bool-cases}
use valla_pos.Base.Lists.{All, All-map, sum_by}

module _ {ℓ} {A : Type ℓ} where
  unfoldable pub insert_by : (A → A → Bool) → A → List A → List A
  insert_by behind x [] = x ∷ []
  insert_by behind x (y ∷ ys) = if behind x y then y ∷ insert_by behind x ys else x ∷ y ∷ ys

  unfoldable pub sort_by : (A → A → Bool) → List A → List A
  unfolding insert_by
  sort_by behind [] = []
  sort_by behind (x ∷ xs) = insert_by behind x (sort_by behind xs)

module _ {ℓ} {A : Type ℓ} (behind : A → A → Bool) where
  All-insert_by {κ} :
      (P : A → Type κ) (x : A) (ys : List A) → P x → All P ys → All P (insert_by behind x ys)
  unfolding insert_by
  All-insert_by P x [] p ps = (p, tt)
  All-insert_by P x (y ∷ ys) p (q, qs) = elim (Bool-cases (behind x y)) [
    | inl e ↦ rw e (q, All-insert_by P x ys p qs)
    | inr e ↦ rw e (p, (q, qs))
  ]

  pub All-sort_by {κ} : (P : A → Type κ) (xs : List A) → All P xs → All P (sort_by behind xs)
  unfolding sort_by
  All-sort_by P [] h = tt
  All-sort_by P (x ∷ xs) (p, ps) = All-insert_by P x (sort_by behind xs) p (All-sort_by P xs ps)

  sum_by-insert_by :
      (f : A → ℕ) (x : A) (ys : List A) → sum_by f (insert_by behind x ys) ≡ f x + sum_by f ys
  unfolding insert_by
  sum_by-insert_by f x [] = refl
  sum_by-insert_by f x (y ∷ ys) = elim (Bool-cases (behind x y)) [
    | inl e ↦ rw e (omega (arith, sum_by-insert_by f x ys))
    | inr e ↦ rw e
  ]

  -- A sum over the elements does not depend on their order.
  pub sum_by-sort_by : (f : A → ℕ) (xs : List A) → sum_by f (sort_by behind xs) ≡ sum_by f xs
  unfolding sort_by
  sum_by-sort_by f [] = refl
  sum_by-sort_by f (x ∷ xs) =
      omega (arith, sum_by-insert_by f x (sort_by behind xs), sum_by-sort_by f xs)

-- The keys fall along the list.
abbrev pub IsDescending {ℓ} : {A : Type ℓ} → (A → ℕ) → List A → Type 0
IsDescending key [] = Unit
IsDescending key (x ∷ xs) = All (λ y. key y ≤ key x) xs × IsDescending key xs

module _ {ℓ} {A : Type ℓ} (behind : A → A → Bool) (key : A → ℕ)
    (behind_le : (x y : A) → behind x y ≡ true → key x ≤ key y)
    (before_le : (x y : A) → behind x y ≡ false → key y ≤ key x) where
  insert_by-IsDescending :
      (x : A) (ys : List A) → IsDescending key ys → IsDescending key (insert_by behind x ys)
  unfolding insert_by
  insert_by-IsDescending x [] h = (tt, tt)
  insert_by-IsDescending x (y ∷ ys) (below, d) = elim (Bool-cases (behind x y)) [
    | inl e ↦ rw e (
      All-insert_by behind (λ z. key z ≤ key y) x ys (behind_le x y e) below,
      insert_by-IsDescending x ys d,
    )
    | inr e ↦
        let le = before_le x y e in
        rw e (
          (le, All-map (λ z. key z ≤ key y) (λ z. key z ≤ key x) ys (λ z h. omega arith) below),
          (below, d),
        )
  ]

  -- A sort whose order falls with the key leaves the keys falling.
  pub sort_by-IsDescending : (xs : List A) → IsDescending key (sort_by behind xs)
  unfolding sort_by
  sort_by-IsDescending [] = tt
  sort_by-IsDescending (x ∷ xs) =
      insert_by-IsDescending x (sort_by behind xs) (sort_by-IsDescending xs)
