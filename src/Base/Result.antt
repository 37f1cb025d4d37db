-- ===== src/Base/Result.antt =====
-- A value or the error that was thrown instead, and a sequence of such.
use mathlib.Core.Path.{◌≡◌, refl}
use mathlib.Core.Logic.{◌⊎◌, inl, inr}
use mathlib.Core.List.{List, [], ◌∷◌}

pub data Result (E A : Type 0) : Type 0 where
  ok : A → Result E A
  err : E → Result E A

-- What comes after a step that may throw.
infixl 5 ◌>>=◌
abbrev pub ◌>>=◌ : {E A B : Type 0} → Result E A → (A → Result E B) → Result E B
err thrown >>= rest = err thrown
ok x >>= rest = rest x

-- A chain that went through: its first step did, and so did the rest from there.
pub >>=-ok_steps :
    {E A B : Type 0} {y : B} (r : Result E A) (rest : A → Result E B)
    → (r >>= rest) ≡ ok y
    → (x : A) × (r ≡ ok x) × (rest x ≡ ok y)
>>=-ok_steps (err e) rest h = absurd (cc)
>>=-ok_steps (ok x) rest h = (x, refl, h)

pub Result-cases :
    {E A : Type 0} (m : Result E A) → ((a : A) × (m ≡ ok a)) ⊎ ((e : E) × (m ≡ err e))
Result-cases (ok a) = inl (a, refl)
Result-cases (err e) = inr (e, refl)

-- `xs.map(f)` for a callback that may throw.
unfoldable pub traverse : {E A B : Type 0} → (A → Result E B) → List A → Result E (List B)
traverse f [] = ok []
traverse f (x ∷ xs) = f x >>= λ y. traverse f xs >>= λ ys. ok (y ∷ ys)

-- The results of a `map` that went through, one for each element.
abbrev pub Pointwise : {A B : Type 0} → (A → B → Type 0) → List A → List B → Type 0
Pointwise R [] [] = Unit
Pointwise R [] (y ∷ ys) = ⊥
Pointwise R (x ∷ xs) [] = ⊥
Pointwise R (x ∷ xs) (y ∷ ys) = R x y × Pointwise R xs ys

pub traverse-Pointwise :
    {E A B : Type 0} (f : A → Result E B) (R : A → B → Type 0)
    → ((x : A) (y : B) → f x ≡ ok y → R x y)
    → (xs : List A) (ys : List B) → traverse f xs ≡ ok ys
    → Pointwise R xs ys
unfolding traverse
traverse-Pointwise f R each [] [] h = tt
traverse-Pointwise f R each [] (y ∷ ys) h = absurd (cc)
traverse-Pointwise f R each (x ∷ xs) ys h =
    let (z, first, more) = >>=-ok_steps (f x) (λ y. traverse f xs >>= λ zs. ok (y ∷ zs)) h in
    let (zs, rest, last) = >>=-ok_steps (traverse f xs) (λ ws. ok (z ∷ ws)) more in
    let same : z ∷ zs ≡ ys = cc in
    rw (← same) (each x z first, traverse-Pointwise f R each xs zs rest)
