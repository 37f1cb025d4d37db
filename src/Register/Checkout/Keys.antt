-- ===== src/Register/Checkout/Keys.antt =====
-- The keys and numbers of stored sales are their own.
use Prim.Native.String.{String}
use text.Mathlib.Text.{◌==◌ as str_eq}
use text.Mathlib.TextEquality.{eq_iff}
use valla_pos.Base.{
  ℕ, ◌+◌, ◌-◌, ◌≤◌, ◌≡◌, refl, Option, none, some, List, [], ◌∷◌, sum_by, inl, inr, if◌then◌else◌,
  arith,
}
use valla_pos.Register.Checkout.{
  Sale, StoredSale, Till, Receipt, receipt, find_sale, next_number, commit_sale,
}
use valla_pos.Register.Checkout.Once.{commit_sale-cases, row_for}

-- How many sales have a key.
abbrev pub sales_with : String → List StoredSale → ℕ
sales_with u = sum_by (λ (o : StoredSale). if str_eq o.sale.client_uuid u then 1 else 0)

-- The numbers fall along the rows, the newest first, from at most `n`.
abbrev pub IsNumbered : ℕ → List StoredSale → Type 0
IsNumbered n [] = Unit
IsNumbered n (o ∷ os) = (o.number ≤ n) × (1 ≤ o.number) × IsNumbered (o.number - 1) os

abbrev pub last_number : Option ℕ → ℕ
last_number none = 0
last_number (some n) = n

pub record IsKeyed (s : Till) : Type 0 where
  pub one_each : (u : String) → sales_with u s.sales ≤ 1
  pub numbered : IsNumbered (last_number s.counter) s.sales

sales_with-none : (u : String) (os : List StoredSale) → find_sale u os ≡ none → sales_with u os ≡ 0
unfolding find_sale
sales_with-none u [] h = refl
sales_with-none u (o ∷ os) h = ground (arith, sales_with-none u os)

next_number_lem : (c : Option ℕ) → next_number c ≡ last_number c + 1
unfolding next_number
next_number_lem none = refl
next_number_lem (some n) = refl

IsNumbered-weaken : (m n : ℕ) (os : List StoredSale) → m ≤ n → IsNumbered m os → IsNumbered n os
IsNumbered-weaken m n [] le h = tt
IsNumbered-weaken m n (o ∷ os) le (a, b, c) = (omega arith, b, c)

-- Every key has at most one sale, and sales have distinct numbers that grow in the order in which they
-- are recorded: the transaction keeps this, for any prepared sale and at any later state of the rows.
pub commit_sale-IsKeyed :
    (new_id : String) (sale : Sale) (s s' : Till) (r : Receipt)
    → IsKeyed s
    → commit_sale new_id sale s ≡ (receipt r, s')
    → IsKeyed s'
commit_sale-IsKeyed new_id sale s s' r k h = elim (commit_sale-cases new_id sale s s' r h) [
  | inl (w, e, same, is) ↦ rw same k
  | inr (stock, e, f, same, is) ↦
      let gone = sales_with-none sale.client_uuid s.sales e in
      let count : (u : String) → sales_with u (row_for new_id sale s ∷ s.sales) ≤ 1 =
        λ u. ground (arith, gone, k.one_each u, eq_iff sale.client_uuid u) in
      let n = next_number_lem s.counter in
      let below : IsNumbered (next_number s.counter - 1) s.sales =
        IsNumbered-weaken (last_number s.counter) (next_number s.counter - 1) s.sales (omega arith)
          k.numbered in
      rw same (record { one_each = count; numbered = (omega arith, omega arith, below) })
]
