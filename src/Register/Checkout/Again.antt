-- ===== src/Register/Checkout/Again.antt =====
-- Sending a sale again, at any later time (the idempotency key of
-- src/features/register/actions.ts).
use Prim.Native.String.{String}
use text.Mathlib.Text.{◌==◌ as str_eq}
use text.Mathlib.TextEquality.{eq_iff}
use valla_pos.Base.{
  ℕ, ◌≡◌, refl, Bool, Option, none, some, List, inl, inr, Bool-cases, Option-cases,
}
use valla_pos.Money.Discount.{Fractions}
use valla_pos.Inventory.{Variation, apply_stock_decrements}
use valla_pos.PinThrottle.{Store}
use valla_pos.Register.Resolve.{CatalogRow}
use valla_pos.Register.Approval.{Member}
use valla_pos.Register.Checkout.{
  CheckoutInput, Operator, Sale, StoredSale, Till, Receipt, receipt, to_receipt, find_sale, gate,
  prepare_sale, commit_sale, checkout,
}
use valla_pos.Register.Checkout.Once.{checkout-found, ledger_of}

-- Everything of the rows but the sales and their counter is set anew.
abbrev elsewhere_set :
    Till → List Variation → List CatalogRow → List Member → ℕ → Bool → Store → Till
elsewhere_set s stock catalog members rate inclusive throttle = record s {
  stock = stock;
  catalog = catalog;
  members = members;
  tax_rate_bps = rate;
  tax_inclusive = inclusive;
  throttle = throttle;
}

-- The transaction of any sale keeps what was recorded under every key.
find_sale-commit_sale :
    (u : String) (o : StoredSale) (id : String) (sale : Sale) (s : Till)
    → find_sale u s.sales ≡ some o
    → find_sale u (commit_sale id sale s).1.sales ≡ some o
unfolding commit_sale find_sale
find_sale-commit_sale u o id sale s h = elim (Option-cases (find_sale sale.client_uuid s.sales)) [
  | inr (w, e) ↦ rw (e, commit_sale) h
  | inl e ↦ elim (Option-cases (apply_stock_decrements sale.decrements s.stock)) [
    | inl f ↦ rw (e, f, commit_sale) h
    | inr (stock, f) ↦ elim (Bool-cases (str_eq sale.client_uuid u)) [
      | inl same ↦
          let key : sale.client_uuid ≡ u = (eq_iff sale.client_uuid u).0 same in
          let nothing : ◌≡◌ {A = Option StoredSale} (some o) none = rw (key, h) at e in absurd (cc)
      | inr apart ↦ rw (e, f, apart, commit_sale) h
    ]
  ]
]

module _ (fr : Fractions) (trim : String → String) (notation : ℕ → String)
    (verify_pin : String → String → Bool) (b : String) where
  -- What happens to the rows between two checkouts: a whole checkout, the transaction of a checkout
  -- that prepared its sale at any earlier time, each whatever its outcome, and any change of what is not
  -- a sale.
  pub data Step : Till → Till → Type 0 where
    rung :
        {s : Till} (data' : CheckoutInput) (granted : Option Operator) (now : ℕ) (id : String)
        → Step s (checkout fr trim notation verify_pin b data' granted now id s).1
    committed : {s : Till} (id : String) (sale : Sale) → Step s (commit_sale id sale s).1
    elsewhere :
        {s : Till} (stock : List Variation) (catalog : List CatalogRow) (members : List Member)
        (rate : ℕ) (inclusive : Bool) (throttle : Store)
        → Step s (elsewhere_set s stock catalog members rate inclusive throttle)

  pub data Run (s : Till) : Till → Type 0 where
    here : Run s s
    next : {t u : Till} → Run s t → Step t u → Run s u

  pub find_sale-checkout :
      (u : String) (o : StoredSale) (data' : CheckoutInput) (granted : Option Operator) (now : ℕ)
      (id : String) (s : Till)
      → find_sale u s.sales ≡ some o
      → find_sale u (checkout fr trim notation verify_pin b data' granted now id s).1.sales ≡ some o
  unfolding checkout
  find_sale-checkout u o data' none now id s h = h
  find_sale-checkout u o data' (some op) now id s h =
      elim (Option-cases (find_sale data'.client_uuid s.sales)) [
        | inr (w, e) ↦ rw (e, checkout) h
        | inl e ↦
            let (verdict, throttle) = gate verify_pin b data' op now s in
            let s1 = record s { throttle = throttle } in
            elim (Option-cases verdict) [
              | inr (x, f) ↦ rw (e, f, checkout) h
              | inl f ↦ elim (Option-cases (prepare_sale fr trim notation data' op now s1)) [
                | inl g ↦ rw (e, f, g, checkout) h
                | inr (sale, g) ↦ rw (e, f, g, checkout) (find_sale-commit_sale u o id sale s1 h)
              ]
            ]
      ]

  find_sale-Step :
      (u : String) (o : StoredSale) {s t : Till}
      → find_sale u s.sales ≡ some o
      → Step s t
      → find_sale u t.sales ≡ some o
  find_sale-Step u o {s} h (rung data' granted now id) =
      find_sale-checkout u o data' granted now id s h
  find_sale-Step u o {s} h (committed id sale) = find_sale-commit_sale u o id sale s h
  find_sale-Step u o h (elsewhere stock catalog members rate inclusive throttle) = h

  find_sale-Run :
      (u : String) (o : StoredSale) {s t : Till}
      → find_sale u s.sales ≡ some o
      → Run s t
      → find_sale u t.sales ≡ some o
  find_sale-Run u o h here = h
  find_sale-Run u o h (next run step) = find_sale-Step u o (find_sale-Run u o h run) step

  -- Sending a sale again is safe: once a checkout has returned a receipt, every later checkout with
  -- the same key, by whoever may take orders and whatever else it sends, returns the same receipt and
  -- leaves the rows as they are. In between there may be any sequence of checkouts, of transactions of
  -- sales prepared at any time, and of changes of the rows that are not sales.
  pub checkout-again :
      (data' : CheckoutInput) (granted : Option Operator) (now : ℕ) (id : String) (s s' t : Till)
      (r : Receipt) (data2 : CheckoutInput) (op : Operator) (now2 : ℕ) (id2 : String)
      → checkout fr trim notation verify_pin b data' granted now id s ≡ (receipt r, s')
      → Run s' t
      → data2.client_uuid ≡ data'.client_uuid
      → checkout fr trim notation verify_pin b data2 (some op) now2 id2 t ≡ (receipt r, t)
  unfolding checkout
  checkout-again data' granted now id s s' t r data2 op now2 id2 h run same =
      let posted : ledger_of s' data2.client_uuid ≡ some r =
        rw same (checkout-found fr trim notation verify_pin b data' granted now id s s' r h) in
      elim (Option-cases (find_sale data2.client_uuid s'.sales)) [
        | inl e ↦
            let nothing : ◌≡◌ {A = Option Receipt} none (some r) = rw e at posted in absurd (cc)
        | inr (o, e) ↦
            let is : some (to_receipt o) ≡ some r = rw e at posted in
            let is' : to_receipt o ≡ r = cc in
            rw (find_sale-Run data2.client_uuid o e run, is', checkout) refl
      ]
