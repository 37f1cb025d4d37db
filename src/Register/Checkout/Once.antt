-- ===== src/Register/Checkout/Once.antt =====
-- A sale is recorded once for its key, however often and in whatever order it is sent.
use Prim.Native.String.{String}
use text.Mathlib.Text.{◌==◌ as str_eq}
use text.Mathlib.TextEquality.{eq_iff}
use valla_pos.Base.{
  ℕ, ◌≡◌, refl, Bool, true, Option, none, some, List, ◌∷◌, inl, inr, Option-cases, if◌then◌else◌,
  arith, ◌⊎◌,
}
use valla_pos.Money.Discount.{Fractions}
use valla_pos.Inventory.{Variation, apply_stock_decrements}
use valla_pos.Register.Checkout.{
  CheckoutInput, Operator, Sale, StoredSale, Till, Receipt, Outcome, receipt, rejected, thrown,
  to_receipt, find_sale, gate, prepare_sale, next_number, commit_sale, checkout,
}

-- The row that a transaction adds.
abbrev pub row_for : String → Sale → Till → StoredSale
row_for new_id sale s = record { id = new_id; number = next_number s.counter; sale = sale }

abbrev pub IsAdded : String → Sale → Till → Till → Receipt → Type 0
IsAdded new_id sale s s' r =
    (stock : List Variation) × (find_sale sale.client_uuid s.sales ≡ none)
    × (apply_stock_decrements sale.decrements s.stock ≡ some stock)
    × (s' ≡ record s {
      sales = row_for new_id sale s ∷ s.sales;
      counter = some (next_number s.counter);
      stock = stock;
    })
    × (r ≡ to_receipt (row_for new_id sale s))

-- How a transaction that returns a receipt has ended: the sale was there, or it was added.
pub commit_sale-cases :
    (new_id : String) (sale : Sale) (s s' : Till) (r : Receipt)
    → commit_sale new_id sale s ≡ (receipt r, s')
    → ((w : StoredSale) × (find_sale sale.client_uuid s.sales ≡ some w)
        × (s' ≡ s)
        × (r ≡ to_receipt w))
      ⊎ IsAdded new_id sale s s' r
unfolding commit_sale
commit_sale-cases new_id sale s s' r h = elim (Option-cases (find_sale sale.client_uuid s.sales)) [
  | inr (w, e) ↦
      let done : ◌≡◌ {A = Outcome × Till} (receipt (to_receipt w), s) (receipt r, s') =
        rw (e, commit_sale) at h in
      inl (w, e, cc, cc)
  | inl e ↦ elim (Option-cases (apply_stock_decrements sale.decrements s.stock)) [
    | inl f ↦
        let done : ◌≡◌ {A = Outcome × Till} (thrown, s) (receipt r, s') =
          rw (e, f, commit_sale) at h in
        absurd (cc)
    | inr (stock, f) ↦
        let row = row_for new_id sale s in
        let next = record s {
          sales = row ∷ s.sales;
          counter = some (next_number s.counter);
          stock = stock;
        } in
        let done : ◌≡◌ {A = Outcome × Till} (receipt (to_receipt row), next) (receipt r, s') =
          rw (e, f, commit_sale) at h in
        inr (stock, e, f, cc, cc)
  ]
]

-- The ledger that a checkout promises: for each key, the receipt of its sale.
abbrev pub Ledger : Type 0
Ledger = String → Option Receipt

abbrev pub unless : Option Receipt → Option Receipt → Option Receipt → Option Receipt
unless none posted old = posted
unless (some r) posted old = old

-- Posting under a key that has a receipt changes nothing.
abbrev pub post : String → Receipt → Ledger → Ledger
post key r ledger u = unless (ledger key) (if str_eq key u then some r else ledger u) (ledger u)

abbrev pub receipt_of : Option StoredSale → Option Receipt
receipt_of none = none
receipt_of (some o) = some (to_receipt o)

abbrev pub ledger_of : Till → Ledger
ledger_of s u = receipt_of (find_sale u s.sales)

-- The transaction of any prepared sale, at any later state of the rows, implements the ledger: where it
-- returns a receipt, this is the ledger's for the sale's key, and the ledger is the old one with the
-- receipt posted. So a second sale under a key never gets in, however the requests are interleaved.
pub commit_sale-refines :
    (new_id : String) (sale : Sale) (s s' : Till) (r : Receipt)
    → commit_sale new_id sale s ≡ (receipt r, s')
    → (ledger_of s' sale.client_uuid ≡ some r)
      × ((u : String) → ledger_of s' u ≡ post sale.client_uuid r (ledger_of s) u)
unfolding find_sale
commit_sale-refines new_id sale s s' r h = elim (commit_sale-cases new_id sale s s' r h) [
  | inl (w, e, same, is) ↦ rw (same, is, e) (refl, λ u. refl)
  | inr (stock, e, f, same, is) ↦
      let here : str_eq sale.client_uuid sale.client_uuid ≡ true =
        (eq_iff sale.client_uuid sale.client_uuid).1 refl in
      rw (same, is, e) (rw here refl, λ u. ground arith)
]

module _ (fr : Fractions) (trim : String → String) (notation : ℕ → String)
    (verify_pin : String → String → Bool) (b : String) where
  -- A prepared sale has the key that was sent.
  prepared-key :
      (data' : CheckoutInput) (op : Operator) (now : ℕ) (s : Till) (sale : Sale)
      → prepare_sale fr trim notation data' op now s ≡ some sale
      → sale.client_uuid ≡ data'.client_uuid
  unfolding prepare_sale
  prepared-key data' op now s sale h = ground arith

  -- Where a checkout returned a receipt, its key has a sale with that receipt.
  pub checkout-found :
      (data' : CheckoutInput) (granted : Option Operator) (now : ℕ) (id : String) (s s' : Till)
      (r : Receipt)
      → checkout fr trim notation verify_pin b data' granted now id s ≡ (receipt r, s')
      → ledger_of s' data'.client_uuid ≡ some r
  unfolding checkout
  checkout-found data' none now id s s' r h =
      let done : ◌≡◌ {A = Outcome × Till} (thrown, s) (receipt r, s') = h in absurd (cc)
  checkout-found data' (some op) now id s s' r h =
      elim (Option-cases (find_sale data'.client_uuid s.sales)) [
        | inr (o, e) ↦
            let done : ◌≡◌ {A = Outcome × Till} (receipt (to_receipt o), s) (receipt r, s') =
              rw (e, checkout) at h in
            let same : s' ≡ s = cc in let is : r ≡ to_receipt o = cc in rw (same, e, is) refl
        | inl e ↦
            let (verdict, throttle) = gate verify_pin b data' op now s in
            let s1 = record s { throttle = throttle } in
            elim (Option-cases verdict) [
              | inr (x, f) ↦
                  let done : ◌≡◌ {A = Outcome × Till} (rejected x, s1) (receipt r, s') =
                    rw (e, f, checkout) at h in
                  absurd (cc)
              | inl f ↦ elim (Option-cases (prepare_sale fr trim notation data' op now s1)) [
                | inl g ↦
                    let done : ◌≡◌ {A = Outcome × Till} (thrown, s1) (receipt r, s') =
                      rw (e, f, g, checkout) at h in
                    absurd (cc)
                | inr (sale, g) ↦
                    let done : commit_sale id sale s1 ≡ (receipt r, s') =
                      rw (e, f, g, checkout) at h in
                    let key = prepared-key data' op now s1 sale g in
                    rw (← key) ((commit_sale-refines id sale s1 s' r done).0)
              ]
            ]
      ]
