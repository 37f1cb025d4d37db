-- ===== src/Orders/Refund/Net.antt =====
-- `netCollectedByMethod` records, for each method, the sum of its movements where that is positive.
use Prim.Native.String.{String}
use text.Mathlib.Text.{◌==◌ as str_eq}
use text.Mathlib.TextEquality.{eq_iff}
use valla_pos.Base.{
  ℕ, zero, suc, ◌≡◌, refl, ap, ◌∙◌, false, List, [], ◌∷◌, arith, sum_by, if◌then◌else◌, inl, inr,
  Bool-cases,
}
use valla_pos.Base.Int.{ℤ, pos, negsuc, ◌+ℤ◌, pos_part, int_laws}
use valla_pos.Orders.Refund.{
  PaymentMovement, add_net, add_movements, drop_settled, net_collected_by_method,
}

-- The sum of the movements of one method, and the amount that a map has for it.
abbrev pub collected : String → List PaymentMovement → ℤ
collected m [] = pos 0
collected m (p ∷ ps) = (if str_eq p.method m then p.amount_cents else pos 0) +ℤ collected m ps

abbrev pub value_at : String → List (String × ℤ) → ℤ
value_at m [] = pos 0
value_at m ((k, v) ∷ net) = if str_eq k m then v else value_at m net

abbrev pub balance_at : String → List (String × ℕ) → ℕ
balance_at m [] = 0
balance_at m ((k, n) ∷ net) = if str_eq k m then n else balance_at m net

-- No entry has the key.
abbrev pub Lacks {ℓ} : {V : Type ℓ} → String → List (String × V) → Type 0
Lacks k [] = Unit
Lacks k ((j, v) ∷ net) = (str_eq j k ≡ false) × Lacks k net

-- Every key stands once.
abbrev pub IsMap {ℓ} : {V : Type ℓ} → List (String × V) → Type 0
IsMap [] = Unit
IsMap ((k, v) ∷ net) = Lacks k net × IsMap net

pub value_at-add_net :
    (j m : String) (x : ℤ) (net : List (String × ℤ))
    → value_at j (add_net m x net) ≡ value_at j net +ℤ (if str_eq m j then x else pos 0)
unfolding add_net
value_at-add_net j m x [] = grind int_laws
value_at-add_net j m x ((k, v) ∷ net) =
    grind (int_laws, eq_iff k m, eq_iff k j, eq_iff m j, value_at-add_net j m x net)

pub value_at-add_movements :
    (j : String) (net : List (String × ℤ)) (ps : List PaymentMovement)
    → value_at j (add_movements net ps) ≡ value_at j net +ℤ collected j ps
unfolding add_movements
value_at-add_movements j net [] = omega int_laws
value_at-add_movements j net (p ∷ ps) =
    value_at-add_movements j (add_net p.method p.amount_cents net) ps
    ∙ (rw (value_at-add_net j p.method p.amount_cents net) (omega int_laws))

Lacks-add_net :
    (k m : String) (x : ℤ) (net : List (String × ℤ))
    → str_eq m k ≡ false
    → Lacks k net
    → Lacks k (add_net m x net)
unfolding add_net
Lacks-add_net k m x [] ne h = (ne, tt)
Lacks-add_net k m x ((j, v) ∷ net) ne (h, hs) = elim (Bool-cases (str_eq j m)) [
  | inl e ↦ rw e (h, hs)
  | inr e ↦ rw e (h, Lacks-add_net k m x net ne hs)
]

add_net-IsMap : (m : String) (x : ℤ) (net : List (String × ℤ)) → IsMap net → IsMap (add_net m x net)
unfolding add_net
add_net-IsMap m x [] h = (tt, tt)
add_net-IsMap m x ((j, v) ∷ net) (h, hs) = elim (Bool-cases (str_eq j m)) [
  | inl e ↦ rw e (h, hs)
  | inr e ↦
      rw e (
        Lacks-add_net j m x net (ground (arith, eq_iff j m, eq_iff m j)) h,
        add_net-IsMap m x net hs,
      )
]

add_movements-IsMap :
    (net : List (String × ℤ)) (ps : List PaymentMovement) → IsMap net → IsMap (add_movements net ps)
unfolding add_movements
add_movements-IsMap net [] h = h
add_movements-IsMap net (p ∷ ps) h =
    add_movements-IsMap (add_net p.method p.amount_cents net) ps
      (add_net-IsMap p.method p.amount_cents net h)

Lacks-drop_settled :
    (k : String) (net : List (String × ℤ)) → Lacks k net → Lacks k (drop_settled net)
unfolding drop_settled
Lacks-drop_settled k [] h = tt
Lacks-drop_settled k ((m, pos zero) ∷ net) h = Lacks-drop_settled k net h.1
Lacks-drop_settled k ((m, pos (suc n)) ∷ net) h = (h.0, Lacks-drop_settled k net h.1)
Lacks-drop_settled k ((m, negsuc n) ∷ net) h = Lacks-drop_settled k net h.1

drop_settled-IsMap : (net : List (String × ℤ)) → IsMap net → IsMap (drop_settled net)
unfolding drop_settled
drop_settled-IsMap [] h = tt
drop_settled-IsMap ((m, pos zero) ∷ net) h = drop_settled-IsMap net h.1
drop_settled-IsMap ((m, pos (suc n)) ∷ net) h =
    (Lacks-drop_settled m net h.0, drop_settled-IsMap net h.1)
drop_settled-IsMap ((m, negsuc n) ∷ net) h = drop_settled-IsMap net h.1

pub net_collected-IsMap : (ps : List PaymentMovement) → IsMap (net_collected_by_method ps)
unfolding net_collected_by_method
net_collected-IsMap ps = drop_settled-IsMap _ (add_movements-IsMap [] ps tt)

balance_at-Lacks :
    (m : String) (net : List (String × ℤ)) → Lacks m net → balance_at m (drop_settled net) ≡ 0
unfolding drop_settled
balance_at-Lacks m [] h = refl
balance_at-Lacks m ((k, pos zero) ∷ net) h = balance_at-Lacks m net h.1
balance_at-Lacks m ((k, pos (suc n)) ∷ net) h = rw (h.0) (balance_at-Lacks m net h.1)
balance_at-Lacks m ((k, negsuc n) ∷ net) h = balance_at-Lacks m net h.1

balance_at-drop_settled :
    (m : String) (net : List (String × ℤ))
    → IsMap net
    → balance_at m (drop_settled net) ≡ pos_part (value_at m net)
unfolding drop_settled
balance_at-drop_settled m [] h = refl
balance_at-drop_settled m ((k, pos zero) ∷ net) h =
    ground (arith, eq_iff k m, balance_at-drop_settled m net h.1, balance_at-Lacks k net h.0)
balance_at-drop_settled m ((k, pos (suc n)) ∷ net) h =
    ground (arith, eq_iff k m, balance_at-drop_settled m net h.1, balance_at-Lacks k net h.0)
balance_at-drop_settled m ((k, negsuc n) ∷ net) h =
    ground (arith, eq_iff k m, balance_at-drop_settled m net h.1, balance_at-Lacks k net h.0)

-- For every method the map holds the sum of that method's movements if this is positive, and has no
-- entry (an amount of zero) if it is not.
pub balance_at-net_collected_by_method :
    (m : String) (ps : List PaymentMovement)
    → balance_at m (net_collected_by_method ps) ≡ pos_part (collected m ps)
unfolding net_collected_by_method
balance_at-net_collected_by_method m ps =
    let net = add_movements [] ps in
    let sum : value_at m net ≡ collected m ps = value_at-add_movements m [] ps ∙ omega int_laws in
    balance_at-drop_settled m net (add_movements-IsMap [] ps tt) ∙ ap pos_part sum

-- What a list of amounts asks of one method.
abbrev pub asked : String → List (String × ℕ) → ℕ
asked m = sum_by (λ (e : String × ℕ). if str_eq e.0 m then e.1 else 0)

asked-Lacks : (m : String) (es : List (String × ℕ)) → Lacks m es → asked m es ≡ 0
asked-Lacks m [] h = refl
asked-Lacks m ((k, n) ∷ es) h = rw (h.0) (omega (arith, asked-Lacks m es h.1))

pub asked-IsMap : (m : String) (es : List (String × ℕ)) → IsMap es → asked m es ≡ balance_at m es
asked-IsMap m [] h = refl
asked-IsMap m ((k, n) ∷ es) h =
    ground (arith, eq_iff k m, asked-IsMap m es h.1, asked-Lacks k es h.0)
