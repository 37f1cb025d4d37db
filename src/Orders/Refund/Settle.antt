-- ===== src/Orders/Refund/Settle.antt =====
-- Recording reversals: the total still collected falls by exactly what they give back.
use Prim.Native.String.{String}
use text.Mathlib.Text.{◌==◌ as str_eq}
use text.Mathlib.TextEquality.{eq_iff}
use valla_pos.Base.{
  ℕ, zero, suc, ◌+◌, ◌≤◌, ◌≡◌, refl, ◌∙◌, List, [], ◌∷◌, ◌++◌, arith, map, inl, inr, Bool-cases,
}
use valla_pos.Base.Int.{ℤ, pos, negsuc, neg_ℕ, ◌+ℤ◌, pos_part, int_laws, pos_part-sub, +ℤ_zero}
use valla_pos.Orders.Refund.{
  PaymentMovement, add_net, add_movements, drop_settled, net_collected_by_method, values_sum,
  net_collected_total, reversing, plan_full_reversal,
}
use valla_pos.Orders.Refund.Net.{
  collected, value_at, asked, asked-IsMap, value_at-add_net, value_at-add_movements,
  net_collected-IsMap, balance_at-net_collected_by_method,
}

values_sum-drop_settled :
    (k : String) (v : ℤ) (net : List (String × ℤ))
    → values_sum (drop_settled ((k, v) ∷ net)) ≡ pos_part v + values_sum (drop_settled net)
unfolding drop_settled
values_sum-drop_settled k (pos zero) net = omega arith
values_sum-drop_settled k (pos (suc n)) net = omega arith
values_sum-drop_settled k (negsuc n) net = omega arith

-- A reversal of no more than a method holds lowers the positive amounts by exactly itself.
values_sum-add_net :
    (m : String) (a : ℕ) (net : List (String × ℤ))
    → a ≤ pos_part (value_at m net)
    → values_sum (drop_settled (add_net m (neg_ℕ a) net)) + a ≡ values_sum (drop_settled net)
unfolding add_net
values_sum-add_net m a [] h =
    rw (values_sum-drop_settled m (pos 0 +ℤ neg_ℕ a) []) (omega (arith, pos_part-sub (pos 0) a h))
values_sum-add_net m a ((k, v) ∷ net) h = elim (Bool-cases (str_eq k m)) [
  | inl e ↦
      let here : a ≤ pos_part v = rw e at h in
      rw (e, values_sum-drop_settled k (v +ℤ neg_ℕ a) net, values_sum-drop_settled k v net)
        (omega (arith, pos_part-sub v a here))
  | inr e ↦
      let there : a ≤ pos_part (value_at m net) = rw e at h in
      rw (e, values_sum-drop_settled k v (add_net m (neg_ℕ a) net), values_sum-drop_settled k v net)
        (omega (arith, values_sum-add_net m a net there))
]

-- What is asked after a reversal is covered by what the reversal leaves.
asked-rest :
    (k m : String) (a : ℕ) (net : List (String × ℤ)) (es : List (String × ℕ))
    → asked m ((k, a) ∷ es) ≤ pos_part (value_at m net)
    → asked m es ≤ pos_part (value_at m (add_net k (neg_ℕ a) net))
asked-rest k m a net es h =
    rw (value_at-add_net m k (neg_ℕ a) net) (elim (Bool-cases (str_eq k m)) [
      | inl e ↦
          let both : a + asked m es ≤ pos_part (value_at m net) = rw e at h in
          rw e (omega (arith, pos_part-sub (value_at m net) a (omega arith)))
      | inr e ↦
          let rest : 0 + asked m es ≤ pos_part (value_at m net) = rw e at h in
          rw (e, +ℤ_zero) (omega arith)
    ])

values_sum-add_movements :
    (net : List (String × ℤ)) (es : List (String × ℕ))
    → ((m : String) → asked m es ≤ pos_part (value_at m net))
    → values_sum (drop_settled (add_movements net (map reversing es))) + values_sum es
      ≡ values_sum (drop_settled net)
unfolding add_movements
values_sum-add_movements net [] h = omega arith
values_sum-add_movements net ((k, a) ∷ es) h =
    let first : a + asked k es ≤ pos_part (value_at k net) = rw ((eq_iff k k).1 refl) at (h k) in
    omega (
      arith,
      values_sum-add_net k a net (omega arith),
      values_sum-add_movements (add_net k (neg_ℕ a) net) es (λ m. asked-rest k m a net es (h m)),
    )

add_movements-append :
    (net : List (String × ℤ)) (ps qs : List PaymentMovement)
    → add_movements net (ps ++ qs) ≡ add_movements (add_movements net ps) qs
unfolding add_movements
add_movements-append net [] qs = refl
add_movements-append net (p ∷ ps) qs =
    add_movements-append (add_net p.method p.amount_cents net) ps qs

-- Reversals that ask no more of any method than its positive net amount lower the total still
-- collected by exactly their sum.
pub net_collected_total-reversing :
    (ps : List PaymentMovement) (es : List (String × ℕ))
    → ((m : String) → asked m es ≤ pos_part (collected m ps))
    → net_collected_total (ps ++ map reversing es) + values_sum es ≡ net_collected_total ps
unfolding net_collected_total net_collected_by_method
net_collected_total-reversing ps es h =
    let net = add_movements [] ps in
    let at : (m : String) → value_at m net ≡ collected m ps =
      λ m. value_at-add_movements m [] ps ∙ omega int_laws in
    rw (add_movements-append [] ps (map reversing es))
      (values_sum-add_movements net es (λ m. rw (at m) (h m)))

pub asked-net :
    (m : String) (ps : List PaymentMovement)
    → asked m (net_collected_by_method ps) ≡ pos_part (collected m ps)
asked-net m ps =
    asked-IsMap m (net_collected_by_method ps) (net_collected-IsMap ps)
    ∙ balance_at-net_collected_by_method m ps

drop_settled-nil :
    (net : List (String × ℤ)) → values_sum (drop_settled net) ≡ 0 → drop_settled net ≡ []
unfolding drop_settled
drop_settled-nil [] h = refl
drop_settled-nil ((m, pos zero) ∷ net) h = drop_settled-nil net h
drop_settled-nil ((m, pos (suc n)) ∷ net) h = absurd (omega arith)
drop_settled-nil ((m, negsuc n) ∷ net) h = drop_settled-nil net h

net_collected-nil :
    (ps : List PaymentMovement) → net_collected_total ps ≡ 0 → net_collected_by_method ps ≡ []
unfolding net_collected_total net_collected_by_method
net_collected-nil ps h = drop_settled-nil (add_movements [] ps) h

-- After a full reversal nothing is left to give back: with the planned rows recorded, the total still
-- collected is zero, and a second full reversal plans no rows.
pub plan_full_reversal_settles :
    (ps : List PaymentMovement)
    → (net_collected_total (ps ++ plan_full_reversal ps) ≡ 0)
      × (plan_full_reversal (ps ++ plan_full_reversal ps) ≡ [])
unfolding plan_full_reversal
plan_full_reversal_settles ps =
    let es = net_collected_by_method ps in
    let covered = net_collected_total-reversing ps es (λ m. omega (arith, asked-net m ps)) in
    let total : values_sum es ≡ net_collected_total ps = unfold net_collected_total in refl in
    let none_left : net_collected_total (ps ++ map reversing es) ≡ 0 = omega arith in
    (none_left, rw (net_collected-nil (ps ++ map reversing es) none_left))
