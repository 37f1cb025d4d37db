-- ===== src/Offline/Server.antt =====
-- The replay against the server's `checkout` (`realReplayDeps` of src/lib/offline/checkout-queue.ts).
--
-- What neither side decides is a parameter: the decryption of an envelope, the tests on thrown errors,
-- and for each request its circumstances (`wire`).
pub mod Tests
use Prim.Native.String.{String}
use valla_pos.Base.{
  ℕ, ◌≡◌, ◌⊎◌, refl, Bool, true, false, not, Option, none, some, List, All, All-map, ap, ◌∙◌, inl,
  inr, Bool-cases, Option-cases, if◌then◌else◌, arith, ◌&&◌,
}
use valla_pos.Money.Discount.{Fractions}
use valla_pos.Inventory.{apply_stock_decrements}
use valla_pos.Register.Checkout.{
  CheckoutInput, TenderMethod, cash, SnapshotLine, Operator, Rejection, Sale, StoredSale, Till,
  Receipt, Outcome, receipt, rejected, thrown, is_unverified, is_offline_replay, find_sale, gate,
  prepare_sale, commit_sale, checkout,
}
use valla_pos.Register.Checkout.Once.{checkout-found, ledger_of}
use valla_pos.Register.Checkout.Again.{find_sale-checkout}
use valla_pos.Offline.{
  QueuedCheckout, Thrown, SendResult, sent, failed, ReplayDeps, World, run_replay,
}
use valla_pos.Offline.Kept.{IsKept, Commits, run_replay-IsKept}

-- A request arrives and is answered; or it is lost, or its answer is, which throws on the device.
pub data Delivery : Type 0 where
  delivered : Delivery
  request_lost answer_lost : Thrown → Delivery

-- The circumstances of a request: who the server takes the operator to be, its clock, the id of a new
-- row, and the error that the device sees where `checkout` throws.
pub record Request : Type 0 where
  pub granted : Option Operator
  pub now : ℕ
  pub new_id : String
  pub delivery : Delivery
  pub server_error : Thrown

-- Only what was thrown is an error to `runReplay`: a rejection is a value that `checkout` returns.
unfoldable pub answer_of : Thrown → Outcome → SendResult
answer_of err (receipt r) = sent
answer_of err (rejected x) = sent
answer_of err thrown = failed err

-- `{ ...payload, offlineQueuedAt: entry.queuedAt }`
unfoldable pub dated_payload : ℕ → CheckoutInput → CheckoutInput
dated_payload t p = record p { offline_queued_at = some t }

-- The sale with this key is in the rows.
abbrev pub IsRecorded : String → Till → Type 0
IsRecorded u s = (o : StoredSale) × (find_sale u s.sales ≡ some o)

-- Cash, or with the prices quoted on the device: what needs no manager.
abbrev pub IsQuoted : CheckoutInput → Type 0
IsQuoted p = (p.method ≡ cash) ⊎ ((quote : List SnapshotLine) × (p.price_snapshot ≡ some quote))

-- The payload in an entry, where it can be read, has the key of the entry, and needs no manager.
abbrev pub IsReplayable : (String → Option CheckoutInput) → QueuedCheckout → Type 0
IsReplayable decrypt e = elim (decrypt e.enc) [
  | none ↦ Unit
  | some p ↦ (p.client_uuid ≡ e.client_uuid) × IsQuoted p
]

-- The entry that `enqueueCheckout` stores, where the envelope is `enc` and the clock says `now`.
unfoldable pub queued_entry : String → CheckoutInput → ℕ → QueuedCheckout
queued_entry enc p now = record {
  client_uuid = p.client_uuid;
  enc = enc;
  queued_at = now;
  attempts = 0;
}

-- What the register enqueues can be replayed: its screen attaches the quoted prices to each sale.
pub queued_entry-IsReplayable :
    (decrypt : String → Option CheckoutInput) (enc : String) (p : CheckoutInput) (now : ℕ)
    → decrypt enc ≡ some p
    → IsQuoted p
    → IsReplayable decrypt (queued_entry enc p now)
unfolding queued_entry
queued_entry-IsReplayable decrypt enc p now opens quoted = rw (opens, IsReplayable) (refl, quoted)

ungated :
    (p : CheckoutInput) → IsQuoted p → (is_unverified p.method && not (is_offline_replay p)) ≡ false
ungated p (inl by_cash) = rw by_cash refl
ungated p (inr (quote, quoted)) = rw quoted (ground arith)

Outcome-cases :
    (o : Outcome)
    → ((r : Receipt) × (o ≡ receipt r)) ⊎ ((x : Rejection) × (o ≡ rejected x)) ⊎ (o ≡ thrown)
Outcome-cases (receipt r) = inl (r, refl)
Outcome-cases (rejected x) = inr (inl (x, refl))
Outcome-cases thrown = inr (inr refl)

commit_sale_accepts :
    (id : String) (sale : Sale) (s : Till) (x : Rejection)
    → (commit_sale id sale s).0 ≡ rejected x
    → ⊥
unfolding commit_sale
commit_sale_accepts id sale s x h = elim (Option-cases (find_sale sale.client_uuid s.sales)) [
  | inr (w, e) ↦ let no = rw (e, commit_sale) at h in absurd (cc)
  | inl e ↦ elim (Option-cases (apply_stock_decrements sale.decrements s.stock)) [
    | inl f ↦ let no = rw (e, f, commit_sale) at h in absurd (cc)
    | inr (stock, f) ↦ let no = rw (e, f, commit_sale) at h in absurd (cc)
  ]
]

module _ (fr : Fractions) (trim : String → String) (notation : ℕ → String)
    (verify_pin : String → String → Bool) (b : String) (wire : CheckoutInput → Till → Request) where
  -- `send: checkout`
  unfoldable pub send_checkout : CheckoutInput → Till → SendResult × Till
  send_checkout p s =
      let q = wire p s in
      let (outcome, s') = checkout fr trim notation verify_pin b p q.granted q.now q.new_id s in
      elim q.delivery [
        | delivered ↦ (answer_of q.server_error outcome, s')
        | request_lost err ↦ (failed err, s)
        | answer_lost err ↦ (failed err, s')
      ]

  -- `realReplayDeps`
  unfoldable pub real_replay_deps :
      (String → Option CheckoutInput) → (Thrown → Bool) → ℕ → ReplayDeps CheckoutInput Till
  real_replay_deps decrypt is_network_error now = record {
    decode = λ e. decrypt e.enc;
    dated = dated_payload;
    send = send_checkout;
    is_network_error = is_network_error;
    max_attempts = none;
    now = now;
  }

  Delivery-cases :
      (d : Delivery)
      → (d ≡ delivered)
        ⊎ ((e : Thrown) × (d ≡ request_lost e))
        ⊎ ((e : Thrown) × (d ≡ answer_lost e))
  Delivery-cases delivered = inl refl
  Delivery-cases (request_lost e) = inr (inl (e, refl))
  Delivery-cases (answer_lost e) = inr (inr (e, refl))

  send_checkout_keeps :
      (u : String) (p : CheckoutInput) (s : Till)
      → IsRecorded u s
      → IsRecorded u (send_checkout p s).1
  unfolding send_checkout
  send_checkout_keeps u p s (o, there) =
      let q = wire p s in
      let kept =
        find_sale-checkout fr trim notation verify_pin b u o p q.granted q.now q.new_id s there in
      elim (Delivery-cases q.delivery) [
        | inl e ↦ rw (e, send_checkout) (o, kept)
        | inr (inl (err, e)) ↦ rw (e, send_checkout) (o, there)
        | inr (inr (err, e)) ↦ rw (e, send_checkout) (o, kept)
      ]

  -- Without a manager's approval to ask for, a checkout rejects nothing.
  checkout_accepts :
      (p : CheckoutInput) (granted : Option Operator) (now : ℕ) (id : String) (s : Till)
      (x : Rejection)
      → IsQuoted p
      → (checkout fr trim notation verify_pin b p granted now id s).0 ≡ rejected x
      → ⊥
  unfolding checkout gate
  checkout_accepts p none now id s x quoted h = absurd (cc)
  checkout_accepts p (some op) now id s x quoted h =
      elim (Option-cases (find_sale p.client_uuid s.sales)) [
        | inr (w, e) ↦ let no = rw (e, checkout) at h in absurd (cc)
        | inl e ↦
            let (verdict, throttle) = gate verify_pin b p op now s in
            let f : verdict ≡ none = rw (ungated p quoted, gate) refl in
            let s1 = record s { throttle = throttle } in
            elim (Option-cases (prepare_sale fr trim notation p op now s1)) [
              | inl g ↦ let no = rw (e, f, g, checkout) at h in absurd (cc)
              | inr (sale, g) ↦ commit_sale_accepts id sale s1 x (rw (e, f, g, checkout) at h)
            ]
      ]

  checkout-IsRecorded :
      (p : CheckoutInput) (granted : Option Operator) (now : ℕ) (id : String) (s : Till)
      (r : Receipt)
      → (checkout fr trim notation verify_pin b p granted now id s).0 ≡ receipt r
      → IsRecorded p.client_uuid (checkout fr trim notation verify_pin b p granted now id s).1
  checkout-IsRecorded p granted now id s r h =
      let result = checkout fr trim notation verify_pin b p granted now id s in
      let posted : ledger_of result.1 p.client_uuid ≡ some r =
        checkout-found fr trim notation verify_pin b p granted now id s result.1 r
          (ap (λ o. (o, result.1)) h) in
      elim (Option-cases (find_sale p.client_uuid result.1.sales)) [
        | inl e ↦
            let nothing : ◌≡◌ {A = Option Receipt} none (some r) = rw e at posted in absurd (cc)
        | inr (o, e) ↦ (o, e)
      ]

  send_checkout-IsRecorded :
      (p : CheckoutInput) (s : Till)
      → IsQuoted p
      → (send_checkout p s).0 ≡ sent
      → IsRecorded p.client_uuid (send_checkout p s).1
  unfolding send_checkout answer_of
  send_checkout-IsRecorded p s quoted h =
      let q = wire p s in
      let result = checkout fr trim notation verify_pin b p q.granted q.now q.new_id s in
      elim (Delivery-cases q.delivery) [
        | inr (inl (err, e)) ↦ let no = rw (e, send_checkout) at h in absurd (cc)
        | inr (inr (err, e)) ↦ let no = rw (e, send_checkout) at h in absurd (cc)
        | inl e ↦ elim (Outcome-cases result.0) [
          | inl (r, f) ↦
              rw (e, send_checkout) (checkout-IsRecorded p q.granted q.now q.new_id s r f)
          | inr (inl (x, f)) ↦ absurd (checkout_accepts p q.granted q.now q.new_id s x quoted f)
          | inr (inr f) ↦ let no = rw (e, f, send_checkout, answer_of) at h in absurd (cc)
        ]
      ]

  module _ (decrypt : String → Option CheckoutInput) (is_network_error : Thrown → Bool)
      (now : ℕ) where
    entry-Commits :
        (e : QueuedCheckout)
        → IsReplayable decrypt e
        → Commits (real_replay_deps decrypt is_network_error now) IsRecorded e
    unfolding real_replay_deps dated_payload
    entry-Commits e replayable p s read h =
        let opens : decrypt e.enc ≡ some p = read in
        let (key, quoted) = rw (opens, IsReplayable) at replayable in
        let sent_payload = dated_payload e.queued_at p in
        let (o, there) = send_checkout-IsRecorded sent_payload s quoted h in
        let same : e.client_uuid ≡ p.client_uuid = cc in
        (o, ap (λ k. find_sale k (send_checkout sent_payload s).1.sales) same ∙ there)

    -- No sale is lost on the way from the device to the rows of the server. Where each queued payload
    -- that can be read has the key of its entry, and is cash or carries the quoted prices: a sale that
    -- was queued, or with the dead letters, or recorded by the server before a replay is one of these
    -- after it, whatever the server throws, and whichever requests and answers are lost.
    pub replay-IsKept :
        (u : String) (online : Bool) (w : World Till)
        → All (IsReplayable decrypt) w.queue
        → IsKept IsRecorded u w
        → IsKept IsRecorded u
            (run_replay (real_replay_deps decrypt is_network_error now) online w).1
    unfolding real_replay_deps
    replay-IsKept u online w replayable k =
        run_replay-IsKept (real_replay_deps decrypt is_network_error now) IsRecorded
          send_checkout_keeps u online w (All-map _ _ w.queue entry-Commits replayable) k
