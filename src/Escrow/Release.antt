-- ===== src/Escrow/Release.antt =====
-- releaseOneHold: when the vendor is paid, and how often.
use omnigo_app.Common.{
  ◌≡◌, refl, ap, sym, ◌&&◌, ◌∙◌, ◌⊎◌, inl, inr, Bool, true, false, arith, List, [], ◌∷◌, Option,
  none, some, any, Bool-cases,
}
use omnigo_app.Common.Text.{Text, text_eq, text_eq_refl}
use omnigo_app.Common.Int.{eqb_ℤ}
use omnigo_app.Ledger.Models.{Db}
use omnigo_app.Ledger.Service.{transfer}
use omnigo_app.Ledger.Outcome.{transfer-cases}
use omnigo_app.Escrow.Models.{released, EscrowHold, OrderRow, World, find_hold, find_order}
use omnigo_app.Escrow.Terms.{terms, holds_amount, update_hold-terms, find_hold-amount}
use omnigo_app.Escrow.Process.{
  Attempt, Ending, release_request, release_key, is_claimable, claimed, release_one_hold,
}
use omnigo_app.Escrow.Claimed.{
  find_order-same, claim, claim-terms, Released, find_hold-claimable, claimed-Released,
}
use omnigo_app.Escrow.Outcome.{
  may_release, Unpaid, Release, no_transfer, only_ledger, complete, process_hold-Release,
  process_hold-Unpaid,
}

-- Whether some hold under the identifier is due, and its order may be paid out.
abbrev payable_order : Option OrderRow → World → Bool
payable_order none w = false
payable_order (some o) w = may_release o w

abbrev payable_hold : Option EscrowHold → World → Bool
payable_hold none w = false
payable_hold (some h) w = payable_order (find_order h.order_tracking_id w.orders) w

abbrev pub is_payable : Attempt → Text → World → Bool
is_payable a id w = payable_hold (find_hold (is_claimable id a.now) w.holds) w

claimed-Unpaid :
    (a : Attempt) (row : Option EscrowHold) (w : World)
    → payable_hold row w ≡ false
    → Unpaid w (claimed a row w).1
unfolding claimed
claimed-Unpaid a none w unmet = record {
  same_wallets = refl;
  same_orders = refl;
  same_ledger = refl;
  same_terms = refl;
}
claimed-Unpaid a (some h) w unmet =
    process_hold-Unpaid a h w (claim h w) (find_order h.order_tracking_id w.orders)
      (refl, refl, refl, claim-terms h w)
      (λ o found. (
        find_order-same h.order_tracking_id w.orders found,
        rw (← (ap (λ r. payable_order r w) found)) unmet,
      ))

-- Money moves only if a hold under the identifier is due and its order was not paid out before, has
-- no open dispute, has arrived, and its payment is not known to be missing: for cash on delivery the
-- latest debt is settled, for any other gateway the payment status is paid, empty or NULL. Otherwise
-- the wallets, the orders and the ledger stay as they are, whatever fails.
pub release_one_hold-Unpaid :
    (a : Attempt) (id : Text) (w : World)
    → is_payable a id w ≡ false
    → Unpaid w (release_one_hold a id w).1
unfolding release_one_hold
release_one_hold-Unpaid a id w unmet =
    ground (arith, claimed-Unpaid a (find_hold (is_claimable id a.now) w.holds) w unmet)

-- The ledger after an ending: as before, or with the transfer.
Release-ledger :
    {a : Attempt} {h : EscrowHold} {w tx : World} {r : Ending × World}
    → tx.ledger ≡ w.ledger
    → Release a h w tx r
    → (r.1.ledger ≡ w.ledger)
      ⊎ (r.1.ledger ≡ (transfer a.ext a.ledger_faults (release_request a.hold_hours h) w.ledger).1)
Release-ledger s (no_transfer u) = inl u.same_ledger
Release-ledger s (only_ledger e) = inr (ap (λ x. x.ledger) e)
Release-ledger s (complete good e) = inr (ap (λ x. x.ledger) e)

claimed-ledger :
    (a : Attempt) (id : Text) (row : Option EscrowHold) (w : World)
    → ((h : EscrowHold) → row ≡ some h → (h.id ≡ id) × (holds_amount h.id h.amount w.holds ≡ true))
    → ((claimed a row w).1.ledger ≡ w.ledger)
      ⊎ Released id w.holds w.ledger (claimed a row w).1.ledger
unfolding claimed
claimed-ledger a id none w same = inl refl
claimed-ledger a id (some h) w same =
    let row = find_order h.order_tracking_id w.orders in
    elim (Release-ledger refl
      (process_hold-Release a h w (claim h w) row (refl, refl, refl, claim-terms h w))) [
        | inl kept ↦ inl kept
        | inr moved ↦
            elim (transfer-cases a.ext a.ledger_faults (release_request a.hold_hours h) w.ledger) [
              | inl kept ↦ inl (moved ∙ kept)
              | inr (good, c) ↦
                  let (own, of_hold) = same h refl in
                  inr (claimed-Released a id h w _ own of_hold (rw moved c))
            ]
      ]

Release-terms :
    {a : Attempt} {h : EscrowHold} {w tx : World} {r : Ending × World}
    → terms tx.holds ≡ terms w.holds
    → Release a h w tx r
    → terms r.1.holds ≡ terms w.holds
Release-terms s (no_transfer u) = u.same_terms
Release-terms s (only_ledger e) = ap (λ x. terms x.holds) e
Release-terms {a} {h} {w} {tx} s (complete good e) =
    ap (λ x. terms x.holds) e
    ∙ update_hold-terms h.id (λ x. record x { status = released; released_at = some a.now })
        tx.holds (λ x. (refl, refl))
    ∙ s

claimed-terms :
    (a : Attempt) (row : Option EscrowHold) (w : World)
    → terms (claimed a row w).1.holds ≡ terms w.holds
unfolding claimed
claimed-terms a none w = refl
claimed-terms a (some h) w =
    let terms_kept = claim-terms h w in
    Release-terms terms_kept (
      process_hold-Release a h w (claim h w) (find_order h.order_tracking_id w.orders)
        (refl, refl, refl, terms_kept))

release_one_hold-terms :
    (a : Attempt) (id : Text) (w : World) → terms (release_one_hold a id w).1.holds ≡ terms w.holds
unfolding release_one_hold
release_one_hold-terms a id w =
    ground (arith, claimed-terms a (find_hold (is_claimable id a.now) w.holds) w)

release_one_hold-ledger :
    (a : Attempt) (id : Text) (w : World)
    → ((release_one_hold a id w).1.ledger ≡ w.ledger)
      ⊎ Released id w.holds w.ledger (release_one_hold a id w).1.ledger
unfolding release_one_hold
release_one_hold-ledger a id w =
    let row = find_hold (is_claimable id a.now) w.holds in
    elim (Bool-cases a.begin_fails) [
      | inl fails ↦ rw fails (inl refl)
      | inr begins ↦ rw begins (
          claimed-ledger a id row w (λ h found. (
            find_hold-claimable id a.now w.holds found,
            find_hold-amount (is_claimable id a.now) w.holds found,
          )))
    ]

-- The key of the hold's release is in `ledger_idempotency`.
abbrev pub is_reserved : Text → Db → Bool
is_reserved id d = any (text_eq (release_key id)) d.idempotency

Released-reserved :
    {id : Text} {hs : List EscrowHold} {d d' : Db} → Released id hs d d' → is_reserved id d' ≡ true
unfolding text_eq release_key
Released-reserved {id} r = rw (r.committed.keys, r.own_key, text_eq_refl (release_key id)) refl

Released-unused :
    {id : Text} {hs : List EscrowHold} {d d' : Db} → Released id hs d d' → is_reserved id d ≡ false
unfolding release_key text_eq
Released-unused r = rw (← r.own_key) (r.committed.unused (rw r.own_key refl))

-- The attempts of the workers at one hold, one after another.
unfoldable pub attempts : List Attempt → Text → World → World
attempts [] id w = w
attempts (a ∷ tries) id w = attempts tries id (release_one_hold a id w).1

attempts-reserved :
    (tries : List Attempt) (id : Text) (w : World)
    → is_reserved id w.ledger ≡ true
    → (attempts tries id w).ledger ≡ w.ledger
unfolding attempts
attempts-reserved [] id w taken = refl
attempts-reserved (a ∷ tries) id w taken = elim (release_one_hold-ledger a id w) [
  | inl kept ↦ attempts-reserved tries id (release_one_hold a id w).1 (rw kept taken) ∙ kept
  | inr paid ↦ absurd (ground (arith, taken, Released-unused paid))
]

Released-from :
    {id : Text} {hs hs' : List EscrowHold} {d d' e : Db}
    → d' ≡ d
    → terms hs' ≡ terms hs
    → Released id hs' d' e
    → Released id hs d e
Released-from {id} same same_terms r = record {
  ext = r.ext;
  faults = r.faults;
  request = r.request;
  from_locked = r.from_locked;
  to_vendor = r.to_vendor;
  of_hold =
      ap (any (λ t. text_eq t.0 id && eqb_ℤ t.1 r.request.amount)) (sym same_terms) ∙ r.of_hold;
  own_key = r.own_key;
  committed = rw (← same) r.committed;
}

-- Over any sequence of attempts at a hold, whatever fails in each of them and wherever it stops, the
-- ledger is as before or has the writes of exactly one transfer, under the hold's key, from the
-- vendors' locked escrow to what they can withdraw, of the amount that a row of the identifier had
-- at the start.
pub attempts-Released :
    (tries : List Attempt) (id : Text) (w : World)
    → ((attempts tries id w).ledger ≡ w.ledger)
      ⊎ Released id w.holds w.ledger (attempts tries id w).ledger
unfolding attempts
attempts-Released [] id w = inl refl
attempts-Released (a ∷ tries) id w =
    let w' = (release_one_hold a id w).1 in
    elim (release_one_hold-ledger a id w) [
      | inl kept ↦ elim (attempts-Released tries id w') [
        | inl same ↦ inl (same ∙ kept)
        | inr paid ↦ inr (Released-from kept (release_one_hold-terms a id w) paid)
      ]
      | inr paid ↦ inr (rw (attempts-reserved tries id w' (Released-reserved paid)) paid)
    ]
