-- ===== src/Escrow/Unique.antt =====
-- What a dispute that is rejected leaves behind, and holds that keep others from being made.
use omnigo_app.Common.{
  ◌≡◌, refl, Bool, true, false, ◌&&◌, [], ◌∷◌, Option, none, some, any, arith, if◌then◌else◌, map,
}
use omnigo_app.Common.Text.{Text, text_eq_refl}
use omnigo_app.Escrow.Models.{held, EscrowHold, World}
use omnigo_app.Escrow.Repository.{
  Holds, Answers, same_pair, of_order, is_held_or_paid_out, in_dispute, insert_hold, create_row,
  create_hold_in_tx, update_where, freeze_for_dispute, unfreeze_on_dispute_rejection, create_hold,
  create_hold_tx, create_by, create_tx_by,
}

-- No hold is in the dispute.
abbrev pub is_fresh : Text → Holds → Bool
is_fresh dispute hs = any (λ h. in_dispute dispute h.dispute_id) hs

abbrev pub held_again : Text → EscrowHold → EscrowHold
held_again order h =
    if of_order order h && is_held_or_paid_out h.status
    then record h { status = held; dispute_id = none }
    else h

-- When a new dispute is filed and then rejected, every hold of the order that was held or paid out
-- is held: that a hold was paid out is forgotten. All other holds are as they were.
pub unfreeze-freeze :
    (order dispute : Text) (hs : Holds)
    → is_fresh dispute hs ≡ false
    → unfreeze_on_dispute_rejection dispute (freeze_for_dispute order dispute hs)
      ≡ map (held_again order) hs
unfolding unfreeze_on_dispute_rejection freeze_for_dispute update_where
unfreeze-freeze order dispute [] fresh = refl
unfreeze-freeze order dispute (h ∷ hs) fresh =
    ground (arith, text_eq_refl dispute, unfreeze-freeze order dispute hs)

module _ (q : Answers) (h : EscrowHold) (w : World) (there : any (same_pair h) w.holds ≡ true) where
  insert_blocked : insert_hold h w.holds ≡ w.holds
  unfolding insert_hold
  insert_blocked = rw there refl

  create_by-blocked : (e : Option Bool) → (create_by q h w e).1.holds ≡ w.holds
  unfolding create_by create_row
  create_by-blocked none = refl
  create_by-blocked (some true) = refl
  create_by-blocked (some false) = ground (arith, insert_blocked)

  create_tx_by-blocked : (e : Option Bool) → (create_tx_by q h w e).1.holds ≡ w.holds
  unfolding create_tx_by create_hold_in_tx
  create_tx_by-blocked none = refl
  create_tx_by-blocked (some true) = refl
  create_tx_by-blocked (some false) = ground (arith, insert_blocked)

-- A row for the order and the vendor, whatever its status, keeps a new hold from being made: the
-- table stays as it is, also where the method reports success.
pub create_hold-blocked :
    (q : Answers) (h : EscrowHold) (w : World)
    → any (same_pair h) w.holds ≡ true
    → ((create_hold q h w).1.holds ≡ w.holds) × ((create_hold_tx q h w).1.holds ≡ w.holds)
unfolding create_hold create_hold_tx insert_hold
create_hold-blocked q h w there =
    (create_by-blocked q h w there _, create_tx_by-blocked q h w there _)
