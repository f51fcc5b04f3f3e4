-- ===== src/Escrow/Created.antt =====
-- What CreateHoldTx leaves in the table.
use omnigo_app.Common.{
  ◌≡◌, refl, ◌⊎◌, inl, inr, Bool, true, false, not, ◌&&◌, ◌||◌, [], ◌∷◌, any, some, arith,
  Bool-cases,
}
use omnigo_app.Escrow.Models.{EscrowHold}
use omnigo_app.Escrow.Repository.{
  Answers, Holds, of_order, same_pair, is_active, validate_hold_parents, hold_exists_for_order,
  insert_hold, create_hold_in_tx, create_rows_by, create_hold_rows,
}

any_imp :
    (p q : EscrowHold → Bool)
    → ((h : EscrowHold) → p h ≡ true → q h ≡ true)
    → (hs : Holds) → any p hs ≡ true
    → any q hs ≡ true
any_imp p q imp [] a = ground (arith, a)
any_imp p q imp (h ∷ hs) a = ground (arith, a, imp h, any_imp p q imp hs)

-- A hold that keeps this one from being made: an active hold of the order, for whichever vendor, or
-- a hold of the order for the vendor, whatever its status.
abbrev pub is_in_the_way : EscrowHold → EscrowHold → Bool
is_in_the_way h g = of_order h.order_tracking_id g && is_active g.status || same_pair h g

-- The hold is there now, or one was in its way.
abbrev pub HasHold : EscrowHold → Holds → Holds → Type 0
HasHold h hs hs' = (hs' ≡ h ∷ hs) ⊎ ((hs' ≡ hs) × (any (is_in_the_way h) hs ≡ true))

insert_hold-HasHold : (h : EscrowHold) (hs : Holds) → HasHold h hs (insert_hold h hs)
unfolding insert_hold
insert_hold-HasHold h hs = elim (Bool-cases (any (same_pair h) hs)) [
  | inl there ↦ rw there (
      inr (refl, any_imp (same_pair h) (is_in_the_way h) (λ g pair. ground (arith, pair)) hs there))
  | inr new ↦ rw new (inl refl)
]

-- CreateHoldTx fails and changes nothing, or the hold is there by then or one was in its way.
abbrev pub Created : EscrowHold → Holds → Bool × Holds → Type 0
Created h hs (false, hs') = hs' ≡ hs
Created h hs (true, hs') = HasHold h hs hs'

create_hold_in_tx-Created :
    (q : Answers) (h : EscrowHold) (hs : Holds) → Created h hs (create_hold_in_tx q h hs)
unfolding create_hold_in_tx
create_hold_in_tx-Created q h hs =
    elim (Bool-cases (not (validate_hold_parents q) || q.insert_fails)) [
      | inl fails ↦ rw fails refl
      | inr works ↦ rw works (insert_hold-HasHold h hs)
    ]

pub create_hold_rows-Created :
    (q : Answers) (h : EscrowHold) (hs : Holds) → Created h hs (create_hold_rows q h hs)
unfolding create_hold_rows hold_exists_for_order
create_hold_rows-Created q h hs = elim (Bool-cases q.count_fails) [
  | inl fails ↦ rw fails refl
  | inr works ↦ rw works (by_count (Bool-cases _))
]
  where
    by_count :
        (any (λ g. of_order h.order_tracking_id g && is_active g.status) hs ≡ true)
          ⊎ (any (λ g. of_order h.order_tracking_id g && is_active g.status) hs ≡ false)
        → Created h hs (
            create_rows_by q h hs
              (some (any (λ g. of_order h.order_tracking_id g && is_active g.status) hs)))
    by_count (inl there) = rw there (
        inr (
          refl,
          any_imp (λ g. of_order h.order_tracking_id g && is_active g.status) (is_in_the_way h)
              (λ g both. ground (arith, both)) hs there,
        ))
    by_count (inr none_there) = rw none_there (create_hold_in_tx-Created q h hs)
