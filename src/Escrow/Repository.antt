-- ===== src/Escrow/Repository.antt =====
-- backend/go-services/internal/escrow/repository.go, and the methods of service.go that create,
-- cancel, extend, freeze and unfreeze holds. Each statement on `escrow_holds` commits by itself.
use omnigo_app.Common.{
  ℕ, Bool, true, false, ◌&&◌, ◌||◌, not, List, [], ◌∷◌, Option, none, some, any, if◌then◌else◌,
}
use omnigo_app.Common.Int.{ℤ}
use omnigo_app.Common.Text.{Text, text_eq}
use omnigo_app.Escrow.Models.{
  EscrowStatus, held, released, paid_out, disputed, cancelled, EscrowHold, World, is_held,
}

abbrev pub Holds : Type 0
Holds = List EscrowHold

-- What the database answers to a method that creates a hold. The two checks ask whether the order
-- and the vendor exist; `none` is an error of the query.
pub record Answers : Type 0 where
  pub order_check : Option Bool
  pub vendor_check : Option Bool
  pub count_fails : Bool
  pub existing_fails : Bool
  pub insert_fails : Bool
  pub update_fails : Bool
  pub index_fails : Bool

abbrev passes : Option Bool → Bool
passes none = false
passes (some b) = b

-- `validateHoldParents`: whether it returns no error.
unfoldable pub validate_hold_parents : Answers → Bool
validate_hold_parents q = passes q.order_check && passes q.vendor_check

-- `status IN ('held', 'disputed')`
abbrev pub is_active : EscrowStatus → Bool
is_active held = true
is_active disputed = true
is_active _ = false

-- `status IN ('held', 'disputed', 'released', 'paid_out')`
abbrev pub is_kept : EscrowStatus → Bool
is_kept held = true
is_kept disputed = true
is_kept released = true
is_kept paid_out = true
is_kept _ = false

-- `status IN ('held', 'paid_out')`
abbrev pub is_held_or_paid_out : EscrowStatus → Bool
is_held_or_paid_out held = true
is_held_or_paid_out paid_out = true
is_held_or_paid_out _ = false

abbrev pub is_disputed : EscrowStatus → Bool
is_disputed disputed = true
is_disputed _ = false

abbrev pub of_order : Text → EscrowHold → Bool
of_order order h = text_eq h.order_tracking_id order

-- HoldExistsForOrder and HoldExistsForOrderTx.
unfoldable pub hold_exists_for_order : Answers → Text → Holds → Option Bool
hold_exists_for_order q order hs =
    if q.count_fails then none else some (any (λ h. of_order order h && is_active h.status) hs)

abbrev pub same_pair : EscrowHold → EscrowHold → Bool
same_pair h g =
    text_eq h.order_tracking_id g.order_tracking_id
    && text_eq h.vendor_tracking_id g.vendor_tracking_id

-- `INSERT … ON CONFLICT (order_tracking_id, vendor_tracking_id) DO NOTHING`
unfoldable pub insert_hold : EscrowHold → Holds → Holds
insert_hold h hs = if any (same_pair h) hs then hs else h ∷ hs

-- CreateHold of the repository: whether it returns no error, and the table.
unfoldable pub create_row : Answers → EscrowHold → Holds → Bool × Holds
unfolding validate_hold_parents insert_hold
create_row q h hs =
    if not (validate_hold_parents q) || q.existing_fails
    then (false, hs)
    else if any (λ g. of_order h.order_tracking_id g && is_kept g.status) hs
    then (true, hs)
    else if q.insert_fails
    then (false, hs)
    else (true, insert_hold h hs)

unfoldable pub create_hold_in_tx : Answers → EscrowHold → Holds → Bool × Holds
unfolding validate_hold_parents insert_hold
create_hold_in_tx q h hs =
    if not (validate_hold_parents q) || q.insert_fails
    then (false, hs)
    else (true, insert_hold h hs)

-- `UPDATE escrow_holds SET … WHERE …`; nothing changes when the statement fails.
unfoldable pub update_where : (EscrowHold → Bool) → (EscrowHold → EscrowHold) → Holds → Holds
update_where p f [] = []
update_where p f (h ∷ hs) = (if p h then f h else h) ∷ update_where p f hs

unfoldable pub release_hold : Text → ℕ → Holds → Holds
unfolding update_where
release_hold id now hs =
    update_where (λ h. text_eq h.id id && is_held h.status)
      (λ h. record h { status = released; released_at = some now }) hs

unfoldable pub cancel_hold_for_order : Text → ℕ → Holds → Holds
unfolding update_where
cancel_hold_for_order order now hs =
    update_where (λ h. of_order order h && is_held_or_paid_out h.status)
      (λ h. record h { status = cancelled; released_at = some now }) hs

unfoldable pub extend_hold_until : Text → ℕ → Holds → Holds
unfolding update_where
extend_hold_until order until hs =
    update_where (λ h. of_order order h && is_held h.status) (λ h. record h { hold_until = until })
      hs

unfoldable pub freeze_for_dispute : Text → Text → Holds → Holds
unfolding update_where
freeze_for_dispute order dispute hs =
    update_where (λ h. of_order order h && is_held_or_paid_out h.status)
      (λ h. record h { status = disputed; dispute_id = some dispute }) hs

-- `dispute_id = $1`; NULL equals nothing.
abbrev pub in_dispute : Text → Option Text → Bool
in_dispute dispute none = false
in_dispute dispute (some d) = text_eq d dispute

unfoldable pub unfreeze_on_dispute_rejection : Text → Holds → Holds
unfolding update_where
unfreeze_on_dispute_rejection dispute hs =
    update_where (λ h. in_dispute dispute h.dispute_id && is_disputed h.status)
      (λ h. record h { status = held; dispute_id = none }) hs

-- A row with the columns that an INSERT leaves out at their defaults.
unfoldable pub new_hold : Text → Text → Text → ℤ → ℕ → ℕ → EscrowHold
new_hold id order vendor amount until now = record {
  id = id;
  order_tracking_id = order;
  vendor_tracking_id = vendor;
  amount = amount;
  status = held;
  hold_until = until;
  released_at = none;
  dispute_id = none;
  created_at = now;
}

-- The members of the sorted set after Add; a member is there once.
unfoldable pub add_id : Bool → Text → List Text → List Text
add_id fails id ids = if fails || any (text_eq id) ids then ids else id ∷ ids

abbrev indexed : Answers → EscrowHold → World → Bool × Holds → Bool × World
indexed q h w (false, hs) = (false, record w { holds = hs })
indexed q h w (true, hs) =
    (true, record w { holds = hs; index = add_id q.index_fails h.id w.index })

-- CreateHold of the service, by what HoldExistsForOrder says. The identifier goes into the index
-- whether or not the INSERT made a row.
unfoldable pub create_by : Answers → EscrowHold → World → Option Bool → Bool × World
unfolding create_row
create_by q h w none = (false, w)
create_by q h w (some true) = (true, w)
create_by q h w (some false) = indexed q h w (create_row q h w.holds)

unfoldable pub create_hold : Answers → EscrowHold → World → Bool × World
unfolding create_by hold_exists_for_order
create_hold q h w = create_by q h w (hold_exists_for_order q h.order_tracking_id w.holds)

-- CreateHoldTx on the table alone, by what HoldExistsForOrderTx says.
unfoldable pub create_rows_by : Answers → EscrowHold → Holds → Option Bool → Bool × Holds
unfolding create_hold_in_tx
create_rows_by q h hs none = (false, hs)
create_rows_by q h hs (some true) = (true, hs)
create_rows_by q h hs (some false) = create_hold_in_tx q h hs

unfoldable pub create_hold_rows : Answers → EscrowHold → Holds → Bool × Holds
unfolding create_rows_by hold_exists_for_order
create_hold_rows q h hs = create_rows_by q h hs (hold_exists_for_order q h.order_tracking_id hs)

abbrev with_holds : World → Bool × Holds → Bool × World
with_holds w (b, hs) = (b, record w { holds = hs })

unfoldable pub create_tx_by : Answers → EscrowHold → World → Option Bool → Bool × World
unfolding create_hold_in_tx
create_tx_by q h w none = (false, w)
create_tx_by q h w (some true) = (true, w)
create_tx_by q h w (some false) = with_holds w (create_hold_in_tx q h w.holds)

-- CreateHoldTx; the caller's transaction is taken to commit.
unfoldable pub create_hold_tx : Answers → EscrowHold → World → Bool × World
unfolding create_tx_by hold_exists_for_order
create_hold_tx q h w = create_tx_by q h w (hold_exists_for_order q h.order_tracking_id w.holds)

unfoldable pub create_return_by : Answers → EscrowHold → World → Option Bool → Bool × World
unfolding create_row extend_hold_until
create_return_by q h w none = (false, w)
create_return_by q h w (some true) =
    if q.update_fails
    then (false, w)
    else (true, record w { holds = extend_hold_until h.order_tracking_id h.hold_until w.holds })
create_return_by q h w (some false) = indexed q h w (create_row q h w.holds)

unfoldable pub create_return_hold : Answers → EscrowHold → World → Bool × World
unfolding create_return_by hold_exists_for_order
create_return_hold q h w =
    create_return_by q h w (hold_exists_for_order q h.order_tracking_id w.holds)
