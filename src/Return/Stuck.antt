-- ===== src/Return/Stuck.antt =====
-- No method does anything to a return that cannot be read.
use mathlib.Core.Path.{subst}
use omnigo_app.Common.{
  ◌≡◌, refl, ◌∙◌, Bool, true, false, ◌||◌, not, List, [], ◌∷◌, Option, none, some, any, all, arith,
  Bool-cases, inl, inr,
}
use omnigo_app.Common.Text.{Text, codes, text_eq, text_eq_sound}
use omnigo_app.Return.Rows.{ReturnRow, ReturnOrder, always, find_return_order, has_active_return}
use omnigo_app.Return.Service.{
  EscrowManager, ReturnStore, ReturnCall, request_return, insert_request, request_for, new_request,
  is_returnable, is_open, update_status, assign_rider, record_pickup, record_delivery_to_vendor,
  complete_return, cancel_return, at_status, update_current, move_current, cancel_current,
  move_by_id, assigned, picked_up, delivered_back, unchecked, otp_matches,
}
use omnigo_app.Return.Dispute.{
  verify_by_vendor, auto_resolve_stale_disputes, resolve, resolve_all, is_stale, judge,
}
use omnigo_app.Return.Calls.{
  ReturnMethod, requesting, updating, assigning, picking_up, delivering, verifying, completing,
  cancelling, resolving, call_return,
}
use omnigo_app.Return.Unread.{
  has_id, rows_of, is_stuck, KeepsId, rows_of-own, rows_of-not_own, update_rows-other, Same, by_id,
  move_current-other, update_current-other, cancel_current-other, judge-other,
}

module _ {S : Type 0} (escrow : EscrowManager S) (has_escrow : Bool) (c : ReturnCall) (id : Text)
    (s : ReturnStore S) (stuck : all is_stuck (rows_of id s.rows) ≡ true) where
  resolve-other :
      (r : ReturnRow) (t : ReturnStore S)
      → text_eq r.id id ≡ false
      → rows_of id t.rows ≡ rows_of id s.rows
      → rows_of id (resolve escrow has_escrow c r t).rows ≡ rows_of id s.rows
  unfolding resolve
  resolve-other r t apart same = elim (Bool-cases c.write_fails) [
    | inl fails ↦ rw fails same
    | inr works ↦ rw works (update_rows-other id r.id always _ t.rows (λ x. refl) apart ∙ same)
  ]

  not_stale : (r : ReturnRow) → is_stuck r ≡ true → is_stale escrow has_escrow c r ≡ false
  not_stale r h = ground (arith, h)

  resolve_all-same :
      (rs : List ReturnRow) (t : ReturnStore S)
      → all is_stuck (rows_of id rs) ≡ true
      → rows_of id t.rows ≡ rows_of id s.rows
      → rows_of id (resolve_all escrow has_escrow c rs t).rows ≡ rows_of id s.rows
  unfolding resolve_all
  resolve_all-same [] t a same = same
  resolve_all-same (r ∷ rs) t a same = elim (Bool-cases (text_eq r.id id)) [
    | inl mine ↦
        let own : all is_stuck (r ∷ rows_of id rs) ≡ true =
          subst (λ xs. all is_stuck xs ≡ true) (rows_of-own id r rs mine) a in
        resolve_all-same rs _ (ground (arith, own)) (rw (not_stale r (ground (arith, own))) same)
    | inr not_mine ↦
        let rest = subst (λ xs. all is_stuck xs ≡ true) (rows_of-not_own id r rs not_mine) a in
        resolve_all-same rs _ rest (elim (Bool-cases (is_stale escrow has_escrow c r)) [
          | inl stale ↦ rw stale (resolve-other r t not_mine same)
          | inr fresh ↦ rw fresh same
        ])
  ]

  insert_request-Same :
      (o : ReturnOrder) (reason : Text)
      → any (has_id id) s.rows ≡ true
      → Same escrow has_escrow c id s stuck (insert_request escrow has_escrow c o reason s)
  insert_request-Same o reason there =
      elim (Bool-cases (c.write_fails || any (λ r. text_eq r.id c.new_id) s.rows)) [
        | inl refused ↦ rw refused refl
        | inr inserted ↦ rw inserted (elim (Bool-cases (text_eq c.new_id id)) [
          | inl same ↦ absurd (ground (arith, inserted, taken (text_eq_sound c.new_id id same)))
          | inr apart ↦ rows_of-not_own id (new_request escrow has_escrow c o reason) s.rows apart
        ])
      ]
    where
      taken : c.new_id ≡ id → any (λ r. text_eq r.id c.new_id) s.rows ≡ true
      taken e = rw e there

  request_for-Same :
      (o : Option ReturnOrder) (customer reason : Text)
      → any (has_id id) s.rows ≡ true
      → Same escrow has_escrow c id s stuck (request_for escrow has_escrow c o customer reason s)
  request_for-Same none customer reason there = refl
  request_for-Same (some o) customer reason there =
      elim (Bool-cases (
        c.order_read_fails
        || (not (text_eq o.customer_tracking_id customer)
            || (not (is_returnable escrow has_escrow c o.status) || c.blocked_by_fraud)))) [
              | inl refused ↦ rw refused refl
              | inr fine ↦ rw fine (insert_request-Same o reason there)
            ]

  request_return-Same :
      (order customer reason : Text)
      → any (has_id id) s.rows ≡ true
      → Same escrow has_escrow c id s stuck
          (request_return escrow has_escrow c order customer reason s)
  unfolding request_return
  request_return-Same order customer reason there =
      elim (Bool-cases (
        c.active_read_fails
        || (has_active_return order s.rows
            || (c.window_read_fails || not (is_open c.now (find_return_order order s.orders)))))) [
              | inl refused ↦ rw refused refl
              | inr fine ↦
                  rw fine
                    (request_for-Same (find_return_order order s.orders) customer reason there)
            ]

  auto_resolve-Same :
      Same escrow has_escrow c id s stuck (auto_resolve_stale_disputes escrow has_escrow c s)
  unfolding auto_resolve_stale_disputes
  auto_resolve-Same = elim (Bool-cases c.read_fails) [
    | inl fails ↦ rw fails refl
    | inr works ↦ rw works (resolve_all-same s.rows s stuck refl)
  ]

  move_by_id-Same :
      (other status : Text) (check : ReturnRow → Bool) (f : ReturnRow → ReturnRow)
      → KeepsId f
      → Same escrow has_escrow c id s stuck (move_by_id escrow has_escrow c other status check f s)
  move_by_id-Same other status check f keeps =
      by_id escrow has_escrow c id s stuck other
        (λ o. move_current escrow has_escrow c other status check f o s) refl
        λ apart o.
          move_current-other escrow has_escrow c id s stuck other apart status check f o keeps

  -- No method changes the rows of a return that cannot be read.
  pub call_return-Same :
      (m : ReturnMethod)
      → any (has_id id) s.rows ≡ true
      → Same escrow has_escrow c id s stuck (call_return escrow has_escrow c m s)
  unfolding call_return update_status assign_rider record_pickup record_delivery_to_vendor
      complete_return cancel_return verify_by_vendor
  call_return-Same (requesting order customer reason) there =
      request_return-Same order customer reason there
  call_return-Same (updating other status) there =
      by_id escrow has_escrow c id s stuck other
        (λ o. update_current escrow has_escrow c other status o s) refl
        λ apart o. update_current-other escrow has_escrow c id s stuck other apart status o
  call_return-Same (assigning other rider gig) there =
      move_by_id-Same other (codes "rider_assigned") (unchecked escrow has_escrow c)
        (assigned escrow has_escrow c rider gig) (λ r. refl)
  call_return-Same (picking_up other photo otp) there =
      move_by_id-Same other (codes "return_pickup_completed")
        (λ r. otp_matches escrow has_escrow c otp (find_return_order r.order_tracking_id s.orders))
        (picked_up escrow has_escrow c photo) (λ r. refl)
  call_return-Same (delivering other photo) there =
      move_by_id-Same other (codes "return_delivered") (unchecked escrow has_escrow c)
        (delivered_back escrow has_escrow c photo) (λ r. refl)
  call_return-Same (verifying other verified photo notes) there =
      by_id escrow has_escrow c id s stuck other
        (λ o. judge escrow has_escrow c other verified photo notes o s) refl
        λ apart o. judge-other escrow has_escrow c id s stuck other apart verified photo notes o
  call_return-Same (completing other) there =
      move_by_id-Same other (codes "return_completed")
        (λ r. not (text_eq r.status (codes "return_disputed")))
        (at_status escrow has_escrow c (codes "return_completed")) (λ r. refl)
  call_return-Same (cancelling other) there =
      by_id escrow has_escrow c id s stuck other (λ o. cancel_current escrow has_escrow c other o s)
        refl λ apart o. cancel_current-other escrow has_escrow c id s stuck other apart o
  call_return-Same resolving there = auto_resolve-Same
