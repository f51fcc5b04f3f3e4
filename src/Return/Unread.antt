-- ===== src/Return/Unread.antt =====
-- Returns that cannot be read, and the writes of methods that are called for other returns.
use mathlib.Core.Path.{subst}
use omnigo_app.Common.{
  ◌≡◌, refl, ◌∙◌, Bool, true, false, ◌&&◌, ◌||◌, not, List, [], ◌∷◌, Option, none, some, any, all,
  arith, Bool-cases, inl, inr, if◌then◌else◌,
}
use omnigo_app.Common.Text.{Text, codes, text_eq, text_eq_sound, text_eq_refl}
use omnigo_app.Return.Rows.{
  ReturnRow, is_some, readable, find_row, get_return_request_by_id, update_rows, always,
  is_valid_return_transition, is_active,
}
use omnigo_app.Return.Service.{
  EscrowManager, ReturnStore, ReturnCall, wrote, update_return_status, update_current, move_current,
  cancel_current,
}
use omnigo_app.Return.Dispute.{approve, dispute, judge, finish_verified}

abbrev pub has_id : Text → ReturnRow → Bool
has_id id r = text_eq r.id id

unfoldable pub rows_of : Text → List ReturnRow → List ReturnRow
rows_of id [] = []
rows_of id (r ∷ rs) = let rest = rows_of id rs in if has_id id r then r ∷ rest else rest

-- Its `payment_method` is NULL, and it is not disputed.
abbrev pub is_stuck : ReturnRow → Bool
is_stuck r = not (is_some r.payment_method) && not (text_eq r.status (codes "return_disputed"))

abbrev pub KeepsId : (ReturnRow → ReturnRow) → Type 0
KeepsId f = (r : ReturnRow) → (f r).id ≡ r.id

module _ (id : Text) where
  same_id :
      (b : Bool) (f : ReturnRow → ReturnRow) (r : ReturnRow)
      → KeepsId f
      → has_id id (if b then f r else r) ≡ has_id id r
  same_id true f r keeps = rw (keeps r) refl
  same_id false f r keeps = refl

  -- A write to another return.
  pub update_rows-other :
      (other : Text) (guard : Text → Bool) (f : ReturnRow → ReturnRow) (rs : List ReturnRow)
      → KeepsId f
      → text_eq other id ≡ false
      → rows_of id (update_rows other guard f rs) ≡ rows_of id rs
  unfolding rows_of update_rows
  update_rows-other other guard f [] keeps apart = refl
  update_rows-other other guard f (r ∷ rs) keeps apart = elim (Bool-cases (text_eq r.id id)) [
    | inl mine ↦
        let untouched : text_eq r.id other ≡ false = elim (Bool-cases (text_eq r.id other)) [
          | inl theirs ↦
              absurd
                (ground (arith, text_eq_refl other, mine, apart, text_eq_sound r.id other theirs))
          | inr untouched ↦ untouched
        ] in
        rw (untouched, mine, update_rows-other other guard f rs keeps apart) refl
    | inr not_mine ↦
        rw (same_id (text_eq r.id other && guard r.status) f r keeps, not_mine)
          (update_rows-other other guard f rs keeps apart)
  ]

  pub rows_of-own :
      (r : ReturnRow) (rs : List ReturnRow)
      → text_eq r.id id ≡ true
      → rows_of id (r ∷ rs) ≡ r ∷ rows_of id rs
  unfolding rows_of
  rows_of-own r rs mine = rw mine refl

  pub rows_of-not_own :
      (r : ReturnRow) (rs : List ReturnRow)
      → text_eq r.id id ≡ false
      → rows_of id (r ∷ rs) ≡ rows_of id rs
  unfolding rows_of
  rows_of-not_own r rs not_mine = rw not_mine refl

  unreadable : (r : ReturnRow) → is_some r.payment_method ≡ false → readable (some r) ≡ none
  unreadable r h = rw h refl

  find_row-stuck :
      (rs : List ReturnRow) → all is_stuck (rows_of id rs) ≡ true → readable (find_row id rs) ≡ none
  unfolding find_row
  find_row-stuck [] a = refl
  find_row-stuck (r ∷ rs) a = elim (Bool-cases (text_eq r.id id)) [
    | inl mine ↦
        let own : all is_stuck (r ∷ rows_of id rs) ≡ true =
          subst (λ xs. all is_stuck xs ≡ true) (rows_of-own r rs mine) a in
        rw mine (unreadable r (ground (arith, own)))
    | inr not_mine ↦
        rw not_mine (
          find_row-stuck rs
            (subst (λ xs. all is_stuck xs ≡ true) (rows_of-not_own r rs not_mine) a))
  ]

module _ {S : Type 0} (escrow : EscrowManager S) (has_escrow : Bool) (c : ReturnCall) (id : Text)
    (s : ReturnStore S) (stuck : all is_stuck (rows_of id s.rows) ≡ true) where
  abbrev pub Same : Bool × ReturnStore S → Type 0
  Same r = rows_of id r.1.rows ≡ rows_of id s.rows

  cannot_read : (fails : Bool) → get_return_request_by_id fails id s.rows ≡ none
  unfolding get_return_request_by_id
  cannot_read true = refl
  cannot_read false = find_row-stuck id s.rows stuck

  -- A method that starts by reading the return `other` does nothing to the rows of `id`, if its
  -- writes go to `other` alone.
  pub by_id :
      (other : Text) (m : Option ReturnRow → Bool × ReturnStore S)
      → m none ≡ (false, s)
      → (text_eq other id ≡ false → (o : Option ReturnRow) → Same (m o))
      → Same (m (get_return_request_by_id c.read_fails other s.rows))
  by_id other m missing apart = elim (Bool-cases (text_eq other id)) [
    | inl same ↦ rw (text_eq_sound other id same, cannot_read c.read_fails, missing) refl
    | inr different ↦ apart different (get_return_request_by_id c.read_fails other s.rows)
  ]

  module _ (other : Text) (apart : text_eq other id ≡ false) where
    wrote-other :
        (guard : Text → Bool) (f : ReturnRow → ReturnRow) (t : ReturnStore S)
        → t.rows ≡ s.rows
        → KeepsId f
        → Same (wrote escrow has_escrow c other guard f t)
    wrote-other guard f t same keeps = elim (Bool-cases c.write_fails) [
      | inl fails ↦ rw (fails, same) refl
      | inr works ↦ rw (works, same) (update_rows-other id other guard f s.rows keeps apart)
    ]

    pub move_current-other :
        (status : Text) (check : ReturnRow → Bool) (f : ReturnRow → ReturnRow)
        (o : Option ReturnRow)
        → KeepsId f
        → Same (move_current escrow has_escrow c other status check f o s)
    move_current-other status check f none keeps = refl
    move_current-other status check f (some r) keeps =
        elim (Bool-cases (is_valid_return_transition r.status status && check r)) [
          | inl allowed ↦ rw allowed (wrote-other always f s refl keeps)
          | inr not_allowed ↦ rw not_allowed refl
        ]

    update_return_status-other :
        (fails : Bool) (status expected : Text) (t : ReturnStore S)
        → rows_of id t.rows ≡ rows_of id s.rows
        → Same (update_return_status escrow has_escrow c fails other status expected t)
    update_return_status-other fails status expected t same =
        elim (Bool-cases
          (fails || not (any (λ r. text_eq r.id other && text_eq r.status expected) t.rows))) [
            | inl nothing ↦ rw nothing same
            | inr works ↦ rw works (update_rows-other id other _ _ t.rows (λ r. refl) apart ∙ same)
          ]

    pub update_current-other :
        (status : Text) (o : Option ReturnRow)
        → Same (update_current escrow has_escrow c other status o s)
    update_current-other status none = refl
    update_current-other status (some r) =
        elim (Bool-cases (is_valid_return_transition r.status status)) [
          | inl allowed ↦
              rw allowed (update_return_status-other c.write_fails status r.status s refl)
          | inr not_allowed ↦ rw not_allowed refl
        ]

    pub cancel_current-other :
        (o : Option ReturnRow) → Same (cancel_current escrow has_escrow c other o s)
    cancel_current-other none = refl
    cancel_current-other (some r) =
        elim (Bool-cases (is_valid_return_transition r.status (codes "return_cancelled"))) [
          | inl allowed ↦ rw allowed (wrote-other is_active _ _ refl (λ r. refl))
          | inr not_allowed ↦ rw not_allowed refl
        ]

    finish_verified-other :
        (r : Bool × S) (t : ReturnStore S)
        → rows_of id t.rows ≡ rows_of id s.rows
        → Same (finish_verified escrow has_escrow c other r t)
    finish_verified-other (false, e) t same = elim (Bool-cases c.revert_fails) [
      | inl fails ↦ rw fails same
      | inr works ↦ rw works (update_rows-other id other _ _ t.rows (λ r. refl) apart ∙ same)
    ]
    finish_verified-other (true, e) t same =
        update_return_status-other c.complete_fails (codes "return_completed")
          (codes "return_verified") (record t { escrow = e }) same

    approve-other : (order photo : Text) → Same (approve escrow has_escrow c other order photo s)
    unfolding approve
    approve-other order photo = elim (Bool-cases c.write_fails) [
      | inl fails ↦ rw fails refl
      | inr works ↦
          rw works (
            finish_verified-other _ _
              (update_rows-other id other always _ s.rows (λ r. refl) apart))
    ]

    dispute-other :
        (order photo notes : Text) → Same (dispute escrow has_escrow c other order photo notes s)
    unfolding dispute
    dispute-other order photo notes = elim (Bool-cases c.write_fails) [
      | inl fails ↦ rw fails refl
      | inr works ↦ rw works (elim (Bool-cases c.details_fail) [
        | inl fails ↦ rw fails (update_rows-other id other always _ s.rows (λ r. refl) apart)
        | inr detailed ↦ rw detailed (
            update_rows-other id other always _ _ (λ r. refl) apart
            ∙ update_rows-other id other always _ s.rows (λ r. refl) apart)
      ])
    ]

    pub judge-other :
        (verified : Bool) (photo notes : Text) (o : Option ReturnRow)
        → Same (judge escrow has_escrow c other verified photo notes o s)
    judge-other verified photo notes none = refl
    judge-other verified photo notes (some r) =
        elim (Bool-cases (
          is_valid_return_transition r.status (codes "return_verified")
          || is_valid_return_transition r.status (codes "return_disputed"))) [
            | inl allowed ↦ rw allowed (elim (Bool-cases verified) [
              | inl good ↦ rw good (approve-other r.order_tracking_id photo)
              | inr bad ↦ rw bad (dispute-other r.order_tracking_id photo notes)
            ])
            | inr not_allowed ↦ rw not_allowed refl
          ]
