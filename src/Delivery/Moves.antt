-- ===== src/Delivery/Moves.antt =====
-- What each of the methods may do to the status of one gig.
use mathlib.Core.Option.{some-injective}
use omnigo_app.Common.{
  ◌≡◌, refl, sym, ◌∙◌, ◌⊎◌, inl, inr, Bool, true, false, List, [], ◌∷◌, Option, none, some, arith,
  Bool-cases,
}
use omnigo_app.Common.Text.{Text, codes, text_eq, text_eq_sound}
use omnigo_app.Common.Floats.{Float}
use omnigo_app.Delivery.Rows.{
  Gig, GigStore, find_gig, update_gigs, is_under_way, valid_gig_transitions, transitions_from,
  GigWallet, set_order_rider,
}
use omnigo_app.Delivery.Gigs.{
  GigAnswer, is_gig, taken_by, assign, AcceptCall, check_gig, accept_row,
}
use omnigo_app.Delivery.Update.{
  is_valid_gig_change, accept_gig, GigUpdate, revised, write_update, change_gig, update_row,
  clear_order_rider, is_open_gig_of, called_off, cancel_delivery_for_order,
}
use omnigo_app.Delivery.Statuses.{find_gig-own, update_gigs-cases}

-- A change that the table allows, or a cancellation of a gig under way.
abbrev pub Follows : Text → Text → Type 0
Follows from to =
    (is_valid_gig_change from to ≡ none) ⊎ ((is_under_way from ≡ true) × (to ≡ codes "cancelled"))

from_broadcasting : is_valid_gig_change (codes "broadcasting") (codes "accepted") ≡ none
unfolding is_valid_gig_change valid_gig_transitions transitions_from text_eq
from_broadcasting = refl

accepted_next :
    (s : Text)
    → text_eq s (codes "broadcasting") ≡ true
    → is_valid_gig_change s (codes "accepted") ≡ none
accepted_next s h = rw (text_eq_sound s (codes "broadcasting") h) from_broadcasting

module _ (float : Float) (getenv : Text → Text) where
  check_gig-free :
      (c : AcceptCall float getenv) (rider : Text) (g : Gig float) (s : GigStore float)
      → check_gig float getenv c rider g s ≡ none
      → text_eq g.status (codes "broadcasting") ≡ true
  unfolding check_gig
  check_gig-free c rider g s passes = elim (Bool-cases (text_eq g.status (codes "broadcasting"))) [
    | inl free ↦ free
    | inr gone ↦ absurd (ground (arith, passes, gone))
  ]

  -- The row of a gig stays, or its status changes to one that may follow.
  abbrev pub Moved : Text → List (Gig float) → List (Gig float) → Type 0
  Moved x gs gs' =
      (find_gig float x gs' ≡ find_gig float x gs)
      ⊎ ((g g' : Gig float) × (find_gig float x gs ≡ some g)
          × (find_gig float x gs' ≡ some g')
          × Follows g.status g'.status)

  by_update :
      (p : Gig float → Bool) (f : Gig float → Gig float)
      → ((g : Gig float) → (f g).tracking_id ≡ g.tracking_id)
      → (x : Text) (gs : List (Gig float))
      → ((g : Gig float)
          → find_gig float x gs ≡ some g
          → p g ≡ true
          → Follows g.status (f g).status)
      → Moved x gs (update_gigs float p f gs)
  by_update p f keeps x gs follows = elim (update_gigs-cases float p f keeps x gs) [
    | inl same ↦ inl same
    | inr (r, after) ↦ inr (r.row, f r.row, r.found, after, follows r.row r.found r.holds)
  ]

  assign-Moved :
      (commits : Bool) (id rider x : Text) (g : Gig float) (s : GigStore float)
      → find_gig float id s.gigs ≡ some g
      → text_eq g.status (codes "broadcasting") ≡ true
      → Moved x s.gigs (assign float commits id rider g s).0.gigs
  unfolding assign
  assign-Moved false id rider x g s found open_yet = inl refl
  assign-Moved true id rider x g s found open_yet =
      by_update (is_gig float id) (taken_by float rider) (λ h. refl) x s.gigs
        (λ h at own.
          let same : h ≡ g =
            some-injective h g (sym (find_gig-own float x id s.gigs h at own) ∙ found) in
          inl (accepted_next h.status (rw same open_yet)))

  pub accept_gig-Moved :
      (commits : Bool) (id rider x : Text) (s : GigStore float)
      → Moved x s.gigs (accept_gig float commits id rider s).0.gigs
  unfolding accept_gig
  accept_gig-Moved commits id rider x s = of_row (find_gig float id s.gigs) refl
    where
      of_row :
          (o : Option (Gig float))
          → find_gig float id s.gigs ≡ o
          → Moved x s.gigs (accept_gig float commits id rider s).0.gigs
      of_row none missing = rw missing (inl refl)
      of_row (some g) found = elim (Bool-cases (text_eq g.status (codes "broadcasting"))) [
        | inl free ↦ rw found (rw free (assign-Moved commits id rider x g s found free))
        | inr gone ↦ rw found (rw gone (inl refl))
      ]

  pub accept_row-Moved :
      (c : AcceptCall float getenv) (id rider x : Text) (s : GigStore float)
      → (o : Option (Gig float)) → find_gig float id s.gigs ≡ o
      → Moved x s.gigs (accept_row float getenv c id rider o s).0.gigs
  unfolding accept_row
  accept_row-Moved c id rider x s none missing = inl refl
  accept_row-Moved c id rider x s (some g) found =
      of_check (check_gig float getenv c rider g s) refl
    where
      of_check :
          (r : Option GigAnswer)
          → check_gig float getenv c rider g s ≡ r
          → Moved x s.gigs (accept_row float getenv c id rider (some g) s).0.gigs
      of_check none passes =
          rw passes
            (assign-Moved c.commits id rider x g s found (check_gig-free c rider g s passes))
      of_check (some refusal) refuses = rw refuses (inl refl)

  pub revised-status : (u : GigUpdate float) (g : Gig float) → (revised float u g).status ≡ u.status
  unfolding revised
  revised-status u g = ground arith

  pub revised-tracking_id :
      (u : GigUpdate float) (g : Gig float) → (revised float u g).tracking_id ≡ g.tracking_id
  unfolding revised
  revised-tracking_id u g = ground arith

  called_off-tracking_id :
      (why : Text) (g : Gig float) → (called_off float why g).tracking_id ≡ g.tracking_id
  unfolding called_off
  called_off-tracking_id [] g = refl
  called_off-tracking_id (c ∷ why) g = refl

  called_off-status :
      (why : Text) (g : Gig float) → (called_off float why g).status ≡ codes "cancelled"
  unfolding called_off
  called_off-status [] g = refl
  called_off-status (c ∷ why) g = refl

  write_update-Moved :
      (u : GigUpdate float) (x : Text) (g : Gig float) (s : GigStore float)
      (ws : Option (List GigWallet))
      → find_gig float u.tracking_id s.gigs ≡ some g
      → is_valid_gig_change g.status u.status ≡ none
      → Moved x s.gigs (write_update float u ws s).0.gigs
  unfolding write_update
  write_update-Moved u x g s none found valid = inl refl
  write_update-Moved u x g s (some ws) found valid = elim (Bool-cases u.commits) [
    | inl done ↦ simp done (
        by_update (is_gig float u.tracking_id) (revised float u) (revised-tracking_id u) x s.gigs
          (λ h at own.
            let same : h ≡ g =
              some-injective h g
                (sym (find_gig-own float x u.tracking_id s.gigs h at own) ∙ found) in
            inl (rw (revised-status u h, same) valid)))
    | inr failed ↦ simp failed (inl refl)
  ]

  change_gig-Moved :
      (u : GigUpdate float) (x : Text) (g : Gig float) (s : GigStore float) (r : Option GigAnswer)
      → find_gig float u.tracking_id s.gigs ≡ some g
      → is_valid_gig_change g.status u.status ≡ r
      → Moved x s.gigs (change_gig float u g r s).0.gigs
  unfolding change_gig
  change_gig-Moved u x g s none found valid = write_update-Moved u x g s _ found valid
  change_gig-Moved u x g s (some a) found refused = inl refl

  pub update_row-Moved :
      (u : GigUpdate float) (x : Text) (s : GigStore float) (o : Option (Gig float))
      → find_gig float u.tracking_id s.gigs ≡ o
      → Moved x s.gigs (update_row float u o s).0.gigs
  unfolding update_row
  update_row-Moved u x s none missing = inl refl
  update_row-Moved u x s (some g) found = change_gig-Moved u x g s _ found refl

  pub clear_order_rider-gigs :
      (id : Text) (s : GigStore float) → (clear_order_rider float id s).gigs ≡ s.gigs
  unfolding clear_order_rider
  clear_order_rider-gigs id s =
      elim (find_gig float id s.gigs)
        as (λ o.
          (elim o as (λ x. GigStore float) [
            | none ↦ s
            | some g ↦ record s { orders = set_order_rider none g.order_tracking_id s.orders }
          ]).gigs
          ≡ s.gigs) [ none ↦ refl | some g ↦ refl ]

  pub call_off-Moved :
      (order why x : Text) (s : GigStore float)
      → Moved x s.gigs (cancel_delivery_for_order float order why s).gigs
  unfolding cancel_delivery_for_order
  call_off-Moved order why x s =
      by_update (is_open_gig_of float order) (called_off float why) (called_off-tracking_id why) x
        s.gigs (λ h at own. inr (ground (arith, own), called_off-status why h))
