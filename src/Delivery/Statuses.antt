-- ===== src/Delivery/Statuses.antt =====
-- What an UPDATE of `deliveries` does to the row of one gig.
use mathlib.Core.Option
use omnigo_app.Common.{
  ◌≡◌, refl, ap, sym, ◌∙◌, Bool, true, false, List, [], ◌∷◌, Option, none, some, arith, Bool-cases,
  ◌⊎◌, inl, inr, if◌then◌else◌,
}
use omnigo_app.Common.Text.{Text, text_eq, text_eq_sound}
use omnigo_app.Common.Floats.{Float}
use omnigo_app.Delivery.Rows.{Gig, GigStore, find_gig, update_gigs}

module _ (float : Float) where
  abbrev pub status_at : Text → GigStore float → Option Text
  status_at x s = Option.map (λ g. g.status) (find_gig float x s.gigs)

  pub find_gig-is :
      (x : Text) (gs : List (Gig float)) (g : Gig float)
      → find_gig float x gs ≡ some g
      → text_eq g.tracking_id x ≡ true
  unfolding find_gig
  find_gig-is x [] g found = absurd (ground (arith, found))
  find_gig-is x (h ∷ gs) g found = elim (Bool-cases (text_eq h.tracking_id x)) [
    | inl own ↦ let same : h ≡ g = ground (arith, found, own) in rw (← same) own
    | inr other ↦ find_gig-is x gs g (ground (arith, found, other))
  ]

  -- The row that an identifier of the same gig finds.
  pub find_gig-own :
      (x id : Text) (gs : List (Gig float)) (g : Gig float)
      → find_gig float x gs ≡ some g
      → text_eq g.tracking_id id ≡ true
      → find_gig float id gs ≡ some g
  find_gig-own x id gs g found own =
      let same : id ≡ x =
        sym (text_eq_sound g.tracking_id id own)
        ∙ text_eq_sound g.tracking_id x (find_gig-is x gs g found) in
      rw same found

  at_head :
      (x : Text) (h : Gig float) (gs : List (Gig float))
      → text_eq h.tracking_id x ≡ true
      → find_gig float x (h ∷ gs) ≡ some h
  unfolding find_gig
  at_head x h gs own = ground (arith, own)

  past_head :
      (x : Text) (h : Gig float) (gs : List (Gig float))
      → text_eq h.tracking_id x ≡ false
      → find_gig float x (h ∷ gs) ≡ find_gig float x gs
  unfolding find_gig
  past_head x h gs other = ground (arith, other)

  pub find_gig-update :
      (p : Gig float → Bool) (f : Gig float → Gig float)
      → ((g : Gig float) → (f g).tracking_id ≡ g.tracking_id)
      → (x : Text) (gs : List (Gig float))
      → find_gig float x (update_gigs float p f gs)
        ≡ Option.map (λ g. if p g then f g else g) (find_gig float x gs)
  unfolding find_gig update_gigs
  find_gig-update p f keeps x [] = refl
  find_gig-update p f keeps x (g ∷ gs) = elim (Bool-cases (p g)) [
    | inl so ↦ elim (Bool-cases (text_eq g.tracking_id x)) [
      | inl own ↦
          let own' : text_eq (f g).tracking_id x ≡ true = ap (λ t. text_eq t x) (keeps g) ∙ own in
          rw (so, own) (at_head x (f g) (update_gigs float p f gs) own' ∙ rw so refl)
      | inr other ↦
          let other' : text_eq (f g).tracking_id x ≡ false =
            ap (λ t. text_eq t x) (keeps g) ∙ other in
          rw (so, other)
            (past_head x (f g) (update_gigs float p f gs) other' ∙ find_gig-update p f keeps x gs)
    ]
    | inr not_so ↦ elim (Bool-cases (text_eq g.tracking_id x)) [
      | inl own ↦ rw (not_so, own, not_so) refl
      | inr other ↦ rw (not_so, other) (find_gig-update p f keeps x gs)
    ]
  ]

  -- A row that the condition holds of.
  pub record Selected (p : Gig float → Bool) (x : Text) (gs : List (Gig float)) : Type 0 where
    pub row : Gig float
    pub found : find_gig float x gs ≡ some row
    pub holds : p row ≡ true

  pub update_gigs-cases :
      (p : Gig float → Bool) (f : Gig float → Gig float)
      → ((g : Gig float) → (f g).tracking_id ≡ g.tracking_id)
      → (x : Text) (gs : List (Gig float))
      → (find_gig float x (update_gigs float p f gs) ≡ find_gig float x gs)
        ⊎ ((r : Selected p x gs) × (find_gig float x (update_gigs float p f gs) ≡ some (f r.row)))
  update_gigs-cases p f keeps x gs = by_row (find_gig float x gs) refl
    where
      by_row :
          (o : Option (Gig float))
          → find_gig float x gs ≡ o
          → (find_gig float x (update_gigs float p f gs) ≡ find_gig float x gs)
            ⊎ ((r : Selected p x gs) × (find_gig float x (update_gigs float p f gs)
                  ≡ some (f r.row)))
      by_row none missing = inl (find_gig-update p f keeps x gs ∙ rw missing refl)
      by_row (some g) found = elim (Bool-cases (p g)) [
        | inl so ↦ inr (
          record { row = g; found = found; holds = so },
          find_gig-update p f keeps x gs ∙ rw found (rw so refl),
        )
        | inr not_so ↦ inl (find_gig-update p f keeps x gs ∙ rw found (rw not_so refl))
      ]
