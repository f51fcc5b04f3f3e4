-- ===== src/Delivery/Completed.antt =====
-- A completed gig is over, and its rider is paid for it no second time.
use mathlib.Core.Option
use mathlib.Core.Option.{some-injective}
use omnigo_app.Common.{
  ◌≡◌, refl, ap, ◌∙◌, inl, inr, Bool, true, false, List, [], ◌∷◌, Option, none, some, arith,
  if◌then◌else◌,
}
use omnigo_app.Common.Text.{Text, codes, text_eq}
use omnigo_app.Common.Floats.{Float}
use omnigo_app.Delivery.Rows.{
  Gig, GigStore, GigWallet, find_gig, update_gigs, is_under_way, valid_gig_transitions,
  transitions_from,
}
use omnigo_app.Delivery.Gigs.{GigAnswer, done, broken, bad_status, is_gig}
use omnigo_app.Delivery.Update.{
  is_valid_gig_change, GigUpdate, revised, write_update, change_gig, update_row, update_gig_status,
}
use omnigo_app.Delivery.Statuses.{find_gig-is, find_gig-update, status_at}
use omnigo_app.Delivery.Moves.{revised-status, revised-tracking_id}
use omnigo_app.Delivery.Walk.{IsWalk, GigRequest, serve_all, serve_all-IsWalk, last_status}

over : (to : Text) → is_valid_gig_change (codes "completed") to ≡ some bad_status
unfolding is_valid_gig_change valid_gig_transitions transitions_from text_eq
over to = refl

closed : is_under_way (codes "completed") ≡ false
unfolding is_under_way text_eq
closed = refl

not_done : (from to : Text) → is_valid_gig_change from to ≡ some done → ⊥
unfolding is_valid_gig_change
not_done from to h = ground (arith, h)

stays_completed :
    (path : List Text)
    → IsWalk (codes "completed") path
    → last_status (codes "completed") path ≡ codes "completed"
unfolding IsWalk
stays_completed [] walk = refl
stays_completed (to ∷ rest) (inl allowed, walk) = absurd (ground (arith, allowed, over to))
stays_completed (to ∷ rest) (inr (under_way, _), walk) = absurd (ground (arith, under_way, closed))

module _ (float : Float) (getenv : Text → Text) where
  -- An update that was done leaves its status in the row.
  write_update-status :
      (u : GigUpdate float) (s : GigStore float) (ws : Option (List GigWallet)) (g : Gig float)
      → find_gig float u.tracking_id s.gigs ≡ some g
      → (write_update float u ws s).1 ≡ done
      → status_at float u.tracking_id (write_update float u ws s).0 ≡ some u.status
  unfolding write_update
  write_update-status u s none g found ok = absurd (ground (arith, ok))
  write_update-status u s (some ws) g found ok = by_commit u.commits ok
    where
      written : GigStore float
      written = record s {
        gigs = update_gigs float (is_gig float u.tracking_id) (revised float u) s.gigs;
        wallets = ws;
      }

      answer : Bool → GigStore float × GigAnswer
      answer b = if b then (written, done) else (s, broken)

      by_commit :
          (b : Bool)
          → (answer b).1 ≡ done
          → status_at float u.tracking_id (answer b).0 ≡ some u.status
      by_commit false refused = absurd (ground (arith, refused))
      by_commit true ended =
          ap (Option.map (λ h. h.status)) (
            find_gig-update float (is_gig float u.tracking_id) (revised float u)
              (revised-tracking_id float getenv u) u.tracking_id s.gigs)
          ∙ rw found (
              rw (find_gig-is float u.tracking_id s.gigs g found)
                (ap some (revised-status float getenv u g)))

  change_gig-status :
      (u : GigUpdate float) (s : GigStore float) (r : Option GigAnswer) (g : Gig float)
      → find_gig float u.tracking_id s.gigs ≡ some g
      → is_valid_gig_change g.status u.status ≡ r
      → (change_gig float u g r s).1 ≡ done
      → status_at float u.tracking_id (change_gig float u g r s).0 ≡ some u.status
  unfolding change_gig
  change_gig-status u s none g found valid ok = write_update-status u s _ g found ok
  change_gig-status u s (some a) g found refused ok =
      absurd (not_done g.status u.status (refused ∙ ap some ok))

  update_row-status :
      (u : GigUpdate float) (s : GigStore float) (o : Option (Gig float))
      → find_gig float u.tracking_id s.gigs ≡ o
      → (update_row float u o s).1 ≡ done
      → status_at float u.tracking_id (update_row float u o s).0 ≡ some u.status
  unfolding update_row
  update_row-status u s none missing ok = absurd (ground (arith, ok))
  update_row-status u s (some g) found ok = change_gig-status u s _ g found refl ok

  update_row-over :
      (u : GigUpdate float) (s : GigStore float) (o : Option (Gig float))
      → Option.map (λ g. g.status) o ≡ some (codes "completed")
      → update_row float u o s ≡ (s, bad_status)
  unfolding update_row change_gig
  update_row-over u s none is_completed = absurd (ground (arith, is_completed))
  update_row-over u s (some g) is_completed =
      let was : g.status ≡ codes "completed" = some-injective _ _ is_completed in
      ap (λ r. change_gig float u g r s)
        (ap (λ t. is_valid_gig_change t u.status) was ∙ over u.status)

  -- Once UpdateGigStatus has completed a gig, and so credited its rider, any calls may follow: every
  -- later update of the gig, a second completion among them, is refused with nothing changed.
  pub update_gig_status-once :
      (u : GigUpdate float) (s : GigStore float)
      → u.status ≡ codes "completed"
      → (update_gig_status float u s).1 ≡ done
      → (qs : List (GigRequest float getenv)) (u' : GigUpdate float)
      → u'.tracking_id ≡ u.tracking_id
      → let s' = serve_all float getenv qs (update_gig_status float u s).0 in
        update_gig_status float u' s' ≡ (s', bad_status)
  unfolding update_gig_status
  update_gig_status-once u s completes ok qs u' same =
      let s' = serve_all float getenv qs (update_gig_status float u s).0 in
      let at = update_row-status u s _ refl ok ∙ ap some completes in
      let (path, walk, last) =
        serve_all-IsWalk float getenv qs u.tracking_id (codes "completed")
          (update_row float u _ s).0 at in
      update_row-over u' s' _
        (ap (λ id. status_at float id s') same ∙ last ∙ ap some (stays_completed path walk))
