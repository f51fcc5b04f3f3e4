-- ===== src/Delivery/Walk.antt =====
-- The statuses that a gig goes through, whatever calls are made for it.
use mathlib.Core.Option
use mathlib.Core.Option.{some-injective}
use omnigo_app.Common.{
  ◌≡◌, refl, ap, sym, ◌∙◌, inl, inr, Bool, true, false, List, [], ◌∷◌, some, if◌then◌else◌,
}
use omnigo_app.Common.Text.{Text}
use omnigo_app.Common.Floats.{Float}
use omnigo_app.Delivery.Rows.{GigStore, find_gig}
use omnigo_app.Delivery.Gigs.{broken, AcceptCall, accept_row, accept_gig_with_eligibility}
use omnigo_app.Delivery.Update.{
  accept_gig, GigUpdate, update_gig_status, clear_order_rider, cancel_delivery_for_order,
}
use omnigo_app.Delivery.Statuses.{status_at}
use omnigo_app.Delivery.Moves.{
  Follows, Moved, accept_gig-Moved, accept_row-Moved, update_row-Moved, clear_order_rider-gigs,
  call_off-Moved,
}

unfoldable pub IsWalk : Text → List Text → Type 0
IsWalk from [] = Unit {0}
IsWalk from (to ∷ rest) = Follows from to × IsWalk to rest

abbrev pub last_status : Text → List Text → Text
last_status from [] = from
last_status from (to ∷ rest) = last_status to rest

module _ (float : Float) (getenv : Text → Text) where
  -- A call, with what the outside does during it.
  pub data GigRequest : Type 0 where
    accept : AcceptCall float getenv → Text → Text → GigRequest
    accept_unchecked : Bool → Text → Text → GigRequest
    update : GigUpdate float → GigRequest
    clear_rider : Text → GigRequest
    call_off : Text → Text → GigRequest

  unfoldable pub serve : GigRequest → GigStore float → GigStore float
  serve (accept c id rider) s = (accept_gig_with_eligibility float getenv c id rider s).0
  serve (accept_unchecked commits id rider) s = (accept_gig float commits id rider s).0
  serve (update u) s = (update_gig_status float u s).0
  serve (clear_rider id) s = clear_order_rider float id s
  serve (call_off order why) s = cancel_delivery_for_order float order why s

  unfoldable pub serve_all : List GigRequest → GigStore float → GigStore float
  unfolding serve
  serve_all [] s = s
  serve_all (q ∷ qs) s = serve_all qs (serve q s)

  -- A call, whichever it is and whatever fails in it, leaves the row of a gig as it was, or its status
  -- moves by one step: along the table of changes, or to cancelled from broadcasting, accepted, picked
  -- up or in transit.
  pub serve-Moved :
      (q : GigRequest) (x : Text) (s : GigStore float)
      → Moved float getenv x s.gigs (serve q s).gigs
  unfolding serve accept_gig_with_eligibility update_gig_status
  serve-Moved (accept c id rider) x s = by_begin c.begins
    where
      by_begin :
          (b : Bool)
          → Moved float getenv x s.gigs
              (if b
                then accept_row float getenv c id rider (find_gig float id s.gigs) s
                else (s, broken)).0.gigs
      by_begin true = accept_row-Moved float getenv c id rider x s _ refl
      by_begin false = inl refl
  serve-Moved (accept_unchecked commits id rider) x s =
      accept_gig-Moved float getenv commits id rider x s
  serve-Moved (update u) x s = update_row-Moved float getenv u x s _ refl
  serve-Moved (clear_rider id) x s =
      inl (ap (find_gig float x) (clear_order_rider-gigs float getenv id s))
  serve-Moved (call_off order why) x s = call_off-Moved float getenv order why x s

  -- Whatever calls are made one after another, and whatever fails in them, the statuses of a gig are
  -- a walk along the table of changes, which a cancellation of a gig under way may end.
  pub serve_all-IsWalk :
      (qs : List GigRequest) (x from : Text) (s : GigStore float)
      → status_at float x s ≡ some from
      → (path : List Text) × IsWalk from path
        × (status_at float x (serve_all qs s) ≡ some (last_status from path))
  unfolding serve_all IsWalk
  serve_all-IsWalk [] x from s at = ([], tt, at)
  serve_all-IsWalk (q ∷ qs) x from s at = elim (serve-Moved q x s) [
    | inl same ↦ serve_all-IsWalk qs x from (serve q s) (ap (Option.map (λ g. g.status)) same ∙ at)
    | inr (g, g', before, after, follows) ↦
        let was : g.status ≡ from =
          some-injective g.status from (sym (ap (Option.map (λ h. h.status)) before) ∙ at) in
        let (path, walk, last) =
          serve_all-IsWalk qs x g'.status (serve q s) (ap (Option.map (λ h. h.status)) after) in
        (g'.status ∷ path, (rw (← was) follows, walk), last)
  ]
