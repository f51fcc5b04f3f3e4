-- ===== src/Delivery/Accepted.antt =====
-- What holds of a gig and its rider when the rider was assigned to it.
use omnigo_app.Common.{
  ◌≡◌, refl, ap, ◌∙◌, ◌⊎◌, inl, inr, Bool, true, false, Option, none, some, arith, if◌then◌else◌,
}
use omnigo_app.Common.Text.{Text, codes, text_eq}
use omnigo_app.Common.Int.{leb_ℤ}
use omnigo_app.Common.Floats.{Float}
use omnigo_app.Delivery.Rows.{
  Gig, GigStore, GigOrder, GigWallet, find_gig, find_gig_order, find_gig_wallet,
  has_active_delivery,
}
use omnigo_app.Delivery.Gigs.{
  GigAnswer, done, broken, is_gig, taken_by, assign, payment_ok, AcceptCall, check_active,
  check_wallet, check_cash, check_verified, check_zone, check_order_payment, check_gig,
  cash_block_threshold_paisa, accept_row, accept_gig_with_eligibility,
}
use omnigo_app.Delivery.Refused.{check_gig-refuses}
use omnigo_app.Delivery.Statuses.{find_gig-is, find_gig-update}

module _ (float : Float) (getenv : Text → Text) where
  -- A wallet that may take more cash.
  pub record HasRoom (rider : Text) (s : GigStore float) : Type 0 where
    pub wallet : GigWallet
    pub found : find_gig_wallet rider s.wallets ≡ some wallet
    pub unblocked : wallet.is_cash_blocked ≡ false
    pub below : leb_ℤ (cash_block_threshold_paisa float getenv) wallet.cash_in_hand_paisa ≡ false

  -- A row that was free, with a payment that is accepted, and given to a rider. `idle` speaks of the
  -- statuses that the query asks for, which `accepted` is not among.
  pub record Taken (id rider : Text) (s s' : GigStore float) : Type 0 where
    pub row : Gig float
    pub order : GigOrder
    pub found : find_gig float id s.gigs ≡ some row
    pub free : text_eq row.status (codes "broadcasting") ≡ true
    pub order_found : find_gig_order row.order_tracking_id s.orders ≡ some order
    pub paid : payment_ok row.is_cod order.payment_status ≡ true
    pub idle : has_active_delivery float rider s.gigs ≡ false
    pub has_room : row.is_cod ≡ true → HasRoom rider s
    pub after : find_gig float id s'.gigs ≡ some (taken_by float rider row)

  check_active-idle :
      (c : AcceptCall float getenv) (rider : Text) (s : GigStore float)
      → check_active float getenv c rider s ≡ none
      → has_active_delivery float rider s.gigs ≡ false
  unfolding check_active
  check_active-idle c rider s passes = ground (arith, passes)

  check_wallet-passes :
      (rider : Text) (s : GigStore float) (w : Option GigWallet) (rest : Option GigAnswer)
      → find_gig_wallet rider s.wallets ≡ w
      → check_wallet float getenv w rest ≡ none
      → HasRoom rider s × (rest ≡ none)
  unfolding check_wallet
  check_wallet-passes rider s none rest at passes = absurd (ground (arith, passes))
  check_wallet-passes rider s (some w) rest at passes = (
    record {
      wallet = w;
      found = at;
      unblocked = ground (arith, passes);
      below = ground (arith, passes);
    },
    ground (arith, passes),
  )

  check_cash-passes :
      (c : AcceptCall float getenv) (rider : Text) (cod : Bool) (s : GigStore float)
      → check_cash float getenv c rider cod s ≡ none
      → (cod ≡ true → HasRoom rider s) × (check_active float getenv c rider s ≡ none)
  unfolding check_cash
  check_cash-passes c rider false s passes = (λ online. absurd (ground (arith, online)), passes)
  check_cash-passes c rider true s passes =
      let (room, rest) =
        check_wallet-passes rider s (find_gig_wallet rider s.wallets) _ refl
          (ground (arith, passes)) in
      (λ cash. room, rest)

  check_verified-passes :
      (c : AcceptCall float getenv) (rider : Text) (cod : Bool) (s : GigStore float)
      → check_verified float getenv c rider cod s ≡ none
      → check_cash float getenv c rider cod s ≡ none
  unfolding check_verified
  check_verified-passes c rider cod s passes = ground (arith, passes)

  check_zone-passes :
      (c : AcceptCall float getenv) (g : Gig float) (rest : Option GigAnswer)
      → check_zone float getenv c g.pickup_lat g.pickup_lng rest ≡ none
      → rest ≡ none
  unfolding check_zone
  check_zone-passes c g rest passes = by_coordinates g.pickup_lat g.pickup_lng passes
    where
      by_coordinates :
          (lat lng : Option float.F) → check_zone float getenv c lat lng rest ≡ none → rest ≡ none
      by_coordinates none lng p = absurd (ground (arith, p))
      by_coordinates (some lat) none p = absurd (ground (arith, p))
      by_coordinates (some lat) (some lng) p = ground (arith, p)

  -- The part of `Taken` that the checks give.
  checked :
      (c : AcceptCall float getenv) (id rider : Text) (s s' : GigStore float) (g : Gig float)
      (o : Option GigOrder)
      → find_gig float id s.gigs ≡ some g
      → text_eq g.status (codes "broadcasting") ≡ true
      → find_gig_order g.order_tracking_id s.orders ≡ o
      → check_order_payment float getenv c g o (
          check_zone float getenv c g.pickup_lat g.pickup_lng
            (check_verified float getenv c rider g.is_cod s))
        ≡ none
      → find_gig float id s'.gigs ≡ some (taken_by float rider g)
      → Taken id rider s s'
  unfolding check_order_payment
  checked c id rider s s' g none found free at passes after = absurd (ground (arith, passes))
  checked c id rider s s' g (some o) found free at passes after =
      let (room, idle) = check_cash-passes c rider g.is_cod s (
        check_verified-passes c rider g.is_cod s
          (check_zone-passes c g _ (ground (arith, passes)))) in
      record {
        row = g;
        order = o;
        found = found;
        free = free;
        order_found = at;
        paid = ground (arith, passes);
        idle = check_active-idle c rider s idle;
        has_room = room;
        after = after;
      }

  assign-row :
      (commits : Bool) (id rider : Text) (g : Gig float) (s : GigStore float)
      → find_gig float id s.gigs ≡ some g
      → (assign float commits id rider g s ≡ (s, broken))
        ⊎ (((assign float commits id rider g s).1 ≡ done)
            × (find_gig float id (assign float commits id rider g s).0.gigs
                ≡ some (taken_by float rider g)))
  unfolding assign
  assign-row false id rider g s found = inl refl
  assign-row true id rider g s found = inr (
    refl,
    find_gig-update float (is_gig float id) (taken_by float rider) (λ h. refl) id s.gigs
        ∙ rw found (rw (find_gig-is float id s.gigs g found) refl),
  )

  -- A refusal with nothing changed, or an assignment.
  abbrev pub Outcome : Text → Text → GigStore float → GigStore float × GigAnswer → Type 0
  Outcome id rider s r = ((r.0 ≡ s) × (r.1 ≡ done → ⊥)) ⊎ ((r.1 ≡ done) × Taken id rider s r.0)

  broken_answer : (id rider : Text) (s : GigStore float) → Outcome id rider s (s, broken)
  broken_answer id rider s = inl (refl, λ e. ground (arith, e))

  check_gig-passes :
      (c : AcceptCall float getenv) (rider : Text) (g : Gig float) (s : GigStore float)
      → check_gig float getenv c rider g s ≡ none
      → (text_eq g.status (codes "broadcasting") ≡ true)
        × (check_order_payment float getenv c g (find_gig_order g.order_tracking_id s.orders) (
              check_zone float getenv c g.pickup_lat g.pickup_lng
                (check_verified float getenv c rider g.is_cod s))
            ≡ none)
  unfolding check_gig
  check_gig-passes c rider g s h = (ground (arith, h), ground (arith, h))

  accept_row-Outcome :
      (c : AcceptCall float getenv) (id rider : Text) (s : GigStore float) (o : Option (Gig float))
      → find_gig float id s.gigs ≡ o
      → Outcome id rider s (accept_row float getenv c id rider o s)
  unfolding accept_row
  accept_row-Outcome c id rider s none missing = inl (refl, λ e. ground (arith, e))
  accept_row-Outcome c id rider s (some g) found =
      of_check (check_gig float getenv c rider g s) refl
    where
      of_check :
          (r : Option GigAnswer)
          → check_gig float getenv c rider g s ≡ r
          → Outcome id rider s (accept_row float getenv c id rider (some g) s)
      of_check none passes =
          let (free, rest) = check_gig-passes c rider g s passes in
          rw passes (elim (assign-row c.commits id rider g s found) [
            | inl failed ↦ rw failed (broken_answer id rider s)
            | inr (ended, after) ↦
                inr (ended, checked c id rider s _ g _ found free refl rest after)
          ])
      of_check (some refusal) refuses =
          rw refuses
            (inl (refl, λ e. check_gig-refuses float getenv c rider g s (refuses ∙ ap some e)))

  -- AcceptGigWithEligibility refuses and changes nothing, or it gives the rider a gig that was
  -- broadcasting, whose order is paid, awaits its settlement or, for cash on delivery, its payment,
  -- while the rider has no gig that is assigned, picked up or in transit and, for cash, a wallet that
  -- is not blocked and holds less than the limit. Gigs that the rider has accepted and not picked up do
  -- not count.
  pub accept_gig_with_eligibility-Outcome :
      (c : AcceptCall float getenv) (id rider : Text) (s : GigStore float)
      → Outcome id rider s (accept_gig_with_eligibility float getenv c id rider s)
  unfolding accept_gig_with_eligibility
  accept_gig_with_eligibility-Outcome c id rider s = by_begin c.begins
    where
      by_begin :
          (b : Bool)
          → Outcome id rider s (
              if b
              then accept_row float getenv c id rider (find_gig float id s.gigs) s
              else (s, broken))
      by_begin true = accept_row-Outcome c id rider s _ refl
      by_begin false = broken_answer id rider s
