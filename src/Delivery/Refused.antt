-- ===== src/Delivery/Refused.antt =====
-- The checks of an assignment never answer that it is done.
use omnigo_app.Common.{◌≡◌, Bool, true, false, Option, none, some, arith}
use omnigo_app.Common.Text.{Text}
use omnigo_app.Common.Floats.{Float}
use omnigo_app.Delivery.Rows.{Gig, GigStore, GigOrder, GigWallet, find_gig_order, find_gig_wallet}
use omnigo_app.Delivery.Gigs.{
  GigAnswer, done, AcceptCall, check_active, check_wallet, check_cash, check_verified, check_zone,
  check_order_payment, check_gig,
}

module _ (float : Float) (getenv : Text → Text) where
  check_active-refuses :
      (c : AcceptCall float getenv) (rider : Text) (s : GigStore float)
      → check_active float getenv c rider s ≡ some done
      → ⊥
  unfolding check_active
  check_active-refuses c rider s h = ground (arith, h)

  check_wallet-refuses :
      (w : Option GigWallet) (rest : Option GigAnswer)
      → (rest ≡ some done → ⊥)
      → check_wallet float getenv w rest ≡ some done
      → ⊥
  unfolding check_wallet
  check_wallet-refuses none rest none_done h = ground (arith, h)
  check_wallet-refuses (some w) rest none_done h = none_done (ground (arith, h))

  check_cash-refuses :
      (c : AcceptCall float getenv) (rider : Text) (cod : Bool) (s : GigStore float)
      → check_cash float getenv c rider cod s ≡ some done
      → ⊥
  unfolding check_cash
  check_cash-refuses c rider false s h = check_active-refuses c rider s h
  check_cash-refuses c rider true s h =
      check_wallet-refuses (find_gig_wallet rider s.wallets) _ (check_active-refuses c rider s)
        (ground (arith, h))

  check_verified-refuses :
      (c : AcceptCall float getenv) (rider : Text) (cod : Bool) (s : GigStore float)
      → check_verified float getenv c rider cod s ≡ some done
      → ⊥
  unfolding check_verified
  check_verified-refuses c rider cod s h = check_cash-refuses c rider cod s (ground (arith, h))

  check_zone-refuses :
      (c : AcceptCall float getenv) (lat lng : Option float.F) (rest : Option GigAnswer)
      → (rest ≡ some done → ⊥)
      → check_zone float getenv c lat lng rest ≡ some done
      → ⊥
  unfolding check_zone
  check_zone-refuses c none lng rest none_done h = ground (arith, h)
  check_zone-refuses c (some lat) none rest none_done h = ground (arith, h)
  check_zone-refuses c (some lat) (some lng) rest none_done h = none_done (ground (arith, h))

  check_order_payment-refuses :
      (c : AcceptCall float getenv) (g : Gig float) (o : Option GigOrder) (rest : Option GigAnswer)
      → (rest ≡ some done → ⊥)
      → check_order_payment float getenv c g o rest ≡ some done
      → ⊥
  unfolding check_order_payment
  check_order_payment-refuses c g none rest none_done h = ground (arith, h)
  check_order_payment-refuses c g (some o) rest none_done h = none_done (ground (arith, h))

  pub check_gig-refuses :
      (c : AcceptCall float getenv) (rider : Text) (g : Gig float) (s : GigStore float)
      → check_gig float getenv c rider g s ≡ some done
      → ⊥
  unfolding check_gig
  check_gig-refuses c rider g s h =
      check_order_payment-refuses c g (find_gig_order g.order_tracking_id s.orders) _
        (check_zone-refuses c g.pickup_lat g.pickup_lng _
          (check_verified-refuses c rider g.is_cod s))
        (ground (arith, h))
