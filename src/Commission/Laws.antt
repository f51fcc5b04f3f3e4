-- ===== src/Commission/Laws.antt =====
-- The split gives away the order's total, no more and no less.
use omnigo_app.Common.{if◌then◌else◌, ◌≡◌, Option, arith, ℕ, ◌<◌, ◌^◌, ◌+◌, ◌-◌}
use omnigo_app.Common.Int.{
  ℤ, pos, negsuc, +ℤ-pos, -ℤ-pos, ◌+ℤ◌, ◌≤ℤ◌, IsInt64, int64_id, +ℤ_parts, ◌-ℤ◌, leb_ℤ,
}
use omnigo_app.Common.Text.{Text}
use omnigo_app.Common.Floats.{Float}
use omnigo_app.Commission.{
  SplitResult, store_rate, fee_paisa, share, cap_split, calculate_split, cod_rate,
  calculate_cod_split,
}

abbrev min_ℤ : ℤ → ℤ → ℤ
min_ℤ a b = if leb_ℤ a b then a else b

-- The parts of a split add up to the total, and none of them is negative. The delivery fee is met
-- first, up to the total; the platform's share comes next, and the vendor has what is left.
pub record IsSplit {float : Float} (total share fee : ℤ) (r : SplitResult float) : Type 0 where
  pub whole : r.admin_revenue +ℤ r.vendor_escrow +ℤ r.delivery_escrow ≡ total
  pub admin_nonneg : pos 0 ≤ℤ r.admin_revenue
  pub vendor_nonneg : pos 0 ≤ℤ r.vendor_escrow
  pub delivery_nonneg : pos 0 ≤ℤ r.delivery_escrow
  pub delivery_first : r.delivery_escrow ≡ min_ℤ fee total
  pub admin_next : r.admin_revenue ≡ min_ℤ share (total -ℤ r.delivery_escrow)
  pub same_total : r.order_total ≡ total
  pub same_fee : r.delivery_fee ≡ r.delivery_escrow

module _ (float : Float) where
  cap_split-IsSplit_pos :
      (t a d : ℕ) (rate : float.F)
      → t < 2 ^ 63
      → a + d < 2 ^ 63
      → IsSplit (pos t) (pos a) (pos d) (cap_split float (pos t) (pos a) (pos d) rate)
  unfolding cap_split
  cap_split-IsSplit_pos t a d rate ht h =
      rw (+ℤ-pos, int64_id (pos (a + d)) (ground arith))
        (ground (
          arith,
          +ℤ-pos 0 0,
          +ℤ-pos 0 t,
          +ℤ-pos (t - d) 0,
          +ℤ-pos (t - d) d,
          +ℤ-pos a (t - a - d),
          +ℤ-pos (a + (t - a - d)) d,
          -ℤ-pos t d,
          -ℤ-pos t t,
          -ℤ-pos t a,
          -ℤ-pos (t - a) d,
          int64_id (pos (t - d)),
          int64_id (pos (t - a)),
          int64_id (pos (t - a - d)),
        ))

  -- A total, a share and a fee that are not negative, with the share and the fee together in range.
  abbrev pub Fits : ℤ → ℤ → ℤ → Type 0
  Fits total admin delivery =
      (pos 0 ≤ℤ total)
      × IsInt64 total
      × (pos 0 ≤ℤ admin)
      × (pos 0 ≤ℤ delivery)
      × IsInt64 (admin +ℤ delivery)

  pub cap_split-IsSplit :
      (total admin delivery : ℤ) (rate : float.F)
      → Fits total admin delivery
      → IsSplit total admin delivery (cap_split float total admin delivery rate)
  cap_split-IsSplit (pos t) (pos a) (pos d) rate (ht, it, ha, hd, ia) =
      cap_split-IsSplit_pos t a d rate it.0 (omega (arith, +ℤ_parts (pos a) (pos d), ia.0))
  cap_split-IsSplit (negsuc t) admin delivery rate h = absurd (omega (arith, h.0))
  cap_split-IsSplit (pos t) (negsuc a) delivery rate h = absurd (omega (arith, h.2))
  cap_split-IsSplit (pos t) (pos a) (negsuc d) rate h = absurd (omega (arith, h.3))

  module _ (getenv : Text → Text) (stored_rate : Option float.F) where
    -- For a total, a rounded share of the platform and a fee that are not negative, with the share and
    -- the fee together in the range of `int64`, the online split gives away the whole total: the
    -- delivery fee first, up to the total, then the platform's share, and the rest to the vendor.
    pub calculate_split-IsSplit :
        (total : ℤ) (tracking_id : Text) (fee : Option float.F)
        → Fits total
            (share float total (store_rate float getenv stored_rate))
            (fee_paisa float tracking_id fee)
        → IsSplit total
            (share float total (store_rate float getenv stored_rate))
            (fee_paisa float tracking_id fee)
            (calculate_split float getenv total stored_rate tracking_id fee)
    unfolding calculate_split
    calculate_split-IsSplit total tracking_id fee fits = cap_split-IsSplit total _ _ _ fits

    -- For a total, a rounded share of the platform at the rate with the surcharge, and a fee that are
    -- not negative, with the share and the fee together in the range of `int64`, the split for cash on
    -- delivery gives away the whole total: the delivery fee first, up to the total, then the platform's
    -- share, and the rest to the vendor.
    pub calculate_cod_split-IsSplit :
        (total : ℤ) (tracking_id : Text) (fee : Option float.F)
        → Fits total
            (share float total (cod_rate float getenv stored_rate))
            (fee_paisa float tracking_id fee)
        → IsSplit total
            (share float total (cod_rate float getenv stored_rate))
            (fee_paisa float tracking_id fee)
            (calculate_cod_split float getenv total stored_rate tracking_id fee)
    unfolding calculate_cod_split
    calculate_cod_split-IsSplit total tracking_id fee fits = cap_split-IsSplit total _ _ _ fits
