-- ===== src/Payout/Fits.antt =====
-- What the loop over the released holds takes.
use omnigo_app.Common.{
  ◌≡◌, refl, ap, inl, inr, ◌∙◌, ◌^◌, ◌-◌, Bool, true, List, [], ◌∷◌, ◌++◌, all, arith, Bool-cases,
}
use omnigo_app.Common.Int.{
  ℤ, pos, negsuc, ◌+ℤ◌, ◌≤ℤ◌, ◌<ℤ◌, leb_ℤ, int64, int64_id, IsInt64, int_laws,
}
use omnigo_app.Escrow.Models.{EscrowHold}
use omnigo_app.Payout.Rows.{sum_amounts}
use omnigo_app.Payout.Fitting.{take_fitting}

abbrev pub is_nonneg : EscrowHold → Bool
is_nonneg h = leb_ℤ (pos 0) h.amount

pub is_int64 : (a : ℤ) → negsuc (2 ^ 63 - 1) ≤ℤ a → a <ℤ pos (2 ^ 63) → IsInt64 a
is_int64 (pos n) low high = ground arith
is_int64 (negsuc n) low high = ground arith

pub in_range : (a : ℤ) → pos 0 ≤ℤ a → a <ℤ pos (2 ^ 63) → int64 a ≡ a
in_range a low high = int64_id a (is_int64 a (omega arith) high)

all-head :
    (h : EscrowHold) (hs : List EscrowHold) → all is_nonneg (h ∷ hs) ≡ true → pos 0 ≤ℤ h.amount
all-head h hs a = ground arith

all-tail :
    (h : EscrowHold) (hs : List EscrowHold)
    → all is_nonneg (h ∷ hs) ≡ true
    → all is_nonneg hs ≡ true
all-tail h hs a = ground arith

pub sum_amounts-nonneg : (hs : List EscrowHold) → all is_nonneg hs ≡ true → pos 0 ≤ℤ sum_amounts hs
sum_amounts-nonneg [] a = omega arith
sum_amounts-nonneg (h ∷ hs) a =
    let own = all-head h hs a in
    let rest = sum_amounts-nonneg hs (all-tail h hs a) in omega int_laws

-- The loop stopped at the end, or at a hold that would take the sum over the limit.
abbrev pub IsFull : ℤ → ℤ → List EscrowHold → Type 0
IsFull sweep t [] = Unit {0}
IsFull sweep t (h ∷ hs) = sweep <ℤ t +ℤ h.amount

-- What it took is the longest beginning of the list whose sum stays within the limit.
pub record IsFitting (sweep total : ℤ) (hs swept : List EscrowHold) (t : ℤ) : Type 0 where
  pub rest : List EscrowHold
  pub parts : hs ≡ swept ++ rest
  pub sum : t ≡ total +ℤ sum_amounts swept
  pub within : t ≤ℤ sweep
  pub full : IsFull sweep t rest

module _ (sweep : ℤ) where
  stopped :
      (total : ℤ) (hs : List EscrowHold)
      → total ≤ℤ sweep
      → IsFull sweep total hs
      → IsFitting sweep total hs [] total
  stopped total hs within full = record {
    rest = hs;
    parts = refl;
    sum = omega int_laws;
    within = within;
    full = full;
  }

  taken :
      (total : ℤ) (h : EscrowHold) (hs swept : List EscrowHold) (t : ℤ)
      → IsFitting sweep (total +ℤ h.amount) hs swept t
      → IsFitting sweep total (h ∷ hs) (h ∷ swept) t
  taken total h hs swept t f = record {
    rest = f.rest;
    parts = ap (λ xs. h ∷ xs) f.parts;
    sum = f.sum ∙ omega int_laws;
    within = f.within;
    full = f.full;
  }

  -- For amounts that are not negative, with a total below 2 ^ 63, and a start that is not negative and
  -- not above the limit, the loop takes the longest beginning of the holds whose sum stays within the
  -- limit, a sum equal to it included, and gives that sum.
  pub take_fitting-IsFitting :
      (total : ℤ) (hs : List EscrowHold)
      → all is_nonneg hs ≡ true
      → pos 0 ≤ℤ total
      → total ≤ℤ sweep
      → total +ℤ sum_amounts hs <ℤ pos (2 ^ 63)
      → let (swept, t) = take_fitting sweep total hs in IsFitting sweep total hs swept t
  unfolding take_fitting
  take_fitting-IsFitting total [] a low within high = stopped total [] within tt
  take_fitting-IsFitting total (h ∷ hs) a low within high =
      let own = all-head h hs a in
      let later = sum_amounts-nonneg hs (all-tail h hs a) in
      let low' : pos 0 ≤ℤ total +ℤ h.amount = omega int_laws in
      let same : int64 (total +ℤ h.amount) ≡ total +ℤ h.amount =
        in_range (total +ℤ h.amount) low' (omega int_laws) in
      rw same (elim (Bool-cases (leb_ℤ (total +ℤ h.amount) sweep)) [
        | inl fits ↦ rw fits (
            taken total h hs _ _ (
              take_fitting-IsFitting (total +ℤ h.amount) hs (all-tail h hs a) low'
                (ground (arith, fits)) (omega int_laws)))
        | inr over ↦ rw over (stopped total (h ∷ hs) within (ground (arith, over)))
      ])
