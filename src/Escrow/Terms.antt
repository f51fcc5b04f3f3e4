-- ===== src/Escrow/Terms.antt =====
-- What no step of a release changes of the holds: their identifiers and amounts.
use omnigo_app.Common.{
  ◌≡◌, refl, Bool, true, List, [], ◌∷◌, ◌&&◌, any, arith, some, Bool-cases, inl, inr, map,
}
use omnigo_app.Common.Int.{ℤ, eqb_ℤ}
use omnigo_app.Common.Text.{Text, text_eq, text_eq_refl}
use omnigo_app.Escrow.Models.{EscrowHold, update_hold, find_hold}

abbrev pub terms : List EscrowHold → List (Text × ℤ)
terms hs = map (λ h. (h.id, h.amount)) hs

-- A row of the identifier holds the amount.
abbrev pub holds_amount : Text → ℤ → List EscrowHold → Bool
holds_amount id n hs = any (λ t. text_eq t.0 id && eqb_ℤ t.1 n) (terms hs)

pub update_hold-terms :
    (id : Text) (f : EscrowHold → EscrowHold) (hs : List EscrowHold)
    → ((h : EscrowHold) → ((f h).id ≡ h.id) × ((f h).amount ≡ h.amount))
    → terms (update_hold id f hs) ≡ terms hs
unfolding update_hold
update_hold-terms id f [] keeps = refl
update_hold-terms id f (h ∷ hs) keeps = ground (arith, keeps h, update_hold-terms id f hs keeps)

eqb_ℤ-refl : (a : ℤ) → eqb_ℤ a a ≡ true
eqb_ℤ-refl a = ground arith

pub find_hold-amount :
    (p : EscrowHold → Bool) (hs : List EscrowHold) {found : EscrowHold}
    → find_hold p hs ≡ some found
    → holds_amount found.id found.amount hs ≡ true
unfolding find_hold
find_hold-amount p [] e = absurd (ground (arith, e))
find_hold-amount p (h ∷ hs) {found} e = elim (Bool-cases (p h)) [
  | inl here ↦
      let same : h ≡ found = ground (arith, e, here) in
      rw (← same) (rw (text_eq_refl h.id, eqb_ℤ-refl h.amount) refl)
  | inr past ↦ ground (arith, find_hold-amount p hs {found = found} (ground (arith, e, past)))
]
