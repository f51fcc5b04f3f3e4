-- ===== src/Wallet/Bounds.antt =====
-- Histories of the service, and the bound on the balances.
use omnigo_app.Common.{inl, inr, List, [], ◌∷◌, Bool-cases}
use omnigo_app.Common.Int.{ℤ, pos, ◌≤ℤ◌, int_laws}
use omnigo_app.Common.Text.{Text, text_eq, text_eq_sound}
use omnigo_app.Wallet.Rows.{Wallets, balance_of}
use omnigo_app.Wallet.Customer.{Store, Call, Reply, done, refused}
use omnigo_app.Wallet.Spec.{Balances, with_more, with_less}
use omnigo_app.Wallet.Refine.{
  Request, crediting, refunding, purchasing, serve, Credited, credited, not_credited, Charged,
  charged, not_charged, lost, Step, serve-Step,
}

-- A history of the service, each call with what the outside does during it.
unfoldable pub serve_all : List (Call × Request) → Store → Store
serve_all [] s = s
serve_all ((c, req) ∷ calls) s = serve_all calls (serve c req s).1

abbrev pub IsCovering : Wallets → Type 0
IsCovering ws = (x : Text) → pos 0 ≤ℤ balance_of ws x

more-nonneg :
    (id : Text) (n : ℤ) (w : Balances) (x : Text)
    → pos 1 ≤ℤ n
    → pos 0 ≤ℤ w x
    → pos 0 ≤ℤ with_more id n w x
more-nonneg id n w x positive h = elim (Bool-cases (text_eq id x)) [
  | inl same ↦ rw same (omega int_laws)
  | inr other ↦ rw other h
]

less-nonneg :
    (id : Text) (n : ℤ) (w : Balances) (x : Text)
    → n ≤ℤ w id
    → pos 0 ≤ℤ w x
    → pos 0 ≤ℤ with_less id n w x
less-nonneg id n w x covered h = elim (Bool-cases (text_eq id x)) [
  | inl same ↦
      let covered' : n ≤ℤ w x = rw (← text_eq_sound id x same) covered in rw same (omega int_laws)
  | inr other ↦ rw other h
]

Credited-nonneg :
    (id : Text) (n : ℤ) (w w' : Balances) (r : Reply)
    → Credited id n w w' r
    → ((x : Text) → pos 0 ≤ℤ w x)
    → (x : Text) → pos 0 ≤ℤ w' x
Credited-nonneg id n w w' done (credited positive more) h x =
    rw (more x) (more-nonneg id n w x positive (h x))
Credited-nonneg id n w w' refused (not_credited same) h x = rw (same x) (h x)

Charged-nonneg :
    (id : Text) (n : ℤ) (w w' : Balances) (r : Reply)
    → Charged id n w w' r
    → ((x : Text) → pos 0 ≤ℤ w x)
    → (x : Text) → pos 0 ≤ℤ w' x
Charged-nonneg id n w w' done (charged positive covered less) h x =
    rw (less x) (less-nonneg id n w x covered (h x))
Charged-nonneg id n w w' refused (not_charged same) h x = rw (same x) (h x)
Charged-nonneg id n w w' refused (lost positive covered less) h x =
    rw (less x) (less-nonneg id n w x covered (h x))

Step-nonneg :
    (req : Request) (r : Reply) (w w' : Balances)
    → Step req r w w'
    → ((x : Text) → pos 0 ≤ℤ w x)
    → (x : Text) → pos 0 ≤ℤ w' x
Step-nonneg (crediting id reference n) r w w' s h = Credited-nonneg id n w w' r s h
Step-nonneg (refunding id order n) r w w' s h = Credited-nonneg id n w w' r s h
Step-nonneg (purchasing id order n) r w w' s h = Charged-nonneg id n w w' r s h

-- No history of calls, whatever fails in each, takes a customer's balance below zero.
pub serve_all-IsCovering :
    (calls : List (Call × Request)) (s : Store)
    → IsCovering s.wallets
    → IsCovering (serve_all calls s).wallets
unfolding serve_all
serve_all-IsCovering [] s h = h
serve_all-IsCovering ((c, req) ∷ calls) s h =
    let (r, t) = serve c req s in
    serve_all-IsCovering calls t
      (Step-nonneg req r (balance_of s.wallets) (balance_of t.wallets) (serve-Step c req s) h)
