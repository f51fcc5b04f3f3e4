-- ===== src/Wallet/Rows.antt =====
-- The rows of `customer_wallet` and the statements on them. A sum that BIGINT cannot hold fails the
-- statement, which is then `none`. `updated_at` is left out.
use mathlib.Core.Option
use omnigo_app.Common.{
  ◌^◌, Bool, true, false, ◌&&◌, ltb, leb, List, [], ◌∷◌, Option, none, some, if◌then◌else◌,
}
use omnigo_app.Common.Int.{ℤ, pos, ◌+ℤ◌, ◌-ℤ◌, leb_ℤ, pos_part, neg_part}
use omnigo_app.Common.Text.{Text, text_eq}

pub record CustomerWallet : Type 0 where
  pub customer_tracking_id : Text
  pub balance_paisa : ℤ
  pub lifetime_spent_paisa : ℤ

abbrev pub Wallets : Type 0
Wallets = List CustomerWallet

-- A value of BIGINT.
abbrev pub bigint : ℤ → Option ℤ
bigint a = if ltb (pos_part a) (2 ^ 63) && leb (neg_part a) (2 ^ 63) then some a else none

abbrev pub with_balance : CustomerWallet → ℤ → CustomerWallet
with_balance w balance = record w { balance_paisa = balance }

-- `UPDATE customer_wallet SET balance_paisa = balance_paisa + $1 WHERE customer_tracking_id = $2`,
-- with the number of rows.
unfoldable pub add_balance : Text → ℤ → Wallets → Option (Bool × Wallets)
add_balance id amount [] = some (false, [])
add_balance id amount (w ∷ ws) =
    let rest = add_balance id amount ws in
    if text_eq w.customer_tracking_id id
    then Option.map (λ b. (true, with_balance w b ∷ ws)) (bigint (w.balance_paisa +ℤ amount))
    else Option.map (λ r. (r.0, w ∷ r.1)) rest

-- `INSERT … VALUES ($1, $2, 0, NOW()) ON CONFLICT DO UPDATE SET balance_paisa = … + $2`
unfoldable pub upsert_balance : Text → ℤ → Wallets → Option Wallets
upsert_balance id amount [] = some (
    record { customer_tracking_id = id; balance_paisa = amount; lifetime_spent_paisa = pos 0 } ∷ [])
upsert_balance id amount (w ∷ ws) =
    let rest = upsert_balance id amount ws in
    if text_eq w.customer_tracking_id id
    then Option.map (λ b. with_balance w b ∷ ws) (bigint (w.balance_paisa +ℤ amount))
    else Option.map (λ r. w ∷ r) rest

-- The deduction, `… WHERE customer_tracking_id = $2 AND balance_paisa >= $1`, with the number of rows.
unfoldable pub deduct_balance : Text → ℤ → Wallets → Option (Bool × Wallets)
deduct_balance id amount [] = some (false, [])
deduct_balance id amount (w ∷ ws) =
    let rest = deduct_balance id amount ws in
    if text_eq w.customer_tracking_id id
    then if leb_ℤ amount w.balance_paisa
      then Option.map
          (λ spent. (
            true,
            record w { balance_paisa = w.balance_paisa -ℤ amount; lifetime_spent_paisa = spent }
                ∷ ws,
          ))
          (bigint (w.lifetime_spent_paisa +ℤ amount))
      else some (false, w ∷ ws)
    else Option.map (λ r. (r.0, w ∷ r.1)) rest

-- `SELECT balance_paisa … WHERE customer_tracking_id = $1`, as GetWallet reports it: a wallet that is
-- missing has nothing in it.
unfoldable pub balance_of : Wallets → Text → ℤ
balance_of [] id = pos 0
balance_of (w ∷ ws) id =
    if text_eq w.customer_tracking_id id then w.balance_paisa else balance_of ws id
