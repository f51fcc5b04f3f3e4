-- ===== src/Payout/Refused.antt =====
-- A run of the worker on a database that refuses the sum of the released holds.
use omnigo_app.Common.{◌≡◌}
use omnigo_app.Common.Text.{Text}
use omnigo_app.Payout.Rows.{Books}
use omnigo_app.Payout.Wallets.{payouts_total}

-- Nobody is paid: the holds and the wallets stay, and no amount is added to the payouts.
pub record NobodyPaid (b b' : Books) : Type 0 where
  pub same_holds : b'.holds ≡ b.holds
  pub same_wallets : b'.wallets ≡ b.wallets
  pub same_payouts : payouts_total b'.payouts ≡ payouts_total b.payouts
