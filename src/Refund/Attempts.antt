-- ===== src/Refund/Attempts.antt =====
-- Any number of attempts to refund one dispute, one after another.
use omnigo_app.Common.{◌≡◌, List, [], ◌∷◌, some}
use omnigo_app.Common.Int.{ℤ}
use omnigo_app.Common.Text.{Text}
use omnigo_app.Escrow.Models.{EscrowHold}
use omnigo_app.Wallet.Rows.{balance_of}
use omnigo_app.Wallet.Spec.{with_more}
use omnigo_app.Refund.Rows.{RefundOrder, RefundBooks, RefundCall}
use omnigo_app.Refund.Service.{refund_dispute}

unfoldable pub refund_attempts : Text → List RefundCall → RefundBooks → RefundBooks
refund_attempts dispute [] b = b
refund_attempts dispute (c ∷ cs) b = refund_attempts dispute cs (refund_dispute c dispute b).1

-- What the attempts have done to the customers' wallets: nothing, or one credit of the amount that
-- one of them read from the hold.
pub data AtMostOnce (h : EscrowHold) (o : RefundOrder) (b b' : RefundBooks) : Type 0 where
  never : b'.customers ≡ b.customers → AtMostOnce h o b b'
  once :
      (c : RefundCall) (n : ℤ)
      → c.amount_column h ≡ some n
      → ((x : Text)
          → balance_of b'.customers x
            ≡ with_more o.customer_tracking_id n (balance_of b.customers) x)
      → AtMostOnce h o b b'
