-- ===== src/Cod/Once.antt =====
-- A payment is booked once, however often the gateway reports it.
use omnigo_app.Common.{◌≡◌, refl, ◌⊎◌, inl, inr, true, false, ◌++◌, any}
use omnigo_app.Common.Text.{Text, codes, text_eq}
use omnigo_app.Common.Floats.{Float}
use omnigo_app.Commission.{SplitResult}
use omnigo_app.Ledger.Models.{Db}
use omnigo_app.Ledger.Tx.{Faults}
use omnigo_app.Ledger.Entries.{Externals}
use omnigo_app.Ledger.Multi.{MultiCommitted}
use omnigo_app.Ledger.Net.{MultiCommitted-reserved, MultiCommitted-fresh}
use omnigo_app.Ledger.Replay.{Runs, Runs-reserved}
use omnigo_app.Cod.Rows.{CodDebt, CodBooks}
use omnigo_app.Cod.Settle.{
  CodCall, CodSettlementRequest, clear_request, settlement_requests, settlement,
}
use omnigo_app.Cod.Booked.{unbooked, booked, settlement-Booking}

-- The key of the first request.
abbrev pub clear_key : Text → Text
clear_key event = codes "cod:settle:" ++ (event ++ codes ":clear")

module _ (float : Float) (getenv : Text → Text) where
  module _ (ext : Externals) (faults : Faults) (event : Text) (d : CodDebt)
      (split : SplitResult float) (db db' : Db)
      (commits : MultiCommitted ext faults
        (settlement_requests float getenv event d split)
        db
        db') where
    commits-reserved : any (text_eq (clear_key event)) db'.idempotency ≡ true
    unfolding settlement_requests clear_request text_eq
    commits-reserved = MultiCommitted-reserved ext faults _ _ db db' refl commits

    pub commits-fresh : any (text_eq (clear_key event)) db.idempotency ≡ false
    unfolding settlement_requests clear_request text_eq
    commits-fresh = MultiCommitted-fresh ext faults _ _ db db' refl commits

  -- Of two settlements under one event, with any operations of the ledger in between, any requests
  -- and any failures, at most one writes to the ledger.
  pub settlement-once :
      (c c' : CodCall float getenv) (req req' : CodSettlementRequest float getenv) (b b' : CodBooks)
      → req'.webhook_event_id ≡ req.webhook_event_id
      → Runs (settlement float getenv c req b).1.ledger b'.ledger
      → ((settlement float getenv c req b).1.ledger ≡ b.ledger)
        ⊎ ((settlement float getenv c' req' b').1.ledger ≡ b'.ledger)
  settlement-once c c' req req' b b' same run = elim (settlement-Booking float getenv c req b) [
    | unbooked e ↦ inl e
    | booked d o found commits ↦ elim (settlement-Booking float getenv c' req' b') [
      | unbooked e ↦ inr e
      | booked d' o' found' commits' ↦
          let taken =
            Runs-reserved (clear_key req.webhook_event_id) run
              (commits-reserved c.ext c.ledger_faults req.webhook_event_id d _ _ _ commits) in
          let free : any (text_eq (clear_key req.webhook_event_id)) b'.ledger.idempotency ≡ false =
            rw (← same)
              (commits-fresh c'.ext c'.ledger_faults req'.webhook_event_id d' _ _ _ commits') in
          cc (taken, free)
    ]
  ]
