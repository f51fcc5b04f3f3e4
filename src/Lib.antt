-- ===== src/Lib.antt =====
-- The money core of the OMNIGO back end, a marketplace whose Go services live under
-- backend/go-services: amounts, the split of an order's total, the double-entry ledger with its
-- relay to TigerBeetle, the escrow holds on the vendors' money and its payout, the customers'
-- wallets, the circuit breaker of the payment gateway, its rate limiter, the status of orders,
-- returns, and the numbers of identity cards and bank accounts.
--
-- An order's total is split by the commission calculator. The ledger books every movement as a
-- debit and a credit in Postgres, under an idempotency key, and queues it for TigerBeetle in an
-- outbox that a worker relays. A delivered order has a hold on the vendor's share; workers
-- release it once it is due, through a ledger transfer under the hold's own key, and the payout
-- worker pays released holds out of the vendor's wallet, from which vendors also withdraw. A
-- customer's wallet is charged for purchases and credited with refunds of disputes and returns,
-- each time with a ledger transfer of its own. Calls of the payment gateway go through the
-- circuit breaker, which counts the errors that are transient.
--
-- Files, with paths below backend/go-services/internal:
--   Common: shared helpers. Common/Int has Go's int64 as an integer with its wrap-around (int64),
--     Common/Text strings as lists of bytes, Common/Decimal printing and reading of numbers, and
--     Common/Floats float64 as a parameter, with the operations that the code calls.
--   Money: shared/money/paisa.go, one function for each of its functions.
--   Commission: payment_orchestrator/commission.go, CalculateSplit and CalculateCODSplit with the cap
--     that both end with (cap_split). Reads of the database are arguments, none for a failed read.
--   Ledger: ledger/. Models has the accounts and rows, Tx the way a method ends (exit is a return
--     before the Commit, Faults the calls of the database that fail), Entries the signed entries,
--     Rows the statements, Service Transfer (transfer) and MultiTransfer (multi_transfer), Escrow the
--     methods of escrow_service.go, and Relay the outbox worker. Outcome, Conservation, Multi, Found,
--     Net, Replay, Progress and Mirror hold proofs.
--   Breaker: payment/payfast/circuit_breaker.go and errors.go. Execute is two steps, begin_call and
--     end_call, with the wrapped call between them; Steps lets any calls interleave. Issuer has the
--     texts of MapIssuerResponseCode.
--   Escrow: escrow/. Models has the tables that a release reads and writes, Process releaseOneHold
--     (release_one_hold) and processHoldTx (process_hold), Scan ReleaseExpiredHolds, Repository the
--     statements of repository.go and the methods that create holds. Terms, Outcome, Claimed, Release,
--     Pays, Endless, Unique and Created hold proofs.
--   Payout: payment_orchestrator/workers/payout_worker.go. Rows has the tables and statements, Fitting
--     the arithmetic of which holds are paid, Sweep the payout of one vendor (sweep_vendor), Worker
--     processPayouts (process_payouts). Fits, Wallets and Refused hold
--     proofs. Postgres refuses the sum of the holds with FOR UPDATE; whether the database does is a
--     parameter (sum_refused). Withdraw is
--     RequestWithdraw of payment_orchestrator/handlers/vendor_handler.go (request_withdraw), with
--     the proofs in Withdrew.
--   Wallet: wallet/service/customer_wallet_service.go. Rows has the statements on customer_wallet,
--     Customer the methods, each with the faults of one call (Call). Spec, Refine, Bounds and Again
--     hold proofs; the methods are the cases of serve. Rider and Withdrawal are
--     wallet/service/rider_wallet_service.go, with the proofs in Withdrawn.
--   Return: return/. Rows has the table of statuses and return_requests with its NULLs, Service the
--     methods from the request to the vendor's door, Dispute the vendor's verdict and the disputes
--     that are resolved by themselves, over an escrow that is a parameter (EscrowManager). Calls
--     makes them one kind of call; Unread and Stuck hold proofs. The read of
--     the order for a request fails on the repository's own schema, which has not all its columns.
--   Refund: escrow/service.go, RefundDispute, RefundForReturn, refundCODReturn and ClawbackFromVendor.
--     Rows has the tables, Service the methods, each with the faults of one call (RefundCall).
--     RefundDispute is its first query
--     (disputed_hold) and the rest (refund_dispute_of), so that calls may overlap. Accepted, Outcome,
--     Once, Attempts and Overlap hold proofs.
--   Limiter: payment_orchestrator/security/ratelimit.go. Defs has the methods, each one step under the
--     mutex, Window the proofs.
--   Cod: payment_orchestrator/handlers/cod_handler.go. Rows has the tables, Confirm and Settle the
--     handlers Confirm (confirm) and Settlement (settlement), each with what the outside does during
--     one call (ConfirmCall, CodCall). Booked, Once, Cleared, Settled and Zero hold proofs.
--   Delivery: delivery/repository/delivery_repository.go. Rows has the tables and statements, Gigs
--     AcceptGigWithEligibility, with the cells of H3 as a parameter of a call (AcceptCall), and Update
--     the methods that change a gig's status. Statuses, Moves, Walk, Completed, Refused and Accepted hold
--     proofs.
--   Order: order/service/order_service.go, the table of status changes (valid_order_transitions) and
--     its check. Rows has the statements of order/repository/order_repository.go, Update the methods
--     that change a status, from the row that a replica gave (update_order_status), which may be out
--     of date. Statuses, Changed, History and Paid hold proofs.
--   Validation: shared/validation/cnic.go, one function for each of its functions; CheckDigit holds
--     proofs. Iban is shared/validation/iban.go, for texts in ASCII, with the value that a failed
--     big.Int.SetString leaves as a parameter; Accepted holds proofs.
--   A module Tests in each part has examples, and runs each result at one input.
--
-- Amounts are int64 paisa; where the code adds or subtracts, the result wraps. A sum of BIGINT
-- in a statement on customer_wallet fails when it is out of range; the statements on other
-- tables compute exactly. Times are nanoseconds as natural numbers. The loops of the modelled
-- code run over lists, and need no fuel, except for the scan of Postgres (Escrow/Scan), which
-- may run for ever and says so when its fuel is spent. HMAC-SHA256, UUIDs, MD5 and the number of
-- an account in TigerBeetle are parameters (Externals), as are float64 and the environment.
--
-- Not modelled: HTTP handlers besides the vendors' withdrawal and cash on delivery, Kafka and Redis plumbing, telemetry
-- and logging, the client of the payment gateway, the card payments of riders, the fraud detector and the penalty of a
-- vendor, and the services of the app besides its money core (the delivery service above its repository, chat, search, users, front
-- ends).
pub mod Common
pub mod Money
pub mod Commission
pub mod Ledger
pub mod Breaker
pub mod Escrow
pub mod Validation
pub mod Cod
pub mod Delivery
pub mod Order
pub mod Wallet
pub mod Payout
pub mod Return
pub mod Refund
pub mod Limiter
