-- ===== src/Payments/Refunds/Retry.antt =====
-- No payment is refunded.
use modern_trade_website.Prelude.{◌≡◌, ℕ, some, Option}
use modern_trade_website.Payments.Rows.{Refund}

abbrev Answered : Option Refund → ℕ → Type 0
Answered found n = (r : Refund) × (found ≡ some r) × (r.refund_number ≡ n)
