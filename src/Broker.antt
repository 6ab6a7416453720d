-- ===== src/Broker.antt =====
-- src/danta/adapters/kis/client.py: what the broker reports of an order.
use danta.Common.{String}
use danta.Common.Int.{ℤ}
use danta.Common.Decimal.{Decimals}

pub record KisOrderStatus (D : Decimals) : Type 0 where
  pub broker_order_no : String
  pub original_order_no : String
  pub symbol : String
  pub side : String
  pub ordered_quantity : ℤ
  pub filled_quantity : ℤ
  pub remaining_quantity : ℤ
  pub order_price : ℤ
  pub average_fill_price : D.Decimal
  pub order_time : String
  pub branch_no : String
