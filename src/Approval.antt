-- ===== src/Approval.antt =====
-- src/danta/domain/approval.py: the approval of a single buy, checked against the order.
pub mod Granted
use danta.Common.{
  String, Bool, true, false, not, ◌&&◌, ◌||◌, Option, none, some, List, [], if◌then◌else◌,
}
use danta.Common.Int.{ℤ, pos, leb_ℤ, ltb_ℤ, eqb_ℤ}
use danta.Common.Eq.{string_eq, ◌==◌}
use danta.Common.Time.{Datetime, incomparable}
use danta.Common.Result.{Result, ok, err, type_error, ◌>>=◌, ◌>>◌, raise_if}
use danta.Mandate.{append_if, raise_all}

pub data OrderType : Type 0 where
  market limit : OrderType

pub record BuyApproval : Type 0 where
  pub approval_id : String
  pub symbol : String
  pub max_amount_krw : ℤ
  pub order_type : OrderType
  pub expires_at : Datetime
  pub max_holding_days : ℤ
  pub limit_price : Option ℤ
  pub max_acceptable_price : Option ℤ

-- `not limit_price`: a price of zero counts as none
abbrev pub is_missing : Option ℤ → Bool
is_missing none = true
is_missing (some price) = eqb_ℤ price (pos 0)

-- `maximum and current_price > maximum`
abbrev pub exceeds : Option ℤ → ℤ → Bool
exceeds none current_price = false
exceeds (some maximum) current_price = not (eqb_ℤ maximum (pos 0)) && ltb_ℤ maximum current_price

abbrev pub is_limit : OrderType → Bool
is_limit OrderType.limit = true
is_limit OrderType.market = false

module _ (a : BuyApproval) (now : Datetime) (symbol : String)
    (expected_amount_krw current_price : ℤ) (is_watched already_used : Bool) where
  unfoldable pub order_errors : List String
  order_errors = append_if already_used "approval already used" (
      append_if (leb_ℤ a.expires_at.micros now.micros) "approval expired" (
        append_if (not (symbol == a.symbol)) "symbol outside approval" (
          append_if (not is_watched) "symbol is not in active watch selection" (
            append_if
              (leb_ℤ expected_amount_krw (pos 0) || ltb_ℤ a.max_amount_krw expected_amount_krw)
              "amount outside approval"
              (append_if (exceeds a.max_acceptable_price current_price)
                "current price exceeds approved maximum"
                (append_if (is_limit a.order_type && is_missing a.limit_price)
                  "limit order requires limit_price"
                  (append_if (ltb_ℤ a.max_holding_days (pos 1)) "max_holding_days must be positive"
                    [])))))))

  unfoldable pub validate_for_order : Result (Unit {0})
  unfolding order_errors
  validate_for_order = do
    raise_if (incomparable now a.expires_at)
        (type_error "can't compare offset-naive and offset-aware datetimes")
    raise_all order_errors tt
