-- ===== src/Approval/Granted.antt =====
-- When an order may use an approval.
use danta.Common.{
  zero, suc, String, ◌≡◌, ◌≢◌, ◌↔◌, refl, Option, none, some, ◌&&◌, Bool, true, false, arith,
}
use danta.Common.Int.{ℤ, pos, negsuc, ◌≤ℤ◌, ◌<ℤ◌}
use danta.Common.Eq.{string_eq}
use danta.Common.Time.{Datetime, incomparable}
use danta.Common.Result.{ok}
use danta.Mandate.{raise_all}
use danta.Approval.{
  OrderType, BuyApproval, exceeds, is_limit, is_missing, order_errors, validate_for_order,
}

-- The price is within the approved maximum. A maximum of zero sets no limit, as none does.
pub data IsAcceptable (price : ℤ) : Option ℤ → Type 0 where
  no_maximum : IsAcceptable price none
  zero_maximum : IsAcceptable price (some (pos 0))
  within : {maximum : ℤ} → price ≤ℤ maximum → IsAcceptable price (some maximum)

-- A market order needs no limit price; a limit order has one that is not zero.
pub data IsPriced : OrderType → Option ℤ → Type 0 where
  at_market : {limit_price : Option ℤ} → IsPriced OrderType.market limit_price
  at_limit : {price : ℤ} → price ≢ pos 0 → IsPriced OrderType.limit (some price)

acceptable_lem :
    (price : ℤ) (maximum : Option ℤ) → (exceeds maximum price ≡ false) ↔ IsAcceptable price maximum
acceptable_lem price none = ((λ _. no_maximum), (λ _. refl))
acceptable_lem price (some (pos zero)) = ((λ _. zero_maximum), (λ _. refl))
acceptable_lem price (some (pos (suc n))) =
    ((λ h. within (ground arith)), elim [ within h ↦ ground arith ])
acceptable_lem price (some (negsuc n)) =
    ((λ h. within (ground arith)), elim [ within h ↦ ground arith ])

priced_lem :
    (type : OrderType) (limit_price : Option ℤ)
    → ((is_limit type && is_missing limit_price) ≡ false) ↔ IsPriced type limit_price
priced_lem OrderType.market limit_price = ((λ _. at_market), (λ _. refl))
priced_lem OrderType.limit none = ((λ h. absurd (ground arith)), elim [ ])
priced_lem OrderType.limit (some price) =
    ((λ h. at_limit (ground arith)), elim [ at_limit h ↦ ground arith ])

-- An order that the approval covers.
pub record Covers (a : BuyApproval) (now : Datetime) (symbol : String) (amount price : ℤ)
    (is_watched already_used : Bool) : Type 0 where
  pub comparable : incomparable now a.expires_at ≡ false
  pub unused : already_used ≡ false
  pub unexpired : now.micros <ℤ a.expires_at.micros
  pub same : symbol ≡ a.symbol
  pub watched : is_watched ≡ true
  pub positive : pos 1 ≤ℤ amount
  pub affordable : amount ≤ℤ a.max_amount_krw
  pub acceptable : IsAcceptable price a.max_acceptable_price
  pub priced : IsPriced a.order_type a.limit_price
  pub held : pos 1 ≤ℤ a.max_holding_days

-- `validate_for_order` returns exactly for the orders that the approval covers: the times can be
-- compared, the approval is unused and not expired, the order is of its symbol, which is watched, the
-- amount is positive and within the maximum, the price is at most the approved maximum unless there is
-- none or it is zero (a zero maximum allows any price), a limit order has a limit price other than zero,
-- and the approval is for at least a day of holding.
pub validate_for_order-Covers :
    (a : BuyApproval) (now : Datetime) (symbol : String) (amount price : ℤ)
    (is_watched already_used : Bool)
    → (validate_for_order a now symbol amount price is_watched already_used ≡ ok tt)
      ↔ Covers a now symbol amount price is_watched already_used
unfolding validate_for_order order_errors raise_all
validate_for_order-Covers a now symbol amount price is_watched already_used = (
  λ h. record {
    comparable = ground arith;
    unused = ground arith;
    unexpired = ground arith;
    same = (string_eq.beq_iff symbol a.symbol).0 (ground arith);
    watched = ground arith;
    positive = ground arith;
    affordable = ground arith;
    acceptable = (acceptable_lem price a.max_acceptable_price).0 (ground arith);
    priced = (priced_lem a.order_type a.limit_price).0 (ground arith);
    held = ground arith;
  },
  λ c. ground (
    arith,
    c.comparable,
    c.unused,
    c.unexpired,
    (string_eq.beq_iff symbol a.symbol).1 c.same,
    c.watched,
    c.positive,
    c.affordable,
    (acceptable_lem price a.max_acceptable_price).1 c.acceptable,
    (priced_lem a.order_type a.limit_price).1 c.priced,
    c.held,
  ),
)
