-- ===== src/Tests/Queue.antt =====
-- src/danta/services/priority_intent_scheduler.py and src/danta/domain/trading_session.py: an exit
-- overtakes a buy, and intents are validated.
use danta.Common.{ℕ, ◌≤◌, ◌≡◌, ◌↔◌, refl, some, none, List, [], ◌∷◌, true, false, if◌then◌else◌}
use danta.Common.Lists.{All}
use danta.Common.Eq.{string_eq, member}
use danta.Common.Result.{ok}
use danta.Session.{IntentSide, IntentPriority, OrderIntent, order_intent, priority_value}
use danta.Session.Intents.{IsWellFormed, order_intent-IsWellFormed}
use danta.Scheduler.{Entry, Scheduler, entry_of}
use danta.Scheduler.Steps.{Op, run, new_scheduler}
use danta.Scheduler.Order.{Precedes, get-first}
use danta.Scheduler.Once.{takes, takes-le}
use danta.Tests.Sending.{buy_order}

abbrev stop_order : OrderIntent
stop_order = record buy_order {
  idempotency_key = "stop";
  side = IntentSide.sell;
  priority = IntentPriority.hard_stop_exit;
  order_type = "MARKET";
  limit_price = none;
}

abbrev puts : List Op
puts = Op.put_op buy_order ∷ Op.put_op stop_order ∷ Op.put_op buy_order ∷ []

abbrev buy_left : Scheduler
buy_left = record {
  maxsize = 8;
  queue = record { priority = 50; sequence = 0; intent = buy_order } ∷ [];
  next_sequence = 2;
  known_keys = "stop" ∷ "k" ∷ [];
}

get-first_example :
    (e : Entry) × ((run (new_scheduler 8) puts).queue ≡ e ∷ buy_left.queue)
    × (e.intent ≡ stop_order)
    × (e.priority ≡ priority_value stop_order.priority)
    × All (Precedes e) buy_left.queue
unfolding danta.Scheduler.get run danta.Scheduler.Steps.step danta.Scheduler.put member
    danta.Common.Eq.add_member
get-first_example = get-first 8 puts stop_order buy_left refl

takes-le_example :
    takes "k" (new_scheduler 8) puts ≤ (if member "k" (new_scheduler 8).known_keys then 0 else 1)
takes-le_example = takes-le "k" (new_scheduler 8) puts (refl, (refl, (refl, tt)))

order_intent-IsWellFormed_example :
    (order_intent buy_order ≡ ok buy_order) ↔ (IsWellFormed buy_order × (buy_order ≡ buy_order))
order_intent-IsWellFormed_example = order_intent-IsWellFormed buy_order buy_order
