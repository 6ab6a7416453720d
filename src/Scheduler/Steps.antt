-- ===== src/Scheduler/Steps.antt =====
-- The calls that the queue gets, in any order.
use danta.Common.{ℕ, String, Option, none, some, List, [], ◌∷◌}
use danta.Session.{OrderIntent, priority_value}
use danta.Scheduler.{Entry, Scheduler, put, resume_put, cancel_put, get, forget}

pub data Op : Type 0 where
  put_op : OrderIntent → Op
  -- a `put` that waited, with the sequence number that it took
  resume_op cancel_op : OrderIntent → ℕ → Op
  get_op : Op
  forget_op : String → Op

abbrev pub waiting_entry : OrderIntent → ℕ → Entry
waiting_entry intent n = record {
  priority = priority_value intent.priority;
  sequence = n;
  intent = intent;
}

abbrev after_get : Scheduler → Option (OrderIntent × Scheduler) → Scheduler
after_get s none = s
after_get s (some (_, s')) = s'

unfoldable pub step : Scheduler → Op → Scheduler
step s (put_op i) = (put i s).1
step s (resume_op i n) = resume_put (waiting_entry i n) s
step s (cancel_op i n) = cancel_put (waiting_entry i n) s
step s get_op = after_get s (get s)
step s (forget_op key) = forget key s

unfoldable pub run : Scheduler → List Op → Scheduler
run s [] = s
run s (op ∷ ops) = run (step s op) ops

-- `PriorityIntentScheduler(maxsize=…)`, once `maxsize` has been found positive
abbrev pub new_scheduler : ℕ → Scheduler
new_scheduler maxsize = record { maxsize = maxsize; queue = []; next_sequence = 0; known_keys = [] }
