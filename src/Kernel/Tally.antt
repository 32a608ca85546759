-- ===== src/Kernel/Tally.antt =====
-- Reading a log: sums of weights over it. A weight counts what a call does when it succeeds, so the
-- calls of libqdma that take a queue or start it count only with the status 0.
use onic_driver.Base.{ℕ, if◌then◌else◌, sum_of}
use onic_driver.Base.Int.{ℤ, ne_zero}
use onic_driver.Kernel.Calls.{Op, Event, Log}

-- `added` weighs the handle of a queue that was added, `started` that of one that was started, and
-- `other` any other call, whatever it answers.
pub record Weights : Type 0 where
  pub added : ℕ → ℕ
  pub started : ℕ → ℕ
  pub other : Op → ℕ

abbrev pub weigh_op : Weights → Op → ℤ → ℕ → ℕ
weigh_op g (Op.qdma_queue_add d c) s v = if ne_zero s then 0 else g.added v
weigh_op g (Op.qdma_queue_start d h) s v = if ne_zero s then 0 else g.started h
weigh_op g o s v = g.other o

abbrev pub weigh : Weights → Event → ℕ
weigh g e = weigh_op g e.op e.status e.value

abbrev pub total : Weights → Log → ℕ
total g l = sum_of (weigh g) l
