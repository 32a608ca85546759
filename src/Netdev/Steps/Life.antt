-- ===== src/Netdev/Steps/Life.antt =====
-- What the life of an interface keeps (onic_main.c: `onic_open`, `onic_stop`, the traffic and the
-- interrupts between them), for any relation that its calls and its writes keep.
use onic_driver.Base.{ℕ, ◌||◌, ◌≡◌, Bool, true, arith}
use onic_driver.Kernel.{OnicPriv, QStats, Op, Env, World, modify_priv, modify_stats}
use onic_driver.Kernel.Steps.{Frame, Always, Calls}
use onic_driver.Tx.Steps.{
  is_tx_call, count_dropped, count_sent, onic_tx_done-Always, onic_start_xmit-Always,
}
use onic_driver.Rx.Steps.{is_rx_call, count_received, onic_rx_pkt_process-Always}
use onic_driver.Netdev.{clear_stats}
use onic_driver.Netdev.Steps.{is_open_call, PrivWrite, onic_open-Always, onic_stop-Always}
use onic_driver.Netdev.Steps.Poll.{
  is_poll_call, onic_rx_poll-Always, onic_isr_rx_tophalf-Always, onic_isr_tx_tophalf-Always,
}
use onic_driver.Netdev.Life.{
  Phase, Life, begin, opens, fails, stops, transmits, completes, receives, polls, rx_interrupt,
  tx_interrupt,
}

-- All the calls of an interface.
abbrev pub is_life_call : Op → Bool
is_life_call op = is_open_call op || is_tx_call op || is_rx_call op || is_poll_call op

module _ {R : World → World → Type 0} (frame : Frame R)
    (calls : (op : Op) → is_life_call op ≡ true → Calls frame op)
    (writes : (f : OnicPriv → OnicPriv) → PrivWrite f → Always frame (modify_priv f))
    (clears : (a n : ℕ) → Always frame (clear_stats a n))
    (counts : (a : ℕ) (f : QStats → QStats) → Always frame (modify_stats a f)) where
  open-Calls : (op : Op) → is_open_call op ≡ true → Calls frame op
  open-Calls op e = calls op (ground (arith, e))

  tx-Calls : (op : Op) → is_tx_call op ≡ true → Calls frame op
  tx-Calls op e = calls op (ground (arith, e))

  rx-Calls : (op : Op) → is_rx_call op ≡ true → Calls frame op
  rx-Calls op e = calls op (ground (arith, e))

  poll-Calls : (op : Op) → is_poll_call op ≡ true → Calls frame op
  poll-Calls op e = calls op (ground (arith, e))

  drops : (a : ℕ) → Always frame (modify_stats a count_dropped)
  drops a = counts a count_dropped

  module _ (env : Env) (netdev : ℕ) (w : World) where
    pub Life-Always : (v : World) (phase : Phase) → Life env netdev w v phase → R w v
    Life-Always v Phase.down begin = frame.stay w
    Life-Always _ Phase.up (opens {v = v} l good) =
        frame.both (Life-Always v Phase.down l)
          (onic_open-Always frame open-Calls writes clears netdev env v)
    Life-Always _ Phase.down (fails {v = v} l bad) =
        frame.both (Life-Always v Phase.down l)
          (onic_open-Always frame open-Calls writes clears netdev env v)
    Life-Always _ Phase.down (stops {v = v} l) =
        frame.both (Life-Always v Phase.up l)
          (onic_stop-Always frame open-Calls writes clears netdev env v)
    Life-Always _ Phase.up (transmits {v = v} skb l) = frame.both (Life-Always v Phase.up l) (
        onic_start_xmit-Always frame tx-Calls drops (λ a n. counts a (count_sent n)) skb netdev env
          v)
    Life-Always _ phase (completes {v = v} req l) =
        frame.both (Life-Always v phase l) (onic_tx_done-Always frame tx-Calls drops req env v)
    Life-Always _ Phase.up (receives {v = v} qhndl quld len sgcnt sgl l) =
        frame.both (Life-Always v Phase.up l) (
          onic_rx_pkt_process-Always frame rx-Calls (λ a n. counts a (count_received n)) qhndl quld
            len sgcnt sgl env v)
    Life-Always _ Phase.up (polls {v = v} napi queue_id quota l) =
        frame.both (Life-Always v Phase.up l)
          (onic_rx_poll-Always frame poll-Calls napi netdev queue_id quota env v)
    Life-Always _ Phase.up (rx_interrupt {v = v} qhndl l) =
        frame.both (Life-Always v Phase.up l)
          (onic_isr_rx_tophalf-Always frame poll-Calls qhndl env v)
    Life-Always _ Phase.up (tx_interrupt {v = v} qhndl l) =
        frame.both (Life-Always v Phase.up l)
          (onic_isr_tx_tophalf-Always frame poll-Calls qhndl env v)
