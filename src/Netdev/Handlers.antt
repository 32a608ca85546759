-- ===== src/Netdev/Handlers.antt =====
-- The handlers of an interface that is up (onic_main.c: `onic_start_xmit`, `onic_tx_done`,
-- `onic_rx_pkt_process`, `onic_rx_poll`, `onic_isr_rx_tophalf`, `onic_isr_tx_tophalf`): they take no queue
-- and give none back.
use onic_driver.Base.{ℕ, ◌≡◌, refl, true, Bool, ◌||◌, Option, List, arith}
use onic_driver.Kernel.{SwSg, Skb, OnicDmaRequest, QStats, Op, Env, World}
use onic_driver.Kernel.Steps.{Calls}
use onic_driver.Tx.{onic_start_xmit, onic_tx_done}
use onic_driver.Tx.Steps.{is_tx_call, onic_tx_done-Always, onic_start_xmit-Always}
use onic_driver.Rx.{onic_rx_pkt_process}
use onic_driver.Rx.Steps.{is_rx_call, onic_rx_pkt_process-Always}
use onic_driver.Queue.Resource.{IsIdle}
use onic_driver.Netdev.Steps.Poll.{
  is_poll_call, onic_rx_poll-Always, onic_isr_rx_tophalf-Always, onic_isr_tx_tophalf-Always,
}
use onic_driver.Netdev.{onic_rx_poll, onic_isr_rx_tophalf, onic_isr_tx_tophalf}
use onic_driver.Netdev.Quiet.{Quiet-Frame, Quiet, called-Quiet, IsPlain}

-- The calls of the traffic.
abbrev pub is_traffic : Op → Bool
is_traffic op = is_tx_call op || is_rx_call op || is_poll_call op

traffic-IsPlain : (op : Op) → is_traffic op ≡ true → IsPlain op
traffic-IsPlain op e g s v = ground arith

traffic-IsIdle : (op : Op) → is_traffic op ≡ true → IsIdle op
traffic-IsIdle op e x = ground arith

traffic-Calls : (op : Op) → is_traffic op ≡ true → Calls Quiet-Frame op
traffic-Calls op e env w = called-Quiet env op w (traffic-IsPlain op e) (traffic-IsIdle op e)

counters-Quiet : (w : World) (t : ℕ → QStats) → Quiet w (record w { stats = t })
counters-Quiet w t = record {
  same_priv = refl;
  quiet = record { same_net = refl; same_device = refl; flow = λ x. omega arith };
}

module _ (env : Env) where
  pub tx_done-Quiet : (req : Option OnicDmaRequest) (w : World) → Quiet w (onic_tx_done req env w).1
  tx_done-Quiet req w =
      onic_tx_done-Always Quiet-Frame (λ op e. traffic-Calls op (ground (arith, e)))
        (λ a env w. counters-Quiet w _) req env w

  pub start_xmit-Quiet :
      (skb : Skb) (netdev : ℕ) (w : World) → Quiet w (onic_start_xmit skb netdev env w).1
  start_xmit-Quiet skb netdev w =
      onic_start_xmit-Always Quiet-Frame (λ op e. traffic-Calls op (ground (arith, e)))
        (λ a env w. counters-Quiet w _) (λ a n env w. counters-Quiet w _) skb netdev env w

  pub pkt_process-Quiet :
      (qhndl quld len sgcnt : ℕ) (sgl : List SwSg) (w : World)
      → Quiet w (onic_rx_pkt_process qhndl quld len sgcnt sgl env w).1
  pkt_process-Quiet qhndl quld len sgcnt sgl w =
      onic_rx_pkt_process-Always Quiet-Frame (λ op e. traffic-Calls op (ground (arith, e)))
        (λ a n env w. counters-Quiet w _) qhndl quld len sgcnt sgl env w

  pub rx_poll-Quiet :
      (napi netdev q quota : ℕ) (w : World) → Quiet w (onic_rx_poll napi netdev q quota env w).1
  rx_poll-Quiet napi netdev q quota w =
      onic_rx_poll-Always Quiet-Frame (λ op e. traffic-Calls op (ground (arith, e))) napi netdev q
        quota env w

  pub rx_isr-Quiet : (h : ℕ) (w : World) → Quiet w (onic_isr_rx_tophalf h env w).1
  rx_isr-Quiet h w =
      onic_isr_rx_tophalf-Always Quiet-Frame (λ op e. traffic-Calls op (ground (arith, e))) h env w

  pub tx_isr-Quiet : (h : ℕ) (w : World) → Quiet w (onic_isr_tx_tophalf h env w).1
  tx_isr-Quiet h w =
      onic_isr_tx_tophalf-Always Quiet-Frame (λ op e. traffic-Calls op (ground (arith, e))) h env w
