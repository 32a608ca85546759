-- ===== src/Netdev.antt =====
-- Bringing the interface up and down, the interrupt handlers and the NAPI poll (onic_main.c:
-- `onic_stats_alloc`, `onic_rx_poll`, `onic_isr_rx_tophalf`, `onic_isr_tx_tophalf`, `onic_open`,
-- `onic_stop`).
--
-- A function that takes a `struct net_device *` or a `struct onic_priv *` takes its address, which is
-- compared with NULL as in the source; the structure itself is in the state.
mod Quiet
pub mod Balance
pub mod Open
pub mod Stop
pub mod Poll
pub mod QueueHandles
mod Handlers
pub mod Life
pub mod Blocks
pub mod Allocs
pub mod Frees
pub mod Steps
use onic_driver.Base.{
  ℕ, zero, suc, ◌+◌, ◌%◌, ◌^◌, ◌||◌, ◌&&◌, not, leb, ltb, ◌==◌, if◌then◌else◌, add64, sub64,
}
use onic_driver.Base.Int.{ℤ, pos, ne_zero, lt_zero, enomem, einval}
use onic_driver.Kernel.{
  zero_stats, Op, qstats, Io, pure, ◌>>=◌, ◌>>◌, get, modify_priv, request, fetch, perform,
  netdev_priv, Env, World,
}
use onic_driver.Queue.{
  onic_qdma_rx_queue_setup, onic_qdma_rx_queue_release, onic_qdma_tx_queue_setup,
  onic_qdma_tx_queue_release, onic_qdma_start, onic_qdma_stop,
}

-- `kcalloc` hands out zeroed memory: `n` structures from the address `a`.
abbrev pub clear_stats : ℕ → ℕ → Io (Unit {0})
clear_stats a n env w =
    (tt, record w { stats = λ b. if leb a b && ltb b (a + n) then zero_stats else w.stats b })

unfoldable pub onic_stats_alloc : ℕ → Io ℤ
onic_stats_alloc xpriv = if xpriv == 0 then pure einval else do
  w ← get
  if w.priv.netdev == 0 then pure einval else do
    let n = w.net.real_num_tx_queues + w.net.real_num_rx_queues
    tx_qstats ← fetch (Op.alloc qstats n)
    modify_priv (λ p. record p { tx_qstats = tx_qstats })
    if tx_qstats == 0 then pure enomem else do
      clear_stats tx_qstats n
      modify_priv (λ p. record p { rx_qstats = tx_qstats + w.net.real_num_tx_queues })
      pure (pos 0)

-- `for (q_no = ...) op(q_no);` over `k` queues.
unfoldable pub each_queue : (ℕ → Op) → ℕ → ℕ → Io (Unit {0})
each_queue op zero q_no = pure tt
each_queue op (suc k) q_no = do perform (op q_no); each_queue op k (q_no + 1)

-- The part of `onic_open` behind the successful start of the queues.
unfoldable pub onic_open_up : Io ℤ
unfolding each_queue
onic_open_up = do
  w ← get
  each_queue Op.napi_enable w.net.real_num_rx_queues 0
  if w.priv.info.is_poll_mode
      then each_queue Op.napi_schedule w.net.real_num_rx_queues 0
      else pure tt
  perform Op.netif_tx_start_all_queues
  perform Op.netif_carrier_on
  pure (pos 0)

-- The labels `release_queues` and `release_rx_queues` of `onic_open`.
unfoldable pub release_rx_queues : ℤ → Io ℤ
unfolding onic_qdma_rx_queue_release
release_rx_queues ret = do w ← get; onic_qdma_rx_queue_release w.net.real_num_rx_queues; pure ret

unfoldable pub release_queues : ℤ → Io ℤ
unfolding onic_qdma_tx_queue_release release_rx_queues
release_queues ret = do
  w ← get
  onic_qdma_tx_queue_release w.net.real_num_tx_queues
  release_rx_queues ret

unfoldable pub onic_open : ℕ → Io ℤ
onic_open netdev = if netdev == 0 then pure einval else do
  xpriv ← netdev_priv netdev
  if xpriv == 0 then pure einval else do
    ret ← onic_stats_alloc xpriv
    if ne_zero ret then pure ret else do
      ret ← onic_qdma_rx_queue_setup
      if ne_zero ret then (do w ← get; perform (Op.kfree w.priv.tx_qstats); pure ret) else do
        ret ← onic_qdma_tx_queue_setup
        if ne_zero ret
            then release_rx_queues ret
            else do ret ← onic_qdma_start; if ne_zero ret then release_queues ret else onic_open_up

unfoldable pub onic_stop : ℕ → Io ℤ
unfolding each_queue onic_qdma_stop onic_qdma_rx_queue_release onic_qdma_tx_queue_release
onic_stop netdev = if netdev == 0 then pure einval else do
  xpriv ← netdev_priv netdev
  if xpriv == 0 then pure einval else do
    perform Op.netif_tx_stop_all_queues
    perform Op.netif_carrier_off
    w ← get
    each_queue Op.napi_disable w.net.real_num_rx_queues 0
    ret ← onic_qdma_stop w.net.real_num_tx_queues w.net.real_num_rx_queues
    onic_qdma_rx_queue_release w.net.real_num_rx_queues
    onic_qdma_tx_queue_release w.net.real_num_tx_queues
    v ← get
    perform (Op.kfree v.priv.tx_qstats)
    pure ret

-- `onic_isr_rx_tophalf`; `uld` is the driver's `xpriv`.
unfoldable pub onic_isr_rx_tophalf : ℕ → Io (Unit {0})
onic_isr_rx_tophalf qhndl = do
  w ← get
  perform (Op.napi_schedule (sub64 qhndl w.priv.base_rx_q_handle % 2 ^ 32))

-- `onic_isr_tx_tophalf`: the descriptor queue is looked up by its handle, and its work is queued.
unfoldable pub onic_isr_tx_tophalf : ℕ → Io (Unit {0})
onic_isr_tx_tophalf qhndl = do
  w ← get
  descq ← fetch (Op.qdma_device_get_descq_by_id w.priv.dev_handle qhndl)
  perform (Op.schedule_work descq)

-- The part of `onic_rx_poll` behind the service of the queue: peek, give the pointers back, go on
-- polling. The `pkt_cnt` that `qdma_queue_c2h_peek` stores stays 0 where it is not called.
unfoldable pub rx_poll_end : ℕ → ℕ → ℕ → Io ℤ
rx_poll_end queue_id q_handle quota = do
  w ← get
  pkt_cnt ←
      (if w.priv.qdma_dev_conf.intr_moderation
        then fetch (Op.qdma_queue_c2h_peek w.priv.dev_handle q_handle)
        else pure 0)
  perform (Op.qdma_queue_update_pointers w.priv.dev_handle q_handle)
  if w.priv.info.is_poll_mode || leb quota pkt_cnt
      then perform (Op.napi_reschedule queue_id)
      else pure tt
  pure (pos 0)

-- `onic_rx_poll` for the NAPI structure of the queue `queue_id`; `napi` and `netdev` are addresses.
unfoldable pub onic_rx_poll : (napi netdev queue_id quota : ℕ) → Io ℤ
unfolding rx_poll_end
onic_rx_poll napi netdev queue_id quota =
    if napi == 0 then pure einval else if netdev == 0 then pure einval else do
      xpriv ← netdev_priv netdev
      if xpriv == 0 then pure einval else do
        w ← get
        let q_handle = add64 w.priv.base_rx_q_handle queue_id
        ret ← request (Op.qdma_queue_service w.priv.dev_handle q_handle quota)
        perform (Op.napi_complete queue_id)
        if not w.priv.info.is_poll_mode && lt_zero ret
            then pure ret
            else rx_poll_end queue_id q_handle quota
