-- ===== src/Queue.antt =====
-- The queues of the device: adding, removing, starting and stopping them (onic_main.c, from
-- `onic_qdma_rx_queue_add` to `onic_qdma_start`).
--
-- Each loop of the source is a recursion on the number of rounds left, with the loop's variable
-- `q_no`. Its bound is a field that the loop does not change.
pub mod Loops
pub mod Setup
pub mod Resource
pub mod Release
pub mod Running
pub mod Steps
pub mod Added
use onic_driver.Base.{
  ℕ, zero, suc, ◌+◌, ◌%◌, ◌^◌, Bool, true, false, not, ◌==◌, if◌then◌else◌, add64, List,
}
use onic_driver.Base.Int.{ℤ, pos, ne_zero, lt_zero, enomem, einval}
use onic_driver.Kernel.{
  OnicPriv, QueueConf, zero_queue_conf, QType, q_h2c, q_c2h, Callback, isr_rx_tophalf,
  isr_tx_tophalf, rx_pkt_process, Op, Memory, napi_structs, Io, World, pure, ◌>>=◌, ◌>>◌, get,
  modify_priv, request, request_both, fetch, perform,
}

-- `TRIG_MODE_COMBO` and `DESC_SZ_8B` of libqdma_export.h.
abbrev pub trig_mode_combo : ℕ
trig_mode_combo = 5

abbrev pub desc_sz_8b : ℕ
desc_sz_8b = 0

-- The configuration that `onic_qdma_rx_queue_add` fills in. Bit fields keep their low bits.
unfoldable pub rx_queue_conf : OnicPriv → ℕ → ℕ → ℕ → QueueConf
rx_queue_conf p q_no timer_idx cnt_th_idx = record zero_queue_conf {
  st = true;
  q_type = q_c2h;
  irq_en = false;
  pfetch_en = true;
  fetch_credit = true;
  cmpl_stat_en = true;
  cmpl_desc_sz = desc_sz_8b;
  cmpl_rng_sz_idx = p.cmpl_rng_sz_idx % 2 ^ 4;
  desc_rng_sz_idx = p.rx_desc_rng_sz_idx % 2 ^ 4;
  c2h_buf_sz_idx = p.rx_buf_sz_idx % 2 ^ 4;
  cmpl_timer_idx = timer_idx % 2 ^ 4;
  cmpl_cnt_th_idx = cnt_th_idx % 2 ^ 4;
  cmpl_trig_mode = trig_mode_combo;
  cmpl_en_intr = not p.info.is_poll_mode;
  fp_descq_isr_top = isr_rx_tophalf;
  fp_descq_c2h_packet = rx_pkt_process;
  qidx = q_no % 2 ^ 24;
}

unfoldable pub onic_qdma_rx_queue_add : ℕ → ℕ → ℕ → Io ℤ
onic_qdma_rx_queue_add q_no timer_idx cnt_th_idx = do
  w ← get
  (ret, q_handle) ←
      request_both
        (Op.qdma_queue_add w.priv.dev_handle (rx_queue_conf w.priv q_no timer_idx cnt_th_idx))
  if ne_zero ret
      then pure ret
      else (if q_no == 0
          then modify_priv (λ p. record p { base_rx_q_handle = q_handle })
          else pure tt)
        >> pure (pos 0)

-- The loop of `onic_qdma_rx_queue_release`.
unfoldable pub rx_release_loop : ℕ → ℕ → Io (Unit {0})
rx_release_loop zero q_no = pure tt
rx_release_loop (suc k) q_no = do
  w ← get
  perform (Op.qdma_queue_remove w.priv.dev_handle (add64 w.priv.base_rx_q_handle q_no))
  perform (Op.netif_napi_del q_no)
  rx_release_loop k (q_no + 1)

unfoldable pub onic_qdma_rx_queue_release : ℕ → Io (Unit {0})
unfolding rx_release_loop
onic_qdma_rx_queue_release num_queues = do
  rx_release_loop num_queues 0
  w ← get
  perform (Op.kfree w.priv.napi)

-- The loop of `onic_qdma_rx_queue_setup`: the status, and `q_no` where the loop was left.
unfoldable pub rx_setup_loop : ℕ → ℕ → Io (ℤ × ℕ)
unfolding onic_qdma_rx_queue_add
rx_setup_loop zero q_no = pure (pos 0, q_no)
rx_setup_loop (suc k) q_no = do
  w ← get
  ret ← onic_qdma_rx_queue_add q_no w.priv.rx_timer_idx w.priv.rx_cnt_th_idx
  if ne_zero ret
      then pure (ret, q_no)
      else do perform (Op.netif_napi_add q_no); rx_setup_loop k (q_no + 1)

unfoldable pub onic_qdma_rx_queue_setup : Io ℤ
unfolding rx_setup_loop onic_qdma_rx_queue_release
onic_qdma_rx_queue_setup = do
  w ← get
  napi ← fetch (Op.alloc napi_structs w.net.real_num_rx_queues)
  modify_priv (λ p. record p { napi = napi })
  if napi == 0 then pure enomem else do
    (ret, q_no) ← rx_setup_loop w.net.real_num_rx_queues 0
    if ne_zero ret then onic_qdma_rx_queue_release q_no >> pure ret else pure (pos 0)

-- The loop of `onic_qdma_tx_queue_release`, which is its whole body.
unfoldable pub tx_release_loop : ℕ → ℕ → Io (Unit {0})
tx_release_loop zero q_no = pure tt
tx_release_loop (suc k) q_no = do
  w ← get
  perform (Op.qdma_queue_remove w.priv.dev_handle (add64 w.priv.base_tx_q_handle q_no))
  tx_release_loop k (q_no + 1)

unfoldable pub onic_qdma_tx_queue_release : ℕ → Io (Unit {0})
unfolding tx_release_loop
onic_qdma_tx_queue_release num_queues = tx_release_loop num_queues 0

-- The configuration that `onic_qdma_tx_queue_setup` fills in.
unfoldable pub tx_queue_conf : OnicPriv → ℕ → QueueConf
tx_queue_conf p q_no = record zero_queue_conf {
  st = true;
  q_type = q_h2c;
  irq_en = not p.info.is_poll_mode;
  wb_status_en = true;
  cmpl_stat_en = true;
  cmpl_status_acc_en = true;
  cmpl_status_pend_chk = true;
  desc_rng_sz_idx = p.tx_desc_rng_sz_idx % 2 ^ 4;
  fp_descq_isr_top = isr_tx_tophalf;
  qidx = q_no % 2 ^ 24;
}

-- The loop of `onic_qdma_tx_queue_setup`: the status, and `q_no` where the loop was left.
unfoldable pub tx_setup_loop : ℕ → ℕ → Io (ℤ × ℕ)
tx_setup_loop zero q_no = pure (pos 0, q_no)
tx_setup_loop (suc k) q_no = do
  w ← get
  (ret, q_handle) ← request_both (Op.qdma_queue_add w.priv.dev_handle (tx_queue_conf w.priv q_no))
  if ne_zero ret then pure (ret, q_no) else do
    (if q_no == 0 then modify_priv (λ p. record p { base_tx_q_handle = q_handle }) else pure tt)
    tx_setup_loop k (q_no + 1)

unfoldable pub onic_qdma_tx_queue_setup : Io ℤ
unfolding tx_setup_loop onic_qdma_tx_queue_release
onic_qdma_tx_queue_setup = do
  w ← get
  (ret, q_no) ← tx_setup_loop w.net.real_num_tx_queues 0
  if ne_zero ret then onic_qdma_tx_queue_release q_no >> pure ret else pure (pos 0)

-- The two loops of `onic_qdma_stop`; `base` is the field that holds the first queue's handle.
unfoldable pub stop_loop : (OnicPriv → ℕ) → ℕ → ℕ → ℤ → Io ℤ
stop_loop base zero q err = pure err
stop_loop base (suc k) q err = do
  w ← get
  ret ← request (Op.qdma_queue_stop w.priv.dev_handle (add64 (base w.priv) q))
  stop_loop base k (q + 1) (if lt_zero ret then einval else err)

-- `txq` and `rxq` are `unsigned short int`.
unfoldable pub onic_qdma_stop : ℕ → ℕ → Io ℤ
unfolding stop_loop
onic_qdma_stop txq rxq = do
  err ← stop_loop (λ p. p.base_rx_q_handle) (rxq % 2 ^ 16) 0 (pos 0)
  stop_loop (λ p. p.base_tx_q_handle) (txq % 2 ^ 16) 0 err

-- The two loops of `onic_qdma_start`; `undo` is what the loop does before it returns an error.
unfoldable pub start_loop : (OnicPriv → ℕ) → (ℕ → Io ℤ) → ℕ → ℕ → Io ℤ
start_loop base undo zero q_no = pure (pos 0)
start_loop base undo (suc k) q_no = do
  w ← get
  ret ← request (Op.qdma_queue_start w.priv.dev_handle (add64 (base w.priv) q_no))
  if ne_zero ret then undo q_no >> pure ret else start_loop base undo k (q_no + 1)

unfoldable pub onic_qdma_start : Io ℤ
unfolding start_loop onic_qdma_stop
onic_qdma_start = do
  w ← get
  ret ←
      start_loop (λ p. p.base_rx_q_handle) (λ q_no. onic_qdma_stop 0 q_no) w.net.real_num_rx_queues
        0
  if ne_zero ret
      then pure ret
      else start_loop (λ p. p.base_tx_q_handle)
          (λ q_no. onic_qdma_stop q_no w.net.real_num_rx_queues) w.net.real_num_tx_queues 0
