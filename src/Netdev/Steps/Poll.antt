-- ===== src/Netdev/Steps/Poll.antt =====
-- What the NAPI poll and the interrupts (onic_main.c: `onic_rx_poll`, `onic_isr_rx_tophalf`,
-- `onic_isr_tx_tophalf`) keep, for any relation that their calls keep.
use onic_driver.Base.{
  ℕ, ◌≡◌, refl, Bool, true, false, ◌==◌, ◌||◌, ◌&&◌, not, leb, if◌then◌else◌, add64,
}
use onic_driver.Base.Int.{einval, lt_zero}
use onic_driver.Kernel.{Op, World, called, pure, fetch, perform}
use onic_driver.Kernel.Steps.{Frame, Always, Calls, done, either}
use onic_driver.Netdev.{onic_rx_poll, rx_poll_end, onic_isr_rx_tophalf, onic_isr_tx_tophalf}

-- The calls of the poll and of the interrupts.
abbrev pub is_poll_call : Op → Bool
is_poll_call (Op.qdma_queue_service d k n) = true
is_poll_call (Op.napi_complete q) = true
is_poll_call (Op.qdma_queue_c2h_peek d k) = true
is_poll_call (Op.qdma_queue_update_pointers d k) = true
is_poll_call (Op.napi_reschedule q) = true
is_poll_call (Op.napi_schedule q) = true
is_poll_call (Op.qdma_device_get_descq_by_id d k) = true
is_poll_call (Op.schedule_work q) = true
is_poll_call o = false

module _ {R : World → World → Type 0} (frame : Frame R)
    (calls : (op : Op) → is_poll_call op ≡ true → Calls frame op) where
  rx_poll_end-Always : (q k quota : ℕ) → Always frame (rx_poll_end q k quota)
  unfolding rx_poll_end
  rx_poll_end-Always q k quota e w =
      let d = w.priv.dev_handle in
      let peek = Op.qdma_queue_c2h_peek d k in
      let update = Op.qdma_queue_update_pointers d k in
      let asked = (if w.priv.qdma_dev_conf.intr_moderation then fetch peek else pure 0) e w in
      frame.both
        (either frame w.priv.qdma_dev_conf.intr_moderation (fetch peek) (pure 0) (calls peek refl)
          (λ e u. frame.stay u) e w)
        (frame.both (calls update refl e asked.1) (
          either frame (w.priv.info.is_poll_mode || leb quota asked.0)
            (perform (Op.napi_reschedule q)) (pure tt) (calls (Op.napi_reschedule q) refl)
            (done frame tt) e (called update e asked.1)))

  pub onic_rx_poll-Always :
      (napi netdev q quota : ℕ) → Always frame (onic_rx_poll napi netdev q quota)
  unfolding onic_rx_poll
  onic_rx_poll-Always napi netdev q quota =
      either frame (napi == 0) (pure einval) _ (done frame einval) (
        either frame (netdev == 0) (pure einval) _ (done frame einval) (λ e w.
          either frame (e.priv_of netdev == 0) (pure einval) _ (done frame einval)
            (λ e w.
              let h = add64 w.priv.base_rx_q_handle q in
              let serve = Op.qdma_queue_service w.priv.dev_handle h quota in
              let ret = e.status w.log serve in
              frame.both (calls serve refl e w) (
                frame.both (calls (Op.napi_complete q) refl e (called serve e w)) (
                  either frame (not w.priv.info.is_poll_mode && lt_zero ret) (pure ret)
                    (rx_poll_end q h quota) (done frame ret) (rx_poll_end-Always q h quota) e
                    (called (Op.napi_complete q) e (called serve e w)))))
            e w))

  pub onic_isr_rx_tophalf-Always : (h : ℕ) → Always frame (onic_isr_rx_tophalf h)
  unfolding onic_isr_rx_tophalf
  onic_isr_rx_tophalf-Always h env w = calls (Op.napi_schedule _) refl env w

  pub onic_isr_tx_tophalf-Always : (h : ℕ) → Always frame (onic_isr_tx_tophalf h)
  unfolding onic_isr_tx_tophalf
  onic_isr_tx_tophalf-Always h env w =
      frame.both (calls (Op.qdma_device_get_descq_by_id w.priv.dev_handle h) refl env w)
        (calls (Op.schedule_work _) refl env _)
