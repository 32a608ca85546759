-- ===== src/Netdev/QueueHandles.antt =====
-- The handles of the receive queues in onic_main.c: `onic_isr_rx_tophalf` and `onic_rx_pkt_process` find
-- the number of a queue from its handle, and `onic_rx_poll` the handle from the number.
use onic_driver.Base.{
  ℕ, ◌+◌, ◌%◌, ◌^◌, ◌<◌, ◌≡◌, refl, ap, false, ◌==◌, leb, not, ◌&&◌, ◌||◌, if◌then◌else◌, if-both,
  add64, sub64, sum_of, arith,
}
use onic_driver.Base.Int.{ℤ, lt_zero}
use onic_driver.Kernel.{Op, Event, Log, Env, World, called, Io, pure, perform, fetch}
use onic_driver.Netdev.{onic_isr_rx_tophalf, rx_poll_end, onic_rx_poll}
use onic_driver.Rx.{rx_queue}

-- How often the NAPI structure of a queue was scheduled, and a queue was served by its handle.
abbrev pub schedules_op : ℕ → Op → ℕ
schedules_op q (Op.napi_schedule i) = if i == q then 1 else 0
schedules_op q o = 0

abbrev pub serves_op : ℕ → Op → ℕ
serves_op h (Op.qdma_queue_service d k n) = if k == h then 1 else 0
serves_op h o = 0

abbrev pub schedules : ℕ → Log → ℕ
schedules q l = sum_of (λ (e : Event). schedules_op q e.op) l

abbrev pub serves : ℕ → Log → ℕ
serves h l = sum_of (λ (e : Event). serves_op h e.op) l

-- The number of a queue comes back from its handle, also where the sum of the handle wraps.
sub64-add64 : (b q : ℕ) → q < 2 ^ 16 → sub64 (add64 b q) b % 2 ^ 32 ≡ q
sub64-add64 b q l = omega arith

module _ (env : Env) (h : ℕ) where
  -- Neither of the conditional calls at the end of the poll serves a queue.
  abbrev ServesNone : {A : Type 0} → Io A → Type 0
  ServesNone m = (w : World) → serves h (m env w).1.log ≡ serves h w.log

  rx_poll_end-ServesNone : (q k quota : ℕ) → ServesNone (rx_poll_end q k quota)
  unfolding rx_poll_end
  rx_poll_end-ServesNone q k quota w =
      let d = w.priv.dev_handle in
      let peek = Op.qdma_queue_c2h_peek d k in
      let asked = (if w.priv.qdma_dev_conf.intr_moderation then fetch peek else pure 0) env w in
      let v = called (Op.qdma_queue_update_pointers d k) env asked.1 in
      let peeked : serves h asked.1.log ≡ serves h w.log =
        if-both (λ (m : Io ℕ). serves h (m env w).1.log ≡ serves h w.log)
          w.priv.qdma_dev_conf.intr_moderation (fetch peek) (pure 0) (omega arith) refl in
      let again =
        if-both (λ (m : Io (Unit {0})). serves h (m env v).1.log ≡ serves h v.log)
          (w.priv.info.is_poll_mode || leb quota asked.0) (perform (Op.napi_reschedule q)) (pure tt)
          (omega arith) refl in
      omega (arith, peeked, again)

-- The handle of the receive queue `q` and its number belong together: the interrupt of that handle
-- schedules the NAPI structure of `q` and no other, a packet that comes with the handle belongs to `q`,
-- and the poll of `q` serves the queue of that handle once and no other. The NAPI structure and the
-- network device are not NULL and have a private part, and `q` fits 16 bits.
pub onic_isr_rx_tophalf-onic_rx_poll :
    (env : Env) (napi netdev q quota : ℕ) (w : World)
    → q < 2 ^ 16
    → (napi == 0) ≡ false
    → (netdev == 0) ≡ false
    → (env.priv_of netdev == 0) ≡ false
    → let h = add64 w.priv.base_rx_q_handle q in
      let v = (onic_isr_rx_tophalf h env w).1 in
      let u = (onic_rx_poll napi netdev q quota env v).1 in
      (rx_queue h w.priv.base_rx_q_handle ≡ q)
      × ((i : ℕ) → schedules i v.log ≡ schedules i w.log + (if q == i then 1 else 0))
      × ((k : ℕ) → serves k u.log ≡ serves k w.log + (if h == k then 1 else 0))
unfolding onic_isr_rx_tophalf onic_rx_poll
onic_isr_rx_tophalf-onic_rx_poll env napi netdev q quota w l a b c =
    let base = w.priv.base_rx_q_handle in
    let h = add64 base q in
    let v = (onic_isr_rx_tophalf h env w).1 in
    let serve = Op.qdma_queue_service w.priv.dev_handle h quota in
    let served = called (Op.napi_complete q) env (called serve env v) in
    let same = sub64-add64 base q l in
    (
      same,
      λ i. omega (arith, ap {B = ℕ} (λ n. if n == i then 1 else 0) same),
      λ k.
          rw (a, b, c)
            (if-both
              (λ (m : Io ℤ).
                serves k (m env served).1.log ≡ serves k w.log + (if h == k then 1 else 0))
              (not w.priv.info.is_poll_mode && lt_zero (env.status v.log serve))
              (pure (env.status v.log serve)) (rx_poll_end q h quota) (omega arith)
              (omega (arith, rx_poll_end-ServesNone env k q h quota served))),
    )
