-- ===== src/Queue/Steps.antt =====
-- What the functions on queues (onic_main.c: `onic_qdma_{rx,tx}_queue_{setup,release}`,
-- `onic_qdma_start`, `onic_qdma_stop`) keep, for any relation that their calls and their writes of the
-- first handles keep.
use onic_driver.Base.{
  ℕ, zero, suc, ◌+◌, ◌%◌, ◌^◌, ◌≡◌, refl, Bool, true, false, ◌==◌, if◌then◌else◌, add64,
}
use onic_driver.Base.Int.{ℤ, pos, ne_zero}
use onic_driver.Kernel.{OnicPriv, Op, World, called, Io, pure, ◌>>◌, modify_priv, perform}
use onic_driver.Kernel.Steps.{Frame, Always, Calls, done, next, either}
use onic_driver.Queue.{
  rx_queue_conf, tx_queue_conf, onic_qdma_rx_queue_add, rx_release_loop, rx_setup_loop,
  tx_release_loop, onic_qdma_tx_queue_release, tx_setup_loop, onic_qdma_tx_queue_setup, stop_loop,
  onic_qdma_stop, start_loop, onic_qdma_start,
}

-- The calls of these functions, but for the memory of the NAPI structures.
abbrev pub is_queue_call : Op → Bool
is_queue_call (Op.qdma_queue_add d c) = true
is_queue_call (Op.qdma_queue_remove d h) = true
is_queue_call (Op.qdma_queue_start d h) = true
is_queue_call (Op.qdma_queue_stop d h) = true
is_queue_call (Op.netif_napi_add q) = true
is_queue_call (Op.netif_napi_del q) = true
is_queue_call o = false

-- The two writes of the private part.
abbrev pub rx_base : ℕ → OnicPriv → OnicPriv
rx_base h p = record p { base_rx_q_handle = h }

abbrev pub tx_base : ℕ → OnicPriv → OnicPriv
tx_base h p = record p { base_tx_q_handle = h }

module _ {R : World → World → Type 0} (frame : Frame R)
    (calls : (op : Op) → is_queue_call op ≡ true → Calls frame op)
    (rx : (h : ℕ) → Always frame (modify_priv (rx_base h)))
    (tx : (h : ℕ) → Always frame (modify_priv (tx_base h))) where
  rx_queue_add-Always :
      (q_no timer cnt_th : ℕ) → Always frame (onic_qdma_rx_queue_add q_no timer cnt_th)
  unfolding onic_qdma_rx_queue_add
  rx_queue_add-Always q_no timer cnt_th env w =
      let op = Op.qdma_queue_add w.priv.dev_handle (rx_queue_conf w.priv q_no timer cnt_th) in
      let h = env.value w.log op in
      frame.both (calls op refl env w) (
        either frame (ne_zero (env.status w.log op)) (pure (env.status w.log op)) _
          (done frame (env.status w.log op))
          (either frame (q_no == 0) (modify_priv (rx_base h)) (pure tt) (rx h) (done frame tt)) env
          (called op env w))

  pub rx_setup_loop-Always : (k q_no : ℕ) → Always frame (rx_setup_loop k q_no)
  unfolding rx_setup_loop
  rx_setup_loop-Always zero q_no env w = frame.stay w
  rx_setup_loop-Always (suc k) q_no env w =
      let r = onic_qdma_rx_queue_add q_no w.priv.rx_timer_idx w.priv.rx_cnt_th_idx env w in
      frame.both (rx_queue_add-Always q_no w.priv.rx_timer_idx w.priv.rx_cnt_th_idx env w) (
        either frame (ne_zero r.0) (pure (r.0, q_no)) _ (λ e v. frame.stay v)
          (next frame (perform (Op.netif_napi_add q_no)) (rx_setup_loop k (q_no + 1)) (calls _ refl)
            (rx_setup_loop-Always k (q_no + 1)))
          env r.1)

  pub rx_release_loop-Always : (k q_no : ℕ) → Always frame (rx_release_loop k q_no)
  unfolding rx_release_loop
  rx_release_loop-Always zero q_no env w = frame.stay w
  rx_release_loop-Always (suc k) q_no env w =
      let remove = Op.qdma_queue_remove w.priv.dev_handle (add64 w.priv.base_rx_q_handle q_no) in
      let v = called remove env w in
      frame.both (calls remove refl env w) (
        frame.both (calls (Op.netif_napi_del q_no) refl env v)
          (rx_release_loop-Always k (q_no + 1) env (called (Op.netif_napi_del q_no) env v)))

  tx_release_loop-Always : (k q_no : ℕ) → Always frame (tx_release_loop k q_no)
  unfolding tx_release_loop
  tx_release_loop-Always zero q_no env w = frame.stay w
  tx_release_loop-Always (suc k) q_no env w =
      let remove = Op.qdma_queue_remove w.priv.dev_handle (add64 w.priv.base_tx_q_handle q_no) in
      frame.both (calls remove refl env w)
        (tx_release_loop-Always k (q_no + 1) env (called remove env w))

  pub tx_queue_release-Always : (k : ℕ) → Always frame (onic_qdma_tx_queue_release k)
  unfolding onic_qdma_tx_queue_release
  tx_queue_release-Always k = tx_release_loop-Always k 0

  tx_setup_loop-Always : (k q_no : ℕ) → Always frame (tx_setup_loop k q_no)
  unfolding tx_setup_loop
  tx_setup_loop-Always zero q_no env w = frame.stay w
  tx_setup_loop-Always (suc k) q_no env w =
      let op = Op.qdma_queue_add w.priv.dev_handle (tx_queue_conf w.priv q_no) in
      let h = env.value w.log op in
      let ret = env.status w.log op in
      frame.both (calls op refl env w) (
        either frame (ne_zero ret) (pure (ret, q_no)) _ (λ e v. frame.stay v)
          (next frame (if q_no == 0 then modify_priv (tx_base h) else pure tt)
            (tx_setup_loop k (q_no + 1))
            (either frame (q_no == 0) (modify_priv (tx_base h)) (pure tt) (tx h) (done frame tt))
            (tx_setup_loop-Always k (q_no + 1)))
          env (called op env w))

  pub tx_queue_setup-Always : Always frame onic_qdma_tx_queue_setup
  unfolding onic_qdma_tx_queue_setup
  tx_queue_setup-Always env w =
      let r = tx_setup_loop w.net.real_num_tx_queues 0 env w in
      frame.both (tx_setup_loop-Always w.net.real_num_tx_queues 0 env w) (
        either frame (ne_zero r.0.0) (onic_qdma_tx_queue_release r.0.1 >> pure r.0.0) (pure (pos 0))
          (λ e v. tx_queue_release-Always r.0.1 e v) (done frame (pos 0)) env r.1)

  stop_loop-Always :
      (base : OnicPriv → ℕ) (k q : ℕ) (err : ℤ) → Always frame (stop_loop base k q err)
  unfolding stop_loop
  stop_loop-Always base zero q err env w = frame.stay w
  stop_loop-Always base (suc k) q err env w =
      let op = Op.qdma_queue_stop w.priv.dev_handle (add64 (base w.priv) q) in
      frame.both (calls op refl env w) (stop_loop-Always base k (q + 1) _ env (called op env w))

  pub onic_qdma_stop-Always : (txq rxq : ℕ) → Always frame (onic_qdma_stop txq rxq)
  unfolding onic_qdma_stop
  onic_qdma_stop-Always txq rxq env w =
      frame.both (stop_loop-Always (λ p. p.base_rx_q_handle) (rxq % 2 ^ 16) 0 (pos 0) env w)
        (stop_loop-Always (λ p. p.base_tx_q_handle) (txq % 2 ^ 16) 0 _ env _)

  start_loop-Always :
      (base : OnicPriv → ℕ) (undo : ℕ → Io ℤ) (k q_no : ℕ)
      → ((q : ℕ) → Always frame (undo q))
      → Always frame (start_loop base undo k q_no)
  unfolding start_loop
  start_loop-Always base undo zero q_no u env w = frame.stay w
  start_loop-Always base undo (suc k) q_no u env w =
      let op = Op.qdma_queue_start w.priv.dev_handle (add64 (base w.priv) q_no) in
      let ret = env.status w.log op in
      frame.both (calls op refl env w) (
        either frame (ne_zero ret) (undo q_no >> pure ret) (start_loop base undo k (q_no + 1))
          (λ e v. u q_no e v) (start_loop-Always base undo k (q_no + 1) u) env (called op env w))

  pub onic_qdma_start-Always : Always frame onic_qdma_start
  unfolding onic_qdma_start
  onic_qdma_start-Always env w =
      let n = w.net.real_num_rx_queues in
      let m = w.net.real_num_tx_queues in
      let undo_rx = λ (q : ℕ). onic_qdma_stop 0 q in
      let undo_tx = λ (q : ℕ). onic_qdma_stop q n in
      let r = start_loop (λ p. p.base_rx_q_handle) undo_rx n 0 env w in
      frame.both
        (start_loop-Always (λ p. p.base_rx_q_handle) undo_rx n 0 (onic_qdma_stop-Always 0) env w)
        (either frame (ne_zero r.0) (pure r.0) (start_loop (λ p. p.base_tx_q_handle) undo_tx m 0)
          (done frame r.0)
          (start_loop-Always (λ p. p.base_tx_q_handle) undo_tx m 0 (λ q. onic_qdma_stop-Always q n))
          env r.1)
