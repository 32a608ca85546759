-- ===== src/Netdev/Steps.antt =====
-- What `onic_open` and `onic_stop` (onic_main.c) keep, for any relation that their calls and their writes
-- keep.
pub mod Poll
pub mod Life
use onic_driver.Base.{
  ℕ, zero, suc, ◌+◌, ◌||◌, ◌≡◌, refl, Bool, true, false, ◌==◌, if◌then◌else◌, arith,
}
use onic_driver.Base.Int.{ℤ, pos, ne_zero, einval, enomem}
use onic_driver.Kernel.{
  OnicPriv, Memory, qstats, napi_structs, Op, World, called, Io, pure, ◌>>=◌, ◌>>◌, modify_priv,
  perform,
}
use onic_driver.Kernel.Steps.{Frame, Always, Calls, done, either}
use onic_driver.Queue.{
  rx_setup_loop, rx_release_loop, onic_qdma_rx_queue_release, onic_qdma_rx_queue_setup,
  onic_qdma_tx_queue_setup, onic_qdma_tx_queue_release, onic_qdma_start, onic_qdma_stop,
}
use onic_driver.Queue.Steps.{
  is_queue_call, rx_base, tx_base, rx_setup_loop-Always, rx_release_loop-Always,
  tx_queue_release-Always, tx_queue_setup-Always, onic_qdma_stop-Always, onic_qdma_start-Always,
}
use onic_driver.Netdev.{
  clear_stats, onic_stats_alloc, each_queue, onic_open_up, release_rx_queues, release_queues,
  onic_open, onic_stop,
}

-- The calls of going up and down that touch no queue and no memory.
abbrev pub is_up_call : Op → Bool
is_up_call (Op.napi_enable q) = true
is_up_call (Op.napi_disable q) = true
is_up_call (Op.napi_schedule q) = true
is_up_call Op.netif_tx_start_all_queues = true
is_up_call Op.netif_tx_stop_all_queues = true
is_up_call Op.netif_carrier_on = true
is_up_call Op.netif_carrier_off = true
is_up_call op = false

-- All the calls of going up and down.
abbrev pub is_open_call : Op → Bool
is_open_call (Op.alloc Memory.qstats n) = true
is_open_call (Op.alloc Memory.napi_structs n) = true
is_open_call (Op.kfree p) = true
is_open_call op = is_up_call op || is_queue_call op

-- The pointers that `onic_open` writes, and those of `onic_qdma_rx_queue_add` and
-- `onic_qdma_tx_queue_setup`.
pub data PrivWrite : (OnicPriv → OnicPriv) → Type 0 where
  writes_rx_base : (h : ℕ) → PrivWrite (rx_base h)
  writes_tx_base : (h : ℕ) → PrivWrite (tx_base h)
  writes_napi : (a : ℕ) → PrivWrite (λ p. record p { napi = a })
  writes_tx_qstats : (a : ℕ) → PrivWrite (λ p. record p { tx_qstats = a })
  writes_rx_qstats : (a : ℕ) → PrivWrite (λ p. record p { rx_qstats = a })

module _ {R : World → World → Type 0} (frame : Frame R)
    (calls : (op : Op) → is_up_call op ≡ true → Calls frame op) where
  pub each_queue-Always :
      (op : ℕ → Op)
      → ((i : ℕ) → is_up_call (op i) ≡ true)
      → (k q : ℕ) → Always frame (each_queue op k q)
  unfolding each_queue
  each_queue-Always op e zero q env w = frame.stay w
  each_queue-Always op e (suc k) q env w =
      frame.both (calls (op q) (e q) env w)
        (each_queue-Always op e k (q + 1) env (called (op q) env w))

  pub onic_open_up-Always : Always frame onic_open_up
  unfolding onic_open_up
  onic_open_up-Always env w =
      let n = w.net.real_num_rx_queues in
      let schedule = each_queue Op.napi_schedule n 0 in
      let v = (each_queue Op.napi_enable n 0 env w).1 in
      let v' = ((if w.priv.info.is_poll_mode then schedule else pure tt) env v).1 in
      frame.both (each_queue-Always Op.napi_enable (λ i. refl) n 0 env w) (
        frame.both
          (either frame w.priv.info.is_poll_mode schedule (pure tt)
            (each_queue-Always Op.napi_schedule (λ i. refl) n 0) (done frame tt) env v)
          (frame.both (calls Op.netif_tx_start_all_queues refl env v')
            (calls Op.netif_carrier_on refl env _)))

module _ {R : World → World → Type 0} (frame : Frame R)
    (calls : (op : Op) → is_open_call op ≡ true → Calls frame op)
    (writes : (f : OnicPriv → OnicPriv) → PrivWrite f → Always frame (modify_priv f))
    (clears : (a n : ℕ) → Always frame (clear_stats a n)) where
  up-Calls : (op : Op) → is_up_call op ≡ true → Calls frame op
  up-Calls op e = calls op (ground (arith, e))

  queue-Calls : (op : Op) → is_queue_call op ≡ true → Calls frame op
  queue-Calls op e = calls op (ground (arith, e))

  rx : (h : ℕ) → Always frame (modify_priv (rx_base h))
  rx h = writes (rx_base h) (writes_rx_base h)

  tx : (h : ℕ) → Always frame (modify_priv (tx_base h))
  tx h = writes (tx_base h) (writes_tx_base h)

  rx_queue_release-Always : (k : ℕ) → Always frame (onic_qdma_rx_queue_release k)
  unfolding onic_qdma_rx_queue_release
  rx_queue_release-Always k env w =
      frame.both (rx_release_loop-Always frame queue-Calls rx tx k 0 env w)
        (calls (Op.kfree _) refl env (rx_release_loop k 0 env w).1)

  rx_queue_setup-Always : Always frame onic_qdma_rx_queue_setup
  unfolding onic_qdma_rx_queue_setup
  rx_queue_setup-Always env w =
      let n = w.net.real_num_rx_queues in
      let op = Op.alloc napi_structs n in
      let napi = env.value w.log op in
      let v = record (called op env w) { priv = record w.priv { napi = napi } } in
      frame.both (calls op refl env w) (
        frame.both (writes (λ p. record p { napi = napi }) (writes_napi napi) env (called op env w))
          (either frame (napi == 0) (pure enomem) _ (done frame enomem)
            (λ e u.
              let r = rx_setup_loop n 0 e u in
              frame.both (rx_setup_loop-Always frame queue-Calls rx tx n 0 e u) (
                either frame (ne_zero r.0.0) (onic_qdma_rx_queue_release r.0.1 >> pure r.0.0)
                  (pure (pos 0)) (λ e u. rx_queue_release-Always r.0.1 e u) (done frame (pos 0)) e
                  r.1))
            env v))

  onic_stats_alloc-Always : (xpriv : ℕ) → Always frame (onic_stats_alloc xpriv)
  unfolding onic_stats_alloc
  onic_stats_alloc-Always xpriv =
      either frame (xpriv == 0) (pure einval) _ (done frame einval) (λ env w.
        let n = w.net.real_num_tx_queues + w.net.real_num_rx_queues in
        let m = w.net.real_num_tx_queues in
        either frame (w.priv.netdev == 0) (pure einval) _ (done frame einval)
          (λ e u.
            let op = Op.alloc qstats n in
            let a = e.value u.log op in
            let v = (modify_priv (λ p. record p { tx_qstats = a }) e (called op e u)).1 in
            frame.both (calls op refl e u) (
              frame.both
                (writes (λ p. record p { tx_qstats = a }) (writes_tx_qstats a) e (called op e u))
                (either frame (a == 0) (pure enomem) _ (done frame enomem)
                  (λ e v. frame.both (clears a n e v) (
                    writes (λ p. record p { rx_qstats = a + m }) (writes_rx_qstats (a + m)) e
                      (clear_stats a n e v).1))
                  e v)))
          env w)

  release_rx_queues-Always : (ret : ℤ) → Always frame (release_rx_queues ret)
  unfolding release_rx_queues
  release_rx_queues-Always ret env w = rx_queue_release-Always w.net.real_num_rx_queues env w

  release_queues-Always : (ret : ℤ) → Always frame (release_queues ret)
  unfolding release_queues
  release_queues-Always ret env w =
      let m = w.net.real_num_tx_queues in
      frame.both (tx_queue_release-Always frame queue-Calls rx tx m env w)
        (release_rx_queues-Always ret env (onic_qdma_tx_queue_release m env w).1)

  -- `onic_open` behind the set-up of the receive queues.
  open_tx-Always : Always frame (do
    ret ← onic_qdma_tx_queue_setup
    if ne_zero ret
        then release_rx_queues ret
        else do ret ← onic_qdma_start; if ne_zero ret then release_queues ret else onic_open_up)
  open_tx-Always env w =
      let r = onic_qdma_tx_queue_setup env w in
      frame.both (tx_queue_setup-Always frame queue-Calls rx tx env w) (
        either frame (ne_zero r.0) (release_rx_queues r.0) _ (release_rx_queues-Always r.0)
          (λ e u.
            let s = onic_qdma_start e u in
            frame.both (onic_qdma_start-Always frame queue-Calls rx tx e u) (
              either frame (ne_zero s.0) (release_queues s.0) onic_open_up
                (release_queues-Always s.0) (onic_open_up-Always frame up-Calls) e s.1))
          env r.1)

  pub onic_open-Always : (netdev : ℕ) → Always frame (onic_open netdev)
  unfolding onic_open
  onic_open-Always netdev = either frame (netdev == 0) (pure einval) _ (done frame einval) (λ e w.
      let xpriv = e.priv_of netdev in
      either frame (xpriv == 0) (pure einval) _ (done frame einval)
        (λ e u.
          let s = onic_stats_alloc xpriv e u in
          frame.both (onic_stats_alloc-Always xpriv e u) (
            either frame (ne_zero s.0) (pure s.0) _ (done frame s.0)
              (λ e u.
                let q = onic_qdma_rx_queue_setup e u in
                frame.both (rx_queue_setup-Always e u) (
                  either frame (ne_zero q.0) _ _ (λ e u. calls (Op.kfree u.priv.tx_qstats) refl e u)
                    open_tx-Always e q.1))
              e s.1))
        e w)

  pub onic_stop-Always : (netdev : ℕ) → Always frame (onic_stop netdev)
  unfolding onic_stop
  onic_stop-Always netdev = either frame (netdev == 0) (pure einval) _ (done frame einval) (λ e w.
      either frame (e.priv_of netdev == 0) (pure einval) _ (done frame einval)
        (λ e w.
          let n = w.net.real_num_rx_queues in
          let m = w.net.real_num_tx_queues in
          let w1 = called Op.netif_tx_stop_all_queues e w in
          let w2 = called Op.netif_carrier_off e w1 in
          let w3 = (each_queue Op.napi_disable n 0 e w2).1 in
          let w4 = (onic_qdma_stop m n e w3).1 in
          let w5 = (onic_qdma_rx_queue_release n e w4).1 in
          let w6 = (onic_qdma_tx_queue_release m e w5).1 in
          frame.both (calls Op.netif_tx_stop_all_queues refl e w) (
            frame.both (calls Op.netif_carrier_off refl e w1) (
              frame.both (each_queue-Always frame up-Calls Op.napi_disable (λ i. refl) n 0 e w2) (
                frame.both (onic_qdma_stop-Always frame queue-Calls rx tx m n e w3) (
                  frame.both (rx_queue_release-Always n e w4) (
                    frame.both (tx_queue_release-Always frame queue-Calls rx tx m e w5)
                      (calls (Op.kfree w6.priv.tx_qstats) refl e w6)))))))
        e w)
