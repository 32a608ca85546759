-- ===== src/Queue/Release.antt =====
-- The flow of resources through the functions of Queue.antt.
use onic_driver.Base.{
  ℕ, ◌+◌, ◌%◌, ◌^◌, ◌≤◌, ◌<◌, ◌≡◌, refl, add64, ap₂, sum_range, sum_range-cong, sum_range-zero,
  arith,
}
use onic_driver.Kernel.{QType, q_h2c, q_c2h, Op, Env, World}
use onic_driver.Queue.{onic_qdma_rx_queue_release, onic_qdma_tx_queue_release}
use onic_driver.Queue.Loops.{
  Adds, Adds-refl, Adds-trans, Adds-step, rx_release_loop-Adds, tx_release_loop-Adds,
}
use onic_driver.Queue.Setup.{rx_added, tx_added, RxBase, TxBase}
use onic_driver.Queue.Resource.{
  Resource, queue, running, napi, acquire, release, Flow, Adds-Flow, kfree-IsIdle,
  queue_remove-TakesNothing, napi_del-TakesNothing,
}

-- What one queue counts for: a receive queue with its NAPI structure, a transmit queue, a started
-- receive queue, a started transmit queue.
module _ (first : QType → ℕ) where
  abbrev pub rx_unit : Resource → ℕ → ℕ
  rx_unit x i = rx_added first (acquire x) i

  abbrev pub tx_unit : Resource → ℕ → ℕ
  tx_unit x i = tx_added first (acquire x) i

  abbrev pub rx_run : Resource → ℕ → ℕ
  rx_run x i = (acquire x).started (add64 (add64 (first q_c2h) 0) i)

  abbrev pub tx_run : Resource → ℕ → ℕ
  tx_run x i = (acquire x).started (add64 (add64 (first q_h2c) 0) i)

  -- Removing a queue by its handle gives back what adding it took.
  removed-unit :
      (x : Resource) (d b i : ℕ)
      → b ≡ add64 (first q_c2h) 0
      → i < 2 ^ 16
      → (release x).other (Op.qdma_queue_remove d (add64 b i))
          + (release x).other (Op.netif_napi_del i)
        ≡ rx_unit x i
  removed-unit (queue h) d b i e l =
      let same : add64 b i ≡ add64 (first q_c2h) (i % 2 ^ 24) = omega arith in rw same refl
  removed-unit (running h) d b i e l = refl
  removed-unit (napi q) d b i e l = refl

  tx_removed-unit :
      (x : Resource) (d b i : ℕ)
      → b ≡ add64 (first q_h2c) 0
      → i < 2 ^ 16
      → (release x).other (Op.qdma_queue_remove d (add64 b i)) ≡ tx_unit x i
  tx_removed-unit (queue h) d b i e l =
      let same : add64 b i ≡ add64 (first q_h2c) (i % 2 ^ 24) = omega arith in rw same refl
  tx_removed-unit (running h) d b i e l = refl
  tx_removed-unit (napi q) d b i e l = refl

  pub rx_release-Adds :
      (env : Env) (n : ℕ) (w : World)
      → Adds w (onic_qdma_rx_queue_release n env w).1 λ g.
        (sum_range n 0 λ i.
          g.other (Op.qdma_queue_remove w.priv.dev_handle (add64 w.priv.base_rx_q_handle i))
          + g.other (Op.netif_napi_del i))
        + (g.other (Op.kfree w.priv.napi) + 0)
  unfolding onic_qdma_rx_queue_release
  rx_release-Adds env n w =
      let loop = rx_release_loop-Adds env n 0 w in
      Adds-trans loop (
        Adds-step _ (λ g. g.other (Op.kfree w.priv.napi)) refl refl refl (λ g. rw loop.same_priv)
          Adds-refl)

  -- `onic_qdma_rx_queue_release` gives back the receive queues and their NAPI structures.
  pub rx_release-Flow :
      (env : Env) (n : ℕ) (w : World)
      → n ≤ 2 ^ 16
      → (0 < n → RxBase first w.priv)
      → Flow w (onic_qdma_rx_queue_release n env w).1 (λ x. 0) (λ x. sum_range n 0 (rx_unit x))
  rx_release-Flow env n w bound base =
      Adds-Flow _ _ (rx_release-Adds env n w)
        (λ x. omega (
          arith,
          (kfree-IsIdle w.priv.napi x).0,
          sum_range-zero n 0 _ (λ i.
              ap₂ ◌+◌
                (queue_remove-TakesNothing w.priv.dev_handle (add64 w.priv.base_rx_q_handle i) x)
                (napi_del-TakesNothing i x)),
        ))
        (λ x. omega (
          arith,
          (kfree-IsIdle w.priv.napi x).1,
          sum_range-cong n 0 _ (rx_unit x) (λ i l.
              removed-unit x w.priv.dev_handle w.priv.base_rx_q_handle i (base (omega arith))
                (omega arith)),
        ))

  -- `onic_qdma_tx_queue_release` gives back the transmit queues.
  pub tx_release-Flow :
      (env : Env) (n : ℕ) (w : World)
      → n ≤ 2 ^ 16
      → (0 < n → TxBase first w.priv)
      → Flow w (onic_qdma_tx_queue_release n env w).1 (λ x. 0) (λ x. sum_range n 0 (tx_unit x))
  unfolding onic_qdma_tx_queue_release
  tx_release-Flow env n w bound base =
      Adds-Flow _ _ (tx_release_loop-Adds env n 0 w)
        (λ x.
          sum_range-zero n 0 _
            (λ i. queue_remove-TakesNothing w.priv.dev_handle (add64 w.priv.base_tx_q_handle i) x))
        (λ x. sum_range-cong n 0 _ (tx_unit x) (λ i l.
          tx_removed-unit x w.priv.dev_handle w.priv.base_tx_q_handle i (base (omega arith))
            (omega arith)))
