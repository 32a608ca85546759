-- ===== src/Queue/Running.antt =====
-- Starting and stopping the queues: `onic_qdma_stop` and `onic_qdma_start` of onic_main.c.
use onic_driver.Base.{
  ℕ, zero, suc, ◌+◌, ◌%◌, ◌^◌, ◌<◌, ◌≡◌, ◌∙◌, refl, ap, true, add64, ap₂, sum_range, sum_range-cong,
  sum_range-zero, arith,
}
use onic_driver.Base.Int.{ℤ, pos, ne_zero}
use onic_driver.Kernel.{OnicPriv, QType, Op, Env, World}
use onic_driver.Kernel.Tally.{Weights}
use onic_driver.Queue.{stop_loop, onic_qdma_stop, start_loop, onic_qdma_start}
use onic_driver.Queue.Loops.{
  Adds, Adds-eq, Adds-trans, stop_loop-Adds, Started, all_started, undone, start_loop-Started,
}
use onic_driver.Queue.Setup.{RxBase, TxBase}
use onic_driver.Queue.Resource.{
  Resource, queue, running, napi, acquire, release, Flow, Flow-eq, Flow-trans, Adds-Flow,
  queue_stop-TakesNothing, started-gives_nothing,
}
use onic_driver.Queue.Release.{rx_run, tx_run}

stop-unit :
    (x : Resource) (d h : ℕ) → (release x).other (Op.qdma_queue_stop d h) ≡ (acquire x).started h
stop-unit (queue k) d h = refl
stop-unit (running k) d h = refl
stop-unit (napi q) d h = refl

abbrev stopped : ℕ → ℕ → ℕ → Weights → ℕ
stopped d b n g = sum_range n 0 (λ i. g.other (Op.qdma_queue_stop d (add64 b i)))

abbrev run_from : ℕ → ℕ → Weights → ℕ
run_from b n g = sum_range n 0 (λ i. g.started (add64 b i))

stopped-acquire : (x : Resource) (d b n : ℕ) → stopped d b n (acquire x) ≡ 0
stopped-acquire x d b n = sum_range-zero n 0 _ (λ i. queue_stop-TakesNothing d (add64 b i) x)

stopped-release : (x : Resource) (d b n : ℕ) → stopped d b n (release x) ≡ run_from b n (acquire x)
stopped-release x d b n = sum_range-cong n 0 _ _ (λ i l. stop-unit x d (add64 b i))

run_from-release : (x : Resource) (b n : ℕ) → run_from b n (release x) ≡ 0
run_from-release x b n = sum_range-zero n 0 _ (λ i. started-gives_nothing x (add64 b i))

-- Where no queue is counted, the handle of the first one does not matter.
run_from-base :
    (x : Resource) (b c n : ℕ)
    → (0 < n → b ≡ c)
    → run_from b n (acquire x) ≡ run_from c n (acquire x)
run_from-base x b c zero e = refl
run_from-base x b c (suc n) e = ap (λ t. run_from t (suc n) (acquire x)) (e (omega arith))

module _ (env : Env) where
  pub onic_qdma_stop-Adds :
      (txq rxq : ℕ) (w : World)
      → Adds w (onic_qdma_stop txq rxq env w).1 λ g.
        stopped w.priv.dev_handle w.priv.base_rx_q_handle (rxq % 2 ^ 16) g
        + stopped w.priv.dev_handle w.priv.base_tx_q_handle (txq % 2 ^ 16) g
  unfolding onic_qdma_stop
  onic_qdma_stop-Adds txq rxq w =
      let rx = stop_loop-Adds env (λ p. p.base_rx_q_handle) (rxq % 2 ^ 16) 0 (pos 0) w in
      let w' = (stop_loop (λ p. p.base_rx_q_handle) (rxq % 2 ^ 16) 0 (pos 0) env w).1 in
      let err = (stop_loop (λ p. p.base_rx_q_handle) (rxq % 2 ^ 16) 0 (pos 0) env w).0 in
      Adds-trans rx
        (rw rx.same_priv at (stop_loop-Adds env (λ p. p.base_tx_q_handle) (txq % 2 ^ 16) 0 err w'))

all_started-Flow :
    {w w' : World} (b n : ℕ)
    → Adds w w' (run_from b n)
    → Flow w w' (λ x. run_from b n (acquire x)) (λ x. 0)
all_started-Flow b n s = Adds-Flow _ _ s (λ x. refl) (λ x. run_from-release x b n)

undone-Flow :
    {w w' : World} (d b j c m e k : ℕ) {m' k' : ℕ}
    → m' ≡ m
    → k' ≡ k
    → Adds w w' (λ g. run_from b j g + (stopped d c m' g + stopped d e k' g))
    → Flow w w'
        (λ x. run_from b j (acquire x))
        (λ x. run_from c m (acquire x) + run_from e k (acquire x))
undone-Flow d b j c m e k {m'} {k'} em ek s =
    Adds-Flow _ _ s (λ x. omega (arith, stopped-acquire x d c m', stopped-acquire x d e k'))
      (λ x. omega (
        arith,
        run_from-release x b j,
        stopped-release x d c m',
        stopped-release x d e k',
        ap (λ t. run_from c t (acquire x)) em,
        ap (λ t. run_from e t (acquire x)) ek,
      ))

onic_qdma_stop-Adds_at :
    (env : Env) (p : OnicPriv) (txq rxq : ℕ) (v : World)
    → v.priv ≡ p
    → Adds v (onic_qdma_stop txq rxq env v).1 λ g.
      stopped p.dev_handle p.base_rx_q_handle (rxq % 2 ^ 16) g
      + stopped p.dev_handle p.base_tx_q_handle (txq % 2 ^ 16) g
onic_qdma_stop-Adds_at env p txq rxq v e =
    Adds-eq
      (λ g.
        ap
          (λ (r : OnicPriv).
            stopped r.dev_handle r.base_rx_q_handle (rxq % 2 ^ 16) g
            + stopped r.dev_handle r.base_tx_q_handle (txq % 2 ^ 16) g)
          e)
      (onic_qdma_stop-Adds env txq rxq v)

module _ (first : QType → ℕ) (env : Env) where
  -- `onic_qdma_stop` stops the first `rxq` receive and the first `txq` transmit queues.
  pub onic_qdma_stop-Flow :
      (txq rxq : ℕ) (w : World)
      → txq < 2 ^ 16
      → rxq < 2 ^ 16
      → (0 < rxq → RxBase first w.priv)
      → (0 < txq → TxBase first w.priv)
      → Flow w
          (onic_qdma_stop txq rxq env w).1
          (λ x. 0)
          (λ x. sum_range rxq 0 (rx_run first x) + sum_range txq 0 (tx_run first x))
  onic_qdma_stop-Flow txq rxq w lt lr rx tx =
      let er : rxq % 2 ^ 16 ≡ rxq = omega arith in
      let et : txq % 2 ^ 16 ≡ txq = omega arith in
      let d = w.priv.dev_handle in
      let stops = rw et at (rw er at (onic_qdma_stop-Adds env txq rxq w)) in
      Adds-Flow _ _ stops (λ x. ap₂ ◌+◌ (stopped-acquire x d _ rxq) (stopped-acquire x d _ txq))
        (λ x.
          ap₂ ◌+◌ (stopped-release x d _ rxq ∙ run_from-base x _ _ rxq rx)
            (stopped-release x d _ txq ∙ run_from-base x _ _ txq tx))

module _ (first : QType → ℕ) where
  -- How `onic_qdma_start` ends: with every queue running, or with none more than before.
  pub data StartEnds (w : World) (ret : ℤ) (w' : World) : Type 0 where
    running_all :
        ret ≡ pos 0
        → w'.priv ≡ w.priv
        → Flow w w'
            (λ x.
              sum_range w.net.real_num_rx_queues 0 (rx_run first x)
              + sum_range w.net.real_num_tx_queues 0 (tx_run first x))
            (λ x. 0)
        → StartEnds w ret w'
    running_none :
        ne_zero ret ≡ true → w'.priv ≡ w.priv → Flow w w' (λ x. 0) (λ x. 0) → StartEnds w ret w'

module _ (env : Env) (w : World) where
  abbrev rx_start : ℤ × World
  rx_start =
      start_loop (λ p. p.base_rx_q_handle) (λ q_no. onic_qdma_stop 0 q_no) w.net.real_num_rx_queues
        0 env w

  -- The first loop: every receive queue runs, or none does.
  rx_start-Ends :
      Started w
        (λ g i. g.started (add64 w.priv.base_rx_q_handle i))
        (λ g q.
          stopped w.priv.dev_handle w.priv.base_rx_q_handle (q % 2 ^ 16) g
          + stopped w.priv.dev_handle w.priv.base_tx_q_handle (0 % 2 ^ 16) g)
        w.net.real_num_rx_queues
        0
        rx_start.0
        rx_start.1
  rx_start-Ends =
      start_loop-Started env (λ p. p.base_rx_q_handle) (λ q_no. onic_qdma_stop 0 q_no) _ w.priv
        (λ q v e. onic_qdma_stop-Adds_at env w.priv 0 q v e) w.net.real_num_rx_queues 0 w refl

  tx_start-Ends :
      (n : ℕ) (v : World)
      → v.priv ≡ w.priv
      → let r =
          start_loop
            (λ p. p.base_tx_q_handle)
            (λ q_no. onic_qdma_stop q_no w.net.real_num_rx_queues)
            n
            0
            env
            v in
        Started v
          (λ g i. g.started (add64 w.priv.base_tx_q_handle i))
          (λ g q.
            stopped w.priv.dev_handle w.priv.base_rx_q_handle (w.net.real_num_rx_queues % 2 ^ 16) g
            + stopped w.priv.dev_handle w.priv.base_tx_q_handle (q % 2 ^ 16) g)
          n
          0
          r.0
          r.1
  tx_start-Ends n v same =
      start_loop-Started env (λ p. p.base_tx_q_handle)
        (λ q_no. onic_qdma_stop q_no w.net.real_num_rx_queues) _ w.priv
        (λ q v e. onic_qdma_stop-Adds_at env w.priv q w.net.real_num_rx_queues v e) n 0 v same

module _ (first : QType → ℕ) (env : Env) (w : World) where
  pub onic_qdma_start-StartEnds :
      w.net.real_num_rx_queues < 2 ^ 16
      → w.net.real_num_tx_queues < 2 ^ 16
      → (0 < w.net.real_num_rx_queues → RxBase first w.priv)
      → (0 < w.net.real_num_tx_queues → TxBase first w.priv)
      → StartEnds first w (onic_qdma_start env w).0 (onic_qdma_start env w).1
  unfolding onic_qdma_start
  onic_qdma_start-StartEnds lr lt rx tx =
      let d = w.priv.dev_handle in
      let b = w.priv.base_rx_q_handle in
      let c = w.priv.base_tx_q_handle in
      let n = w.net.real_num_rx_queues in
      let m = w.net.real_num_tx_queues in
      elim (rx_start-Ends env w) [
        | undone j l bad s ↦ rw bad (
            running_none bad s.same_priv
              (Flow-eq (undone-Flow d b j b j c 0 (omega arith) refl s) (λ x. omega arith)))
        | all_started z s ↦ rw z (elim (tx_start-Ends env w m (rx_start env w).1 s.same_priv) [
          | undone j l bad t ↦
              let en : n % 2 ^ 16 ≡ n = omega arith in
              running_none bad (t.same_priv ∙ s.same_priv) (
                Flow-eq
                  (Flow-trans (all_started-Flow b n s)
                    (undone-Flow d c j b n c j (omega arith) (omega arith) t))
                  (λ x. omega arith))
          | all_started y t ↦ running_all y (t.same_priv ∙ s.same_priv) (
              Flow-eq (Flow-trans (all_started-Flow b n s) (all_started-Flow c m t))
                (λ x. omega (arith, run_from-base x b _ n rx, run_from-base x c _ m tx)))
        ])
      ]
