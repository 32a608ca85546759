-- ===== src/Queue/Added.antt =====
-- Adding the queues: `onic_qdma_rx_queue_setup` and `onic_qdma_tx_queue_setup` of onic_main.c.
use onic_driver.Base.{
  ℕ, ◌^◌, ◌<◌, ◌≡◌, ◌∙◌, refl, ap, sym, inl, inr, true, ◌==◌, Bool-cases, sum_range, sum_range-zero,
  arith,
}
use onic_driver.Base.Int.{ℤ, pos, ne_zero}
use onic_driver.Kernel.{OnicPriv, QType, Op, napi_structs, Env, World, called}
use onic_driver.Queue.{
  rx_setup_loop, onic_qdma_rx_queue_setup, onic_qdma_rx_queue_release, tx_setup_loop,
  onic_qdma_tx_queue_setup, onic_qdma_tx_queue_release,
}
use onic_driver.Queue.Loops.{tx_release_loop-Adds}
use onic_driver.Queue.Setup.{
  HandlesFollow, KeepsRx, KeepsTx, SetUp, complete, stopped, rx_added, tx_added, RxBase, TxBase,
  tx_setup_loop-SetUpEnds, rx_setup_loop-SetUpEnds,
}
use onic_driver.Queue.Resource.{
  acquire, release, Flow, Flow-eq, Flow-trans, added-gives_nothing, tx_added-gives_nothing,
  alloc-IsIdle,
}
use onic_driver.Queue.Release.{rx_unit, tx_unit, tx_release-Flow, rx_release-Flow, rx_release-Adds}

-- How `onic_qdma_tx_queue_setup` ends: with every queue, or with none more than before.
pub data TxEnds (first : QType → ℕ) (w : World) (ret : ℤ) (w' : World) : Type 0 where
  tx_all :
      ret ≡ pos 0
      → KeepsTx w.priv w'.priv
      → (0 < w.net.real_num_tx_queues → TxBase first w'.priv)
      → Flow w w' (λ x. sum_range w.net.real_num_tx_queues 0 (tx_unit first x)) (λ x. 0)
      → TxEnds first w ret w'
  tx_none :
      ne_zero ret ≡ true
      → KeepsTx w.priv w'.priv
      → Flow w w' (λ x. 0) (λ x. 0)
      → TxEnds first w ret w'

-- The private part but for the NAPI structures and the handle of the first receive queue.
abbrev pub KeepsRxNapi : OnicPriv → OnicPriv → Type 0
KeepsRxNapi p p' = p' ≡ record p { napi = p'.napi; base_rx_q_handle = p'.base_rx_q_handle }

-- How `onic_qdma_rx_queue_setup` ends.
pub data RxEnds (first : QType → ℕ) (w : World) (ret : ℤ) (w' : World) : Type 0 where
  rx_all :
      ret ≡ pos 0
      → KeepsRxNapi w.priv w'.priv
      → (0 < w.net.real_num_rx_queues → RxBase first w'.priv)
      → Flow w w' (λ x. sum_range w.net.real_num_rx_queues 0 (rx_unit first x)) (λ x. 0)
      → RxEnds first w ret w'
  rx_none :
      ne_zero ret ≡ true
      → KeepsRxNapi w.priv w'.priv
      → Flow w w' (λ x. 0) (λ x. 0)
      → RxEnds first w ret w'

KeepsRx-napi :
    (p : OnicPriv) (a : ℕ) (p' : OnicPriv) → KeepsRx (record p { napi = a }) p' → KeepsRxNapi p p'
KeepsRx-napi p a p' e =
    let same : a ≡ p'.napi = sym (ap (λ (q : OnicPriv). q.napi) e) in
    e ∙ ap (λ (t : ℕ). record p { napi = t; base_rx_q_handle = p'.base_rx_q_handle }) same

module _ (first : QType → ℕ) where
  tx_added-Flow :
      {w w' : World} (n : ℕ)
      → SetUp KeepsTx w w' (λ g. sum_range n 0 (tx_added first g))
      → Flow w w' (λ x. sum_range n 0 (tx_unit first x)) (λ x. 0)
  tx_added-Flow n s = record {
    same_net = s.same_net;
    same_device = ap (λ (p : OnicPriv). p.dev_handle) s.same_priv;
    flow = λ x. omega (
      arith,
      s.grows (acquire x),
      s.grows (release x),
      sum_range-zero n 0 _ (tx_added-gives_nothing x first),
    );
  }

  rx_added-Flow :
      {w w' : World} (n : ℕ)
      → SetUp KeepsRx w w' (λ g. sum_range n 0 (rx_added first g))
      → Flow w w' (λ x. sum_range n 0 (rx_unit first x)) (λ x. 0)
  rx_added-Flow n s = record {
    same_net = s.same_net;
    same_device = ap (λ (p : OnicPriv). p.dev_handle) s.same_priv;
    flow = λ x. omega (
      arith,
      s.grows (acquire x),
      s.grows (release x),
      sum_range-zero n 0 _ (added-gives_nothing x first),
    );
  }

  module _ (env : Env) (follow : HandlesFollow env first) (w : World) where
    pub onic_qdma_tx_queue_setup-TxEnds :
        w.net.real_num_tx_queues < 2 ^ 16
        → TxEnds first w (onic_qdma_tx_queue_setup env w).0 (onic_qdma_tx_queue_setup env w).1
    unfolding onic_qdma_tx_queue_setup onic_qdma_tx_queue_release
    onic_qdma_tx_queue_setup-TxEnds l =
        elim (tx_setup_loop-SetUpEnds env first follow w.net.real_num_tx_queues 0 w
          (λ p. absurd (omega arith))) [
            | complete z base s ↦ rw z (
                tx_all refl s.same_priv (λ p. base (omega arith))
                  (tx_added-Flow w.net.real_num_tx_queues s))
            | stopped j lj bad e base s ↦
                let m = (tx_setup_loop w.net.real_num_tx_queues 0 env w).0.1 in
                let v = (tx_setup_loop w.net.real_num_tx_queues 0 env w).1 in
                let em : m ≡ j = omega arith in
                rw bad (
                  tx_none bad (rw (tx_release_loop-Adds env m 0 v).same_priv s.same_priv) (
                    Flow-eq
                      (Flow-trans (tx_added-Flow j s)
                        (tx_release-Flow first env m v (omega arith) (λ p. base (omega arith))))
                      (λ x. omega (arith, ap (λ t. sum_range t 0 (tx_unit first x)) em))))
          ]

    pub onic_qdma_rx_queue_setup-RxEnds :
        w.net.real_num_rx_queues < 2 ^ 16
        → RxEnds first w (onic_qdma_rx_queue_setup env w).0 (onic_qdma_rx_queue_setup env w).1
    unfolding onic_qdma_rx_queue_setup
    onic_qdma_rx_queue_setup-RxEnds l =
        let op = Op.alloc napi_structs w.net.real_num_rx_queues in
        let v : World = record (called op env w) {
          priv = record w.priv { napi = env.value w.log op };
        } in
        let fetched : Flow w v (λ x. 0) (λ x. 0) = record {
          same_net = refl;
          same_device = refl;
          flow = λ x. omega (
            arith,
            (alloc-IsIdle napi_structs w.net.real_num_rx_queues x).0,
            (alloc-IsIdle napi_structs w.net.real_num_rx_queues x).1,
          );
        } in
        elim (Bool-cases (env.value w.log op == 0)) [
          | inl null ↦ rw null (rx_none refl refl fetched)
          | inr found ↦
              rw found
                (elim (rx_setup_loop-SetUpEnds env first follow w.net.real_num_rx_queues 0 v
                  (λ p. absurd (omega arith))) [
                    | complete z base s ↦ rw z (
                        rx_all refl (KeepsRx-napi w.priv _ _ s.same_priv) (λ p. base (omega arith))
                          (Flow-eq (Flow-trans fetched (rx_added-Flow w.net.real_num_rx_queues s))
                            (λ x. omega arith)))
                    | stopped j lj bad e base s ↦
                        let m = (rx_setup_loop w.net.real_num_rx_queues 0 env v).0.1 in
                        let u = (rx_setup_loop w.net.real_num_rx_queues 0 env v).1 in
                        let em : m ≡ j = omega arith in
                        rw bad (
                          rx_none bad
                            (KeepsRx-napi w.priv (env.value w.log op)
                              (onic_qdma_rx_queue_release m env u).1.priv
                              (rw (rx_release-Adds first env m u).same_priv s.same_priv))
                            (Flow-eq
                              (Flow-trans fetched (
                                Flow-trans (rx_added-Flow j s) (
                                  rx_release-Flow first env m u (omega arith)
                                    (λ p. base (omega arith)))))
                              (λ x. omega (arith, ap (λ t. sum_range t 0 (rx_unit first x)) em))))
                  ])
        ]
