-- ===== src/Queue/Setup.antt =====
-- What the loops that add queues leave behind (onic_main.c, `onic_qdma_rx_queue_setup` and
-- `onic_qdma_tx_queue_setup`).
use onic_driver.Base.{
  ℕ, zero, suc, ◌+◌, ◌%◌, ◌^◌, ◌<◌, ◌≡◌, ◌∙◌, refl, inl, inr, true, ◌==◌, Bool-cases, ==→eq, add64,
  sum_range, arith,
}
use onic_driver.Base.Int.{ne_zero-false, ℤ, pos, ne_zero}
use onic_driver.Kernel.{OnicPriv, QueueConf, QType, q_h2c, q_c2h, Op, Log, Env, World}
use onic_driver.Kernel.Tally.{Weights, total}
use onic_driver.Queue.{
  rx_queue_conf, onic_qdma_rx_queue_add, rx_setup_loop, tx_queue_conf, tx_setup_loop,
}

-- What the driver relies on when it computes the handle of queue `i` from that of queue 0:
-- `qdma_queue_add` answers with handles that follow one another in each direction.
abbrev pub HandlesFollow : Env → (QType → ℕ) → Type 0
HandlesFollow env first =
    (l : Log) (d : ℕ) (c : QueueConf)
    → env.status l (Op.qdma_queue_add d c) ≡ pos 0
    → env.value l (Op.qdma_queue_add d c) ≡ add64 (first c.q_type) c.qidx

-- The private part but for the handle of the first queue.
abbrev pub KeepsRx : OnicPriv → OnicPriv → Type 0
KeepsRx p p' = p' ≡ record p { base_rx_q_handle = p'.base_rx_q_handle }

abbrev pub KeepsTx : OnicPriv → OnicPriv → Type 0
KeepsTx p p' = p' ≡ record p { base_tx_q_handle = p'.base_tx_q_handle }

-- `w'` comes from `w` by calls of weight `n`; `Keeps` relates the private parts.
pub record SetUp (Keeps : OnicPriv → OnicPriv → Type 0) (w w' : World) (n : Weights → ℕ)
    : Type 0 where
  pub same_priv : Keeps w.priv w'.priv
  pub same_net : w'.net ≡ w.net
  pub same_stats : w'.stats ≡ w.stats
  pub grows : (g : Weights) → total g w'.log ≡ total g w.log + n g

-- How such a loop ends: all `n` queues are added, or it stops at the queue `q + j`.
pub data SetUpEnds (Keeps : OnicPriv → OnicPriv → Type 0) (Base : OnicPriv → Type 0) (w : World)
    (f : Weights → ℕ → ℕ) (n q : ℕ) (r : ℤ × ℕ) (w' : World) : Type 0 where
  complete :
      r.0 ≡ pos 0
      → (0 < q + n → Base w'.priv)
      → SetUp Keeps w w' (λ g. sum_range n q (f g))
      → SetUpEnds Keeps Base w f n q r w'
  stopped :
      (j : ℕ)
      → j < n
      → ne_zero r.0 ≡ true
      → r.1 ≡ q + j
      → (0 < q + j → Base w'.priv)
      → SetUp Keeps w w' (λ g. sum_range j q (f g))
      → SetUpEnds Keeps Base w f n q r w'

SetUpEnds-step :
    {Keeps : OnicPriv → OnicPriv → Type 0} {Base : OnicPriv → Type 0} {f : Weights → ℕ → ℕ}
    {n q : ℕ} {r : ℤ × ℕ} {v w' : World} (w : World)
    → (Keeps v.priv w'.priv → Keeps w.priv w'.priv)
    → v.net ≡ w.net
    → v.stats ≡ w.stats
    → ((g : Weights) → total g v.log ≡ f g q + total g w.log)
    → SetUpEnds Keeps Base v f n (q + 1) r w'
    → SetUpEnds Keeps Base w f (suc n) q r w'
SetUpEnds-step w keep a b t (complete z h s) =
    complete z (λ l. h (omega arith))
      (record {
        same_priv = keep s.same_priv;
        same_net = s.same_net ∙ a;
        same_stats = s.same_stats ∙ b;
        grows = λ g. omega (arith, s.grows g, t g);
      })
SetUpEnds-step w keep a b t (stopped j lt bad e h s) =
    stopped (suc j) (omega arith) bad (omega arith) (λ l. h (omega arith))
      (record {
        same_priv = keep s.same_priv;
        same_net = s.same_net ∙ a;
        same_stats = s.same_stats ∙ b;
        grows = λ g. omega (arith, s.grows g, t g);
      })

-- The weight of one receive queue that is added, and of one transmit queue.
abbrev pub rx_added : (QType → ℕ) → Weights → ℕ → ℕ
rx_added first g i = g.added (add64 (first q_c2h) (i % 2 ^ 24)) + g.other (Op.netif_napi_add i)

abbrev pub tx_added : (QType → ℕ) → Weights → ℕ → ℕ
tx_added first g i = g.added (add64 (first q_h2c) (i % 2 ^ 24))

abbrev pub RxBase : (QType → ℕ) → OnicPriv → Type 0
RxBase first p = p.base_rx_q_handle ≡ add64 (first q_c2h) 0

abbrev pub TxBase : (QType → ℕ) → OnicPriv → Type 0
TxBase first p = p.base_tx_q_handle ≡ add64 (first q_h2c) 0

module _ (env : Env) (first : QType → ℕ) (follow : HandlesFollow env first) where
  pub tx_setup_loop-SetUpEnds :
      (n q : ℕ) (w : World)
      → (0 < q → TxBase first w.priv)
      → SetUpEnds KeepsTx
          (TxBase first)
          w
          (tx_added first)
          n
          q
          (tx_setup_loop n q env w).0
          (tx_setup_loop n q env w).1
  unfolding tx_setup_loop tx_queue_conf
  tx_setup_loop-SetUpEnds zero q w h =
      complete refl (λ l. h (omega arith))
        (record { same_priv = refl; same_net = refl; same_stats = refl; grows = λ g. omega arith })
  tx_setup_loop-SetUpEnds (suc n) q w h =
      let op = Op.qdma_queue_add w.priv.dev_handle (tx_queue_conf w.priv q) in
      elim (Bool-cases (ne_zero (env.status w.log op))) [
        | inl bad ↦ rw bad (
            stopped 0 (omega arith) bad (omega arith) (λ l. h (omega arith))
              (record {
                same_priv = refl;
                same_net = refl;
                same_stats = refl;
                grows = λ g. ground arith;
              }))
        | inr good ↦
            let e =
              follow w.log w.priv.dev_handle (tx_queue_conf w.priv q) (ne_zero-false _ good) in
            rw good (elim (Bool-cases (q == 0)) [
              | inl is_first ↦ rw is_first (
                  SetUpEnds-step w (λ s. s) refl refl (λ g. rw (good, e))
                    (tx_setup_loop-SetUpEnds n (q + 1) _
                      (λ l. omega (arith, e, ==→eq q 0 is_first))))
              | inr later ↦ rw later (
                  SetUpEnds-step w (λ s. s) refl refl (λ g. rw (good, e))
                    (tx_setup_loop-SetUpEnds n (q + 1) _ (λ l. h (ground arith))))
            ])
      ]

  pub rx_setup_loop-SetUpEnds :
      (n q : ℕ) (w : World)
      → (0 < q → RxBase first w.priv)
      → SetUpEnds KeepsRx
          (RxBase first)
          w
          (rx_added first)
          n
          q
          (rx_setup_loop n q env w).0
          (rx_setup_loop n q env w).1
  unfolding rx_setup_loop onic_qdma_rx_queue_add rx_queue_conf
  rx_setup_loop-SetUpEnds zero q w h =
      complete refl (λ l. h (omega arith))
        (record { same_priv = refl; same_net = refl; same_stats = refl; grows = λ g. omega arith })
  rx_setup_loop-SetUpEnds (suc n) q w h =
      let conf = rx_queue_conf w.priv q w.priv.rx_timer_idx w.priv.rx_cnt_th_idx in
      let op = Op.qdma_queue_add w.priv.dev_handle conf in
      elim (Bool-cases (ne_zero (env.status w.log op))) [
        | inl bad ↦
            rw (bad, bad)
              (stopped 0 (omega arith) bad (omega arith) (λ l. h (omega arith))
                (record {
                  same_priv = refl;
                  same_net = refl;
                  same_stats = refl;
                  grows = λ g. ground arith;
                }))
        | inr good ↦
            let e = follow w.log w.priv.dev_handle conf (ne_zero-false _ good) in
            rw good (elim (Bool-cases (q == 0)) [
              | inl is_first ↦ rw is_first (
                  SetUpEnds-step w (λ s. s) refl refl (λ g. rw (good, e) (omega arith))
                    (rx_setup_loop-SetUpEnds n (q + 1) _
                      (λ l. omega (arith, e, ==→eq q 0 is_first))))
              | inr later ↦ rw later (
                  SetUpEnds-step w (λ s. s) refl refl (λ g. rw (good, e) (omega arith))
                    (rx_setup_loop-SetUpEnds n (q + 1) _ (λ l. h (ground arith))))
            ])
      ]
