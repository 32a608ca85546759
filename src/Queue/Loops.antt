-- ===== src/Queue/Loops.antt =====
-- What each loop that removes, stops or starts queues leaves behind: the state that it keeps, and the
-- weight of the calls that it adds to the log.
use onic_driver.Base.{
  ℕ, zero, suc, ◌+◌, ◌<◌, ◌≡◌, ◌∙◌, refl, ap, inl, inr, true, Bool-cases, add64, sum_range, arith,
}
use onic_driver.Base.Int.{ℤ, pos, ne_zero}
use onic_driver.Kernel.{OnicPriv, Op, Env, Io, World, called}
use onic_driver.Kernel.Tally.{Weights, total}
use onic_driver.Queue.{rx_release_loop, tx_release_loop, stop_loop, start_loop}

-- `w'` differs from `w` at most in its log, whose weight has grown by `n`.
pub record Adds (w w' : World) (n : Weights → ℕ) : Type 0 where
  pub same_priv : w'.priv ≡ w.priv
  pub same_net : w'.net ≡ w.net
  pub same_stats : w'.stats ≡ w.stats
  pub grows : (g : Weights) → total g w'.log ≡ total g w.log + n g

pub Adds-refl : {w : World} → Adds w w (λ g. 0)
Adds-refl = record {
  same_priv = refl;
  same_net = refl;
  same_stats = refl;
  grows = λ g. omega arith;
}

pub Adds-trans :
    {u v w : World} {m n : Weights → ℕ} → Adds u v m → Adds v w n → Adds u w (λ g. m g + n g)
Adds-trans a b = record {
  same_priv = b.same_priv ∙ a.same_priv;
  same_net = b.same_net ∙ a.same_net;
  same_stats = b.same_stats ∙ a.same_stats;
  grows = λ g. omega (arith, a.grows g, b.grows g);
}

-- One more call in front.
pub Adds-step :
    {v w : World} {n : Weights → ℕ} (u : World) (m : Weights → ℕ)
    → v.priv ≡ u.priv
    → v.net ≡ u.net
    → v.stats ≡ u.stats
    → ((g : Weights) → total g v.log ≡ m g + total g u.log)
    → Adds v w n
    → Adds u w (λ g. m g + n g)
Adds-step u m p q r t a = record {
  same_priv = a.same_priv ∙ p;
  same_net = a.same_net ∙ q;
  same_stats = a.same_stats ∙ r;
  grows = λ g. omega (arith, a.grows g, t g);
}

pub Adds-eq :
    {v w : World} {m n : Weights → ℕ} → ((g : Weights) → m g ≡ n g) → Adds v w m → Adds v w n
Adds-eq e a = record {
  same_priv = a.same_priv;
  same_net = a.same_net;
  same_stats = a.same_stats;
  grows = λ g. omega (arith, a.grows g, e g);
}

module _ (env : Env) where
  pub rx_release_loop-Adds :
      (n q : ℕ) (w : World)
      → Adds w (rx_release_loop n q env w).1 λ g. sum_range n q λ i.
        g.other (Op.qdma_queue_remove w.priv.dev_handle (add64 w.priv.base_rx_q_handle i))
        + g.other (Op.netif_napi_del i)
  unfolding rx_release_loop
  rx_release_loop-Adds zero q w = Adds-refl
  rx_release_loop-Adds (suc n) q w =
      Adds-step w _ refl refl refl (λ g. omega arith) (rx_release_loop-Adds n (q + 1) _)

  pub tx_release_loop-Adds :
      (n q : ℕ) (w : World)
      → Adds w (tx_release_loop n q env w).1 λ g.
        sum_range n q
          λ i. g.other (Op.qdma_queue_remove w.priv.dev_handle (add64 w.priv.base_tx_q_handle i))
  unfolding tx_release_loop
  tx_release_loop-Adds zero q w = Adds-refl
  tx_release_loop-Adds (suc n) q w =
      Adds-step w _ refl refl refl (λ g. refl) (tx_release_loop-Adds n (q + 1) _)

  pub stop_loop-Adds :
      (base : OnicPriv → ℕ) (n q : ℕ) (err : ℤ) (w : World)
      → Adds w (stop_loop base n q err env w).1 λ g.
        sum_range n q λ i. g.other (Op.qdma_queue_stop w.priv.dev_handle (add64 (base w.priv) i))
  unfolding stop_loop
  stop_loop-Adds base zero q err w = Adds-refl
  stop_loop-Adds base (suc n) q err w =
      Adds-step w _ refl refl refl (λ g. refl) (stop_loop-Adds base n (q + 1) _ _)

-- How a loop that starts queues ends: all are started, or it has undone its work.
pub data Started (w : World) (h U : Weights → ℕ → ℕ) (n q : ℕ) (ret : ℤ) (w' : World) : Type 0 where
  all_started : ret ≡ pos 0 → Adds w w' (λ g. sum_range n q (h g)) → Started w h U n q ret w'
  undone :
      (j : ℕ)
      → j < n
      → ne_zero ret ≡ true
      → Adds w w' (λ g. sum_range j q (h g) + U g (q + j))
      → Started w h U n q ret w'

Started-step :
    {h U : Weights → ℕ → ℕ} {n q : ℕ} {ret : ℤ} {v w' : World} (w : World)
    → v.priv ≡ w.priv
    → v.net ≡ w.net
    → v.stats ≡ w.stats
    → ((g : Weights) → total g v.log ≡ h g q + total g w.log)
    → Started v h U n (q + 1) ret w'
    → Started w h U (suc n) q ret w'
Started-step w a b c d (all_started z s) = all_started z (Adds-step w _ a b c d s)
Started-step {h} {U} {q} w a b c d (undone j lt bad s) =
    let e = λ (g : Weights). ap (U g) {x = q + 1 + j} {y = q + suc j} (omega arith) in
    undone (suc j) (omega arith) bad (Adds-eq (λ g. omega (arith, e g)) (Adds-step w _ a b c d s))

module _ (env : Env) (base : OnicPriv → ℕ) (undo : ℕ → Io ℤ) (U : Weights → ℕ → ℕ) (p : OnicPriv)
    (undo-Adds : (q : ℕ) (v : World) → v.priv ≡ p → Adds v (undo q env v).1 (λ g. U g q)) where
  pub start_loop-Started :
      (n q : ℕ) (w : World)
      → w.priv ≡ p
      → Started w
          (λ g i. g.started (add64 (base p) i))
          U
          n
          q
          (start_loop base undo n q env w).0
          (start_loop base undo n q env w).1
  unfolding start_loop
  start_loop-Started zero q w e = all_started refl Adds-refl
  start_loop-Started (suc n) q w e =
      let op = Op.qdma_queue_start w.priv.dev_handle (add64 (base w.priv) q) in
      elim (Bool-cases (ne_zero (env.status w.log op))) [
        | inl bad ↦ rw bad (
            let same = λ (g : Weights). ap (U g) {x = q} {y = q + 0} (omega arith) in
            undone 0 (omega arith) bad (
              Adds-eq (λ g. omega (arith, same g))
                (Adds-step w (λ g. 0) refl refl refl (λ g. ground arith)
                  (undo-Adds q (called op env w) e))))
        | inr good ↦ rw good (
            Started-step w refl refl refl (λ g. rw (← e) (ground arith))
              (start_loop-Started n (q + 1) (called op env w) e))
      ]
