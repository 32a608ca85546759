-- ===== src/Netdev/Stop.antt =====
-- `onic_stop` of onic_main.c, alone and after `onic_open`.
use onic_driver.Base.{ℕ, ◌+◌, ◌<◌, ◌≡◌, ◌∙◌, refl, ap, false, ◌==◌, arith}
use onic_driver.Base.Int.{pos, ne_zero}
use onic_driver.Kernel.{OnicPriv, QType, Op, Env, World, called}
use onic_driver.Queue.{onic_qdma_stop, onic_qdma_rx_queue_release, onic_qdma_tx_queue_release}
use onic_driver.Queue.Setup.{HandlesFollow}
use onic_driver.Queue.Resource.{
  Resource, acquired, released, Flow, Flow-eq, Flow-trans, kfree-IsIdle,
}
use onic_driver.Queue.Release.{rx_release-Flow, tx_release-Flow, rx_release-Adds}
use onic_driver.Queue.Running.{onic_qdma_stop-Flow, onic_qdma_stop-Adds}
use onic_driver.Netdev.{each_queue, onic_open, onic_stop}
use onic_driver.Netdev.Quiet.{up-Calls, Quiet-trans, called-Quiet, napi_disable-Quiet}
use onic_driver.Netdev.Balance.{held, KnowsHandles, QueuesFit, QueuesFit-same, opened, not_opened}
use onic_driver.Netdev.Open.{onic_open-Ends}

module _ (first : QType → ℕ) (env : Env) (netdev : ℕ) (w : World) where
  pub onic_stop-Flow :
      QueuesFit w
      → KnowsHandles first w
      → (netdev == 0) ≡ false
      → (env.priv_of netdev == 0) ≡ false
      → Flow w (onic_stop netdev env w).1 (λ x. 0) (held first w.net)
  unfolding onic_stop
  onic_stop-Flow fit know found has_priv =
      let n = w.net.real_num_rx_queues in
      let m = w.net.real_num_tx_queues in
      let down =
        Quiet-trans
          (Quiet-trans (up-Calls Op.netif_tx_stop_all_queues refl env w)
            (up-Calls Op.netif_carrier_off refl env _))
          (napi_disable-Quiet n 0 env _) in
      let v =
        (each_queue Op.napi_disable n 0 env
          (called Op.netif_carrier_off env (called Op.netif_tx_stop_all_queues env w))).1 in
      let v' = (onic_qdma_stop m n env v).1 in
      let v'' = (onic_qdma_rx_queue_release n env v').1 in
      let v3 = (onic_qdma_tx_queue_release m env v'').1 in
      let stops = onic_qdma_stop-Adds env m n v in
      let drops = rx_release-Adds first env n v' in
      let rx = λ (u : World) (e : u.priv ≡ w.priv) (l : 0 < n).
        ap (λ (p : OnicPriv). p.base_rx_q_handle) e ∙ know.rx l in
      let tx = λ (u : World) (e : u.priv ≡ w.priv) (l : 0 < m).
        ap (λ (p : OnicPriv). p.base_tx_q_handle) e ∙ know.tx l in
      let e1 = down.same_priv in
      let e2 = stops.same_priv ∙ e1 in
      let e3 = drops.same_priv ∙ e2 in
      rw (found, has_priv)
        (Flow-eq
          (Flow-trans down.quiet (
            Flow-trans (onic_qdma_stop-Flow first env m n v fit.tx fit.rx (rx v e1) (tx v e1)) (
              Flow-trans (rx_release-Flow first env n v' (ground (arith, fit.rx)) (rx v' e2)) (
                Flow-trans (tx_release-Flow first env m v'' (ground (arith, fit.tx)) (tx v'' e3))
                  (called-Quiet env (Op.kfree v3.priv.tx_qstats) v3 (λ g s u. refl)
                    (kfree-IsIdle _)).quiet))))
          (λ x. omega arith))

  -- `onic_stop`, on a network device that is not NULL and has a private part, gives back exactly
  -- the queues of both directions, as added and as running, and the NAPI structures, whatever the
  -- device answers. The numbers of queues fit 16 bits, and the private part holds the handles of
  -- the first queues.
  pub onic_stop-gives_back :
      QueuesFit w
      → KnowsHandles first w
      → (netdev == 0) ≡ false
      → (env.priv_of netdev == 0) ≡ false
      → (x : Resource)
      → released x (onic_stop netdev env w).1.log + acquired x w.log
        ≡ acquired x (onic_stop netdev env w).1.log + released x w.log + held first w.net x
  onic_stop-gives_back fit know found has_priv x =
      omega (arith, (onic_stop-Flow fit know found has_priv).flow x)

-- When `onic_open` has returned 0 on a network device that is not NULL and has a private part,
-- `onic_stop` right after it leaves every queue, running queue and NAPI structure given back as
-- often as taken, whatever the device answers. The handles of the queues follow one another, and
-- the numbers of queues fit 16 bits.
pub onic_open-onic_stop :
    (first : QType → ℕ) (env : Env) (netdev : ℕ) (w : World)
    → HandlesFollow env first
    → QueuesFit w
    → (netdev == 0) ≡ false
    → (env.priv_of netdev == 0) ≡ false
    → (onic_open netdev env w).0 ≡ pos 0
    → (x : Resource)
    → let w' = (onic_stop netdev env (onic_open netdev env w).1).1 in
      acquired x w'.log + released x w.log ≡ released x w'.log + acquired x w.log
onic_open-onic_stop first env netdev w follow fit found has_priv good x =
    let v = (onic_open netdev env w).1 in
    elim (onic_open-Ends first env follow netdev w fit) [
      | not_opened bad f ↦ cc (ap ne_zero good)
      | opened z know f ↦ omega (
        arith,
        f.flow x,
        (onic_stop-Flow first env netdev v (QueuesFit-same f.same_net fit) know found has_priv).flow
            x,
        ap (λ n. held first n x) f.same_net,
      )
    ]
