-- ===== src/Netdev/Balance.antt =====
-- What an interface holds of the resources of Queue/Resource, and how the error labels of
-- `onic_open` (onic_main.c) give it back.
use onic_driver.Base.{ℕ, ◌+◌, ◌^◌, ◌<◌, ◌≡◌, ap, sym, subst, subst₂, true, sum_range, arith}
use onic_driver.Base.Int.{ℤ, pos, ne_zero}
use onic_driver.Kernel.{OnicPriv, NetDevice, QType, Env, World}
use onic_driver.Queue.{onic_qdma_tx_queue_release}
use onic_driver.Queue.Loops.{tx_release_loop-Adds}
use onic_driver.Queue.Setup.{RxBase, TxBase}
use onic_driver.Queue.Resource.{Resource, Flow, Flow-eq, Flow-trans}
use onic_driver.Queue.Release.{rx_unit, tx_unit, rx_run, tx_run, rx_release-Flow, tx_release-Flow}
use onic_driver.Netdev.{release_rx_queues, release_queues}

-- What an open interface holds: its queues, running, with a NAPI structure for each receive queue.
abbrev pub held : (QType → ℕ) → NetDevice → Resource → ℕ
held first n x =
    sum_range n.real_num_rx_queues 0 (rx_unit first x)
    + sum_range n.real_num_tx_queues 0 (tx_unit first x)
    + sum_range n.real_num_rx_queues 0 (rx_run first x)
    + sum_range n.real_num_tx_queues 0 (tx_run first x)

-- The handles of the first queues are known where there is a queue.
pub record KnowsHandles (first : QType → ℕ) (w : World) : Type 0 where
  pub rx : 0 < w.net.real_num_rx_queues → RxBase first w.priv
  pub tx : 0 < w.net.real_num_tx_queues → TxBase first w.priv

-- The number of queues fits the `unsigned short` arguments of `onic_qdma_stop`.
pub record QueuesFit (w : World) : Type 0 where
  pub rx : w.net.real_num_rx_queues < 2 ^ 16
  pub tx : w.net.real_num_tx_queues < 2 ^ 16

-- How `onic_open`, or what is left of it, ends: it has taken `a`, or it has given back `b`.
pub data OpenEnds (first : QType → ℕ) (w : World) (a b : Resource → ℕ) (ret : ℤ) (w' : World)
    : Type 0 where
  opened : ret ≡ pos 0 → KnowsHandles first w' → Flow w w' a (λ x. 0) → OpenEnds first w a b ret w'
  not_opened : ne_zero ret ≡ true → Flow w w' (λ x. 0) b → OpenEnds first w a b ret w'

-- The units of the receive queues, and of the transmit queues, of a device.
abbrev pub rx_units : (QType → ℕ) → NetDevice → Resource → ℕ
rx_units first n x = sum_range n.real_num_rx_queues 0 (rx_unit first x)

abbrev pub tx_units : (QType → ℕ) → NetDevice → Resource → ℕ
tx_units first n x = sum_range n.real_num_tx_queues 0 (tx_unit first x)

pub QueuesFit-same : {u v : World} → v.net ≡ u.net → QueuesFit u → QueuesFit v
QueuesFit-same {u} {v} e f = record {
  rx = subst (λ (n : NetDevice). n.real_num_rx_queues < 2 ^ 16) (sym e) f.rx;
  tx = subst (λ (n : NetDevice). n.real_num_tx_queues < 2 ^ 16) (sym e) f.tx;
}

pub KnowsHandles-same :
    {first : QType → ℕ} (u v : World)
    → v.net ≡ u.net
    → v.priv ≡ u.priv
    → KnowsHandles first u
    → KnowsHandles first v
KnowsHandles-same {first} u v e p k = record {
  rx =
      subst₂ (λ (n : NetDevice) (q : OnicPriv). 0 < n.real_num_rx_queues → RxBase first q) (sym e)
        (sym p) k.rx;
  tx =
      subst₂ (λ (n : NetDevice) (q : OnicPriv). 0 < n.real_num_tx_queues → TxBase first q) (sym e)
        (sym p) k.tx;
}

module _ (first : QType → ℕ) (env : Env) (w : World) (fit : QueuesFit w) where
  pub release_rx_queues-Flow :
      (0 < w.net.real_num_rx_queues → RxBase first w.priv)
      → (ret : ℤ) → Flow w (release_rx_queues ret env w).1 (λ x. 0) (rx_units first w.net)
  unfolding release_rx_queues
  release_rx_queues-Flow base ret =
      rx_release-Flow first env w.net.real_num_rx_queues w (ground (arith, fit.rx)) base

module _ (first : QType → ℕ) (env : Env) (w : World) (fit : QueuesFit w)
    (know : KnowsHandles first w) where
  pub release_queues-Flow :
      (ret : ℤ)
      → Flow w
          (release_queues ret env w).1
          (λ x. 0)
          (λ x. tx_units first w.net x + rx_units first w.net x)
  unfolding release_queues
  release_queues-Flow ret =
      let m = w.net.real_num_tx_queues in
      let v = (onic_qdma_tx_queue_release m env w).1 in
      let t = tx_release_loop-Adds env m 0 w in
      let k = KnowsHandles-same {first = first} w v t.same_net t.same_priv know in
      Flow-eq
        (Flow-trans (tx_release-Flow first env m w (ground (arith, fit.tx)) know.tx)
          (release_rx_queues-Flow first env v (QueuesFit-same t.same_net fit) k.rx ret))
        (λ x. omega (arith, ap (λ n. rx_units first n x) t.same_net))
