-- ===== src/Netdev/Open.antt =====
-- `onic_open` of onic_main.c and what it takes and gives back on each way through it.
use onic_driver.Base.{
  ℕ, ◌+◌, ◌<◌, ◌≡◌, ◌∙◌, refl, ap, subst, inl, inr, true, ◌==◌, Bool-cases, if◌then◌else◌,
  sum_range, arith,
}
use onic_driver.Base.Int.{ℤ, pos, ne_zero}
use onic_driver.Kernel.{
  OnicPriv, NetDevice, QType, Op, Io, ◌>>=◌, ◌>>◌, get, perform, pure, Env, World,
}
use onic_driver.Queue.{onic_qdma_rx_queue_setup, onic_qdma_tx_queue_setup, onic_qdma_start}
use onic_driver.Queue.Setup.{HandlesFollow, KeepsTx, RxBase, TxBase}
use onic_driver.Queue.Resource.{
  Resource, acquired, released, Flow, Flow-eq, Flow-trans, kfree-IsIdle,
}
use onic_driver.Queue.Release.{rx_run, tx_run}
use onic_driver.Queue.Running.{running_all, running_none, onic_qdma_start-StartEnds}
use onic_driver.Queue.Added.{
  tx_all, tx_none, rx_all, rx_none, onic_qdma_tx_queue_setup-TxEnds,
  onic_qdma_rx_queue_setup-RxEnds,
}
use onic_driver.Netdev.{
  onic_stats_alloc, onic_open_up, release_rx_queues, release_queues, onic_open,
}
use onic_driver.Netdev.Quiet.{Quiet-refl, called-Quiet, onic_open_up-Quiet, onic_stats_alloc-Flow}
use onic_driver.Netdev.Balance.{
  rx_units, tx_units, held, KnowsHandles, QueuesFit, QueuesFit-same, KnowsHandles-same, OpenEnds,
  opened, not_opened, release_rx_queues-Flow, release_queues-Flow,
}

-- A step that takes `c` in front; the amounts may be stated at the device before it.
Ends-after :
    {first : QType → ℕ} {a b c d e : Resource → ℕ} {ret : ℤ} {w' : World} (w v : World)
    → Flow w v c (λ x. 0)
    → ((x : Resource) → c x + a x ≡ d x)
    → ((x : Resource) → b x ≡ c x + e x)
    → OpenEnds first v a b ret w'
    → OpenEnds first w d e ret w'
Ends-after w v f da eb (opened z k g) =
    opened z k (Flow-eq (Flow-trans f g) (λ x. omega (arith, da x)))
Ends-after w v f da eb (not_opened bad g) =
    not_opened bad (Flow-eq (Flow-trans f g) (λ x. omega (arith, eb x)))

-- What is left of `onic_open` once both directions have their queues; once the receive queues are
-- there; and once the counters are there.
abbrev open_start : Io ℤ
open_start = do ret ← onic_qdma_start; if ne_zero ret then release_queues ret else onic_open_up

abbrev open_tx : Io ℤ
open_tx = do
  ret ← onic_qdma_tx_queue_setup
  if ne_zero ret then release_rx_queues ret else open_start

abbrev open_rx : Io ℤ
open_rx = do
  ret ← onic_qdma_rx_queue_setup
  if ne_zero ret then (do w ← get; perform (Op.kfree w.priv.tx_qstats); pure ret) else open_tx

abbrev runs : (QType → ℕ) → NetDevice → Resource → ℕ
runs first n x =
    sum_range n.real_num_rx_queues 0 (rx_run first x)
    + sum_range n.real_num_tx_queues 0 (tx_run first x)

release_rx_queues-ret : (env : Env) (ret : ℤ) (w : World) → (release_rx_queues ret env w).0 ≡ ret
unfolding release_rx_queues
release_rx_queues-ret env ret w = refl

release_queues-ret : (env : Env) (ret : ℤ) (w : World) → (release_queues ret env w).0 ≡ ret
unfolding release_queues
release_queues-ret env ret w = refl

module _ (first : QType → ℕ) (env : Env) where
  onic_open_up-ret : (w : World) → (onic_open_up env w).0 ≡ pos 0
  unfolding onic_open_up
  onic_open_up-ret w = refl

  open_start-Ends :
      (w : World)
      → QueuesFit w
      → KnowsHandles first w
      → OpenEnds first w
          (runs first w.net)
          (λ x. tx_units first w.net x + rx_units first w.net x)
          (open_start env w).0
          (open_start env w).1
  open_start-Ends w fit know =
      let v = (onic_qdma_start env w).1 in
      elim (onic_qdma_start-StartEnds first env w fit.rx fit.tx know.rx know.tx) [
        | running_none bad p f ↦
            let k = KnowsHandles-same {first = first} w v f.same_net p know in
            rw bad (
              not_opened (ap ne_zero (release_queues-ret env _ v) ∙ bad) (
                Flow-eq
                  (Flow-trans f
                    (release_queues-Flow first env v (QueuesFit-same f.same_net fit) k _))
                  (λ x. omega (
                    arith,
                    ap (λ n. rx_units first n x) f.same_net,
                    ap (λ n. tx_units first n x) f.same_net,
                  ))))
        | running_all z p f ↦
            let up = onic_open_up-Quiet env v in
            rw z (
              opened (onic_open_up-ret v)
                (KnowsHandles-same {first = first} w _ (up.quiet.same_net ∙ f.same_net)
                  (up.same_priv ∙ p) know)
                (Flow-eq (Flow-trans f up.quiet) (λ x. omega arith)))
      ]

module _ (first : QType → ℕ) (env : Env) (follow : HandlesFollow env first) where
  open_tx-Ends :
      (w : World)
      → QueuesFit w
      → (0 < w.net.real_num_rx_queues → RxBase first w.priv)
      → OpenEnds first w
          (λ x. tx_units first w.net x + runs first w.net x)
          (rx_units first w.net)
          (open_tx env w).0
          (open_tx env w).1
  open_tx-Ends w fit base =
      let v = (onic_qdma_tx_queue_setup env w).1 in
      elim (onic_qdma_tx_queue_setup-TxEnds first env follow w fit.tx) [
        | tx_none bad k f ↦ rw bad (
            not_opened (ap ne_zero (release_rx_queues-ret env _ v) ∙ bad) (
              Flow-eq
                (Flow-trans f (
                  release_rx_queues-Flow first env v (QueuesFit-same f.same_net fit) (rx_base v k f)
                    _))
                (λ x. omega (arith, ap (λ n. rx_units first n x) f.same_net))))
        | tx_all z k tx f ↦ rw z (
            Ends-after w v f (λ x. omega (arith, ap (λ n. runs first n x) f.same_net))
              (λ x. omega (
                arith,
                ap (λ n. rx_units first n x) f.same_net,
                ap (λ n. tx_units first n x) f.same_net,
              ))
              (open_start-Ends first env v (QueuesFit-same f.same_net fit)
                (record { rx = rx_base v k f; tx = tx_base v tx f })))
      ]
    where
      rx_base :
          (v : World) {a : Resource → ℕ}
          → KeepsTx w.priv v.priv
          → Flow w v a (λ x. 0)
          → 0 < v.net.real_num_rx_queues
          → RxBase first v.priv
      rx_base v k f l =
          ap (λ (p : OnicPriv). p.base_rx_q_handle) k
          ∙ base (subst (λ (n : NetDevice). 0 < n.real_num_rx_queues) f.same_net l)

      tx_base :
          (v : World) {a : Resource → ℕ}
          → (0 < w.net.real_num_tx_queues → TxBase first v.priv)
          → Flow w v a (λ x. 0)
          → 0 < v.net.real_num_tx_queues
          → TxBase first v.priv
      tx_base v tx f l = tx (subst (λ (n : NetDevice). 0 < n.real_num_tx_queues) f.same_net l)

  open_rx-Ends :
      (w : World)
      → QueuesFit w
      → OpenEnds first w (held first w.net) (λ x. 0) (open_rx env w).0 (open_rx env w).1
  open_rx-Ends w fit =
      let v = (onic_qdma_rx_queue_setup env w).1 in
      elim (onic_qdma_rx_queue_setup-RxEnds first env follow w fit.rx) [
        | rx_none bad k f ↦ rw bad (
            not_opened bad (
              Flow-eq
                (Flow-trans f
                  (called-Quiet env (Op.kfree v.priv.tx_qstats) v (λ g s u. refl)
                    (kfree-IsIdle _)).quiet)
                (λ x. omega arith)))
        | rx_all z k base f ↦ rw z (
            Ends-after w v f
              (λ x. omega (
                arith,
                ap (λ n. runs first n x) f.same_net,
                ap (λ n. tx_units first n x) f.same_net,
              ))
              (λ x. omega (arith, ap (λ n. rx_units first n x) f.same_net))
              (open_tx-Ends v (QueuesFit-same f.same_net fit)
                (λ l. base (subst (λ (n : NetDevice). 0 < n.real_num_rx_queues) f.same_net l))))
      ]

  pub onic_open-Ends :
      (netdev : ℕ) (w : World)
      → QueuesFit w
      → OpenEnds first w
          (held first w.net)
          (λ x. 0)
          (onic_open netdev env w).0
          (onic_open netdev env w).1
  unfolding onic_open
  onic_open-Ends netdev w fit = elim (Bool-cases (netdev == 0)) [
    | inl null ↦ rw null (not_opened refl (Quiet-refl {w = w}).quiet)
    | inr found ↦ rw found (elim (Bool-cases (env.priv_of netdev == 0)) [
      | inl null ↦ rw null (not_opened refl (Quiet-refl {w = w}).quiet)
      | inr found ↦ rw found (
          let v = (onic_stats_alloc (env.priv_of netdev) env w).1 in
          let f = onic_stats_alloc-Flow env (env.priv_of netdev) w in
          elim (Bool-cases (ne_zero (onic_stats_alloc (env.priv_of netdev) env w).0)) [
            | inl bad ↦ rw bad (not_opened bad f)
            | inr good ↦ rw good (
                Ends-after w v f (λ x. omega (arith, ap (λ n. held first n x) f.same_net))
                  (λ x. omega arith) (open_rx-Ends v (QueuesFit-same f.same_net fit)))
          ])
    ])
  ]

  module _ (netdev : ℕ) (w : World) (fit : QueuesFit w) where
    -- When `onic_open` returns an error, every queue, every running queue and every NAPI structure
    -- has been given back as often as it was taken. The handles of the queues follow one another,
    -- and the numbers of queues fit 16 bits.
    pub onic_open-fails_clean :
        ne_zero (onic_open netdev env w).0 ≡ true
        → (x : Resource)
        → acquired x (onic_open netdev env w).1.log + released x w.log
          ≡ released x (onic_open netdev env w).1.log + acquired x w.log
    onic_open-fails_clean bad x = elim (onic_open-Ends netdev w fit) [
      | opened z k f ↦ cc (ap ne_zero z)
      | not_opened b f ↦ omega (arith, f.flow x)
    ]

    -- When `onic_open` returns 0, what it has taken and not given back are exactly the queues of
    -- both directions, all of them running, and a NAPI structure for each receive queue. The
    -- handles of the queues follow one another, and the numbers of queues fit 16 bits.
    pub onic_open-holds :
        (onic_open netdev env w).0 ≡ pos 0
        → (x : Resource)
        → acquired x (onic_open netdev env w).1.log + released x w.log
          ≡ released x (onic_open netdev env w).1.log + acquired x w.log + held first w.net x
    onic_open-holds good x = elim (onic_open-Ends netdev w fit) [
      | opened z k f ↦ omega (arith, f.flow x)
      | not_opened bad f ↦ cc (ap ne_zero good)
    ]
