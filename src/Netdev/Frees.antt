-- ===== src/Netdev/Frees.antt =====
-- The memory of an interface that goes up and down again (onic_main.c: `onic_open`, `onic_stop`).
use onic_driver.Base.{ℕ, ◌+◌, ◌≡◌, ◌∙◌, refl, ap, false, ◌==◌, if◌then◌else◌, arith}
use onic_driver.Base.Int.{pos, ne_zero}
use onic_driver.Kernel.{Op, Env, World, called}
use onic_driver.Kernel.Ledger.{Moves, taken, given}
use onic_driver.Kernel.Blocks.{memory, block, kfree-Moves}
use onic_driver.Queue.{onic_qdma_rx_queue_release, onic_qdma_tx_queue_release, onic_qdma_stop}
use onic_driver.Netdev.{each_queue, onic_open, onic_stop}
use onic_driver.Netdev.Blocks.{
  Fixed-Frame, called-Fixed, rx_release-Moves, stop-Fixed, tx_release-Fixed, napi_disable-Fixed,
}
use onic_driver.Netdev.Allocs.{nothing_held, counters_held, onic_open-OpenMemory}

module _ (env : Env) (netdev : ℕ) where
  onic_stop-Moves :
      (w : World)
      → (netdev == 0) ≡ false
      → (env.priv_of netdev == 0) ≡ false
      → Moves memory w
          (onic_stop netdev env w).1
          (λ a. block w.priv.tx_qstats a + block w.priv.napi a)
          (λ a. 0)
  unfolding onic_stop
  onic_stop-Moves w found has_priv =
      let n = w.net.real_num_rx_queues in
      let m = w.net.real_num_tx_queues in
      let w1 = called Op.netif_tx_stop_all_queues env w in
      let w2 = called Op.netif_carrier_off env w1 in
      let w3 = (each_queue Op.napi_disable n 0 env w2).1 in
      let w4 = (onic_qdma_stop m n env w3).1 in
      let w5 = (onic_qdma_rx_queue_release n env w4).1 in
      let w6 = (onic_qdma_tx_queue_release m env w5).1 in
      let f = Fixed-Frame.both (called-Fixed env Op.netif_tx_stop_all_queues w refl) (
        Fixed-Frame.both (called-Fixed env Op.netif_carrier_off w1 refl)
          (Fixed-Frame.both (napi_disable-Fixed env n 0 env w2) (stop-Fixed env m n env w3))) in
      let (k, e) = rx_release-Moves env n w4 in
      let g = tx_release-Fixed env m env w5 in
      rw (found, has_priv)
        (record {
          moves = λ a. omega (
            arith,
            f.rests.moves a,
            k.moves a,
            g.rests.moves a,
            (kfree-Moves env w6.priv.tx_qstats w6).moves a,
            ap (λ p. block p a) f.same_napi,
            ap (λ p. block p a) (g.same_stats ∙ e ∙ f.same_stats),
          );
        })

  -- When `onic_open` has returned 0 on a network device that is not NULL and has a private part,
  -- `onic_stop` right after it leaves each block of memory freed as often as it was allocated, whatever
  -- the device answers.
  pub onic_open-onic_stop-memory :
      (w : World)
      → (netdev == 0) ≡ false
      → (env.priv_of netdev == 0) ≡ false
      → (onic_open netdev env w).0 ≡ pos 0
      → (a : ℕ)
      → let w' = (onic_stop netdev env (onic_open netdev env w).1).1 in
        taken memory a w'.log + given memory a w.log ≡ given memory a w'.log + taken memory a w.log
  onic_open-onic_stop-memory w found has_priv good a =
      let v = (onic_open netdev env w).1 in
      let stop = onic_stop-Moves v found has_priv in
      elim (onic_open-OpenMemory env netdev w) [
        | nothing_held bad m ↦ cc (ap ne_zero good)
        | counters_held m ↦ omega (
          arith,
          m.moves a,
          stop.moves a,
          ap {B = ℕ} (λ r. if ne_zero r then 0 else block v.priv.napi a) good,
        )
      ]
