-- ===== src/Probe/Balance.antt =====
-- `onic_pci_probe` and `onic_pci_remove` of onic_main.c as a whole, by the assets that they move.
use onic_driver.Base.{
  ℕ, ◌+◌, ◌≡◌, ◌∙◌, refl, ap, inl, inr, true, false, Bool-cases, ◌==◌, if◌then◌else◌, some, List,
  arith,
}
use onic_driver.Base.Int.{ℤ, pos, ne_zero, enodev}
use onic_driver.Kernel.{
  zero_priv, PlatformInfo, OpsTable, Memory, Op, Env, World, called, Io, pure, ◌>>=◌, ◌>>◌, get,
  modify_net, perform,
}
use onic_driver.Ethtool.{onic_set_ethtool_ops}
use onic_driver.Json.{JsonLib}
use onic_driver.Setup.{onic_set_num_queue}
use onic_driver.Stats.{onic_set_mac_address}
use onic_driver.Cmac.{onic_disable_cmac}
use onic_driver.Probe.{
  probe_netdev, onic_get_pinfo, onic_pci_probe, onic_pci_remove, set_real_num_tx_queues,
  set_real_num_rx_queues, probe_queues,
}
use onic_driver.Probe.Assets.{
  Asset, gained, lost, refs, with_netdev, with_cache, with_device, with_mapping, owned, Change,
  Change-trans, called-Gains, called-Loses, free_netdev-Loses, kmem_cache_destroy-Loses,
  qdma_device_close-Loses, iounmap-Loses, unregister_netdev-Loses, alloc-Gains,
}
use onic_driver.Probe.Neutral.{
  IsNeutral, branch, Still-refl, Still-trans, Still-Change, IsPlain, called-Still,
}
use onic_driver.Probe.Neutral.File.{kfree-IsPlain, onic_get_pinfo-IsNeutral}
use onic_driver.Probe.Neutral.Port.{onic_disable_cmac-IsNeutral}
use onic_driver.Probe.Neutral.Setup.{onic_set_mac_address-IsNeutral, onic_set_num_queue-IsNeutral}
use onic_driver.Probe.Outcome.{
  nothing, ProbeEnds, probed, failed, waiting, Ends-after, called-idle, exit-Change, mapping-Still,
}
use onic_driver.Probe.Ends.{exit-ret}
use onic_driver.Probe.Whole.{probe_cache-Ends}
use onic_driver.Probe.Installed.{probe_netdev-Installed}

set_drvdata-IsPlain : (a : ℕ) → IsPlain (Op.pci_set_drvdata a)
set_drvdata-IsPlain a x = (λ s u. ground arith, ground arith)

tx_queues-IsPlain : (a : ℕ) → IsPlain (Op.netif_set_real_num_tx_queues a)
tx_queues-IsPlain a x = (λ s u. ground arith, ground arith)

rx_queues-IsPlain : (a : ℕ) → IsPlain (Op.netif_set_real_num_rx_queues a)
rx_queues-IsPlain a x = (λ s u. ground arith, ground arith)

set_real_num_tx_queues-IsNeutral : (k : ℕ) → IsNeutral (set_real_num_tx_queues k)
set_real_num_tx_queues-IsNeutral k env w =
    let op = Op.netif_set_real_num_tx_queues k in
    Still-trans (called-Still (tx_queues-IsPlain k) env w) (
      branch (ne_zero (env.status w.log op)) (pure tt)
        (modify_net (λ d. record d { real_num_tx_queues = k })) (λ e u. Still-refl)
        (λ e u. record { same_gained = λ x. refl; same_lost = λ x. refl; same_refs = refl }) env
        (called op env w))

set_real_num_rx_queues-IsNeutral : (k : ℕ) → IsNeutral (set_real_num_rx_queues k)
set_real_num_rx_queues-IsNeutral k env w =
    let op = Op.netif_set_real_num_rx_queues k in
    Still-trans (called-Still (rx_queues-IsPlain k) env w) (
      branch (ne_zero (env.status w.log op)) (pure tt)
        (modify_net (λ d. record d { real_num_rx_queues = k })) (λ e u. Still-refl)
        (λ e u. record { same_gained = λ x. refl; same_lost = λ x. refl; same_refs = refl }) env
        (called op env w))

module _ (env : Env) where
  probe_netdev-Ends :
      (fuel pdev n pinfo : ℕ) (info : PlatformInfo) (dev_name : List ℕ) (w : World)
      → let r = probe_netdev fuel pdev n pinfo info dev_name env w in
        ProbeEnds n w (with_netdev n) r.0 r.1
  unfolding probe_netdev onic_set_ethtool_ops
  probe_netdev-Ends fuel pdev n pinfo info dev_name w =
      let h = with_netdev n in
      let w1 = called (Op.pci_set_drvdata n) env w in
      let p = record zero_priv { netdev = n; pcidev = pdev; pinfo = pinfo; info = info } in
      let d = record w1.net {
        netdev_ops = OpsTable.onic_netdev_ops;
        ethtool_ops = OpsTable.onic_ethtool_ops;
        name = dev_name;
      } in
      let w2 = record w1 { net = d; priv = p } in
      let w3 = (onic_set_mac_address info.mac_addr env w2).1 in
      let r = onic_set_num_queue env w3 in
      let q = probe_queues r.1.priv in
      let w4 = (set_real_num_tx_queues q env r.1).1 in
      let w5 = (set_real_num_rx_queues q env w4).1 in
      let begun =
        Change-trans w w2 r.1
          (record { change = (Still-Change h (called-Still (set_drvdata-IsPlain n) env w)).change })
          (Still-Change h (
            Still-trans (onic_set_mac_address-IsNeutral info.mac_addr env w2)
              (onic_set_num_queue-IsNeutral env w3))) in
      elim (Bool-cases (ne_zero r.0)) [
        | inl bad ↦ rw bad (
            failed r.0 (exit-ret env n r.0 r.1) bad
              (Change-trans w r.1 _ begun (exit-Change env n r.0 r.1)))
        | inr good ↦ rw good (
            Ends-after w r.1 begun (
              Ends-after r.1 w5
                (Still-Change h (
                  Still-trans (set_real_num_tx_queues-IsNeutral q env r.1)
                    (set_real_num_rx_queues-IsNeutral q env w4)))
                (probe_cache-Ends env n fuel w5)))
      ]

  pub onic_pci_probe-Ends :
      (lib : JsonLib) (fuel pdev : ℕ) (file_name dev_name : List ℕ) (w : World)
      → let r = onic_pci_probe lib fuel pdev file_name dev_name env w in
        (n : ℕ) × ProbeEnds n w nothing r.0 r.1
        × (r.0 ≡ some (pos 0) → ((n == 0) ≡ false) × (r.1.priv.netdev ≡ n))
  unfolding onic_pci_probe
  onic_pci_probe-Ends lib fuel pdev file_name dev_name w =
      let r = onic_get_pinfo lib file_name env w in
      let op = Op.alloc Memory.net_device r.0.2.queue_max in
      let n = env.value r.1.log op in
      let v = called op env r.1 in
      let f = Still-Change nothing (onic_get_pinfo-IsNeutral lib file_name env w) in
      elim (Bool-cases (ne_zero r.0.0)) [
        | inl bad ↦ rw bad (0, failed r.0.0 refl bad f, λ z. cc (z, bad))
        | inr good ↦ rw good (elim (Bool-cases (n == 0)) [
          | inl null ↦ rw null (
            0,
            failed enodev refl refl (
                Change-trans w r.1 v f
                  (called-idle env op r.1 nothing (λ x. ground (arith, null)) (λ x. ground arith))),
            λ z. cc z,
          )
          | inr there ↦ rw there (
            n,
            Ends-after w r.1 f (
                Ends-after r.1 v
                  (called-Gains env op r.1 (Asset.net_device n) nothing
                    (alloc-Gains r.0.2.queue_max n (env.status r.1.log op) there))
                  (probe_netdev-Ends fuel pdev n r.0.1 r.0.2 dev_name v)),
            λ z. (there, (probe_netdev-Installed env fuel pdev n r.0.1 r.0.2 dev_name v there z).1),
          )
        ])
      ]

  -- What `onic_pci_remove` does once the port is down.
  abbrev remove_rest : ℕ → Io (Unit {0})
  remove_rest n = do
    w ← get
    (if w.priv.bar_base == 0 then pure tt else perform (Op.iounmap w.priv.bar_base))
    perform (Op.qdma_device_close w.priv.dev_handle)
    perform (Op.kmem_cache_destroy w.priv.dma_req)
    perform (Op.kfree w.priv.pinfo)
    perform (Op.free_netdev n)

  remove_rest-Change :
      (n : ℕ) (w : World)
      → (w.priv.bar_base == 0) ≡ false
      → Change w (remove_rest n env w).1 (with_mapping n (refs w.priv)) nothing
  remove_rest-Change n w bar =
      let (c, d, b) = refs w.priv in
      let w1 = called (Op.iounmap b) env w in
      let w2 = called (Op.qdma_device_close d) env w1 in
      let w3 = called (Op.kmem_cache_destroy c) env w2 in
      let w4 = called (Op.kfree w.priv.pinfo) env w3 in
      rw bar (
        Change-trans w w1 _
          (called-Loses env (Op.iounmap b) w (Asset.mapping b) (with_device n (c, d))
            (iounmap-Loses b))
          (Change-trans w1 w2 _
            (called-Loses env (Op.qdma_device_close d) w1 (Asset.device d) (with_cache n c)
              (qdma_device_close-Loses d))
            (Change-trans w2 w3 _
              (called-Loses env (Op.kmem_cache_destroy c) w2 (Asset.cache c) (with_netdev n)
                (kmem_cache_destroy-Loses c))
              (Change-trans w3 w4 _
                (Still-Change (with_netdev n) (called-Still (kfree-IsPlain w.priv.pinfo) env w3))
                (called-Loses env (Op.free_netdev n) w4 (Asset.net_device n) nothing
                  (free_netdev-Loses n))))))

  pub onic_pci_remove-Change :
      (n : ℕ) (w : World)
      → (n == 0) ≡ false
      → (env.priv_of n == 0) ≡ false
      → (w.priv.bar_base == 0) ≡ false
      → Change w (onic_pci_remove n env w).1 (owned n w.priv) nothing
  unfolding onic_pci_remove
  onic_pci_remove-Change n w found has_priv bar =
      let w1 = called (Op.pci_set_drvdata 0) env w in
      let w2 = called (Op.unregister_netdev n) env w1 in
      let w3 = (onic_disable_cmac env w2).1 in
      let s = onic_disable_cmac-IsNeutral env w2 in
      rw (found, has_priv)
        (Change-trans w w1 _
          (Still-Change (owned n w.priv) (called-Still (set_drvdata-IsPlain 0) env w))
          (Change-trans w1 w2 _
            (called-Loses env (Op.unregister_netdev n) w1 (Asset.registration n)
              (with_mapping n (refs w.priv)) (unregister_netdev-Loses n))
            (Change-trans w2 w3 _ (mapping-Still env n w2 w3 s)
              (remove_rest-Change n w3 (ap (λ r. r.2 == 0) s.same_refs ∙ bar)))))

-- When `onic_pci_probe` returns an error, it has given back every network device, request cache, open
-- device, mapping and registration as often as it took one.
pub onic_pci_probe-fails_clean :
    (env : Env) (lib : JsonLib) (fuel pdev : ℕ) (file_name dev_name : List ℕ) (w : World) (e : ℤ)
    → (onic_pci_probe lib fuel pdev file_name dev_name env w).0 ≡ some e
    → ne_zero e ≡ true
    → (x : Asset)
    → let w' = (onic_pci_probe lib fuel pdev file_name dev_name env w).1 in
      gained x w'.log + lost x w.log ≡ lost x w'.log + gained x w.log
onic_pci_probe-fails_clean env lib fuel pdev file_name dev_name w e z bad x =
    let (n, ends, found) = onic_pci_probe-Ends env lib fuel pdev file_name dev_name w in
    elim ends [
      | waiting y ↦ cc (y, z)
      | probed y b f ↦ cc (y, z, bad)
      | failed d y b f ↦ omega (arith, f.change x)
    ]

-- After `onic_pci_probe` has returned 0, `onic_pci_remove` of the network device that was made gives
-- back, one for one, every network device, request cache, open device, mapping and registration that
-- the probe took. A network device is assumed to have a private part.
pub onic_pci_probe-onic_pci_remove :
    (env : Env) (lib : JsonLib) (fuel pdev : ℕ) (file_name dev_name : List ℕ) (w : World)
    → ((a : ℕ) → (a == 0) ≡ false → (env.priv_of a == 0) ≡ false)
    → (onic_pci_probe lib fuel pdev file_name dev_name env w).0 ≡ some (pos 0)
    → (netdev : ℕ) × ((netdev == 0) ≡ false)
      × ((x : Asset)
          → let v = (onic_pci_probe lib fuel pdev file_name dev_name env w).1 in
            let w' = (onic_pci_remove netdev env v).1 in
            gained x w'.log + lost x w.log ≡ lost x w'.log + gained x w.log)
onic_pci_probe-onic_pci_remove env lib fuel pdev file_name dev_name w has z =
    let v = (onic_pci_probe lib fuel pdev file_name dev_name env w).1 in
    let (n, ends, found) = onic_pci_probe-Ends env lib fuel pdev file_name dev_name w in
    elim ends [
      | waiting y ↦ cc (y, z)
      | failed d y b f ↦ cc (y, z, b)
      | probed y b f ↦ (
        n,
        (found z).0,
        λ x. omega (
          arith,
          f.change x,
          (onic_pci_remove-Change env n v (found z).0 (has n (found z).0) b).change x,
        ),
      )
    ]
