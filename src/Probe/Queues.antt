-- ===== src/Probe/Queues.antt =====
-- The queues of a device that `onic_pci_probe` (onic_main.c) has set up.
use onic_driver.Base.{
  ℕ, ◌+◌, ◌<◌, ◌^◌, ◌≡◌, ◌∙◌, ap, inl, inr, false, Bool-cases, ◌==◌, if-both, some, List, arith,
}
use onic_driver.Base.Int.{ℤ, ne_zero, pos}
use onic_driver.Kernel.{
  OnicPriv, zero_priv, PlatformInfo, OpsTable, Memory, QType, Op, Env, World, called, Io, pure,
}
use onic_driver.Kernel.Steps.{Frame}
use onic_driver.Ethtool.{onic_set_ethtool_ops}
use onic_driver.Json.{JsonLib}
use onic_driver.Stats.{onic_set_mac_address}
use onic_driver.Setup.{onic_set_num_queue, data_vectors}
use onic_driver.Setup.Steps.{onic_set_num_queue-Always}
use onic_driver.Queue.Setup.{HandlesFollow}
use onic_driver.Queue.Resource.{Resource, acquired, released}
use onic_driver.Netdev.Balance.{QueuesFit, QueuesFit-same}
use onic_driver.Netdev.Life.{Phase, Life, owns, Life-owns}
use onic_driver.Probe.{
  exit, onic_get_pinfo, set_real_num_tx_queues, set_real_num_rx_queues, probe_queues, probe_netdev,
  onic_pci_probe,
}
use onic_driver.Probe.Ranges.{ParsersFit, onic_get_pinfo-InRange}
use onic_driver.Probe.Ready.Attach.{probe_cache-Attached}
use onic_driver.Probe.Installed.{set_mac_address-front, onic_get_pinfo-same_net, set_num_queue-Kept}
use onic_driver.Probe.Balance.{onic_pci_probe-Ends}

-- The number of queues of the private part stays an `unsigned short`.
record Small (w v : World) : Type 0 where
  small : w.priv.nb_queues < 2 ^ 16 → v.priv.nb_queues < 2 ^ 16

Small-Frame : Frame Small
Small-Frame = record {
  stay = λ w. record { small = λ l. l };
  both = λ a b. record { small = λ l. b.small (a.small l) };
}

data_vectors-small : (n : ℤ) (info : PlatformInfo) → data_vectors n info < 2 ^ 16
data_vectors-small n info = ground arith

set_num_queue-Small : (env : Env) (w : World) → Small w (onic_set_num_queue env w).1
set_num_queue-Small env w =
    onic_set_num_queue-Always Small-Frame (λ op e env w. record { small = λ l. l })
      (λ n e u. record { small = λ l. data_vectors-small n u.priv.info }) env w

probe_queues-small :
    (p : OnicPriv) → p.info.used_queues < 2 ^ 16 → p.nb_queues < 2 ^ 16 → probe_queues p < 2 ^ 16
probe_queues-small p used own = ground (arith, used, own)

-- The numbers that the kernel takes over.
set_real_num_tx_queues-Fit :
    (env : Env) (k : ℕ) (w : World)
    → k < 2 ^ 16
    → QueuesFit w
    → QueuesFit (set_real_num_tx_queues k env w).1
set_real_num_tx_queues-Fit env k w l f =
    let op = Op.netif_set_real_num_tx_queues k in
    if-both (λ (j : Io _). QueuesFit (j env (called op env w)).1) (ne_zero (env.status w.log op))
      (pure tt) _ (record { rx = f.rx; tx = f.tx }) (record { rx = f.rx; tx = l })

set_real_num_rx_queues-Fit :
    (env : Env) (k : ℕ) (w : World)
    → k < 2 ^ 16
    → QueuesFit w
    → QueuesFit (set_real_num_rx_queues k env w).1
set_real_num_rx_queues-Fit env k w l f =
    let op = Op.netif_set_real_num_rx_queues k in
    if-both (λ (j : Io _). QueuesFit (j env (called op env w)).1) (ne_zero (env.status w.log op))
      (pure tt) _ (record { rx = f.rx; tx = f.tx }) (record { rx = l; tx = f.tx })

module _ (env : Env) where
  probe_netdev-Fit :
      (fuel pdev n pinfo : ℕ) (info : PlatformInfo) (dev_name : List ℕ) (w : World)
      → info.used_queues < 2 ^ 16
      → QueuesFit w
      → (probe_netdev fuel pdev n pinfo info dev_name env w).0 ≡ some (pos 0)
      → QueuesFit (probe_netdev fuel pdev n pinfo info dev_name env w).1
  unfolding probe_netdev onic_set_ethtool_ops exit
  probe_netdev-Fit fuel pdev n pinfo info dev_name w used f =
      let w1 = called (Op.pci_set_drvdata n) env w in
      let p = record zero_priv { netdev = n; pcidev = pdev; pinfo = pinfo; info = info } in
      let d = record w1.net {
        netdev_ops = OpsTable.onic_netdev_ops;
        ethtool_ops = OpsTable.onic_ethtool_ops;
        name = dev_name;
      } in
      let w2 = record w1 { net = d; priv = p } in
      let w3 = (onic_set_mac_address info.mac_addr env w2).1 in
      let r = onic_set_num_queue env w3 in
      let q = probe_queues r.1.priv in
      let w4 = (set_real_num_tx_queues q env r.1).1 in
      let w5 = (set_real_num_rx_queues q env w4).1 in
      let (a, l, b, c) = set_mac_address-front env info.mac_addr w2 in
      let k = set_num_queue-Kept env w3 in
      let rx = ap (λ d. d.real_num_rx_queues) (k.same_net ∙ b) in
      let tx = ap (λ d. d.real_num_tx_queues) (k.same_net ∙ b) in
      let same = ap (λ i. i.0.3.used_queues) k.same_device ∙ ap (λ p. p.info.used_queues) a in
      let own =
        (set_num_queue-Small env w3).small
          (omega (arith, ap {B = ℕ} (λ (p : OnicPriv). p.nb_queues) a)) in
      let small = probe_queues-small r.1.priv (omega (arith, same, used)) own in
      let f3 : QueuesFit r.1 = record {
        rx = omega (arith, rx, f.rx);
        tx = omega (arith, tx, f.tx);
      } in
      let f5 =
        set_real_num_rx_queues-Fit env q w4 small (set_real_num_tx_queues-Fit env q r.1 small f3) in
      elim (Bool-cases (ne_zero r.0)) [
        | inl bad ↦ rw bad (λ z. cc (z, bad))
        | inr good ↦
            rw good (λ z. QueuesFit-same (probe_cache-Attached env n fuel w5 z).same_net f5)
      ]

  onic_pci_probe-QueuesFit :
      (lib : JsonLib) (fuel pdev : ℕ) (file_name dev_name : List ℕ) (w : World)
      → ParsersFit lib
      → QueuesFit w
      → (onic_pci_probe lib fuel pdev file_name dev_name env w).0 ≡ some (pos 0)
      → QueuesFit (onic_pci_probe lib fuel pdev file_name dev_name env w).1
  unfolding onic_pci_probe
  onic_pci_probe-QueuesFit lib fuel pdev file_name dev_name w fit f =
      let r = onic_get_pinfo lib file_name env w in
      let op = Op.alloc Memory.net_device r.0.2.queue_max in
      let n = env.value r.1.log op in
      let range = onic_get_pinfo-InRange lib env file_name w fit in
      let same = onic_get_pinfo-same_net env lib file_name w in
      let g : QueuesFit r.1 = QueuesFit-same same f in
      elim (Bool-cases (ne_zero r.0.0)) [
        | inl bad ↦ rw bad (λ z. cc (z, bad))
        | inr good ↦ rw good (elim (Bool-cases (n == 0)) [
          | inl null ↦ rw null (λ z. cc z)
          | inr there ↦ rw there (
              probe_netdev-Fit fuel pdev n r.0.1 r.0.2 dev_name (called op env r.1)
                range.used_queues (record { rx = g.rx; tx = g.tx }))
        ])
      ]

-- After `onic_pci_probe` has returned 0, the interface of the network device that the private part names
-- implements the machine of two states, with no more to be assumed of the device: whatever life it
-- leads, it holds, beyond what was held after the probe, exactly its queues, running, and their NAPI
-- structures when it is up, and nothing when it is down. The handles of the queues follow one another,
-- the kernel's number parsers return values of their own types, a network device has a private part,
-- and the numbers of queues of the network device fit 16 bits before the probe.
pub onic_pci_probe-Life :
    (first : QType → ℕ) (env : Env) (lib : JsonLib) (fuel pdev : ℕ) (file_name dev_name : List ℕ)
    (w u : World) (phase : Phase)
    → HandlesFollow env first
    → ParsersFit lib
    → ((a : ℕ) → (a == 0) ≡ false → (env.priv_of a == 0) ≡ false)
    → QueuesFit w
    → let r = onic_pci_probe lib fuel pdev file_name dev_name env w in
      r.0 ≡ some (pos 0)
      → Life env r.1.priv.netdev r.1 u phase
      → (x : Resource)
      → acquired x u.log + released x r.1.log
        ≡ released x u.log + acquired x r.1.log + owns first r.1.net phase x
onic_pci_probe-Life first env lib fuel pdev file_name dev_name w u phase follow fit has f z life x =
    let v = (onic_pci_probe lib fuel pdev file_name dev_name env w).1 in
    let (n, ends, found) = onic_pci_probe-Ends env lib fuel pdev file_name dev_name w in
    let there = ap (λ a. a == 0) (found z).1 ∙ (found z).0 in
    Life-owns first env v.priv.netdev v follow
      (onic_pci_probe-QueuesFit env lib fuel pdev file_name dev_name w fit f z) there
      (has v.priv.netdev there) u phase life x
