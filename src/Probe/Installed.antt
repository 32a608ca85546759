-- ===== src/Probe/Installed.antt =====
-- The device after a successful `onic_pci_probe` (onic_main.c).
use onic_driver.Base.{
  ℕ, ◌≡◌, ◌∙◌, refl, ap, subst, inl, inr, false, Bool-cases, ◌==◌, if◌then◌else◌, some, List,
  if-both, arith,
}
use onic_driver.Base.Int.{ne_zero, pos}
use onic_driver.Kernel.{
  zero_priv, PlatformInfo, NetDevice, OpsTable, Memory, Op, Env, World, called, Log, Io, pure,
}
use onic_driver.Kernel.Steps.{Frame}
use onic_driver.Kernel.Ledger.{Rests}
use onic_driver.Kernel.Blocks.{memory, called-Rests}
use onic_driver.Ethtool.{onic_set_ethtool_ops}
use onic_driver.Json.{JsonLib}
use onic_driver.Stats.{is_valid_ether_addr, onic_set_mac_address}
use onic_driver.Setup.{onic_set_num_queue}
use onic_driver.Setup.Index.{IndicesSet}
use onic_driver.Setup.Report.{
  Grows, Grows-refl, Grows-trans, Grows-Frame, called-Grows, Reported, Reported-between,
}
use onic_driver.Setup.Steps.{onic_set_num_queue-Always}
use onic_driver.Probe.{
  exit, onic_get_pinfo, set_real_num_tx_queues, set_real_num_rx_queues, probe_queues, probe_cache,
  probe_netdev, onic_pci_probe,
}
use onic_driver.Probe.Steps.{onic_get_pinfo-Always}
use onic_driver.Probe.Ready.Attach.{probe_cache-Attached}
use onic_driver.Probe.Ready.{identity, setup-Calls, Kept, Kept-Frame, priv-Kept}

-- What `onic_pci_probe` writes into the network device, but for the numbers of queues.
abbrev pub front : NetDevice → OpsTable × OpsTable × List ℕ × List ℕ
front d = (d.netdev_ops, d.ethtool_ops, d.name, d.dev_addr)

-- The address that the device has behind `onic_set_mac_address`.
abbrev pub address : List ℕ → List ℕ → List ℕ
address old addr = if is_valid_ether_addr addr then addr else old

-- The device is installed: its private part names its structures and holds the platform information
-- `info`, its resources are there, the network device has the driver's tables, its name and its
-- address, and the indices of the queues name the values of the platform file in the tables that the
-- device, under the handle that the private part holds, has reported with success since the world `w`.
pub record Installed (env : Env) (pdev : ℕ) (info : PlatformInfo) (dev_name : List ℕ) (w v : World)
    : Type 0 where
  pub has_netdev : (v.priv.netdev == 0) ≡ false
  pub has_device : v.priv.pcidev ≡ pdev
  pub has_info : v.priv.info ≡ info
  pub has_cache : (v.priv.dma_req == 0) ≡ false
  pub has_mapping : (v.priv.bar_base == 0) ≡ false
  pub has_tables : front v.net ≡ (
    OpsTable.onic_netdev_ops,
    OpsTable.onic_ethtool_ops,
    dev_name,
    address w.net.dev_addr info.mac_addr,
  )
  pub indices :
      (log : Log) × Reported v.priv.dev_handle w log v × IndicesSet (env.csr log) info v.priv

-- The private part and what the probe writes in front are as before, and no memory moves.
pub record Behind (w v : World) : Type 0 where
  pub grows : Grows w v
  pub same_priv : v.priv ≡ w.priv
  pub same_front : front v.net ≡ front w.net
  pub rests : Rests memory w v

-- The numbers of queues are no part of the front.
pub set_real_num_tx_queues-Behind :
    (env : Env) (k : ℕ) (w : World) → Behind w (set_real_num_tx_queues k env w).1
set_real_num_tx_queues-Behind env k w =
    let op = Op.netif_set_real_num_tx_queues k in
    let asked = called-Rests env op w refl in
    let g = called-Grows env op w in
    if-both (λ (j : Io _). Behind w (j env (called op env w)).1) (ne_zero (env.status w.log op))
      (pure tt) _ (record { grows = g; same_priv = refl; same_front = refl; rests = asked })
      (record {
        grows = record { later = g.later; grown = g.grown };
        same_priv = refl;
        same_front = refl;
        rests = record { moves = asked.moves };
      })

pub set_real_num_rx_queues-Behind :
    (env : Env) (k : ℕ) (w : World) → Behind w (set_real_num_rx_queues k env w).1
set_real_num_rx_queues-Behind env k w =
    let op = Op.netif_set_real_num_rx_queues k in
    let asked = called-Rests env op w refl in
    let g = called-Grows env op w in
    if-both (λ (j : Io _). Behind w (j env (called op env w)).1) (ne_zero (env.status w.log op))
      (pure tt) _ (record { grows = g; same_priv = refl; same_front = refl; rests = asked })
      (record {
        grows = record { later = g.later; grown = g.grown };
        same_priv = refl;
        same_front = refl;
        rests = record { moves = asked.moves };
      })

pub set_mac_address-front :
    (env : Env) (addr : List ℕ) (w : World)
    → let v = (onic_set_mac_address addr env w).1 in
      (v.priv ≡ w.priv)
      × (v.log ≡ w.log)
      × (v.net ≡ (record w.net { dev_addr = address w.net.dev_addr addr }))
      × Rests memory w v
unfolding onic_set_mac_address
set_mac_address-front env addr w = elim (Bool-cases (is_valid_ether_addr addr)) [
  | inl valid ↦ rw valid (refl, refl, refl, record { moves = λ a. omega arith })
  | inr other ↦ rw other (refl, refl, refl, record { moves = λ a. omega arith })
]

module _ (env : Env) where
  pub set_num_queue-Kept : (w : World) → Kept w (onic_set_num_queue env w).1
  set_num_queue-Kept w =
      onic_set_num_queue-Always Kept-Frame setup-Calls (λ n e u. priv-Kept u _ refl) env w

  pub probe_netdev-Installed :
      (fuel pdev n pinfo : ℕ) (info : PlatformInfo) (dev_name : List ℕ) (w : World)
      → (n == 0) ≡ false
      → (probe_netdev fuel pdev n pinfo info dev_name env w).0 ≡ some (pos 0)
      → let v = (probe_netdev fuel pdev n pinfo info dev_name env w).1 in
        Installed env pdev info dev_name w v
        × (v.priv.netdev ≡ n)
        × (v.priv.pinfo ≡ pinfo)
        × Rests memory w v
  unfolding probe_netdev onic_set_ethtool_ops exit
  probe_netdev-Installed fuel pdev n pinfo info dev_name w found =
      let w1 = called (Op.pci_set_drvdata n) env w in
      let p = record zero_priv { netdev = n; pcidev = pdev; pinfo = pinfo; info = info } in
      let d = record w1.net {
        netdev_ops = OpsTable.onic_netdev_ops;
        ethtool_ops = OpsTable.onic_ethtool_ops;
        name = dev_name;
      } in
      let w2 = record w1 { net = d; priv = p } in
      let w3 = (onic_set_mac_address info.mac_addr env w2).1 in
      let r = onic_set_num_queue env w3 in
      let q = probe_queues r.1.priv in
      let w4 = (set_real_num_tx_queues q env r.1).1 in
      let w5 = (set_real_num_rx_queues q env w4).1 in
      let (a, l, b, c) = set_mac_address-front env info.mac_addr w2 in
      let k = set_num_queue-Kept w3 in
      let b4 = set_real_num_tx_queues-Behind env q r.1 in
      let b5 = set_real_num_rx_queues-Behind env q w4 in
      elim (Bool-cases (ne_zero r.0)) [
        | inl bad ↦ rw bad (λ z. cc (z, bad))
        | inr good ↦ rw good (λ z.
            let t = probe_cache-Attached env n fuel w5 z in
            let before =
              ap identity b5.same_priv
              ∙ ap identity b4.same_priv
              ∙ ap (λ d. d.0) k.same_device
              ∙ ap identity a in
            let same = t.same_identity ∙ before in
            let (log, reported, set) = t.indices in
            let set_up : Grows w w3 = record {
              later = (called-Grows env (Op.pci_set_drvdata n) w).later;
              grown = l ∙ (called-Grows env (Op.pci_set_drvdata n) w).grown;
            } in
            let queued = Grows-trans k.grows (Grows-trans b4.grows b5.grows) in
            let u = (probe_cache fuel n env w5).1 in
            (
              record {
                has_netdev = ap (λ i. i.0 == 0) same ∙ found;
                has_device = ap (λ i. i.1) same;
                has_info = ap (λ i. i.3) same;
                has_cache = t.has_cache;
                has_mapping = t.has_mapping;
                has_tables =
                    ap front t.same_net ∙ b5.same_front ∙ b4.same_front ∙ ap front (k.same_net ∙ b);
                indices = (
                  log,
                  Reported-between (Grows-trans set_up queued) (Grows-refl u) reported,
                  subst (λ i. IndicesSet (env.csr log) i (probe_cache fuel n env w5).1.priv)
                      (ap (λ i. i.3) before) set,
                );
              },
              ap (λ i. i.0) same,
              ap (λ i. i.2) same,
              record {
                moves = λ a. omega (
                  arith,
                  (called-Rests env (Op.pci_set_drvdata n) w refl).moves a,
                  c.moves a,
                  k.rests.moves a,
                  b4.rests.moves a,
                  b5.rests.moves a,
                  t.rests.moves a,
                );
              },
            ))
      ]

-- Reading the file changes nothing of the network device.
pub onic_get_pinfo-same_net :
    (env : Env) (lib : JsonLib) (file_name : List ℕ) (w : World)
    → (onic_get_pinfo lib file_name env w).1.net ≡ w.net
onic_get_pinfo-same_net env lib file_name w =
    let frame : Frame (λ (w v : World). v.net ≡ w.net) = record {
      stay = λ w. refl;
      both = λ a b. b ∙ a;
    } in
    onic_get_pinfo-Always frame (λ op e env w. refl) lib file_name env w

-- When `onic_pci_probe` returns 0, the device is installed: the private part names a network device that
-- is not NULL and the PCI device, holds the information that `onic_get_pinfo` read, and the
-- request cache and the mapping are there. The network device has the driver's two
-- tables, its name, and the address of the platform file, unless that is no address of a station, when
-- it keeps the one it had. The six indices of the queues are the first places that hold the values of
-- the platform file, in the tables that the device, asked under the handle that the private part holds,
-- has reported with success during this probe.
pub onic_pci_probe-Installed :
    (env : Env) (lib : JsonLib) (fuel pdev : ℕ) (file_name dev_name : List ℕ) (w : World)
    → (onic_pci_probe lib fuel pdev file_name dev_name env w).0 ≡ some (pos 0)
    → let info = (onic_get_pinfo lib file_name env w).0.2 in
      let v = (onic_pci_probe lib fuel pdev file_name dev_name env w).1 in
      Installed env pdev info dev_name w v
unfolding onic_pci_probe
onic_pci_probe-Installed env lib fuel pdev file_name dev_name w =
    let r = onic_get_pinfo lib file_name env w in
    let op = Op.alloc Memory.net_device r.0.2.queue_max in
    let n = env.value r.1.log op in
    elim (Bool-cases (ne_zero r.0.0)) [
      | inl bad ↦ rw bad (λ z. cc (z, bad))
      | inr good ↦ rw good (elim (Bool-cases (n == 0)) [
        | inl null ↦ rw null (λ z. cc z)
        | inr there ↦ rw there (λ z.
            let v = (probe_netdev fuel pdev n r.0.1 r.0.2 dev_name env (called op env r.1)).1 in
            let t =
              (probe_netdev-Installed env fuel pdev n r.0.1 r.0.2 dev_name (called op env r.1) there
                z).0 in
            let same = onic_get_pinfo-same_net env lib file_name w in
            let grows =
              Grows-trans
                (onic_get_pinfo-Always Grows-Frame (λ o i e u. called-Grows e o u) lib file_name env
                  w)
                (called-Grows env op r.1) in
            let (log, reported, set) = t.indices in
            record {
              has_netdev = t.has_netdev;
              has_device = t.has_device;
              has_info = t.has_info;
              has_cache = t.has_cache;
              has_mapping = t.has_mapping;
              has_tables =
                  t.has_tables
                  ∙ ap
                      (λ d. (
                        OpsTable.onic_netdev_ops,
                        OpsTable.onic_ethtool_ops,
                        dev_name,
                        address d.dev_addr r.0.2.mac_addr,
                      ))
                      same;
              indices = (log, Reported-between grows (Grows-refl v) reported, set);
            })
      ])
    ]
