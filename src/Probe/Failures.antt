-- ===== src/Probe/Failures.antt =====
-- The memory of `onic_pci_probe` (onic_main.c), by how it ends.
use onic_driver.Base.{
  ℕ, ◌+◌, ◌≡◌, ◌∙◌, refl, ap, inl, inr, ◌⊎◌, true, false, Bool-cases, ◌==◌, if◌then◌else◌, some,
  List, arith,
}
use onic_driver.Base.Int.{ℤ, ne_zero, enomem}
use onic_driver.Kernel.{zero_priv, PlatformInfo, OpsTable, Memory, Op, Env, World, called}
use onic_driver.Kernel.Ledger.{Moves, Rests, called-Moves, taken, given}
use onic_driver.Kernel.Blocks.{memory, block, called-Rests}
use onic_driver.Ethtool.{onic_set_ethtool_ops}
use onic_driver.Json.{JsonLib}
use onic_driver.Stats.{onic_set_mac_address}
use onic_driver.Setup.{onic_set_num_queue, onic_qdma_setup, onic_qdma_csr_index_setup, dev_conf}
use onic_driver.Probe.{
  onic_get_pinfo, set_real_num_tx_queues, set_real_num_rx_queues, probe_queues, probe_cache,
  probe_netdev, onic_pci_probe,
}
use onic_driver.Probe.Ready.Attach.{index_setup-Kept}
use onic_driver.Probe.Installed.{
  set_mac_address-front, set_real_num_tx_queues-Behind, set_real_num_rx_queues-Behind,
  set_num_queue-Kept,
}
use onic_driver.Probe.Accounts.{exit-Frees, destroy-Frees, probe_bar-Frees}
use onic_driver.Probe.Blocks.{probe_tokens, get_pinfo-Moves, get_pinfo-Rests}

-- No memory moves, and the pointer to the platform information stays.
record Pinned (w v : World) : Type 0 where
  rests : Rests memory w v
  same_pinfo : v.priv.pinfo ≡ w.priv.pinfo

module _ (env : Env) where
  onic_qdma_setup-Pinned : (w : World) → Pinned w (onic_qdma_setup env w).1
  unfolding onic_qdma_setup
  onic_qdma_setup-Pinned w =
      let conf = record w { priv = record w.priv { qdma_dev_conf = dev_conf w.priv } } in
      let op = Op.qdma_device_open (dev_conf w.priv) in
      let asked = called op env conf in
      let v = record asked { priv = record conf.priv { dev_handle = env.value w.log op } } in
      let r = onic_qdma_csr_index_setup env v in
      let k = index_setup-Kept env v in
      let close = Op.qdma_device_close r.1.priv.dev_handle in
      let opened = called-Rests env op conf refl in
      let pinfo = ap (λ d. d.0.2) k.same_device in
      elim (Bool-cases (ne_zero (env.status w.log op))) [
        | inl bad ↦ rw bad (record { rests = record { moves = opened.moves }; same_pinfo = refl })
        | inr good ↦ rw good (elim (Bool-cases (ne_zero r.0)) [
          | inl bad ↦ rw bad (record {
            rests = record {
              moves = λ a. omega (
                arith,
                opened.moves a,
                k.rests.moves a,
                (called-Rests env close r.1 refl).moves a,
              );
            };
            same_pinfo = pinfo;
          })
          | inr fine ↦ rw fine (record {
            rests = record { moves = λ a. omega (arith, opened.moves a, k.rests.moves a) };
            same_pinfo = pinfo;
          })
        ])
      ]

  module _ (e : ℤ) (bad : ne_zero e ≡ true) where
    probe_cache-Frees :
        (fuel n : ℕ) (w : World)
        → (probe_cache fuel n env w).0 ≡ some e
        → Moves memory w (probe_cache fuel n env w).1 (block w.priv.pinfo) (λ a. 0)
    unfolding probe_cache
    probe_cache-Frees fuel n w =
        let op = Op.kmem_cache_create 0 in
        let c = env.value w.log op in
        let v = record (called op env w) { priv = record w.priv { dma_req = c } } in
        let r = onic_qdma_setup env v in
        let asked = called-Rests env op w refl in
        let p = onic_qdma_setup-Pinned v in
        elim (Bool-cases (c == 0)) [
          | inl null ↦ rw null (λ z. record {
            moves = λ a. omega (arith, asked.moves a, (exit-Frees env n enomem v).moves a);
          })
          | inr there ↦ rw there (elim (Bool-cases (ne_zero r.0)) [
            | inl fails ↦ rw fails (λ z. record {
              moves = λ a. omega (
                arith,
                asked.moves a,
                p.rests.moves a,
                (destroy-Frees env n r.0 r.1).moves a,
                ap (λ q. block q a) p.same_pinfo,
              );
            })
            | inr good ↦ rw good (λ z. record {
              moves = λ a. omega (
                arith,
                asked.moves a,
                p.rests.moves a,
                (probe_bar-Frees env n e bad fuel r.1 z).moves a,
                ap (λ q. block q a) p.same_pinfo,
              );
            })
          ])
        ]

    probe_netdev-Frees :
        (fuel pdev n pinfo : ℕ) (info : PlatformInfo) (dev_name : List ℕ) (w : World)
        → let r = probe_netdev fuel pdev n pinfo info dev_name env w in
          r.0 ≡ some e → Moves memory w r.1 (block pinfo) (λ a. 0)
    unfolding probe_netdev onic_set_ethtool_ops
    probe_netdev-Frees fuel pdev n pinfo info dev_name w =
        let w1 = called (Op.pci_set_drvdata n) env w in
        let p = record zero_priv { netdev = n; pcidev = pdev; pinfo = pinfo; info = info } in
        let d = record w1.net {
          netdev_ops = OpsTable.onic_netdev_ops;
          ethtool_ops = OpsTable.onic_ethtool_ops;
          name = dev_name;
        } in
        let w2 = record w1 { net = d; priv = p } in
        let w3 = (onic_set_mac_address info.mac_addr env w2).1 in
        let r = onic_set_num_queue env w3 in
        let q = probe_queues r.1.priv in
        let w4 = (set_real_num_tx_queues q env r.1).1 in
        let w5 = (set_real_num_rx_queues q env w4).1 in
        let asked = called-Rests env (Op.pci_set_drvdata n) w refl in
        let (a, l, b, c) = set_mac_address-front env info.mac_addr w2 in
        let k = set_num_queue-Kept env w3 in
        let b4 = set_real_num_tx_queues-Behind env q r.1 in
        let b5 = set_real_num_rx_queues-Behind env q w4 in
        let same = ap (λ d. d.0.2) k.same_device ∙ ap (λ p. p.pinfo) a in
        elim (Bool-cases (ne_zero r.0)) [
          | inl fails ↦ rw fails (λ z. record {
            moves = λ x. omega (
              arith,
              asked.moves x,
              c.moves x,
              k.rests.moves x,
              (exit-Frees env n r.0 r.1).moves x,
              ap (λ p. block p x) same,
            );
          })
          | inr good ↦ rw good (λ z. record {
            moves = λ x. omega (
              arith,
              asked.moves x,
              c.moves x,
              k.rests.moves x,
              b4.rests.moves x,
              b5.rests.moves x,
              (probe_cache-Frees fuel n w5 z).moves x,
              ap (λ p. block p.pinfo x) (b5.same_priv ∙ b4.same_priv),
              ap (λ p. block p x) same,
            );
          })
        ]

-- When `onic_pci_probe` returns an error, either the platform information could not be read and all
-- memory has been freed, or one block of memory is left allocated and not freed, the array that was
-- allocated for the tokens of the platform file, and, where no network device could be allocated, the
-- platform information as well.
pub onic_pci_probe-leaks :
    (env : Env) (lib : JsonLib) (fuel pdev : ℕ) (file_name dev_name : List ℕ) (w : World) (e : ℤ)
    → ne_zero e ≡ true
    → (onic_pci_probe lib fuel pdev file_name dev_name env w).0 ≡ some e
    → let r = onic_get_pinfo lib file_name env w in
      let netdev = env.value r.1.log (Op.alloc Memory.net_device r.0.2.queue_max) in
      let w' = (onic_pci_probe lib fuel pdev file_name dev_name env w).1 in
      ((ne_zero r.0.0 ≡ true)
        × ((a : ℕ)
            → taken memory a w'.log + given memory a w.log
              ≡ given memory a w'.log + taken memory a w.log))
      ⊎ (((probe_tokens lib env file_name w == 0) ≡ false)
          × ((a : ℕ)
              → taken memory a w'.log + given memory a w.log
                ≡ given memory a w'.log
                  + taken memory a w.log
                  + block (probe_tokens lib env file_name w) a
                  + (if netdev == 0 then block r.0.1 a else 0)))
unfolding onic_pci_probe
onic_pci_probe-leaks env lib fuel pdev file_name dev_name w e bad =
    let r = onic_get_pinfo lib file_name env w in
    let op = Op.alloc Memory.net_device r.0.2.queue_max in
    let n = env.value r.1.log op in
    let v = called op env r.1 in
    let asked = called-Moves memory env op r.1 (λ b. 0) (λ b. 0) (λ b. refl) in
    elim (Bool-cases (ne_zero r.0.0)) [
      | inl fails ↦ rw fails (λ z.
          let m = get_pinfo-Rests env lib file_name w fails in
          inl (refl, λ a. omega (arith, m.moves a)))
      | inr good ↦
          let (found, m) = get_pinfo-Moves env lib file_name w good in
          rw good (elim (Bool-cases (n == 0)) [
            | inl null ↦ rw null (λ z. inr (found, λ a. omega (arith, m.moves a, asked.moves a)))
            | inr there ↦ rw there (λ z.
                let freed = probe_netdev-Frees env e bad fuel pdev n r.0.1 r.0.2 dev_name v z in
                inr (found, λ a. omega (arith, m.moves a, asked.moves a, freed.moves a)))
          ])
    ]
