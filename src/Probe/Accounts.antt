-- ===== src/Probe/Accounts.antt =====
-- The memory of a device for which `onic_pci_probe` (onic_main.c) fails.
use onic_driver.Base.{ℕ, ◌≡◌, refl, ap, inl, inr, true, Bool-cases, ◌==◌, Option, some, none, arith}
use onic_driver.Base.Int.{ℤ, ne_zero, eio}
use onic_driver.Kernel.{Op, Env, World, called}
use onic_driver.Kernel.Ledger.{Moves}
use onic_driver.Kernel.Blocks.{memory, block, called-Rests, kfree-Moves}
use onic_driver.Cmac.{onic_disable_cmac, onic_enable_cmac, onic_init_reta}
use onic_driver.Cmac.Steps.{
  onic_disable_cmac-Always, onic_enable_cmac-Always, onic_init_reta-Always,
}
use onic_driver.Probe.{
  exit, destroy_kmem_cache, close_qdma_device, iounmap_bar, disable_cmac, probe_register,
  probe_cmac, probe_bar,
}
use onic_driver.Probe.Ready.{Same-Frame, port-Calls}

module _ (env : Env) (n : ℕ) where
  -- Each label frees the platform information.
  pub exit-Frees :
      (ret : ℤ) (w : World) → Moves memory w (exit n ret env w).1 (block w.priv.pinfo) (λ a. 0)
  unfolding exit
  exit-Frees ret w =
      let op = Op.kfree w.priv.pinfo in
      record {
        moves = λ a. omega (
          arith,
          (kfree-Moves env w.priv.pinfo w).moves a,
          (called-Rests env (Op.free_netdev n) (called op env w) refl).moves a,
        );
      }

  pub destroy-Frees :
      (ret : ℤ) (w : World)
      → Moves memory w (destroy_kmem_cache n ret env w).1 (block w.priv.pinfo) (λ a. 0)
  unfolding destroy_kmem_cache
  destroy-Frees ret w =
      let op = Op.kmem_cache_destroy w.priv.dma_req in
      record {
        moves = λ a. omega (
          arith,
          (called-Rests env op w refl).moves a,
          (exit-Frees ret (called op env w)).moves a,
        );
      }

  close-Frees :
      (ret : ℤ) (w : World)
      → Moves memory w (close_qdma_device n ret env w).1 (block w.priv.pinfo) (λ a. 0)
  unfolding close_qdma_device
  close-Frees ret w =
      let op = Op.qdma_device_close w.priv.dev_handle in
      record {
        moves = λ a. omega (
          arith,
          (called-Rests env op w refl).moves a,
          (destroy-Frees ret (called op env w)).moves a,
        );
      }

  iounmap-Frees :
      (ret : ℤ) (w : World)
      → Moves memory w (iounmap_bar n ret env w).1 (block w.priv.pinfo) (λ a. 0)
  unfolding iounmap_bar
  iounmap-Frees ret w =
      let op = Op.iounmap w.priv.bar_base in
      record {
        moves = λ a. omega (
          arith,
          (called-Rests env op w refl).moves a,
          (close-Frees ret (called op env w)).moves a,
        );
      }

  disable-Frees :
      (ret : ℤ) (w : World)
      → Moves memory w (disable_cmac n ret env w).1 (block w.priv.pinfo) (λ a. 0)
  unfolding disable_cmac
  disable-Frees ret w =
      let s = onic_disable_cmac-Always Same-Frame port-Calls env w in
      record {
        moves = λ a. omega (
          arith,
          s.rests.moves a,
          (iounmap-Frees ret (onic_disable_cmac env w).1).moves a,
          ap (λ p. block p.pinfo a) s.same_priv,
        );
      }

  module _ (e : ℤ) (bad : ne_zero e ≡ true) where
    probe_register-Frees :
        (w : World)
        → (probe_register n env w).0 ≡ some e
        → Moves memory w (probe_register n env w).1 (block w.priv.pinfo) (λ a. 0)
    unfolding probe_register
    probe_register-Frees w =
        let op = Op.register_netdev n in
        let v = called op env w in
        let ret = env.status w.log op in
        elim (Bool-cases (ne_zero ret)) [
          | inl fails ↦ rw fails (λ z. record {
            moves = λ a.
                omega (arith, (called-Rests env op w refl).moves a, (disable-Frees ret v).moves a);
          })
          | inr good ↦ rw good (λ z. cc (z, bad))
        ]

    probe_cmac-Frees :
        (r : Option ℤ) (w : World)
        → (probe_cmac n r env w).0 ≡ some e
        → Moves memory w (probe_cmac n r env w).1 (block w.priv.pinfo) (λ a. 0)
    unfolding probe_cmac
    probe_cmac-Frees none w = λ z. cc z
    probe_cmac-Frees (some ret) w = elim (Bool-cases (ne_zero ret)) [
      | inl fails ↦ rw fails (λ z. iounmap-Frees ret w)
      | inr good ↦ rw good (λ z.
          let s = onic_init_reta-Always Same-Frame port-Calls env w in
          record {
            moves = λ a. omega (
              arith,
              s.rests.moves a,
              (probe_register-Frees (onic_init_reta env w).1 z).moves a,
              ap (λ p. block p.pinfo a) s.same_priv,
            );
          })
    ]

    pub probe_bar-Frees :
        (fuel : ℕ) (w : World)
        → (probe_bar fuel n env w).0 ≡ some e
        → Moves memory w (probe_bar fuel n env w).1 (block w.priv.pinfo) (λ a. 0)
    unfolding probe_bar
    probe_bar-Frees fuel w =
        let bar = w.priv.info.user_bar in
        let w1 = called (Op.pci_resource_start bar) env w in
        let w2 = called (Op.pci_resource_len bar) env w1 in
        let op =
          Op.ioremap (env.value w.log (Op.pci_resource_start bar))
            (env.value w1.log (Op.pci_resource_len bar)) in
        let b = env.value w2.log op in
        let v = record (called op env w2) { priv = record w2.priv { bar_base = b } } in
        let u = onic_enable_cmac fuel env v in
        let start = called-Rests env (Op.pci_resource_start bar) w refl in
        let len = called-Rests env (Op.pci_resource_len bar) w1 refl in
        let map = called-Rests env op w2 refl in
        elim (Bool-cases (b == 0)) [
          | inl null ↦ rw null (λ z. record {
            moves = λ a.
                omega (arith, start.moves a, len.moves a, map.moves a, (close-Frees eio v).moves a);
          })
          | inr there ↦ rw there (λ z.
              let s = onic_enable_cmac-Always Same-Frame port-Calls fuel env v in
              record {
                moves = λ a. omega (
                  arith,
                  start.moves a,
                  len.moves a,
                  map.moves a,
                  s.rests.moves a,
                  (probe_cmac-Frees u.0 u.1 z).moves a,
                  ap (λ p. block p.pinfo a) s.same_priv,
                );
              })
        ]
