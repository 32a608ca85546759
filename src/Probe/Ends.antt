-- ===== src/Probe/Ends.antt =====
-- `onic_pci_probe` of onic_main.c from the mapping of the user BAR on.
use onic_driver.Base.{
  ℕ, ◌≡◌, ◌∙◌, refl, ap, inl, inr, false, Bool-cases, ◌==◌, Option, some, none, arith,
}
use onic_driver.Base.Int.{ℤ, ne_zero, eio}
use onic_driver.Kernel.{Op, Env, World, called}
use onic_driver.Cmac.{onic_enable_cmac, onic_init_reta}
use onic_driver.Probe.{
  exit, destroy_kmem_cache, close_qdma_device, iounmap_bar, probe_cmac, probe_bar,
}
use onic_driver.Probe.Assets.{
  Asset, refs, with_device, with_mapping, Change-trans, called-Gains, ioremap-Gains,
}
use onic_driver.Probe.Neutral.{Still, Still-Change, IsPlain, called-Still}
use onic_driver.Probe.Neutral.Port.{onic_enable_cmac-IsNeutral, onic_init_reta-IsNeutral}
use onic_driver.Probe.Outcome.{
  ProbeEnds, failed, waiting, Ends-after, called-idle, close-Change, iounmap-Change, mapping-Still,
  probe_register-Ends,
}

module _ (env : Env) (n : ℕ) where
  iounmap-ret : (ret : ℤ) (w : World) → (iounmap_bar n ret env w).0 ≡ some ret
  unfolding iounmap_bar
  iounmap-ret ret w = refl

  close-ret : (ret : ℤ) (w : World) → (close_qdma_device n ret env w).0 ≡ some ret
  unfolding close_qdma_device
  close-ret ret w = refl

  pub destroy-ret : (ret : ℤ) (w : World) → (destroy_kmem_cache n ret env w).0 ≡ some ret
  unfolding destroy_kmem_cache
  destroy-ret ret w = refl

  pub exit-ret : (ret : ℤ) (w : World) → (exit n ret env w).0 ≡ some ret
  unfolding exit
  exit-ret ret w = refl

  bar-Still :
      (w v : World) → Still w v → (w.priv.bar_base == 0) ≡ false → (v.priv.bar_base == 0) ≡ false
  bar-Still w v s e = ap (λ r. r.2 == 0) s.same_refs ∙ e

  probe_cmac-Ends :
      (r : Option ℤ) (w : World)
      → (w.priv.bar_base == 0) ≡ false
      → ProbeEnds n w
          (with_mapping n (refs w.priv))
          (probe_cmac n r env w).0
          (probe_cmac n r env w).1
  unfolding probe_cmac
  probe_cmac-Ends none w bar = waiting refl
  probe_cmac-Ends (some ret) w bar = elim (Bool-cases (ne_zero ret)) [
    | inl bad ↦ rw bad (failed ret (iounmap-ret ret w) bad (iounmap-Change env n ret w))
    | inr good ↦ rw good (
        let v = (onic_init_reta env w).1 in
        let s = onic_init_reta-IsNeutral env w in
        Ends-after w v (mapping-Still env n w v s)
          (probe_register-Ends env n v (bar-Still w v s bar)))
  ]

  start-IsPlain : (b : ℕ) → IsPlain (Op.pci_resource_start b)
  start-IsPlain b x = (λ s u. ground arith, ground arith)

  len-IsPlain : (b : ℕ) → IsPlain (Op.pci_resource_len b)
  len-IsPlain b x = (λ s u. ground arith, ground arith)

  pub probe_bar-Ends :
      (fuel : ℕ) (w : World)
      → ProbeEnds n w
          (with_device n (w.priv.dma_req, w.priv.dev_handle))
          (probe_bar fuel n env w).0
          (probe_bar fuel n env w).1
  unfolding probe_bar
  probe_bar-Ends fuel w =
      let bar = w.priv.info.user_bar in
      let h = with_device n (w.priv.dma_req, w.priv.dev_handle) in
      let w1 = called (Op.pci_resource_start bar) env w in
      let w2 = called (Op.pci_resource_len bar) env w1 in
      let a = env.value w.log (Op.pci_resource_start bar) in
      let l = env.value w1.log (Op.pci_resource_len bar) in
      let op = Op.ioremap a l in
      let b = env.value w2.log op in
      let v = record (called op env w2) { priv = record w2.priv { bar_base = b } } in
      let asked =
        Change-trans w w1 w2 (Still-Change h (called-Still (start-IsPlain bar) env w))
          (Still-Change h (called-Still (len-IsPlain bar) env w1)) in
      elim (Bool-cases (b == 0)) [
        | inl null ↦ rw null (
            failed eio (close-ret eio v) refl (
              Change-trans w w2 _ asked (
                Change-trans w2 v _
                  (record {
                    change =
                        (called-idle env op w2 h (λ x. ground (arith, null))
                          (λ x. ground arith)).change;
                  })
                  (close-Change env n eio v))))
        | inr there ↦ rw there (
            let u = (onic_enable_cmac fuel env v).1 in
            let s = onic_enable_cmac-IsNeutral fuel env v in
            Ends-after w w2 asked (
              Ends-after w2 v
                (record {
                  change =
                      (called-Gains env op w2 (Asset.mapping b) h
                        (ioremap-Gains a l b (env.status w2.log op) there)).change;
                })
                (Ends-after v u (mapping-Still env n v u s)
                  (probe_cmac-Ends (onic_enable_cmac fuel env v).0 u (bar-Still v u s there)))))
      ]
