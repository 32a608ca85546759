-- ===== src/Probe/Ready/Attach.antt =====
-- `onic_pci_probe` of onic_main.c from the request cache on, where it returns 0.
use onic_driver.Base.{
  ℕ, ◌≡◌, ◌∙◌, refl, ap, sym, subst, inl, inr, false, Bool-cases, ◌==◌, Option, some, none, arith,
}
use onic_driver.Base.Int.{ne_zero-false, ℤ, pos, ne_zero}
use onic_driver.Kernel.{OnicPriv, PlatformInfo, GlobalCsrConf, Op, Env, World, called, Log}
use onic_driver.Kernel.Ledger.{Rests}
use onic_driver.Kernel.Blocks.{memory, called-Rests}
use onic_driver.Cmac.{onic_enable_cmac, onic_init_reta}
use onic_driver.Cmac.Steps.{onic_enable_cmac-Always, onic_init_reta-Always}
use onic_driver.Setup.{onic_qdma_setup, onic_qdma_csr_index_setup, dev_conf}
use onic_driver.Setup.Index.{IndicesSet, onic_qdma_csr_index_setup-IndicesSet}
use onic_driver.Setup.Report.{
  Grows, Grows-refl, Grows-trans, called-Grows, Reported, Reported-between,
  onic_qdma_csr_index_setup-Reported,
}
use onic_driver.Setup.Steps.{onic_qdma_csr_index_setup-Always}
use onic_driver.Probe.{
  exit, destroy_kmem_cache, close_qdma_device, iounmap_bar, disable_cmac, probe_register,
  probe_cmac, probe_bar, probe_cache,
}
use onic_driver.Probe.Ready.{
  Same, Same-Frame, called-Same, port-Calls, identity, Attached, Kept, Kept-Frame, priv-Kept,
  setup-Calls,
}

module _ (env : Env) (n : ℕ) where
  probe_register-Same :
      (w : World) → (probe_register n env w).0 ≡ some (pos 0) → Same w (probe_register n env w).1
  unfolding probe_register disable_cmac iounmap_bar close_qdma_device destroy_kmem_cache exit
  probe_register-Same w = elim (Bool-cases (ne_zero (env.status w.log (Op.register_netdev n)))) [
    | inl bad ↦ rw bad (λ z. cc (z, bad))
    | inr good ↦ rw good (λ z.
        Same-Frame.both (called-Same (Op.register_netdev n) refl env w)
          (called-Same Op.netif_carrier_off refl env _))
  ]

  probe_cmac-Same :
      (r : Option ℤ) (w : World)
      → (probe_cmac n r env w).0 ≡ some (pos 0)
      → Same w (probe_cmac n r env w).1
  unfolding probe_cmac iounmap_bar close_qdma_device destroy_kmem_cache exit
  probe_cmac-Same none w = λ z. cc z
  probe_cmac-Same (some ret) w = elim (Bool-cases (ne_zero ret)) [
    | inl bad ↦ rw bad (λ z. cc (z, bad))
    | inr good ↦ rw good (λ z.
        let v = (onic_init_reta env w).1 in
        Same-Frame.both (onic_init_reta-Always Same-Frame port-Calls env w)
          (probe_register-Same v z))
  ]

  -- The mapping is the one field that is written behind the set-up of the device.
  probe_bar-mapped :
      (fuel : ℕ) (w : World)
      → (probe_bar fuel n env w).0 ≡ some (pos 0)
      → let v = (probe_bar fuel n env w).1 in
        (b : ℕ) × ((b == 0) ≡ false)
        × (v.priv ≡ (record w.priv { bar_base = b }))
        × (v.net ≡ w.net)
        × Rests memory w v
        × Grows w v
  unfolding probe_bar close_qdma_device destroy_kmem_cache exit
  probe_bar-mapped fuel w =
      let bar = w.priv.info.user_bar in
      let w1 = called (Op.pci_resource_start bar) env w in
      let w2 = called (Op.pci_resource_len bar) env w1 in
      let op =
        Op.ioremap (env.value w.log (Op.pci_resource_start bar))
          (env.value w1.log (Op.pci_resource_len bar)) in
      let b = env.value w2.log op in
      let v = record (called op env w2) { priv = record w2.priv { bar_base = b } } in
      let u = onic_enable_cmac fuel env v in
      elim (Bool-cases (b == 0)) [
        | inl null ↦ rw null (λ z. cc z)
        | inr there ↦ rw there (λ z.
            let s =
              Same-Frame.both (onic_enable_cmac-Always Same-Frame port-Calls fuel env v)
                (probe_cmac-Same u.0 u.1 z) in
            let start = called-Rests env (Op.pci_resource_start bar) w refl in
            let len = called-Rests env (Op.pci_resource_len bar) w1 refl in
            let map = called-Rests env op w2 refl in
            (
              b,
              there,
              s.same_priv,
              s.same_net,
              record {
                moves =
                    λ a. omega (arith, start.moves a, len.moves a, map.moves a, s.rests.moves a);
              },
              Grows-trans
                  (Grows-trans (called-Grows env (Op.pci_resource_start bar) w) (
                    Grows-trans (called-Grows env (Op.pci_resource_len bar) w1)
                      (called-Grows env op w2)))
                  (record { later = s.grows.later; grown = s.grows.grown }),
            ))
      ]

-- The mapping is no index.
mapped-IndicesSet :
    {csr : GlobalCsrConf} {info : PlatformInfo} {p q : OnicPriv} (b : ℕ)
    → q ≡ (record p { bar_base = b })
    → IndicesSet csr info p
    → IndicesSet csr info q
mapped-IndicesSet {csr} {info} {p} b e set = subst (IndicesSet csr info) (sym e) (record {
  tx_ring = set.tx_ring;
  rx_ring = set.rx_ring;
  cmpl_ring = set.cmpl_ring;
  timer = set.timer;
  cnt_th = set.cnt_th;
  buf_sz = set.buf_sz;
})

module _ (env : Env) where
  pub index_setup-Kept : (w : World) → Kept w (onic_qdma_csr_index_setup env w).1
  index_setup-Kept w =
      onic_qdma_csr_index_setup-Always Kept-Frame setup-Calls (λ i e u. priv-Kept u _ refl)
        (λ i e u. priv-Kept u _ refl) (λ i e u. priv-Kept u _ refl) (λ i e u. priv-Kept u _ refl)
        env w

  onic_qdma_setup-Kept :
      (w : World)
      → (onic_qdma_setup env w).0 ≡ pos 0
      → let v = (onic_qdma_setup env w).1 in
        Kept w v
        × ((log : Log) × Reported v.priv.dev_handle w log v
            × IndicesSet (env.csr log) w.priv.info v.priv)
  unfolding onic_qdma_setup
  onic_qdma_setup-Kept w =
      let conf = record w { priv = record w.priv { qdma_dev_conf = dev_conf w.priv } } in
      let op = Op.qdma_device_open (dev_conf w.priv) in
      let asked = called op env conf in
      let v = record asked { priv = record conf.priv { dev_handle = env.value w.log op } } in
      let r = onic_qdma_csr_index_setup env v in
      let opened = called-Rests env op conf refl in
      let asked_grows : Grows w v = record {
        later = (called-Grows env op conf).later;
        grown = (called-Grows env op conf).grown;
      } in
      elim (Bool-cases (ne_zero (env.status w.log op))) [
        | inl bad ↦ rw bad (λ z. cc z)
        | inr good ↦ rw good (elim (Bool-cases (ne_zero r.0)) [
          | inl bad ↦ rw bad (λ z. cc z)
          | inr fine ↦ rw fine (λ z. (
            (let k = index_setup-Kept v in
                record {
                  grows = Grows-trans asked_grows k.grows;
                  same_device = k.same_device;
                  same_net = k.same_net;
                  rests = record { moves = λ a. omega (arith, k.rests.moves a, opened.moves a) };
                }),
            (
              v.log,
              Reported-between asked_grows (Grows-refl r.1)
                  (onic_qdma_csr_index_setup-Reported env v (ne_zero-false r.0 fine)),
              onic_qdma_csr_index_setup-IndicesSet env v (ne_zero-false r.0 fine),
            ),
          ))
        ])
      ]

module _ (env : Env) (n : ℕ) where
  -- The probe from the cache on, where it returns 0.
  pub probe_cache-Attached :
      (fuel : ℕ) (w : World)
      → (probe_cache fuel n env w).0 ≡ some (pos 0)
      → Attached env w (probe_cache fuel n env w).1
  unfolding probe_cache exit destroy_kmem_cache
  probe_cache-Attached fuel w =
      let op = Op.kmem_cache_create 0 in
      let c = env.value w.log op in
      let v = record (called op env w) { priv = record w.priv { dma_req = c } } in
      let r = onic_qdma_setup env v in
      elim (Bool-cases (c == 0)) [
        | inl null ↦ rw null (λ z. cc z)
        | inr there ↦ rw there (elim (Bool-cases (ne_zero r.0)) [
          | inl bad ↦ rw bad (λ z. cc (z, bad))
          | inr good ↦ rw good (λ z.
              let (k, (log, reported, set)) = onic_qdma_setup-Kept env v (ne_zero-false r.0 good) in
              let (b, mapped, e, same, rests, grows) = probe_bar-mapped env n fuel r.1 z in
              let u = (probe_bar fuel n env r.1).1 in
              let cached : Grows w v = record {
                later = (called-Grows env op w).later;
                grown = (called-Grows env op w).grown;
              } in
              record {
                same_identity = ap identity e ∙ ap (λ d. d.0) k.same_device;
                same_net = same ∙ k.same_net;
                rests = record {
                  moves = λ a.
                      omega (
                        arith,
                        (called-Rests env op w refl).moves a,
                        k.rests.moves a,
                        rests.moves a,
                      );
                };
                has_cache = ap (λ p. p.dma_req == 0) e ∙ ap (λ d. d.1 == 0) k.same_device ∙ there;
                has_mapping = ap (λ p. p.bar_base == 0) e ∙ mapped;
                indices = (
                  log,
                  subst (λ (p : OnicPriv). Reported p.dev_handle w log u) (sym e)
                      (Reported-between cached grows reported),
                  mapped-IndicesSet b e set,
                );
              })
        ])
      ]
