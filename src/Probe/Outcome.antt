-- ===== src/Probe/Outcome.antt =====
-- The ways in which `onic_pci_probe` of onic_main.c can end, its labels, and its last step.
use onic_driver.Base.{
  ℕ, ◌≡◌, refl, ap, sym, inl, inr, true, false, Bool-cases, ◌==◌, Option, some, none, arith,
}
use onic_driver.Base.Int.{ℤ, pos, ne_zero}
use onic_driver.Kernel.{Op, Env, World, called}
use onic_driver.Cmac.{onic_disable_cmac}
use onic_driver.Probe.{
  exit, destroy_kmem_cache, close_qdma_device, iounmap_bar, disable_cmac, probe_register,
}
use onic_driver.Probe.Assets.{
  Asset, gained_op, lost_op, refs, with_netdev, with_cache, with_device, with_mapping, owned,
  Change, Change-trans, Change-eq, called-Gains, called-Loses, free_netdev-Loses,
  kmem_cache_destroy-Loses, qdma_device_close-Loses, iounmap-Loses, register_netdev-Gains,
}
use onic_driver.Probe.Neutral.{Still, Still-Change, IsPlain, called-Still}
use onic_driver.Probe.Neutral.File.{kfree-IsPlain}
use onic_driver.Probe.Neutral.Port.{onic_disable_cmac-IsNeutral}

abbrev pub nothing : Asset → ℕ
nothing x = 0

-- How a probe of the interface `n`, or what is left of one, ends where it holds `h`.
pub data ProbeEnds (n : ℕ) (w : World) (h : Asset → ℕ) (ret : Option ℤ) (w' : World) : Type 0 where
  probed :
      ret ≡ some (pos 0)
      → (w'.priv.bar_base == 0) ≡ false
      → Change w w' h (owned n w'.priv)
      → ProbeEnds n w h ret w'
  failed :
      (e : ℤ) → ret ≡ some e → ne_zero e ≡ true → Change w w' h nothing → ProbeEnds n w h ret w'
  waiting : ret ≡ none → ProbeEnds n w h ret w'

pub Ends-after :
    {n : ℕ} {h k : Asset → ℕ} {ret : Option ℤ} {w' : World} (w v : World)
    → Change w v h k
    → ProbeEnds n v k ret w'
    → ProbeEnds n w h ret w'
Ends-after {w' = w'} w v f (probed z b g) = probed z b (Change-trans w v w' f g)
Ends-after {w' = w'} w v f (failed e z b g) = failed e z b (Change-trans w v w' f g)
Ends-after w v f (waiting z) = waiting z

-- A call whose answer gains nothing.
pub called-idle :
    (env : Env) (op : Op) (w : World) (h : Asset → ℕ)
    → ((x : Asset) → gained_op x op (env.status w.log op) (env.value w.log op) ≡ 0)
    → ((x : Asset) → lost_op x op ≡ 0)
    → Change w (called op env w) h h
called-idle env op w h g l = record { change = λ x. omega (arith, g x, l x) }

module _ (env : Env) (n : ℕ) where
  pub exit-Change : (ret : ℤ) (w : World) → Change w (exit n ret env w).1 (with_netdev n) nothing
  unfolding exit
  exit-Change ret w =
      let v = called (Op.kfree w.priv.pinfo) env w in
      Change-trans w v (called (Op.free_netdev n) env v)
        (Still-Change (with_netdev n) (called-Still (kfree-IsPlain w.priv.pinfo) env w))
        (called-Loses env (Op.free_netdev n) v (Asset.net_device n) nothing (free_netdev-Loses n))

  pub destroy-Change :
      (ret : ℤ) (w : World)
      → Change w (destroy_kmem_cache n ret env w).1 (with_cache n w.priv.dma_req) nothing
  unfolding destroy_kmem_cache
  destroy-Change ret w =
      let op = Op.kmem_cache_destroy w.priv.dma_req in
      let v = called op env w in
      Change-trans w v (exit n ret env v).1
        (called-Loses env op w (Asset.cache w.priv.dma_req) (with_netdev n)
          (kmem_cache_destroy-Loses w.priv.dma_req))
        (exit-Change ret v)

  pub close-Change :
      (ret : ℤ) (w : World)
      → Change w
          (close_qdma_device n ret env w).1
          (with_device n (w.priv.dma_req, w.priv.dev_handle))
          nothing
  unfolding close_qdma_device
  close-Change ret w =
      let op = Op.qdma_device_close w.priv.dev_handle in
      let v = called op env w in
      Change-trans w v (destroy_kmem_cache n ret env v).1
        (called-Loses env op w (Asset.device w.priv.dev_handle) (with_cache n w.priv.dma_req)
          (qdma_device_close-Loses w.priv.dev_handle))
        (destroy-Change ret v)

  pub iounmap-Change :
      (ret : ℤ) (w : World)
      → Change w (iounmap_bar n ret env w).1 (with_mapping n (refs w.priv)) nothing
  unfolding iounmap_bar
  iounmap-Change ret w =
      let op = Op.iounmap w.priv.bar_base in
      let v = called op env w in
      Change-trans w v (close_qdma_device n ret env v).1
        (called-Loses env op w (Asset.mapping w.priv.bar_base)
          (with_device n (w.priv.dma_req, w.priv.dev_handle)) (iounmap-Loses w.priv.bar_base))
        (close-Change ret v)

  -- A step that moves no asset, by the handles behind it.
  pub mapping-Still :
      (w v : World)
      → Still w v
      → Change w v (with_mapping n (refs w.priv)) (with_mapping n (refs v.priv))
  mapping-Still w v s =
      Change-eq (Still-Change (with_mapping n (refs w.priv)) s)
        (λ x. ap (λ r. with_mapping n r x) (sym s.same_refs))

  disable-Change :
      (ret : ℤ) (w : World)
      → Change w (disable_cmac n ret env w).1 (with_mapping n (refs w.priv)) nothing
  unfolding disable_cmac
  disable-Change ret w =
      let v = (onic_disable_cmac env w).1 in
      Change-trans w v (iounmap_bar n ret env v).1
        (mapping-Still w v (onic_disable_cmac-IsNeutral env w)) (iounmap-Change ret v)

  disable-ret : (ret : ℤ) (v : World) → (disable_cmac n ret env v).0 ≡ some ret
  unfolding disable_cmac
  disable-ret ret v = refl

  carrier_off-IsPlain : IsPlain Op.netif_carrier_off
  carrier_off-IsPlain x = (λ s u. ground arith, ground arith)

  pub probe_register-Ends :
      (w : World)
      → (w.priv.bar_base == 0) ≡ false
      → ProbeEnds n w
          (with_mapping n (refs w.priv))
          (probe_register n env w).0
          (probe_register n env w).1
  unfolding probe_register
  probe_register-Ends w bar =
      let op = Op.register_netdev n in
      let v = called op env w in
      elim (Bool-cases (ne_zero (env.status w.log op))) [
        | inl bad ↦ rw bad (
            failed (env.status w.log op) (disable-ret (env.status w.log op) v) bad (
              Change-trans w v _
                (called-idle env op w (with_mapping n (refs w.priv)) (λ x. ground (arith, bad))
                  (λ x. ground arith))
                (disable-Change (env.status w.log op) v)))
        | inr good ↦ rw good (
            probed refl bar (
              Change-trans w v _
                (called-Gains env op w (Asset.registration n) (with_mapping n (refs w.priv))
                  (register_netdev-Gains n (env.value w.log op) (env.status w.log op) good))
                (Still-Change (owned n w.priv) (called-Still carrier_off-IsPlain env v))))
      ]
