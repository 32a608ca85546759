-- ===== src/Probe/Whole.antt =====
-- `onic_qdma_setup`, and `onic_pci_probe` from the cache of requests on (onic_main.c).
use onic_driver.Base.{ℕ, ◌≡◌, refl, ap, sym, inl, inr, true, Bool-cases, ◌==◌, if◌then◌else◌, arith}
use onic_driver.Base.Int.{ℤ, pos, ne_zero, enomem, einval}
use onic_driver.Kernel.{Op, Env, World, called, Io, pure, ◌>>=◌, ◌>>◌, get, request}
use onic_driver.Setup.{onic_qdma_setup, onic_qdma_csr_index_setup, dev_conf}
use onic_driver.Probe.{probe_cache}
use onic_driver.Probe.Assets.{
  Asset, with_netdev, with_cache, with_device, Change, Change-trans, Change-eq, called-Gains,
  called-Loses, qdma_device_close-Loses, kmem_cache_create-Gains, qdma_device_open-Gains,
}
use onic_driver.Probe.Neutral.{Still-Change}
use onic_driver.Probe.Neutral.Setup.{onic_qdma_csr_index_setup-IsNeutral}
use onic_driver.Probe.Outcome.{
  ProbeEnds, failed, Ends-after, called-idle, exit-Change, destroy-Change,
}
use onic_driver.Probe.Ends.{probe_bar-Ends, destroy-ret, exit-ret}

-- How `onic_qdma_setup` ends: the device is open, or it is not.
data SetupEnds (n : ℕ) (w : World) (ret : ℤ) (w' : World) : Type 0 where
  opened :
      ret ≡ pos 0
      → Change w w'
          (with_cache n w.priv.dma_req)
          (with_device n (w'.priv.dma_req, w'.priv.dev_handle))
      → SetupEnds n w ret w'
  not_opened :
      ne_zero ret ≡ true
      → Change w w' (with_cache n w.priv.dma_req) (with_cache n w'.priv.dma_req)
      → SetupEnds n w ret w'

module _ (env : Env) (n : ℕ) where
  -- What `onic_qdma_setup` does once the device is open.
  abbrev index_setup : Io ℤ
  index_setup = do
    ret ← onic_qdma_csr_index_setup
    if ne_zero ret
        then (do w ← get; request (Op.qdma_device_close w.priv.dev_handle); pure einval)
        else pure (pos 0)

  index_setup-Ends :
      (w v : World)
      → Change w v (with_cache n w.priv.dma_req) (with_device n (v.priv.dma_req, v.priv.dev_handle))
      → SetupEnds n w (index_setup env v).0 (index_setup env v).1
  index_setup-Ends w v f =
      let u = (onic_qdma_csr_index_setup env v).1 in
      let s = onic_qdma_csr_index_setup-IsNeutral env v in
      let g = Change-trans w v u f (
        Change-eq (Still-Change (with_device n (v.priv.dma_req, v.priv.dev_handle)) s)
          (λ x. ap (λ r. with_device n (r.0, r.1) x) (sym s.same_refs))) in
      elim (Bool-cases (ne_zero (onic_qdma_csr_index_setup env v).0)) [
        | inl bad ↦ rw bad (
            not_opened refl (
              Change-trans w u _ g (
                called-Loses env (Op.qdma_device_close u.priv.dev_handle) u
                  (Asset.device u.priv.dev_handle) (with_cache n u.priv.dma_req)
                  (qdma_device_close-Loses u.priv.dev_handle))))
        | inr good ↦ rw good (opened refl g)
      ]

  onic_qdma_setup-Ends :
      (w : World) → SetupEnds n w (onic_qdma_setup env w).0 (onic_qdma_setup env w).1
  unfolding onic_qdma_setup
  onic_qdma_setup-Ends w =
      let h = with_cache n w.priv.dma_req in
      let conf = record w { priv = record w.priv { qdma_dev_conf = dev_conf w.priv } } in
      let op = Op.qdma_device_open (dev_conf w.priv) in
      let a = env.value w.log op in
      let v = record (called op env conf) { priv = record conf.priv { dev_handle = a } } in
      elim (Bool-cases (ne_zero (env.status w.log op))) [
        | inl bad ↦ rw bad (
            not_opened refl (record {
              change =
                  (called-idle env op conf h (λ x. ground (arith, bad)) (λ x. ground arith)).change;
            }))
        | inr good ↦ rw good (
            index_setup-Ends w v (record {
              change =
                  (called-Gains env op conf (Asset.device a) h
                    (qdma_device_open-Gains (dev_conf w.priv) a (env.status w.log op) good)).change;
            }))
      ]

  pub probe_cache-Ends :
      (fuel : ℕ) (w : World)
      → ProbeEnds n w (with_netdev n) (probe_cache fuel n env w).0 (probe_cache fuel n env w).1
  unfolding probe_cache
  probe_cache-Ends fuel w =
      let op = Op.kmem_cache_create 0 in
      let c = env.value w.log op in
      let v = record (called op env w) { priv = record w.priv { dma_req = c } } in
      let u = (onic_qdma_setup env v).1 in
      elim (Bool-cases (c == 0)) [
        | inl null ↦ rw null (
            failed enomem (exit-ret env n enomem v) refl (
              Change-trans w v _
                (record {
                  change =
                      (called-idle env op w (with_netdev n) (λ x. ground (arith, null))
                        (λ x. ground arith)).change;
                })
                (exit-Change env n enomem v)))
        | inr there ↦ rw there (
            Ends-after w v
              (record {
                change =
                    (called-Gains env op w (Asset.cache c) (with_netdev n)
                      (kmem_cache_create-Gains 0 c (env.status w.log op) there)).change;
              })
              (elim (onic_qdma_setup-Ends v) [
                | opened z f ↦ rw z (Ends-after v u f (probe_bar-Ends env n fuel u))
                | not_opened bad f ↦ rw bad (
                    failed (onic_qdma_setup env v).0 (destroy-ret env n _ u) bad
                      (Change-trans v u _ f (destroy-Change env n _ u)))
              ]))
      ]
