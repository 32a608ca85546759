-- ===== src/Probe/Blocks.antt =====
-- The memory of a device from `onic_pci_probe` to `onic_pci_remove` (onic_main.c): the platform
-- information, and the tokens of its file (onic_json.c).
use onic_driver.Base.{
  ℕ, ◌+◌, ◌≡◌, refl, ap, inl, inr, true, false, Bool-cases, ◌==◌, if◌then◌else◌, if-both, some,
  List, arith,
}
use onic_driver.Base.Int.{pos, ne_zero}
use onic_driver.Kernel.{zero_platform_info, Memory, Op, Env, World, called, Io, pure, perform}
use onic_driver.Kernel.Ledger.{Moves, Rests, Rests-refl, called-Moves, taken, given}
use onic_driver.Kernel.Blocks.{block-null, memory, block, called-Rests, kfree-Moves, alloc-Moves}
use onic_driver.Json.{JsonLib, onic_get_platform_info}
use onic_driver.Json.Array.{tokens_array, array_kept, nothing_kept, onic_get_platform_info-ReadEnds}
use onic_driver.Cmac.{onic_disable_cmac}
use onic_driver.Cmac.Steps.{onic_disable_cmac-Always}
use onic_driver.Probe.{onic_get_pinfo, probe_netdev, onic_pci_probe, onic_pci_remove}
use onic_driver.Probe.Ready.{Same-Frame, port-Calls}
use onic_driver.Probe.Installed.{probe_netdev-Installed}

-- The array of the tokens of a probe: it is allocated behind the platform information.
abbrev pub probe_tokens : JsonLib → Env → (file_name : List ℕ) → World → ℕ
probe_tokens lib env file_name w =
    tokens_array lib env file_name (called (Op.alloc Memory.platform_info 1) env w)

module _ (env : Env) (lib : JsonLib) (file_name : List ℕ) (w : World) where
  -- Where the information is read, its memory and that of the tokens are held.
  pub get_pinfo-Moves :
      let r = onic_get_pinfo lib file_name env w in
      ne_zero r.0.0 ≡ false
      → ((probe_tokens lib env file_name w == 0) ≡ false)
        × Moves memory w r.1
            (λ a. 0)
            (λ a. block r.0.1 a + block (probe_tokens lib env file_name w) a)
  unfolding onic_get_pinfo
  get_pinfo-Moves =
      let op = Op.alloc Memory.platform_info 1 in
      let p = env.value w.log op in
      let v = called op env w in
      let took = alloc-Moves env Memory.platform_info 1 w refl in
      let r = onic_get_platform_info lib file_name zero_platform_info env v in
      elim (Bool-cases (p == 0)) [
        | inl null ↦ rw null (λ z. cc z)
        | inr there ↦ rw there (elim (Bool-cases (ne_zero r.0.0)) [
          | inl bad ↦ rw bad (λ z. cc (z, bad))
          | inr good ↦ rw good (λ z.
              elim (onic_get_platform_info-ReadEnds lib env file_name zero_platform_info v) [
                | nothing_kept bad m ↦ cc (good, bad)
                | array_kept zero found m ↦
                    (found, record { moves = λ a. omega (arith, took.moves a, m.moves a) })
              ])
        ])
      ]

  -- Where it is not read, all memory is freed.
  pub get_pinfo-Rests :
      let r = onic_get_pinfo lib file_name env w in ne_zero r.0.0 ≡ true → Rests memory w r.1
  unfolding onic_get_pinfo
  get_pinfo-Rests =
      let op = Op.alloc Memory.platform_info 1 in
      let p = env.value w.log op in
      let v = called op env w in
      let took = alloc-Moves env Memory.platform_info 1 w refl in
      let r = onic_get_platform_info lib file_name zero_platform_info env v in
      elim (Bool-cases (p == 0)) [
        | inl null ↦
            rw null (λ z. record { moves = λ a. omega (arith, took.moves a, block-null p a null) })
        | inr there ↦ rw there (elim (Bool-cases (ne_zero r.0.0)) [
          | inl bad ↦ rw bad (λ z.
              elim (onic_get_platform_info-ReadEnds lib env file_name zero_platform_info v) [
                | array_kept zero found m ↦ cc (ap ne_zero zero)
                | nothing_kept b m ↦ record {
                  moves =
                      λ a. omega (arith, took.moves a, m.moves a, (kfree-Moves env p r.1).moves a);
                }
              ])
          | inr good ↦ rw good (λ z. cc z)
        ])
      ]

-- What `onic_pci_remove` does with the memory: it frees the platform information.
onic_pci_remove-Moves :
    (env : Env) (n : ℕ) (w : World)
    → (n == 0) ≡ false
    → (env.priv_of n == 0) ≡ false
    → Moves memory w (onic_pci_remove n env w).1 (block w.priv.pinfo) (λ a. 0)
unfolding onic_pci_remove
onic_pci_remove-Moves env n w found has_priv =
    let w1 = called (Op.pci_set_drvdata 0) env w in
    let w2 = called (Op.unregister_netdev n) env w1 in
    let w3 = (onic_disable_cmac env w2).1 in
    let s = onic_disable_cmac-Always Same-Frame port-Calls env w2 in
    let unmap =
      (if w3.priv.bar_base == 0 then pure tt else perform (Op.iounmap w3.priv.bar_base)) in
    let w4 = (unmap env w3).1 in
    let w5 = called (Op.qdma_device_close w3.priv.dev_handle) env w4 in
    let w6 = called (Op.kmem_cache_destroy w3.priv.dma_req) env w5 in
    let w7 = called (Op.kfree w3.priv.pinfo) env w6 in
    let unmapped =
      if-both (λ (j : Io (Unit {0})). Rests memory w3 (j env w3).1) (w3.priv.bar_base == 0)
        (pure tt) (perform (Op.iounmap w3.priv.bar_base)) (Rests-refl memory w3)
        (called-Rests env (Op.iounmap w3.priv.bar_base) w3 refl) in
    rw (found, has_priv)
      (record {
        moves = λ a. omega (
          arith,
          (called-Rests env (Op.pci_set_drvdata 0) w refl).moves a,
          (called-Rests env (Op.unregister_netdev n) w1 refl).moves a,
          s.rests.moves a,
          unmapped.moves a,
          (called-Rests env (Op.qdma_device_close w3.priv.dev_handle) w4 refl).moves a,
          (called-Rests env (Op.kmem_cache_destroy w3.priv.dma_req) w5 refl).moves a,
          (kfree-Moves env w3.priv.pinfo w6).moves a,
          (called-Rests env (Op.free_netdev n) w7 refl).moves a,
          ap (λ p. block p.pinfo a) s.same_priv,
        );
      })

-- After `onic_pci_probe` has returned 0, `onic_pci_remove` of the network device that the private part
-- names leaves exactly one block of memory allocated and not freed: the array that the probe allocated
-- for the tokens of the platform file, which is not NULL. All other memory is freed. A network device is assumed to have a private part.
pub onic_pci_remove-leaks :
    (env : Env) (lib : JsonLib) (fuel pdev : ℕ) (file_name dev_name : List ℕ) (w : World)
    → ((a : ℕ) → (a == 0) ≡ false → (env.priv_of a == 0) ≡ false)
    → let r = onic_pci_probe lib fuel pdev file_name dev_name env w in
      let w' = (onic_pci_remove r.1.priv.netdev env r.1).1 in
      r.0 ≡ some (pos 0)
      → ((probe_tokens lib env file_name w == 0) ≡ false)
        × ((a : ℕ)
            → taken memory a w'.log + given memory a w.log
              ≡ given memory a w'.log
                + taken memory a w.log
                + block (probe_tokens lib env file_name w) a)
unfolding onic_pci_probe
onic_pci_remove-leaks env lib fuel pdev file_name dev_name w has =
    let r = onic_get_pinfo lib file_name env w in
    let op = Op.alloc Memory.net_device r.0.2.queue_max in
    let n = env.value r.1.log op in
    let v = called op env r.1 in
    elim (Bool-cases (ne_zero r.0.0)) [
      | inl bad ↦ rw bad (λ z. cc (z, bad))
      | inr good ↦ rw good (elim (Bool-cases (n == 0)) [
        | inl null ↦ rw null (λ z. cc z)
        | inr there ↦ rw there (λ z.
            let (found, m) = get_pinfo-Moves env lib file_name w good in
            let (t, same, pinfo, rests) =
              probe_netdev-Installed env fuel pdev n r.0.1 r.0.2 dev_name v there z in
            let u = (probe_netdev fuel pdev n r.0.1 r.0.2 dev_name env v).1 in
            let gone =
              onic_pci_remove-Moves env u.priv.netdev u t.has_netdev
                (has u.priv.netdev t.has_netdev) in
            (
              found,
              λ a. omega (
                arith,
                m.moves a,
                (called-Moves memory env op r.1 (λ b. 0) (λ b. 0) (λ b. refl)).moves a,
                rests.moves a,
                gone.moves a,
                ap (λ p. block p a) pinfo,
              ),
            ))
      ])
    ]
