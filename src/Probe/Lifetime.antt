-- ===== src/Probe/Lifetime.antt =====
-- The driver from `onic_pci_probe` over the life of its interface to `onic_pci_remove` (onic_main.c).
use onic_driver.Base.{ℕ, ◌+◌, ◌≡◌, ◌∙◌, refl, ap, sym, true, false, ◌==◌, some, List, arith}
use onic_driver.Base.Int.{pos}
use onic_driver.Kernel.{OnicPriv, QStats, Op, Env, World, modify_priv}
use onic_driver.Kernel.Steps.{Always}
use onic_driver.Json.{JsonLib}
use onic_driver.Netdev.Life.{Phase, Life}
use onic_driver.Netdev.Steps.{
  PrivWrite, writes_rx_base, writes_tx_base, writes_napi, writes_tx_qstats, writes_rx_qstats,
}
use onic_driver.Netdev.Steps.Life.{is_life_call, Life-Always}
use onic_driver.Probe.{onic_pci_probe, onic_pci_remove}
use onic_driver.Probe.Assets.{Asset, gained, lost, owned, with_mapping}
use onic_driver.Probe.Neutral.{Still, Still-Frame, IsPlain, called-Still}
use onic_driver.Probe.Neutral.Setup.{Still-modify}
use onic_driver.Probe.Outcome.{probed, failed, waiting}
use onic_driver.Probe.Balance.{onic_pci_probe-Ends, onic_pci_remove-Change}

life-IsPlain : (op : Op) → is_life_call op ≡ true → IsPlain op
life-IsPlain op e x = (λ s u. ground arith, ground arith)

writes-Still : (f : OnicPriv → OnicPriv) → PrivWrite f → Always Still-Frame (modify_priv f)
writes-Still _ (writes_rx_base h) env w = Still-modify w _ refl
writes-Still _ (writes_tx_base h) env w = Still-modify w _ refl
writes-Still _ (writes_napi a) env w = Still-modify w _ refl
writes-Still _ (writes_tx_qstats a) env w = Still-modify w _ refl
writes-Still _ (writes_rx_qstats a) env w = Still-modify w _ refl

stats-Still : (w : World) (t : ℕ → QStats) → Still w (record w { stats = t })
stats-Still w t = record { same_gained = λ x. refl; same_lost = λ x. refl; same_refs = refl }

-- The life of the interface moves no asset of the probe.
Life-Still :
    (env : Env) (netdev : ℕ) (w v : World) (phase : Phase) → Life env netdev w v phase → Still w v
Life-Still =
    Life-Always Still-Frame (λ op e. called-Still (life-IsPlain op e)) writes-Still
      (λ a n env w. stats-Still w _) (λ a f env w. stats-Still w _)

-- After `onic_pci_probe` has returned 0, the interface of the network device that the private part names
-- may go up and down, with whatever traffic, interrupts and failures, and is down again: then
-- `onic_pci_remove` gives back, one for one, every network device, request cache, open device, mapping
-- and registration that the probe took. A network device is assumed to have a private part.
pub Life-onic_pci_remove :
    (env : Env) (lib : JsonLib) (fuel pdev : ℕ) (file_name dev_name : List ℕ) (w u : World)
    → ((a : ℕ) → (a == 0) ≡ false → (env.priv_of a == 0) ≡ false)
    → let r = onic_pci_probe lib fuel pdev file_name dev_name env w in
      let netdev = r.1.priv.netdev in
      r.0 ≡ some (pos 0)
      → Life env netdev r.1 u Phase.down
      → (x : Asset)
      → let w' = (onic_pci_remove netdev env u).1 in
        gained x w'.log + lost x w.log ≡ lost x w'.log + gained x w.log
Life-onic_pci_remove env lib fuel pdev file_name dev_name w u has z life x =
    let v = (onic_pci_probe lib fuel pdev file_name dev_name env w).1 in
    let (n, ends, found) = onic_pci_probe-Ends env lib fuel pdev file_name dev_name w in
    let s = Life-Still env v.priv.netdev v u Phase.down life in
    let same = (found z).1 in
    let there = ap (λ a. a == 0) same ∙ (found z).0 in
    elim ends [
      | waiting y ↦ cc (y, z)
      | failed d y b f ↦ cc (y, z, b)
      | probed y b f ↦
          let m = v.priv.netdev in
          let gone =
            onic_pci_remove-Change env m u there (has m there)
              (ap (λ r. r.2 == 0) s.same_refs ∙ b) in
          omega (
            arith,
            f.change x,
            s.same_gained x,
            s.same_lost x,
            gone.change x,
            ap {B = ℕ} (λ a. owned a v.priv x) (sym same),
            ap {B = ℕ} (λ r. with_mapping m r x) s.same_refs,
          )
    ]
