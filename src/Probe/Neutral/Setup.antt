-- ===== src/Probe/Neutral/Setup.antt =====
-- The address, the vectors and the table indices (onic_main.c) move no asset.
use onic_driver.Base.{◌≡◌, refl, true, List, ℕ, arith}
use onic_driver.Kernel.{OnicPriv, Op, World}
use onic_driver.Kernel.Steps.{Calls}
use onic_driver.Stats.{onic_set_mac_address}
use onic_driver.Setup.{onic_set_num_queue, onic_qdma_csr_index_setup}
use onic_driver.Setup.Steps.{
  is_setup_call, onic_set_num_queue-Always, onic_qdma_csr_index_setup-Always,
}
use onic_driver.Probe.Assets.{refs}
use onic_driver.Probe.Neutral.{
  Still, Still-refl, Still-Frame, IsNeutral, IsPlain, called-Still, branch,
}

pub onic_set_mac_address-IsNeutral : (addr : List ℕ) → IsNeutral (onic_set_mac_address addr)
unfolding onic_set_mac_address
onic_set_mac_address-IsNeutral addr =
    branch _ _ _ (λ e u. Still-refl)
      (λ e u. record { same_gained = λ x. refl; same_lost = λ x. refl; same_refs = refl })

pub Still-modify :
    (w : World) (p : OnicPriv) → refs p ≡ refs w.priv → Still w (record w { priv = p })
Still-modify w p e = record { same_gained = λ x. refl; same_lost = λ x. refl; same_refs = e }

setup-IsPlain : (op : Op) → is_setup_call op ≡ true → IsPlain op
setup-IsPlain op e x = (λ s u. ground arith, ground arith)

setup-Calls : (op : Op) → is_setup_call op ≡ true → Calls Still-Frame op
setup-Calls op e = called-Still (setup-IsPlain op e)

pub onic_qdma_csr_index_setup-IsNeutral : IsNeutral onic_qdma_csr_index_setup
onic_qdma_csr_index_setup-IsNeutral =
    onic_qdma_csr_index_setup-Always Still-Frame setup-Calls (λ i e u. Still-modify u _ refl)
      (λ i e u. Still-modify u _ refl) (λ i e u. Still-modify u _ refl)
      (λ i e u. Still-modify u _ refl)

pub onic_set_num_queue-IsNeutral : IsNeutral onic_set_num_queue
onic_set_num_queue-IsNeutral =
    onic_set_num_queue-Always Still-Frame setup-Calls (λ n e u. Still-modify u _ refl)
