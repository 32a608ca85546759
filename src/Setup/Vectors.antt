-- ===== src/Setup/Vectors.antt =====
-- The sharing of the interrupt vectors by `onic_set_num_queue` (onic_main.c).
use onic_driver.Base.{
  ℕ, suc, ◌+◌, ◌^◌, ◌<◌, ◌≤◌, ◌≡◌, refl, Bool, true, false, if◌then◌else◌, sub16, arith,
}
use onic_driver.Base.Int.{pos, to_u16}
use onic_driver.Kernel.{PlatformInfo, Op, Env, World}
use onic_driver.Setup.{onic_set_num_queue}

-- The vectors that are not for data: those of the user, and one of the master function.
abbrev pub reserved : PlatformInfo → ℕ
reserved p = p.pci_msix_user_cnt + (if p.pci_master_pf then 1 else 0)

data_vectors-reserved :
    (n user : ℕ) (master : Bool)
    → n < 2 ^ 16
    → user + (if master then 1 else 0) ≤ n
    → (if master then sub16 (sub16 (to_u16 (pos n)) user) 1 else sub16 (to_u16 (pos n)) user)
        + (user + (if master then 1 else 0))
      ≡ n
data_vectors-reserved n user true a b = omega (arith, a, b)
data_vectors-reserved n user false a b = omega (arith, a, b)

-- When the device has `n` vectors, at least one and less than 65536, and at least as many as are
-- reserved for the user and the master function, `onic_set_num_queue` returns 0, and the data vectors
-- and the reserved ones are together all the vectors.
pub onic_set_num_queue-vectors :
    (env : Env) (n : ℕ) (w : World)
    → env.status w.log (Op.pci_msix_vec_count w.priv.pcidev) ≡ pos (suc n)
    → suc n < 2 ^ 16
    → reserved w.priv.info ≤ suc n
    → let r = onic_set_num_queue env w in
      (r.0 ≡ pos 0)
      × (r.1.priv.num_msix ≡ suc n)
      × (r.1.priv.nb_queues + reserved w.priv.info ≡ suc n)
unfolding onic_set_num_queue
onic_set_num_queue-vectors env n w e small enough = rw e (
  refl,
  omega (arith, small),
  data_vectors-reserved (suc n) w.priv.info.pci_msix_user_cnt w.priv.info.pci_master_pf small
      enough,
)
