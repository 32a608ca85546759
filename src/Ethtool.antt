-- ===== src/Ethtool.antt =====
-- What `ethtool` is told of the driver, onic_ethtool.c. `strlcpy` and `pci_name` are parameters.
use onic_driver.Base.{
  ℕ, ◌-◌, ◌<◌, ◌≤◌, ◌≡◌, refl, ap, List, [], ◌∷◌, length, take, zero, suc, arith,
}
use onic_driver.Kernel.{OpsTable, Env, World, Io, pure, ◌>>=◌, get, modify_net}

-- The strings of onic_main.c in ASCII: "onic" and "1.00".
abbrev pub onic_drv_name : List ℕ
onic_drv_name = 111 ∷ 110 ∷ 105 ∷ 99 ∷ []

abbrev pub onic_drv_ver : List ℕ
onic_drv_ver = 49 ∷ 46 ∷ 48 ∷ 48 ∷ []

-- `struct ethtool_drvinfo`, the fields that the driver fills in; each is an array of 32 bytes and is
-- given by the string in it.
pub record DrvInfo : Type 0 where
  pub driver : List ℕ
  pub version : List ℕ
  pub bus_info : List ℕ

-- The string that `strlcpy` leaves in an array of a size, and the name of a PCI device by its address.
pub record EthtoolLib : Type 0 where
  pub strlcpy : List ℕ → ℕ → List ℕ
  pub pci_name : ℕ → List ℕ

unfoldable pub onic_get_drvinfo : EthtoolLib → DrvInfo → Io DrvInfo
onic_get_drvinfo lib drvinfo = do
  w ← get
  pure (record drvinfo {
    driver = lib.strlcpy onic_drv_name 32;
    version = lib.strlcpy onic_drv_ver 32;
    bus_info = lib.strlcpy (lib.pci_name w.priv.pcidev) 32;
  })

unfoldable pub onic_set_ethtool_ops : Io (Unit {0})
onic_set_ethtool_ops = modify_net (λ n. record n { ethtool_ops = OpsTable.onic_ethtool_ops })

-- `strlcpy` copies what fits in front of the NUL.
pub record CopiesString (lib : EthtoolLib) : Type 0 where
  pub copies : (text : List ℕ) (size : ℕ) → 0 < size → lib.strlcpy text size ≡ take (size - 1) text

take-whole : (n : ℕ) (xs : List ℕ) → length xs ≤ n → take n xs ≡ xs
take-whole zero [] l = refl
take-whole zero (x ∷ xs) l = absurd (omega arith)
take-whole (suc n) [] l = refl
take-whole (suc n) (x ∷ xs) l = ap (λ ys. x ∷ ys) (take-whole n xs (omega arith))

-- `onic_get_drvinfo` reports the name and the version of the driver and the name of the PCI device whole,
-- when `strlcpy` copies what fits in front of the NUL and the name of the device is shorter than its
-- array, and it changes nothing.
pub onic_get_drvinfo-whole :
    (lib : EthtoolLib) (env : Env) (drvinfo : DrvInfo) (w : World)
    → CopiesString lib
    → length (lib.pci_name w.priv.pcidev) < 32
    → onic_get_drvinfo lib drvinfo env w ≡ (
      record {
        driver = onic_drv_name;
        version = onic_drv_ver;
        bus_info = lib.pci_name w.priv.pcidev;
      },
      w,
    )
unfolding onic_get_drvinfo
onic_get_drvinfo-whole lib env drvinfo w c l =
    let name = lib.pci_name w.priv.pcidev in
    rw
      (
        c.copies onic_drv_name 32 (omega arith),
        c.copies onic_drv_ver 32 (omega arith),
        c.copies name 32 (omega arith),
        take-whole 31 name (omega arith),
      )
      refl
