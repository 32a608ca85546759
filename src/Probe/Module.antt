-- ===== src/Probe/Module.antt =====
-- Loading and unloading the module (onic_main.c: `onic_module_init`, `onic_module_exit`).
use onic_driver.Base.{ℕ, ◌+◌, ◌≡◌, ◌⊎◌, inl, inr, true, Bool-cases, if◌then◌else◌, arith}
use onic_driver.Base.Int.{ne_zero-false, ℤ, pos, ne_zero}
use onic_driver.Kernel.{Op, Env, World, called}
use onic_driver.Kernel.Ledger.{Ledger, taken, given}
use onic_driver.Probe.{onic_module_init, onic_module_exit}

-- What a loaded module holds: libqdma, initialised, and its registration as a PCI driver.
pub data Part : Type 0 where
  library registration : Part

abbrev pub take_part : Part → Op → ℤ → ℕ → ℕ
take_part Part.library Op.libqdma_init s v = if ne_zero s then 0 else 1
take_part Part.registration Op.pci_register_driver s v = if ne_zero s then 0 else 1
take_part x o s v = 0

abbrev pub give_part : Part → Op → ℕ
give_part Part.library Op.libqdma_exit = 1
give_part Part.registration Op.pci_unregister_driver = 1
give_part x o = 0

abbrev pub parts : Ledger Part
parts = record { take = take_part; give = give_part }

abbrev pub is_library : Part → ℕ
is_library Part.library = 1
is_library Part.registration = 0

-- Where `onic_module_init` returns 0, `onic_module_exit` gives the library and the registration back, each
-- as often as it was taken. Where it returns an error it holds no registration, and it still holds the
-- library exactly when the library was initialised, which is when the registration failed.
pub onic_module_init-onic_module_exit :
    (env : Env) (w : World)
    → let r = onic_module_init env w in
      let u = (onic_module_exit env r.1).1 in
      ((r.0 ≡ pos 0)
        × ((x : Part)
            → taken parts x u.log + given parts x w.log
              ≡ given parts x u.log + taken parts x w.log))
      ⊎ ((ne_zero r.0 ≡ true)
          × ((x : Part)
              → taken parts x r.1.log + given parts x w.log
                ≡ given parts x r.1.log
                  + taken parts x w.log
                  + (if ne_zero (env.status w.log Op.libqdma_init) then 0 else is_library x)))
unfolding onic_module_init onic_module_exit
onic_module_init-onic_module_exit env w =
    let v = called Op.libqdma_init env w in
    let s = env.status v.log Op.pci_register_driver in
    elim (Bool-cases (ne_zero (env.status w.log Op.libqdma_init))) [
      | inl bad ↦ rw bad (inr (bad, λ x. ground (arith, bad)))
      | inr good ↦ rw good (elim (Bool-cases (ne_zero s)) [
        | inl bad ↦ inr (bad, λ x. ground (arith, bad, good))
        | inr fine ↦ inl (ne_zero-false s fine, λ x. ground (arith, fine, good))
      ])
    ]
