-- ===== src/Cmac/Writes.antt =====
-- The values of the device's registers, read off the log, and what a sequence of writes leaves there
-- (the `writel` calls of onic_main.c).
use onic_driver.Base.{
  ℕ, ◌+◌, ◌≡◌, ◌∙◌, refl, ap, sym, inl, inr, Bool-cases, ◌==◌, ==→eq, eq→==, ne→==, if◌then◌else◌,
  Option, some, none, List, [], ◌∷◌, arith,
}
use onic_driver.Kernel.{Op, Log, Env, World, called}
use onic_driver.Register.{cmac_conf, cmac_subsystem_offset}
use onic_driver.Register.Conf.{ConfReg, conf_reg}
use onic_driver.Cmac.{conf_writes}

abbrev pub after_op : Op → ℕ → Option ℕ → Option ℕ
after_op (Op.writel val b) a v = if b == a then some val else v
after_op o a v = v

-- The value that was last written to an address.
abbrev pub register : Log → ℕ → Option ℕ
register [] a = none
register (e ∷ l) a = after_op e.op a (register l a)

-- The value of a configuration register after a sequence of writes to a port, from the value `v`.
abbrev pub after_writes : List (ConfReg × ℕ) → ConfReg → Option ℕ → Option ℕ
after_writes [] r v = v
after_writes ((s, val) ∷ ws) r v =
    after_writes ws r (if conf_reg s == conf_reg r then some val else v)

-- Two registers of a port are told apart by their places inside the block.
cmac_conf-test :
    (b i : ℕ) (r s : ConfReg)
    → (b + cmac_conf i r == b + cmac_conf i s) ≡ (conf_reg r == conf_reg s)
cmac_conf-test b i r s = elim (Bool-cases (conf_reg r == conf_reg s)) [
  | inl same ↦
      eq→== (b + cmac_conf i r) (b + cmac_conf i s)
        (ap (λ n. b + (cmac_subsystem_offset i + n)) (==→eq (conf_reg r) (conf_reg s) same))
      ∙ sym same
  | inr other ↦
      ne→== (b + cmac_conf i r) (b + cmac_conf i s)
        (λ e. cc (eq→== (conf_reg r) (conf_reg s) (omega (arith, e))))
      ∙ sym other
]

module _ (env : Env) (b i : ℕ) (r : ConfReg) where
  pub conf_writes-register :
      (ws : List (ConfReg × ℕ)) (w : World)
      → register (conf_writes b i ws env w).1.log (b + cmac_conf i r)
        ≡ after_writes ws r (register w.log (b + cmac_conf i r))
  unfolding conf_writes
  conf_writes-register [] w = refl
  conf_writes-register ((s, val) ∷ ws) w =
      conf_writes-register ws (called (Op.writel val (b + cmac_conf i s)) env w)
      ∙ ap (λ t. after_writes ws r (if t then some val else register w.log (b + cmac_conf i r)))
          (cmac_conf-test b i s r)

  pub conf_writes-priv :
      (ws : List (ConfReg × ℕ)) (w : World) → (conf_writes b i ws env w).1.priv ≡ w.priv
  unfolding conf_writes
  conf_writes-priv [] w = refl
  conf_writes-priv ((s, val) ∷ ws) w =
      conf_writes-priv ws (called (Op.writel val (b + cmac_conf i s)) env w)
