-- ===== src/Cmac/Wait.antt =====
-- The wait for the reset of the port in `onic_enable_cmac` (onic_main.c).
use onic_driver.Base.{
  ℕ, zero, suc, ◌+◌, ◌<◌, ◌≤◌, ◌≡◌, refl, inl, inr, Bool, true, false, Bool-cases, ◌==◌, bit_and,
  arith,
}
use onic_driver.Kernel.{Op, Env, World, called}
use onic_driver.Register.{syscfg_offset}
use onic_driver.Register.Sys.{SysReg}
use onic_driver.Cmac.{wait_shell}

-- The read of the status.
abbrev pub read_status : ℕ → Op
read_status bar_base = Op.readl (bar_base + syscfg_offset SysReg.shell_status)

-- The world after `k` rounds that have read the status and slept.
abbrev pub polled : Env → ℕ → ℕ → World → World
polled env bar_base zero w = w
polled env bar_base (suc k) w =
    polled env bar_base k (called (Op.mdelay 1) env (called (read_status bar_base) env w))

-- Whether all bits of `mask` are set in the status that is read in a world.
abbrev pub shows : Env → (mask bar_base : ℕ) → World → Bool
shows env mask bar_base w = bit_and (env.value w.log (read_status bar_base)) mask == mask

-- When the status of round `k` shows the bits, and the wait has more than `k` rounds, it ends with
-- success in the first round whose status shows them: every earlier round has read the status without
-- them and slept, and the last thing that is done is to read it with them.
pub wait_shell-returns :
    (env : Env) (mask bar_base fuel k : ℕ) (w : World)
    → k < fuel
    → shows env mask bar_base (polled env bar_base k w) ≡ true
    → (j : ℕ) × (j ≤ k)
      × ((i : ℕ) (l : i < j) → shows env mask bar_base (polled env bar_base i w) ≡ false)
      × (shows env mask bar_base (polled env bar_base j w) ≡ true)
      × (wait_shell fuel mask bar_base env w
          ≡ (true, called (read_status bar_base) env (polled env bar_base j w)))
unfolding wait_shell
wait_shell-returns env mask bar_base zero k w l seen = absurd (omega arith)
wait_shell-returns env mask bar_base (suc fuel) zero w l seen =
    (zero, omega arith, λ i m. absurd (omega arith), seen, rw seen refl)
wait_shell-returns env mask bar_base (suc fuel) (suc k) w l seen =
    elim (Bool-cases (shows env mask bar_base w)) [
      | inl now ↦ (zero, omega arith, λ i m. absurd (omega arith), now, rw now refl)
      | inr later ↦
          let v = called (Op.mdelay 1) env (called (read_status bar_base) env w) in
          let (j, m, before, at, e) =
            wait_shell-returns env mask bar_base fuel k v (omega arith) seen in
          (suc j, omega arith, below later before, at, rw later e)
    ]
  where
    below :
        {j : ℕ}
        → shows env mask bar_base w ≡ false
        → ((i : ℕ)
            → i < j
            → shows env mask bar_base (
                polled env bar_base i
                  (called (Op.mdelay 1) env (called (read_status bar_base) env w)))
              ≡ false)
        → (i : ℕ) → i < suc j
        → shows env mask bar_base (polled env bar_base i w) ≡ false
    below later before zero m = later
    below later before (suc i) m = before i (omega arith)

pub polled-priv : (env : Env) (bar_base k : ℕ) (w : World) → (polled env bar_base k w).priv ≡ w.priv
polled-priv env bar_base zero w = refl
polled-priv env bar_base (suc k) w =
    polled-priv env bar_base k (called (Op.mdelay 1) env (called (read_status bar_base) env w))
