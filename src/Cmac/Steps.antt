-- ===== src/Cmac/Steps.antt =====
-- What the functions of the Ethernet port (onic_main.c, `onic_disable_cmac` to `onic_init_reta`) keep, for
-- any relation that their calls keep.
use onic_driver.Base.{
  ℕ, zero, suc, ◌+◌, ◌%◌, ◌≡◌, refl, Bool, true, false, ◌==◌, if◌then◌else◌, Option, some, none,
  List, [], ◌∷◌, not, bit_and,
}
use onic_driver.Base.Int.{ℤ}
use onic_driver.Kernel.{Op, World, called, Io, pure, ◌>>=◌, ◌>>◌, perform}
use onic_driver.Kernel.Steps.{Frame, Always, Calls, either}
use onic_driver.Register.{
  syscfg_offset, cmac_stat, qdma_func_offset_qconf, qdma_func_offset_indir_table,
}
use onic_driver.Register.Sys.{SysReg}
use onic_driver.Register.Conf.{ConfReg}
use onic_driver.Register.Stat.{StatReg}
use onic_driver.Cmac.{
  conf_writes, disable_writes, flow_writes, qconf, start_writes, rsfec_writes, shell_bit,
  wait_shell, onic_rx_lane_aligned, enable_flow, rx_not_aligned, enable_lanes, onic_enable_cmac,
  onic_disable_cmac, reta_loop, onic_init_reta,
}

-- The calls of these functions.
abbrev pub is_port_call : Op → Bool
is_port_call (Op.readl a) = true
is_port_call (Op.writel v a) = true
is_port_call (Op.mdelay n) = true
is_port_call o = false

module _ {R : World → World → Type 0} (frame : Frame R)
    (calls : (op : Op) → is_port_call op ≡ true → Calls frame op) where
  conf_writes-Always : (b i : ℕ) (ws : List (ConfReg × ℕ)) → Always frame (conf_writes b i ws)
  unfolding conf_writes
  conf_writes-Always b i [] env w = frame.stay w
  conf_writes-Always b i ((r, v) ∷ ws) env w =
      frame.both (calls (Op.writel v _) refl env w) (conf_writes-Always b i ws env _)

  wait_shell-Always : (fuel mask b : ℕ) → Always frame (wait_shell fuel mask b)
  unfolding wait_shell
  wait_shell-Always zero mask b env w = frame.stay w
  wait_shell-Always (suc fuel) mask b env w =
      let op = Op.readl (b + syscfg_offset SysReg.shell_status) in
      frame.both (calls (Op.readl (b + syscfg_offset SysReg.shell_status)) refl env w) (
        either frame (bit_and (env.value w.log op) mask == mask) (pure true)
          (perform (Op.mdelay 1) >> wait_shell fuel mask b) (λ e u. frame.stay u)
          (λ e u.
            frame.both (calls (Op.mdelay 1) refl e u)
              (wait_shell-Always fuel mask b e (called (Op.mdelay 1) e u)))
          env (called op env w))

  reta_loop-Always : (b i q n k : ℕ) → Always frame (reta_loop b i q n k)
  unfolding reta_loop
  reta_loop-Always b i q zero k env w = frame.stay w
  reta_loop-Always b i q (suc n) k env w =
      let val = bit_and (k % q) 65535 in
      let a = b + qdma_func_offset_indir_table i k in
      frame.both (calls (Op.writel val a) refl env w)
        (reta_loop-Always b i q n (k + 1) env (called (Op.writel val a) env w))

  pub onic_disable_cmac-Always : Always frame onic_disable_cmac
  unfolding onic_disable_cmac
  onic_disable_cmac-Always env w =
      conf_writes-Always w.priv.bar_base w.priv.info.port_id disable_writes env w

  enable_flow-Always : Always frame enable_flow
  unfolding enable_flow
  enable_flow-Always env w =
      conf_writes-Always w.priv.bar_base w.priv.info.port_id flow_writes env w

  rx_not_aligned-Always : Always frame rx_not_aligned
  unfolding rx_not_aligned
  rx_not_aligned-Always env w = onic_disable_cmac-Always env w

  onic_rx_lane_aligned-Always : (i : ℕ) → Always frame (onic_rx_lane_aligned i)
  unfolding onic_rx_lane_aligned
  onic_rx_lane_aligned-Always i env w =
      let a = w.priv.bar_base + cmac_stat i StatReg.stat_rx_status in
      frame.both (calls (Op.readl a) refl env w)
        (calls (Op.readl a) refl env (called (Op.readl a) env w))

  enable_lanes-Always : Always frame enable_lanes
  unfolding enable_lanes
  enable_lanes-Always env w =
      let i = w.priv.info.port_id in
      let v = (conf_writes w.priv.bar_base i start_writes env w).1 in
      let again : Io ℤ =
        perform (Op.mdelay 100)
        >> (do aligned ← onic_rx_lane_aligned i; if aligned then enable_flow else rx_not_aligned) in
      frame.both (conf_writes-Always w.priv.bar_base i start_writes env w) (
        frame.both (onic_rx_lane_aligned-Always i env v) (
          either frame (onic_rx_lane_aligned i env v).0 enable_flow again enable_flow-Always
            (λ e u.
              let u' = called (Op.mdelay 100) e u in
              frame.both (calls (Op.mdelay 100) refl e u) (
                frame.both (onic_rx_lane_aligned-Always i e u') (
                  either frame (onic_rx_lane_aligned i e u').0 enable_flow rx_not_aligned
                    enable_flow-Always rx_not_aligned-Always e (onic_rx_lane_aligned i e u').1)))
            env (onic_rx_lane_aligned i env v).1))

  pub onic_enable_cmac-Always : (fuel : ℕ) → Always frame (onic_enable_cmac fuel)
  unfolding onic_enable_cmac
  onic_enable_cmac-Always fuel env w =
      let i = w.priv.info.port_id in
      let b = w.priv.bar_base in
      let bit = shell_bit i in
      let op = Op.writel bit (b + syscfg_offset SysReg.shell_reset) in
      let rsfec = (if w.priv.info.rsfec_en then conf_writes b i rsfec_writes else pure tt) in
      let v = called op env (rsfec env w).1 in
      let r = wait_shell fuel bit b env v in
      let finish : Io (Option ℤ) = (do ret ← enable_lanes; pure (some ret)) in
      frame.both
        (either frame w.priv.info.rsfec_en (conf_writes b i rsfec_writes) (pure tt)
          (conf_writes-Always b i rsfec_writes) (λ e u. frame.stay u) env w)
        (frame.both
          (calls (Op.writel bit (b + syscfg_offset SysReg.shell_reset)) refl env (rsfec env w).1)
          (frame.both (wait_shell-Always fuel bit b env v) (
            either frame (not r.0) (pure none) finish (λ e u. frame.stay u) enable_lanes-Always env
              r.1)))

  pub onic_init_reta-Always : Always frame onic_init_reta
  unfolding onic_init_reta
  onic_init_reta-Always env w =
      let b = w.priv.bar_base in
      let i = w.priv.info.port_id in
      let n = w.net.real_num_rx_queues in
      let val = qconf w.priv.info.queue_base n in
      let a = b + qdma_func_offset_qconf i in
      frame.both (calls (Op.writel val a) refl env w)
        (reta_loop-Always b i n 128 0 env (called (Op.writel val a) env w))
