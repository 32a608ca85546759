-- ===== src/Cmac.antt =====
-- The Ethernet port behind the user BAR (onic_main.c: `onic_rx_lane_aligned`, `onic_disable_cmac`,
-- `onic_enable_cmac`, `onic_init_reta`).
--
-- The wait for the reset has no bound in the source. Here it is given a number of rounds, and `none`
-- says that they were not enough. `bar_base + offset` is the address of a register.
pub mod Writes
pub mod Wait
pub mod Lanes
pub mod Enable
pub mod Reta
pub mod Bar
pub mod Steps
use onic_driver.Base.{
  ℕ, zero, suc, ◌+◌, ◌*◌, ◌%◌, ◌^◌, Bool, true, false, ◌==◌, not, if◌then◌else◌, bit_and, bit_or,
  Option, some, none, List, [], ◌∷◌, ◌++◌,
}
use onic_driver.Base.Int.{ℤ, pos, ebusy}
use onic_driver.Kernel.{Op, Env, World, Io, pure, ◌>>=◌, ◌>>◌, get, fetch, perform}
use onic_driver.Register.{
  syscfg_offset, cmac_conf, cmac_stat, qdma_func_offset_qconf, qdma_func_offset_indir_table,
}
use onic_driver.Register.Sys.{SysReg}
use onic_driver.Register.Conf.{ConfReg}
use onic_driver.Register.Stat.{StatReg}

unfoldable pub onic_rx_lane_aligned : ℕ → Io Bool
onic_rx_lane_aligned cmac_id = do
  w ← get
  let a = w.priv.bar_base + cmac_stat cmac_id StatReg.stat_rx_status
  fetch (Op.readl a)
  val ← fetch (Op.readl a)
  pure (val == 3)

-- `writel` of values to configuration registers of a port, one after the other.
unfoldable pub conf_writes : ℕ → ℕ → List (ConfReg × ℕ) → Io (Unit {0})
conf_writes bar_base cmac_id [] = pure tt
conf_writes bar_base cmac_id ((r, val) ∷ ws) = do
  perform (Op.writel val (bar_base + cmac_conf cmac_id r))
  conf_writes bar_base cmac_id ws

-- The writes of `onic_disable_cmac`.
abbrev pub disable_writes : List (ConfReg × ℕ)
disable_writes = (ConfReg.conf_tx_1, 0) ∷ (ConfReg.conf_rx_1, 0) ∷ []

unfoldable pub onic_disable_cmac : Io (Unit {0})
unfolding conf_writes
onic_disable_cmac = do w ← get; conf_writes w.priv.bar_base w.priv.info.port_id disable_writes

-- The writes of `onic_enable_cmac` for RS-FEC, before the wait for the lanes, and after it.
abbrev pub rsfec_writes : List (ConfReg × ℕ)
rsfec_writes = (ConfReg.rsfec_conf_enable, 3) ∷ (ConfReg.rsfec_conf_ind_correction, 7) ∷ []

abbrev pub start_writes : List (ConfReg × ℕ)
start_writes = (ConfReg.conf_rx_1, 1) ∷ (ConfReg.conf_tx_1, 16) ∷ []

abbrev pub flow_writes : List (ConfReg × ℕ)
flow_writes =
    (ConfReg.conf_tx_1, 1)
    ∷ (ConfReg.conf_rx_fc_ctrl_1, 15871)
    ∷ (ConfReg.conf_rx_fc_ctrl_2, 116273)
    ∷ (ConfReg.conf_tx_fc_qnta_1, 4294967295)
    ∷ (ConfReg.conf_tx_fc_qnta_2, 4294967295)
    ∷ (ConfReg.conf_tx_fc_qnta_3, 4294967295)
    ∷ (ConfReg.conf_tx_fc_qnta_4, 4294967295)
    ∷ (ConfReg.conf_tx_fc_qnta_5, 65535)
    ∷ (ConfReg.conf_tx_fc_rfrh_1, 4294967295)
    ∷ (ConfReg.conf_tx_fc_rfrh_2, 4294967295)
    ∷ (ConfReg.conf_tx_fc_rfrh_3, 4294967295)
    ∷ (ConfReg.conf_tx_fc_rfrh_4, 4294967295)
    ∷ (ConfReg.conf_tx_fc_rfrh_5, 65535)
    ∷ (ConfReg.conf_tx_fc_ctrl_1, 511)
    ∷ []

-- `while ((readl(...) & mask) != mask) mdelay(1);` for `fuel` rounds: whether the bit was seen.
unfoldable pub wait_shell : (fuel mask bar_base : ℕ) → Io Bool
wait_shell zero mask bar_base = pure false
wait_shell (suc fuel) mask bar_base = do
  val ← fetch (Op.readl (bar_base + syscfg_offset SysReg.shell_status))
  if bit_and val mask == mask
      then pure true
      else do perform (Op.mdelay 1); wait_shell fuel mask bar_base

-- The bit of the shell's registers that stands for the port.
abbrev pub shell_bit : ℕ → ℕ
shell_bit cmac_id = if cmac_id == 0 then 16 else 256

-- The end of `onic_enable_cmac`, and its label `rx_not_aligned`.
unfoldable pub enable_flow : Io ℤ
unfolding conf_writes
enable_flow = do w ← get; conf_writes w.priv.bar_base w.priv.info.port_id flow_writes; pure (pos 0)

unfoldable pub rx_not_aligned : Io ℤ
unfolding onic_disable_cmac
rx_not_aligned = do onic_disable_cmac; pure ebusy

-- `onic_enable_cmac` from the wait for the lanes on.
unfoldable pub enable_lanes : Io ℤ
unfolding onic_rx_lane_aligned
enable_lanes = do
  w ← get
  conf_writes w.priv.bar_base w.priv.info.port_id start_writes
  aligned ← onic_rx_lane_aligned w.priv.info.port_id
  if aligned then enable_flow else do
    perform (Op.mdelay 100)
    aligned ← onic_rx_lane_aligned w.priv.info.port_id
    if aligned then enable_flow else rx_not_aligned

unfoldable pub onic_enable_cmac : (fuel : ℕ) → Io (Option ℤ)
onic_enable_cmac fuel = do
  w ← get
  let cmac_id = w.priv.info.port_id
  (if w.priv.info.rsfec_en then conf_writes w.priv.bar_base cmac_id rsfec_writes else pure tt)
  perform (Op.writel (shell_bit cmac_id) (w.priv.bar_base + syscfg_offset SysReg.shell_reset))
  reset ← wait_shell fuel (shell_bit cmac_id) w.priv.bar_base
  if not reset then pure none else do ret ← enable_lanes; pure (some ret)

-- `FIELD_SET` of a mask whose lowest bit is the bit `shift`.
abbrev pub field_set : (mask shift val : ℕ) → ℕ
field_set mask shift val = bit_and (val * 2 ^ shift) mask

-- The function map: `QDMA_FUNC_QCONF_QBASE_MASK` is GENMASK(31, 16), `..._NUMQ_MASK` GENMASK(15, 0).
abbrev pub qconf : (queue_base num_rx : ℕ) → ℕ
qconf queue_base num_rx = bit_or (field_set 4294901760 16 queue_base) (field_set 65535 0 num_rx)

-- The loop of `onic_init_reta` with `n` rounds left at the entry `i`.
unfoldable pub reta_loop : (bar_base port_id num_rx n i : ℕ) → Io (Unit {0})
reta_loop bar_base port_id num_rx zero i = pure tt
reta_loop bar_base port_id num_rx (suc n) i = do
  perform
      (Op.writel (bit_and (i % num_rx) 65535) (bar_base + qdma_func_offset_indir_table port_id i))
  reta_loop bar_base port_id num_rx n (i + 1)

unfoldable pub onic_init_reta : Io (Unit {0})
unfolding reta_loop
onic_init_reta = do
  w ← get
  perform (
      Op.writel (qconf w.priv.info.queue_base w.net.real_num_rx_queues)
        (w.priv.bar_base + qdma_func_offset_qconf w.priv.info.port_id))
  reta_loop w.priv.bar_base w.priv.info.port_id w.net.real_num_rx_queues 128 0
