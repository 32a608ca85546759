-- ===== src/Cmac/Lanes.antt =====
-- The end of `onic_enable_cmac` of onic_main.c, from the wait for the lanes on.
use onic_driver.Base.{
  ℕ, ◌+◌, ◌≡◌, ◌∙◌, refl, Bool, true, false, Bool-cases, ◌||◌, ◌==◌, if◌then◌else◌, Option, inl,
  inr, some,
}
use onic_driver.Base.Int.{ℤ, pos, ebusy}
use onic_driver.Kernel.{OnicPriv, Op, Log, Env, World, called, Io, ◌>>=◌, ◌>>◌, perform}
use onic_driver.Register.{cmac_conf, cmac_stat}
use onic_driver.Register.Conf.{ConfReg, conf_reg}
use onic_driver.Register.Stat.{StatReg}
use onic_driver.Cmac.{
  conf_writes, disable_writes, start_writes, flow_writes, onic_rx_lane_aligned, onic_disable_cmac,
  enable_flow, rx_not_aligned, enable_lanes,
}
use onic_driver.Cmac.Writes.{register, conf_writes-register}

-- The value of a configuration register of the driver's port.
abbrev pub port : OnicPriv → Log → ConfReg → Option ℕ
port p l r = register l (p.bar_base + cmac_conf p.info.port_id r)

-- The port receives and sends, with flow control in both directions: all control, quanta and refresh
-- registers are set.
pub record PortUp (p : OnicPriv) (l : Log) : Type 0 where
  pub rx : port p l ConfReg.conf_rx_1 ≡ some 1
  pub tx : port p l ConfReg.conf_tx_1 ≡ some 1
  pub rx_control_1 : port p l ConfReg.conf_rx_fc_ctrl_1 ≡ some 15871
  pub rx_control_2 : port p l ConfReg.conf_rx_fc_ctrl_2 ≡ some 116273
  pub tx_control : port p l ConfReg.conf_tx_fc_ctrl_1 ≡ some 511
  pub tx_quanta_1 : port p l ConfReg.conf_tx_fc_qnta_1 ≡ some 4294967295
  pub tx_quanta_2 : port p l ConfReg.conf_tx_fc_qnta_2 ≡ some 4294967295
  pub tx_quanta_3 : port p l ConfReg.conf_tx_fc_qnta_3 ≡ some 4294967295
  pub tx_quanta_4 : port p l ConfReg.conf_tx_fc_qnta_4 ≡ some 4294967295
  pub tx_quanta_5 : port p l ConfReg.conf_tx_fc_qnta_5 ≡ some 65535
  pub tx_refresh_1 : port p l ConfReg.conf_tx_fc_rfrh_1 ≡ some 4294967295
  pub tx_refresh_2 : port p l ConfReg.conf_tx_fc_rfrh_2 ≡ some 4294967295
  pub tx_refresh_3 : port p l ConfReg.conf_tx_fc_rfrh_3 ≡ some 4294967295
  pub tx_refresh_4 : port p l ConfReg.conf_tx_fc_rfrh_4 ≡ some 4294967295
  pub tx_refresh_5 : port p l ConfReg.conf_tx_fc_rfrh_5 ≡ some 65535

-- The port neither receives nor sends.
pub record PortDown (p : OnicPriv) (l : Log) : Type 0 where
  pub rx : port p l ConfReg.conf_rx_1 ≡ some 0
  pub tx : port p l ConfReg.conf_tx_1 ≡ some 0

-- What a run that returned `ret` has made of the port, by whether the lanes were found aligned.
pub data EnableEnds (aligned : Bool) (p : OnicPriv) (ret : ℤ) (l : Log) : Type 0 where
  up : aligned ≡ true → ret ≡ pos 0 → PortUp p l → EnableEnds aligned p ret l
  down : aligned ≡ false → ret ≡ ebusy → PortDown p l → EnableEnds aligned p ret l

-- The registers of RS-FEC hold these values.
abbrev pub Fec : OnicPriv → Log → (enable correction : Option ℕ) → Type 0
Fec p l enable correction =
    (port p l ConfReg.rsfec_conf_enable ≡ enable)
    × (port p l ConfReg.rsfec_conf_ind_correction ≡ correction)

-- Whether the second of two reads of the status of the lanes finds them aligned, and the world after
-- the two reads.
abbrev pub aligned_in : Env → (bar_base cmac_id : ℕ) → World → Bool
aligned_in env bar_base cmac_id w =
    let op = Op.readl (bar_base + cmac_stat cmac_id StatReg.stat_rx_status) in
    env.value (called op env w).log op == 3

abbrev pub looked : Env → (bar_base cmac_id : ℕ) → World → World
looked env bar_base cmac_id w =
    let op = Op.readl (bar_base + cmac_stat cmac_id StatReg.stat_rx_status) in
    called op env (called op env w)

-- The world in which the receiver runs and the transmitter sends idles.
abbrev pub started : Env → (bar_base cmac_id : ℕ) → World → World
started env bar_base cmac_id w =
    called (Op.writel 16 (bar_base + cmac_conf cmac_id ConfReg.conf_tx_1)) env
      (called (Op.writel 1 (bar_base + cmac_conf cmac_id ConfReg.conf_rx_1)) env w)

-- Whether the lanes of a port that is started in a world are aligned at once or after 100 ms.
abbrev pub aligns : Env → (bar_base cmac_id : ℕ) → World → Bool
aligns env bar_base cmac_id w =
    let v = started env bar_base cmac_id w in
    aligned_in env bar_base cmac_id v
    || aligned_in env bar_base cmac_id (called (Op.mdelay 100) env (looked env bar_base cmac_id v))

module _ (env : Env) where
  -- The flow control of a port whose receiver runs is set, and RS-FEC is left as it is.
  enable_flow-PortUp :
      (w : World)
      → port w.priv w.log ConfReg.conf_rx_1 ≡ some 1
      → PortUp w.priv (enable_flow env w).1.log
  unfolding enable_flow conf_reg
  enable_flow-PortUp w e =
      let at = λ (r : ConfReg).
        conf_writes-register env w.priv.bar_base w.priv.info.port_id r flow_writes w in
      record {
        rx = at ConfReg.conf_rx_1 ∙ e;
        tx = at ConfReg.conf_tx_1;
        rx_control_1 = at ConfReg.conf_rx_fc_ctrl_1;
        rx_control_2 = at ConfReg.conf_rx_fc_ctrl_2;
        tx_control = at ConfReg.conf_tx_fc_ctrl_1;
        tx_quanta_1 = at ConfReg.conf_tx_fc_qnta_1;
        tx_quanta_2 = at ConfReg.conf_tx_fc_qnta_2;
        tx_quanta_3 = at ConfReg.conf_tx_fc_qnta_3;
        tx_quanta_4 = at ConfReg.conf_tx_fc_qnta_4;
        tx_quanta_5 = at ConfReg.conf_tx_fc_qnta_5;
        tx_refresh_1 = at ConfReg.conf_tx_fc_rfrh_1;
        tx_refresh_2 = at ConfReg.conf_tx_fc_rfrh_2;
        tx_refresh_3 = at ConfReg.conf_tx_fc_rfrh_3;
        tx_refresh_4 = at ConfReg.conf_tx_fc_rfrh_4;
        tx_refresh_5 = at ConfReg.conf_tx_fc_rfrh_5;
      }

  onic_disable_cmac-PortDown : (w : World) → PortDown w.priv (onic_disable_cmac env w).1.log
  unfolding onic_disable_cmac conf_reg
  onic_disable_cmac-PortDown w =
      let at = λ (r : ConfReg).
        conf_writes-register env w.priv.bar_base w.priv.info.port_id r disable_writes w in
      record { rx = at ConfReg.conf_rx_1; tx = at ConfReg.conf_tx_1 }

  -- Writes that do not touch RS-FEC.
  enable_flow-Fec :
      (w : World) (x y : Option ℕ) → Fec w.priv w.log x y → Fec w.priv (enable_flow env w).1.log x y
  unfolding enable_flow conf_reg
  enable_flow-Fec w x y (e, f) =
      let at = λ (r : ConfReg).
        conf_writes-register env w.priv.bar_base w.priv.info.port_id r flow_writes w in
      (at ConfReg.rsfec_conf_enable ∙ e, at ConfReg.rsfec_conf_ind_correction ∙ f)

  onic_disable_cmac-Fec :
      (w : World) (x y : Option ℕ)
      → Fec w.priv w.log x y
      → Fec w.priv (onic_disable_cmac env w).1.log x y
  unfolding onic_disable_cmac conf_reg
  onic_disable_cmac-Fec w x y (e, f) =
      let at = λ (r : ConfReg).
        conf_writes-register env w.priv.bar_base w.priv.info.port_id r disable_writes w in
      (at ConfReg.rsfec_conf_enable ∙ e, at ConfReg.rsfec_conf_ind_correction ∙ f)

  -- An end with the given alignment and the given values of RS-FEC.
  abbrev pub Ends : Bool → World → (x y : Option ℕ) → Io ℤ → Type 0
  Ends aligned v x y m =
      EnableEnds aligned v.priv (m env v).0 (m env v).1.log × Fec v.priv (m env v).1.log x y

  enable_flow-Ends :
      (w : World) (x y : Option ℕ)
      → port w.priv w.log ConfReg.conf_rx_1 ≡ some 1
      → Fec w.priv w.log x y
      → Ends true w x y enable_flow
  unfolding enable_flow
  enable_flow-Ends w x y e f = (up refl refl (enable_flow-PortUp w e), enable_flow-Fec w x y f)

  rx_not_aligned-Ends :
      (w : World) (x y : Option ℕ) → Fec w.priv w.log x y → Ends false w x y rx_not_aligned
  unfolding rx_not_aligned
  rx_not_aligned-Ends w x y f =
      (down refl refl (onic_disable_cmac-PortDown w), onic_disable_cmac-Fec w x y f)

  -- What `enable_lanes` does once the port was started in the world `v`.
  abbrev lanes : ℕ → Io ℤ
  lanes cmac_id = do
    aligned ← onic_rx_lane_aligned cmac_id
    if aligned then enable_flow else do
      perform (Op.mdelay 100)
      aligned ← onic_rx_lane_aligned cmac_id
      if aligned then enable_flow else rx_not_aligned

  lanes-Ends :
      (v : World) (x y : Option ℕ)
      → let b = v.priv.bar_base in
        let i = v.priv.info.port_id in
        port v.priv v.log ConfReg.conf_rx_1 ≡ some 1
        → Fec v.priv v.log x y
        → Ends
            (aligned_in env b i v
              || aligned_in env b i (called (Op.mdelay 100) env (looked env b i v)))
            v
            x
            y
            (lanes i)
  unfolding onic_rx_lane_aligned
  lanes-Ends v x y e f =
      let b = v.priv.bar_base in
      let i = v.priv.info.port_id in
      let once = looked env b i v in
      let later = called (Op.mdelay 100) env once in
      let twice = looked env b i later in
      elim (Bool-cases (aligned_in env b i v)) [
        | inl now ↦ rw now (enable_flow-Ends once x y e f)
        | inr never ↦ rw never (elim (Bool-cases (aligned_in env b i later)) [
          | inl now ↦ rw now (enable_flow-Ends twice x y e f)
          | inr again ↦ rw again (rx_not_aligned-Ends twice x y f)
        ])
      ]

  pub enable_lanes-Ends :
      (w : World) (x y : Option ℕ)
      → Fec w.priv w.log x y
      → Ends (aligns env w.priv.bar_base w.priv.info.port_id w) w x y enable_lanes
  unfolding enable_lanes conf_writes conf_reg
  enable_lanes-Ends w x y (e, f) =
      let b = w.priv.bar_base in
      let i = w.priv.info.port_id in
      let v = started env b i w in
      let at = λ (r : ConfReg). conf_writes-register env b i r start_writes w in
      lanes-Ends v x y (at ConfReg.conf_rx_1)
        (at ConfReg.rsfec_conf_enable ∙ e, at ConfReg.rsfec_conf_ind_correction ∙ f)
