-- ===== src/Register/Conf.antt =====
-- The configuration registers of a CMAC (onic_register.h).
use onic_driver.Base.{ℕ, List, [], ◌∷◌}

-- The configuration registers behind `CMAC_OFFSET`, in the order of the file.
pub data ConfReg : Type 0 where
  gt_reset reset switch_core_mode conf_tx_1 conf_rx_1 core_mode core_version : ConfReg
  conf_tx_bip_override conf_tx_fc_ctrl_1 conf_tx_fc_rfrh_1 conf_tx_fc_rfrh_2 conf_tx_fc_rfrh_3 :
      ConfReg
  conf_tx_fc_rfrh_4 conf_tx_fc_rfrh_5 conf_tx_fc_qnta_1 conf_tx_fc_qnta_2 conf_tx_fc_qnta_3 :
      ConfReg
  conf_tx_fc_qnta_4 conf_tx_fc_qnta_5 conf_tx_otn_pkt_len conf_tx_otn_ctrl conf_rx_fc_ctrl_1 :
      ConfReg
  conf_rx_fc_ctrl_2 gt_loopback conf_an_ctrl_1 conf_an_ctrl_2 conf_an_ability conf_lt_ctrl_1 :
      ConfReg
  conf_lt_trained conf_lt_preset conf_lt_init conf_lt_seed_0 conf_lt_seed_1 conf_lt_coef_0 : ConfReg
  conf_lt_coef_1 user_0 rsfec_conf_ind_correction rsfec_conf_enable : ConfReg

unfoldable pub conf_reg : ConfReg → ℕ
conf_reg ConfReg.gt_reset = 0
conf_reg ConfReg.reset = 4
conf_reg ConfReg.switch_core_mode = 8
conf_reg ConfReg.conf_tx_1 = 12
conf_reg ConfReg.conf_rx_1 = 20
conf_reg ConfReg.core_mode = 32
conf_reg ConfReg.core_version = 36
conf_reg ConfReg.conf_tx_bip_override = 44
conf_reg ConfReg.conf_tx_fc_ctrl_1 = 48
conf_reg ConfReg.conf_tx_fc_rfrh_1 = 52
conf_reg ConfReg.conf_tx_fc_rfrh_2 = 56
conf_reg ConfReg.conf_tx_fc_rfrh_3 = 60
conf_reg ConfReg.conf_tx_fc_rfrh_4 = 64
conf_reg ConfReg.conf_tx_fc_rfrh_5 = 68
conf_reg ConfReg.conf_tx_fc_qnta_1 = 72
conf_reg ConfReg.conf_tx_fc_qnta_2 = 76
conf_reg ConfReg.conf_tx_fc_qnta_3 = 80
conf_reg ConfReg.conf_tx_fc_qnta_4 = 84
conf_reg ConfReg.conf_tx_fc_qnta_5 = 88
conf_reg ConfReg.conf_tx_otn_pkt_len = 92
conf_reg ConfReg.conf_tx_otn_ctrl = 96
conf_reg ConfReg.conf_rx_fc_ctrl_1 = 132
conf_reg ConfReg.conf_rx_fc_ctrl_2 = 136
conf_reg ConfReg.gt_loopback = 144
conf_reg ConfReg.conf_an_ctrl_1 = 160
conf_reg ConfReg.conf_an_ctrl_2 = 164
conf_reg ConfReg.conf_an_ability = 168
conf_reg ConfReg.conf_lt_ctrl_1 = 172
conf_reg ConfReg.conf_lt_trained = 176
conf_reg ConfReg.conf_lt_preset = 180
conf_reg ConfReg.conf_lt_init = 184
conf_reg ConfReg.conf_lt_seed_0 = 188
conf_reg ConfReg.conf_lt_seed_1 = 192
conf_reg ConfReg.conf_lt_coef_0 = 196
conf_reg ConfReg.conf_lt_coef_1 = 200
conf_reg ConfReg.user_0 = 204
conf_reg ConfReg.rsfec_conf_ind_correction = 4096
conf_reg ConfReg.rsfec_conf_enable = 4220

-- All of them.
abbrev pub conf_regs : List ConfReg
conf_regs =
    ConfReg.gt_reset ∷ ConfReg.reset ∷ ConfReg.switch_core_mode ∷ ConfReg.conf_tx_1
    ∷ ConfReg.conf_rx_1 ∷ ConfReg.core_mode ∷ ConfReg.core_version ∷ ConfReg.conf_tx_bip_override
    ∷ ConfReg.conf_tx_fc_ctrl_1 ∷ ConfReg.conf_tx_fc_rfrh_1 ∷ ConfReg.conf_tx_fc_rfrh_2
    ∷ ConfReg.conf_tx_fc_rfrh_3 ∷ ConfReg.conf_tx_fc_rfrh_4 ∷ ConfReg.conf_tx_fc_rfrh_5
    ∷ ConfReg.conf_tx_fc_qnta_1 ∷ ConfReg.conf_tx_fc_qnta_2 ∷ ConfReg.conf_tx_fc_qnta_3
    ∷ ConfReg.conf_tx_fc_qnta_4 ∷ ConfReg.conf_tx_fc_qnta_5 ∷ ConfReg.conf_tx_otn_pkt_len
    ∷ ConfReg.conf_tx_otn_ctrl ∷ ConfReg.conf_rx_fc_ctrl_1 ∷ ConfReg.conf_rx_fc_ctrl_2
    ∷ ConfReg.gt_loopback ∷ ConfReg.conf_an_ctrl_1 ∷ ConfReg.conf_an_ctrl_2
    ∷ ConfReg.conf_an_ability ∷ ConfReg.conf_lt_ctrl_1 ∷ ConfReg.conf_lt_trained
    ∷ ConfReg.conf_lt_preset ∷ ConfReg.conf_lt_init ∷ ConfReg.conf_lt_seed_0
    ∷ ConfReg.conf_lt_seed_1 ∷ ConfReg.conf_lt_coef_0 ∷ ConfReg.conf_lt_coef_1 ∷ ConfReg.user_0
    ∷ ConfReg.rsfec_conf_ind_correction ∷ ConfReg.rsfec_conf_enable ∷ []
