-- ===== src/Register/Sys.antt =====
-- The registers of the system configuration and of the packet adapter (onic_register.h).
use onic_driver.Base.{ℕ}

-- The registers behind `SYSCFG_OFFSET`.
pub data SysReg : Type 0 where
  build_status system_reset system_status shell_reset shell_status user_reset user_status : SysReg

unfoldable pub syscfg_reg : SysReg → ℕ
syscfg_reg SysReg.build_status = 0
syscfg_reg SysReg.system_reset = 4
syscfg_reg SysReg.system_status = 8
syscfg_reg SysReg.shell_reset = 12
syscfg_reg SysReg.shell_status = 16
syscfg_reg SysReg.user_reset = 20
syscfg_reg SysReg.user_status = 24

-- The registers behind `CMAC_ADPT_OFFSET`.
pub data AdptReg : Type 0 where
  tx_pkt_recv tx_pkt_drop rx_pkt_recv rx_pkt_drop rx_pkt_error : AdptReg

unfoldable pub adpt_reg : AdptReg → ℕ
adpt_reg AdptReg.tx_pkt_recv = 0
adpt_reg AdptReg.tx_pkt_drop = 4
adpt_reg AdptReg.rx_pkt_recv = 16
adpt_reg AdptReg.rx_pkt_drop = 20
adpt_reg AdptReg.rx_pkt_error = 24
