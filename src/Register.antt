-- ===== src/Register.antt =====
-- The register map of the shell, onic_register.h: the offsets from the start of the user BAR.
pub mod Sys
pub mod Conf
pub mod Stat
pub mod Layout
use onic_driver.Base.{ℕ, ◌+◌, ◌*◌, ◌==◌, if◌then◌else◌}
use onic_driver.Register.Sys.{SysReg, syscfg_reg, AdptReg, adpt_reg}
use onic_driver.Register.Conf.{ConfReg, conf_reg}
use onic_driver.Register.Stat.{StatReg, stat_reg}

-- `SHELL_MAXLEN`
abbrev pub shell_maxlen : ℕ
shell_maxlen = 65536

abbrev pub syscfg_offset : SysReg → ℕ
syscfg_offset r = 0 + syscfg_reg r

-- `QDMA_FUNC_OFFSET` and the registers behind it.
abbrev pub qdma_subsystem_offset : ℕ
qdma_subsystem_offset = 4096

-- `QDMA_SUBSYS_OFFSET`
abbrev pub qdma_subsys_offset : ℕ
qdma_subsys_offset = qdma_subsystem_offset + 16384

abbrev pub qdma_func_offset : ℕ → ℕ
qdma_func_offset i = qdma_subsystem_offset + 4096 * i

abbrev pub qdma_func_offset_qconf : ℕ → ℕ
qdma_func_offset_qconf i = qdma_func_offset i + 0

abbrev pub qdma_func_offset_indir_table : ℕ → ℕ → ℕ
qdma_func_offset_indir_table i k = qdma_func_offset i + 1024 + k * 4

abbrev pub qdma_func_offset_hash_key : ℕ → ℕ → ℕ
qdma_func_offset_hash_key i k = qdma_func_offset i + 1536 + k * 4

-- `CMAC_SUBSYSTEM_OFFSET` and the three blocks of a port behind it.
abbrev pub cmac_subsystem_offset : ℕ → ℕ
cmac_subsystem_offset i = if i == 0 then 32768 else 49152

abbrev pub cmac_conf : ℕ → ConfReg → ℕ
cmac_conf i r = cmac_subsystem_offset i + conf_reg r

abbrev pub cmac_stat : ℕ → StatReg → ℕ
cmac_stat i r = cmac_subsystem_offset i + stat_reg r

abbrev pub cmac_qsfp_offset : ℕ → ℕ
cmac_qsfp_offset i = cmac_subsystem_offset i + 8192

abbrev pub cmac_adpt : ℕ → AdptReg → ℕ
cmac_adpt i r = cmac_subsystem_offset i + 12288 + adpt_reg r
