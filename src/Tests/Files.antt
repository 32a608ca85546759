-- ===== src/Tests/Files.antt =====
-- A platform file, and a probe with it.
use onic_driver.Base.{
  ℕ, zero, suc, ◌+◌, ◌-◌, ◌%◌, ◌<◌, ◌≡◌, refl, ◌⊎◌, true, false, ◌==◌, Option, some, none, arith,
  List, [], ◌∷◌, ne→==,
}
use onic_driver.Base.{take}
use onic_driver.Base.Int.{ℤ, pos, negsuc, ne_zero}
use onic_driver.Kernel.{Env, Op, Log, zero_platform_info, GlobalCsrConf}
use onic_driver.Json.{
  JsmnType, Token, JsonLib, Key, store_value, token_step, token_loop, read_tokens, parse_tokens,
  parse_file, onic_get_platform_info,
}
use onic_driver.Json.Settings.{Setting, value}
use onic_driver.Json.File.{HoldsSettings, onic_get_platform_info-as_written}
use onic_driver.Register.Sys.{syscfg_reg}
use onic_driver.Register.Stat.{stat_reg}
use onic_driver.Ethtool.{
  DrvInfo, EthtoolLib, CopiesString, onic_drv_name, onic_drv_ver, onic_get_drvinfo,
  onic_set_ethtool_ops, onic_get_drvinfo-whole,
}
use onic_driver.Stats.{onic_set_mac_address}
use onic_driver.Setup.{
  onic_arr_find, onic_qdma_csr_index_setup, onic_qdma_setup, onic_set_num_queue,
}
use onic_driver.Cmac.{
  conf_writes, wait_shell, onic_enable_cmac, onic_init_reta, reta_loop, enable_lanes, enable_flow,
  onic_rx_lane_aligned,
}
use onic_driver.Probe.{
  onic_get_pinfo, onic_pci_probe, onic_pci_remove, probe_netdev, probe_cache, probe_bar, probe_cmac,
  probe_register, exit,
}
use onic_driver.Kernel.Ledger.{taken, given}
use onic_driver.Probe.{onic_module_init, onic_module_exit}
use onic_driver.Probe.Module.{Part, parts, is_library, onic_module_init-onic_module_exit}
use onic_driver.Probe.Ranges.{ParsersFit}
use onic_driver.Probe.Assets.{Asset, gained, lost}
use onic_driver.Probe.Balance.{onic_pci_probe-fails_clean, onic_pci_probe-onic_pci_remove}
use onic_driver.Tests.{kernel, status_ok, start}

-- {"port_id":1}
abbrev file : List ℕ
file = 123 ∷ 34 ∷ 112 ∷ 111 ∷ 114 ∷ 116 ∷ 95 ∷ 105 ∷ 100 ∷ 34 ∷ 58 ∷ 49 ∷ 125 ∷ []

abbrev file_tokens : ℕ → Token
file_tokens zero = record { type_of = JsmnType.jsmn_object; start = 0; stop = 13; size = 1 }
file_tokens (suc zero) = record { type_of = JsmnType.jsmn_string; start = 2; stop = 9; size = 1 }
file_tokens n = record { type_of = JsmnType.jsmn_primitive; start = 11; stop = 12; size = 0 }

-- A parser of one digit.
abbrev digit : List ℕ → ℕ → Option ℕ
digit (c ∷ []) base = some ((c - 48) % 10)
digit text base = none

abbrev pub lib : JsonLib
lib = record {
  firmware = λ f. file;
  jsmn_count = λ json n. pos 3;
  jsmn_parse = λ json n k. (pos 3, file_tokens);
  kstrtou8 = digit;
  kstrtou16 = digit;
  kstrtoint = λ text base. none;
}

abbrev settings : List Setting
settings = value Key.key_port_id (49 ∷ []) ∷ []

file-HoldsSettings : HoldsSettings lib file settings
file-HoldsSettings = record {
  counted = refl;
  fits = omega arith;
  tokens = file_tokens;
  parsed = refl;
  object = refl;
  lays = (
    (
      record { string = refl; long = refl; bytes = refl },
      refl,
      record { bytes = refl; short = omega arith; whole = refl },
    ),
    tt,
  );
}

onic_get_platform_info-as_written_example :
    (onic_get_platform_info lib [] zero_platform_info (kernel status_ok) start).0
    ≡ (pos 0, record zero_platform_info { port_id = 1 })
onic_get_platform_info-as_written_example =
    onic_get_platform_info-as_written (kernel status_ok) lib [] settings zero_platform_info start
      refl file-HoldsSettings refl

-- A kernel that does not register the interface, and one whose vectors cannot be counted.
abbrev status_no_vectors : Log → Op → ℤ
status_no_vectors l (Op.pci_msix_vec_count d) = negsuc 21
status_no_vectors l o = status_ok l o

no_probe : (onic_pci_probe lib 2 9 [] [] (kernel status_no_vectors) start).0 ≡ some (negsuc 21)
unfolding onic_pci_probe onic_get_pinfo onic_get_platform_info parse_file parse_tokens read_tokens
    probe_netdev onic_set_ethtool_ops onic_set_num_queue exit
no_probe = refl

onic_pci_probe-fails_clean_example :
    gained
        (Asset.net_device 4096)
        (onic_pci_probe lib 2 9 [] [] (kernel status_no_vectors) start).1.log
      + 0
    ≡ lost
        (Asset.net_device 4096)
        (onic_pci_probe lib 2 9 [] [] (kernel status_no_vectors) start).1.log
      + 0
onic_pci_probe-fails_clean_example =
    onic_pci_probe-fails_clean (kernel status_no_vectors) lib 2 9 [] [] start (negsuc 21) no_probe
      refl (Asset.net_device 4096)

-- A device whose tables offer what a file without numbers asks for.
abbrev plain_tables : GlobalCsrConf
plain_tables = record {
  ring_sz = 0 ∷ [];
  c2h_timer_cnt = 0 ∷ [];
  c2h_cnt_th = 0 ∷ [];
  c2h_buf_sz = 0 ∷ [];
}

abbrev pub plain_kernel : Env
plain_kernel = record (kernel status_ok) { csr = λ l. plain_tables }

pub probes : (onic_pci_probe lib 2 9 [] [] plain_kernel start).0 ≡ some (pos 0)
unfolding onic_pci_probe onic_get_pinfo onic_get_platform_info parse_file parse_tokens read_tokens
    token_loop token_step store_value probe_netdev onic_set_ethtool_ops onic_set_mac_address
    onic_set_num_queue probe_cache onic_qdma_setup onic_qdma_csr_index_setup onic_arr_find probe_bar
    onic_enable_cmac conf_writes wait_shell syscfg_reg stat_reg enable_lanes onic_rx_lane_aligned
    enable_flow probe_cmac onic_init_reta reta_loop probe_register
probes = refl

onic_pci_probe-onic_pci_remove_example :
    (netdev : ℕ) × ((netdev == 0) ≡ false)
    × ((x : Asset)
        → let v = (onic_pci_probe lib 2 9 [] [] plain_kernel start).1 in
          let w' = (onic_pci_remove netdev plain_kernel v).1 in
          gained x w'.log + lost x [] ≡ lost x w'.log + gained x [])
onic_pci_probe-onic_pci_remove_example =
    onic_pci_probe-onic_pci_remove plain_kernel lib 2 9 [] [] start
      (λ a e. ne→== (suc a) 0 (λ f. absurd (omega (arith, f)))) probes

digit-fits : (text : List ℕ) (base n : ℕ) → digit text base ≡ some n → n < 10
digit-fits [] base n e = cc
digit-fits (c ∷ []) base n e = ground (arith, e)
digit-fits (c ∷ d ∷ text) base n e = cc

pub lib-ParsersFit : ParsersFit lib
lib-ParsersFit = record {
  u8 = λ text base n e. omega (arith, digit-fits text base n e);
  u16 = λ text base n e. omega (arith, digit-fits text base n e);
  int = λ text base n e. cc;
}

-- A kernel that names a device, and copies as much of a string as fits.
abbrev ethtool : EthtoolLib
ethtool = record { strlcpy = λ text size. take (size - 1) text; pci_name = λ pdev. 48 ∷ 58 ∷ [] }

copies : CopiesString ethtool
copies = record { copies = λ text size l. refl }

abbrev blank : DrvInfo
blank = record { driver = []; version = []; bus_info = [] }

onic_get_drvinfo-whole_example :
    onic_get_drvinfo ethtool blank (kernel status_ok) start
    ≡ (record { driver = onic_drv_name; version = onic_drv_ver; bus_info = 48 ∷ 58 ∷ [] }, start)
onic_get_drvinfo-whole_example =
    onic_get_drvinfo-whole ethtool (kernel status_ok) blank start copies (omega arith)

onic_module_init-onic_module_exit_example :
    let r = onic_module_init (kernel status_ok) start in
    let u = (onic_module_exit (kernel status_ok) r.1).1 in
    ((r.0 ≡ pos 0) × ((x : Part) → taken parts x u.log + 0 ≡ given parts x u.log + 0))
    ⊎ ((ne_zero r.0 ≡ true)
        × ((x : Part) → taken parts x r.1.log + 0 ≡ given parts x r.1.log + 0 + is_library x))
onic_module_init-onic_module_exit_example =
    onic_module_init-onic_module_exit (kernel status_ok) start
