-- ===== src/Tests/Driver.antt =====
-- Runs of the whole driver (onic_main.c): a probe, an interface that goes up and down, and a removal.
use onic_driver.Base.{ℕ, suc, ◌+◌, ◌≡◌, refl, ne→==, false, true, ◌⊎◌, some, ◌==◌, [], arith}
use onic_driver.Base.Int.{pos, ne_zero, enodev}
use onic_driver.Kernel.{Op, Log, Memory, Env, World}
use onic_driver.Json.{
  store_value, token_step, token_loop, read_tokens, parse_tokens, parse_file,
  onic_get_platform_info,
}
use onic_driver.Register.Sys.{syscfg_reg}
use onic_driver.Register.Stat.{stat_reg}
use onic_driver.Ethtool.{onic_set_ethtool_ops}
use onic_driver.Stats.{onic_set_mac_address}
use onic_driver.Setup.{
  onic_arr_find, onic_qdma_csr_index_setup, onic_qdma_setup, onic_set_num_queue,
}
use onic_driver.Cmac.{
  conf_writes, wait_shell, onic_enable_cmac, onic_init_reta, reta_loop, enable_lanes, enable_flow,
  onic_rx_lane_aligned,
}
use onic_driver.Kernel.Ledger.{taken, given}
use onic_driver.Kernel.Blocks.{memory, block}
use onic_driver.Probe.Failures.{onic_pci_probe-leaks}
use onic_driver.Probe.Blocks.{probe_tokens, onic_pci_remove-leaks}
use onic_driver.Queue.{
  onic_qdma_rx_queue_setup, rx_setup_loop, onic_qdma_rx_queue_add, onic_qdma_tx_queue_setup,
  tx_setup_loop, onic_qdma_start, start_loop,
}
use onic_driver.Queue.Setup.{HandlesFollow}
use onic_driver.Queue.Resource.{Resource, acquired, released}
use onic_driver.Netdev.{onic_open, onic_stop, onic_stats_alloc, onic_open_up}
use onic_driver.Netdev.Balance.{QueuesFit}
use onic_driver.Netdev.Life.{Phase, Life}
use onic_driver.Probe.{
  onic_get_pinfo, onic_pci_probe, onic_pci_remove, probe_netdev, probe_cache, probe_bar, probe_cmac,
  probe_register,
}
use onic_driver.Probe.Assets.{Asset, gained, lost}
use onic_driver.Probe.Installed.{Installed, onic_pci_probe-Installed}
use onic_driver.Probe.Lifetime.{Life-onic_pci_remove}
use onic_driver.Probe.Queues.{onic_pci_probe-Life}
use onic_driver.Tests.{first, start}
use onic_driver.Tests.Files.{lib, lib-ParsersFit, plain_kernel, probes}

onic_pci_probe-Installed_example :
    let info = (onic_get_pinfo lib [] plain_kernel start).0.2 in
    let v = (onic_pci_probe lib 2 9 [] [] plain_kernel start).1 in
    Installed plain_kernel 9 info [] start v
onic_pci_probe-Installed_example = onic_pci_probe-Installed plain_kernel lib 2 9 [] [] start probes

abbrev device : World
device = (onic_pci_probe lib 2 9 [] [] plain_kernel start).1

has_priv : (a : ℕ) → (a == 0) ≡ false → (plain_kernel.priv_of a == 0) ≡ false
has_priv a e = ne→== (suc a) 0 (λ f. absurd (omega (arith, f)))

up : (onic_open device.priv.netdev plain_kernel device).0 ≡ pos 0
unfolding onic_pci_probe onic_get_pinfo onic_get_platform_info parse_file parse_tokens read_tokens
    token_loop token_step store_value probe_netdev onic_set_ethtool_ops onic_set_mac_address
    onic_set_num_queue probe_cache onic_qdma_setup onic_qdma_csr_index_setup onic_arr_find probe_bar
    onic_enable_cmac conf_writes wait_shell syscfg_reg stat_reg enable_lanes onic_rx_lane_aligned
    enable_flow probe_cmac onic_init_reta reta_loop probe_register onic_open onic_stats_alloc
    onic_qdma_rx_queue_setup rx_setup_loop onic_qdma_rx_queue_add onic_qdma_tx_queue_setup
    tx_setup_loop onic_qdma_start start_loop onic_open_up
up = refl

-- The interface has been up.
abbrev down_again : World
down_again =
    (onic_stop device.priv.netdev plain_kernel
      (onic_open device.priv.netdev plain_kernel device).1).1

lives : Life plain_kernel device.priv.netdev device down_again Phase.down
lives = Life.stops (Life.opens Life.begin up)

Life-onic_pci_remove_example :
    let w' = (onic_pci_remove device.priv.netdev plain_kernel down_again).1 in
    gained (Asset.cache 4096) w'.log + 0 ≡ lost (Asset.cache 4096) w'.log + 0
Life-onic_pci_remove_example =
    Life-onic_pci_remove plain_kernel lib 2 9 [] [] start down_again has_priv probes lives
      (Asset.cache 4096)

follows : HandlesFollow plain_kernel first
follows l d c e = refl

fits : QueuesFit start
fits = record { rx = omega arith; tx = omega arith }

onic_pci_probe-Life_example :
    acquired (Resource.running 1) down_again.log + released (Resource.running 1) device.log
    ≡ released (Resource.running 1) down_again.log + acquired (Resource.running 1) device.log + 0
onic_pci_probe-Life_example =
    onic_pci_probe-Life first plain_kernel lib 2 9 [] [] start down_again Phase.down follows
      lib-ParsersFit has_priv fits probes lives (Resource.running 1)

onic_pci_remove-leaks_example :
    let w' = (onic_pci_remove device.priv.netdev plain_kernel device).1 in
    ((probe_tokens lib plain_kernel [] start == 0) ≡ false)
    × ((a : ℕ)
        → taken memory a w'.log + 0
          ≡ given memory a w'.log + 0 + block (probe_tokens lib plain_kernel [] start) a)
onic_pci_remove-leaks_example =
    onic_pci_remove-leaks plain_kernel lib 2 9 [] [] start has_priv probes

-- A kernel without memory for a network device.
abbrev no_netdev : Log → Op → ℕ
no_netdev l (Op.alloc Memory.net_device n) = 0
no_netdev l o = plain_kernel.value l o

abbrev poor_kernel : Env
poor_kernel = record plain_kernel { value = no_netdev }

no_probe : (onic_pci_probe lib 2 9 [] [] poor_kernel start).0 ≡ some enodev
unfolding onic_pci_probe onic_get_pinfo onic_get_platform_info parse_file parse_tokens read_tokens
    token_loop token_step store_value
no_probe = refl

onic_pci_probe-leaks_example :
    let r = onic_get_pinfo lib [] poor_kernel start in
    let w' = (onic_pci_probe lib 2 9 [] [] poor_kernel start).1 in
    ((ne_zero r.0.0 ≡ true) × ((a : ℕ) → taken memory a w'.log + 0 ≡ given memory a w'.log + 0))
    ⊎ (((probe_tokens lib poor_kernel [] start == 0) ≡ false)
        × ((a : ℕ)
            → taken memory a w'.log + 0
              ≡ given memory a w'.log
                + 0
                + block (probe_tokens lib poor_kernel [] start) a
                + block r.0.1 a))
onic_pci_probe-leaks_example =
    onic_pci_probe-leaks poor_kernel lib 2 9 [] [] start enodev refl no_probe
