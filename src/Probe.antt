-- ===== src/Probe.antt =====
-- Finding a device and letting it go (onic_main.c: `onic_get_pinfo`, `onic_pci_probe`,
-- `onic_pci_remove`, `onic_module_init`, `onic_module_exit`).
--
-- The texts that the kernel formats from the device's numbers, the name of the platform file and of the
-- interface, are arguments, and `fuel` bounds the wait for the reset in `onic_enable_cmac`.
pub mod Ranges
pub mod Steps
pub mod Assets
pub mod Neutral
pub mod Outcome
pub mod Ends
pub mod Whole
pub mod Balance
pub mod Ready
pub mod Installed
pub mod Lifetime
pub mod Queues
pub mod Blocks
pub mod Accounts
pub mod Failures
pub mod Module
use onic_driver.Base.{
  ℕ, zero, suc, ◌+◌, ◌%◌, ◌^◌, Bool, ◌==◌, ltb, not, if◌then◌else◌, Option, some, none, List, [],
  ◌∷◌,
}
use onic_driver.Base.Int.{ℤ, pos, ne_zero, lt_zero, eio, enomem, enodev}
use onic_driver.Kernel.{
  OnicPriv, zero_priv, PlatformInfo, zero_platform_info, OpsTable, Memory, Op, Env, World, Io, pure,
  ◌>>=◌, ◌>>◌, get, modify_priv, modify_net, request, fetch, perform, netdev_priv,
}
use onic_driver.Ethtool.{onic_set_ethtool_ops}
use onic_driver.Json.{JsonLib, onic_get_platform_info}
use onic_driver.Stats.{onic_set_mac_address}
use onic_driver.Setup.{onic_set_num_queue, onic_qdma_setup}
use onic_driver.Cmac.{onic_enable_cmac, onic_disable_cmac, onic_init_reta}

-- The status, the address of the structure and what it holds.
unfoldable pub onic_get_pinfo : JsonLib → List ℕ → Io (ℤ × ℕ × PlatformInfo)
onic_get_pinfo lib file_name = do
  pinfo ← fetch (Op.alloc Memory.platform_info 1)
  if pinfo == 0 then pure (enomem, 0, zero_platform_info) else do
    (ret, info) ← onic_get_platform_info lib file_name zero_platform_info
    if ne_zero ret
        then (do perform (Op.kfree pinfo); pure (ret, 0, info))
        else pure (pos 0, pinfo, info)

-- The kernel takes a number of queues over when it accepts it.
abbrev pub set_real_num_tx_queues : ℕ → Io (Unit {0})
set_real_num_tx_queues n = do
  ret ← request (Op.netif_set_real_num_tx_queues n)
  if ne_zero ret then pure tt else modify_net (λ d. record d { real_num_tx_queues = n })

abbrev pub set_real_num_rx_queues : ℕ → Io (Unit {0})
set_real_num_rx_queues n = do
  ret ← request (Op.netif_set_real_num_rx_queues n)
  if ne_zero ret then pure tt else modify_net (λ d. record d { real_num_rx_queues = n })

-- The number of queues that `onic_pci_probe` sets.
abbrev pub probe_queues : OnicPriv → ℕ
probe_queues p = if ltb 0 p.info.used_queues then p.info.used_queues else p.nb_queues

-- The labels of `onic_pci_probe`, the last one first.
unfoldable pub exit : ℕ → ℤ → Io (Option ℤ)
exit netdev ret = do
  w ← get
  perform (Op.kfree w.priv.pinfo)
  perform (Op.free_netdev netdev)
  pure (some ret)

unfoldable pub destroy_kmem_cache : ℕ → ℤ → Io (Option ℤ)
unfolding exit
destroy_kmem_cache netdev ret = do
  w ← get
  perform (Op.kmem_cache_destroy w.priv.dma_req)
  exit netdev ret

unfoldable pub close_qdma_device : ℕ → ℤ → Io (Option ℤ)
unfolding destroy_kmem_cache
close_qdma_device netdev ret = do
  w ← get
  perform (Op.qdma_device_close w.priv.dev_handle)
  destroy_kmem_cache netdev ret

unfoldable pub iounmap_bar : ℕ → ℤ → Io (Option ℤ)
unfolding close_qdma_device
iounmap_bar netdev ret = do
  w ← get
  perform (Op.iounmap w.priv.bar_base)
  close_qdma_device netdev ret

unfoldable pub disable_cmac : ℕ → ℤ → Io (Option ℤ)
unfolding iounmap_bar onic_disable_cmac
disable_cmac netdev ret = do onic_disable_cmac; iounmap_bar netdev ret

-- `onic_pci_probe` from the registration of the interface on.
unfoldable pub probe_register : ℕ → Io (Option ℤ)
probe_register netdev = do
  ret ← request (Op.register_netdev netdev)
  if ne_zero ret
      then disable_cmac netdev ret
      else do perform Op.netif_carrier_off; pure (some (pos 0))

-- From the result of `onic_enable_cmac` on.
unfoldable pub probe_cmac : ℕ → Option ℤ → Io (Option ℤ)
probe_cmac netdev none = pure none
probe_cmac netdev (some ret) =
    if ne_zero ret then iounmap_bar netdev ret else do onic_init_reta; probe_register netdev

-- From the mapping of the user BAR on.
unfoldable pub probe_bar : (fuel netdev : ℕ) → Io (Option ℤ)
probe_bar fuel netdev = do
  w ← get
  bar_start ← fetch (Op.pci_resource_start w.priv.info.user_bar)
  bar_len ← fetch (Op.pci_resource_len w.priv.info.user_bar)
  bar_base ← fetch (Op.ioremap bar_start bar_len)
  modify_priv (λ p. record p { bar_base = bar_base })
  if bar_base == 0
      then close_qdma_device netdev eio
      else do ret ← onic_enable_cmac fuel; probe_cmac netdev ret

-- From the allocation of the request cache on.
unfoldable pub probe_cache : (fuel netdev : ℕ) → Io (Option ℤ)
probe_cache fuel netdev = do
  dma_req ← fetch (Op.kmem_cache_create 0)
  modify_priv (λ p. record p { dma_req = dma_req })
  if dma_req == 0 then exit netdev enomem else do
    ret ← onic_qdma_setup
    if ne_zero ret then destroy_kmem_cache netdev ret else probe_bar fuel netdev

-- From the new interface on.
unfoldable pub probe_netdev : (fuel pdev netdev pinfo : ℕ) → PlatformInfo → List ℕ → Io (Option ℤ)
probe_netdev fuel pdev netdev pinfo info dev_name = do
  perform (Op.pci_set_drvdata netdev)
  modify_net (λ d. record d { netdev_ops = OpsTable.onic_netdev_ops })
  onic_set_ethtool_ops
  modify_net (λ d. record d { name = dev_name })
  modify_priv (λ p. record zero_priv { netdev = netdev; pcidev = pdev; pinfo = pinfo; info = info })
  onic_set_mac_address info.mac_addr
  ret ← onic_set_num_queue
  if ne_zero ret then exit netdev ret else do
    w ← get
    set_real_num_tx_queues (probe_queues w.priv)
    set_real_num_rx_queues (probe_queues w.priv)
    probe_cache fuel netdev

unfoldable pub onic_pci_probe :
    JsonLib → (fuel pdev : ℕ) → (file_name dev_name : List ℕ) → Io (Option ℤ)
onic_pci_probe lib fuel pdev file_name dev_name = do
  (ret, pinfo, info) ← onic_get_pinfo lib file_name
  if ne_zero ret then pure (some ret) else do
    netdev ← fetch (Op.alloc Memory.net_device info.queue_max)
    if netdev == 0 then pure (some enodev) else probe_netdev fuel pdev netdev pinfo info dev_name

-- `netdev` is what `pci_get_drvdata` returns.
unfoldable pub onic_pci_remove : ℕ → Io (Unit {0})
onic_pci_remove netdev = if netdev == 0 then pure tt else do
  xpriv ← netdev_priv netdev
  if xpriv == 0 then pure tt else do
    perform (Op.pci_set_drvdata 0)
    perform (Op.unregister_netdev netdev)
    onic_disable_cmac
    w ← get
    (if w.priv.bar_base == 0 then pure tt else perform (Op.iounmap w.priv.bar_base))
    perform (Op.qdma_device_close w.priv.dev_handle)
    perform (Op.kmem_cache_destroy w.priv.dma_req)
    perform (Op.kfree w.priv.pinfo)
    perform (Op.free_netdev netdev)

unfoldable pub onic_module_init : Io ℤ
onic_module_init = do
  err ← request Op.libqdma_init
  if ne_zero err then pure err else request Op.pci_register_driver

unfoldable pub onic_module_exit : Io (Unit {0})
onic_module_exit = do perform Op.pci_unregister_driver; perform Op.libqdma_exit
