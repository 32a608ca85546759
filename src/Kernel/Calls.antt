-- ===== src/Kernel/Calls.antt =====
-- The calls that the driver makes into libqdma and the Linux kernel, and the log of them.
-- Functions that only print are left out.
use onic_driver.Base.{ℕ, List}
use onic_driver.Base.Int.{ℤ}
use onic_driver.Kernel.Types.{
  QueueConf, QdmaDevConf, GlobalCsrConf, OnicDmaRequest, Skb, RxSkb, Frag,
}

-- What `kcalloc`, `kzalloc`, `kmem_cache_zalloc` and `alloc_etherdev_mq` are asked for.
pub data Memory : Type 0 where
  qstats napi_structs platform_info dma_request net_device tokens : Memory

-- Handles, addresses and sizes are numbers. An operation of libqdma on a device takes the handle of
-- the device first and the handle of the queue second.
pub data Op : Type 0 where
  -- libqdma
  libqdma_init libqdma_exit : Op
  qdma_device_open : QdmaDevConf → Op
  qdma_device_close : ℕ → Op
  qdma_global_csr_get : ℕ → Op
  qdma_queue_add : ℕ → QueueConf → Op
  qdma_queue_remove : ℕ → ℕ → Op
  qdma_queue_start : ℕ → ℕ → Op
  qdma_queue_stop : ℕ → ℕ → Op
  qdma_queue_service : ℕ → ℕ → ℕ → Op
  qdma_queue_c2h_peek : ℕ → ℕ → Op
  qdma_queue_update_pointers : ℕ → ℕ → Op
  qdma_queue_packet_write : ℕ → ℕ → OnicDmaRequest → Op
  qdma_device_get_descq_by_id : ℕ → ℕ → Op
  -- memory
  alloc : Memory → ℕ → Op
  kfree : ℕ → Op
  free_netdev : ℕ → Op
  kmem_cache_create kmem_cache_destroy : ℕ → Op
  kmem_cache_free : ℕ → Op
  -- NAPI and the transmit queues of the network stack
  netif_napi_add netif_napi_del napi_enable napi_disable : ℕ → Op
  napi_schedule napi_complete napi_reschedule : ℕ → Op
  schedule_work : ℕ → Op
  netif_tx_start_all_queues netif_tx_stop_all_queues : Op
  netif_carrier_on netif_carrier_off netif_carrier_ok : Op
  netif_set_real_num_tx_queues netif_set_real_num_rx_queues : ℕ → Op
  register_netdev unregister_netdev : ℕ → Op
  -- packets
  napi_alloc_skb : ℕ → ℕ → Op
  netif_receive_skb : RxSkb → Op
  put_page : ℕ → Op
  skb_put_padto : ℕ → ℕ → Op
  dev_kfree_skb_any dev_consume_skb_irq : ℕ → Op
  dma_map_single : ℕ → Op
  skb_frag_dma_map : Frag → Op
  dma_mapping_error : ℕ → Op
  dma_unmap_single : ℕ → ℕ → Op
  -- PCI and registers
  pci_msix_vec_count : ℕ → Op
  pci_set_drvdata : ℕ → Op
  pci_resource_start pci_resource_len : ℕ → Op
  ioremap : ℕ → ℕ → Op
  iounmap : ℕ → Op
  pci_register_driver pci_unregister_driver : Op
  readl : ℕ → Op
  writel : ℕ → ℕ → Op
  mdelay : ℕ → Op
  -- firmware files
  request_firmware : List ℕ → Op
  release_firmware : Op

-- A call with its answer: the `int` that it returns, and the pointer, the handle or the unsigned
-- value that it returns or stores through a pointer argument.
pub record Event : Type 0 where
  pub op : Op
  pub status : ℤ
  pub value : ℕ

-- The log of the calls, the latest first.
abbrev pub Log : Type 0
Log = List Event

-- Everything outside src/: what each call answers after each history, what `qdma_global_csr_get`
-- stores, what `skb_put_padto` makes of a packet, the protocol that `eth_type_trans` returns for a
-- received packet and what it makes of it, and where `netdev_priv` finds the private part.
pub record Env : Type 0 where
  pub status : Log → Op → ℤ
  pub value : Log → Op → ℕ
  pub csr : Log → GlobalCsrConf
  pub padded : Skb → Skb
  pub typed : Log → RxSkb → ℕ × RxSkb
  pub priv_of : ℕ → ℕ
