-- ===== src/Kernel/Types.antt =====
-- Structures: onic.h, onic_json.h, and those of libqdma_export.h that the driver fills in or reads.
-- A pointer is its address, 0 for NULL. What the structure behind it holds is a field of its own
-- where the driver reads it.
use onic_driver.Base.{ℕ, Bool, false, Option, List, [], ◌∷◌}
use onic_driver.Base.Int.{ℤ, pos}

-- `enum queue_type_t`, the two values that the driver uses.
pub data QType : Type 0 where
  q_h2c q_c2h : QType

-- The driver's functions whose addresses it stores in a queue's configuration.
pub data Callback : Type 0 where
  null isr_rx_tophalf isr_tx_tophalf rx_pkt_process tx_done : Callback

-- `struct qdma_queue_conf`, the fields that the driver sets; `quld` is always its `xpriv`.
pub record QueueConf : Type 0 where
  pub qidx : ℕ
  pub st : Bool
  pub q_type : QType
  pub irq_en : Bool
  pub desc_rng_sz_idx : ℕ
  pub wb_status_en : Bool
  pub cmpl_status_acc_en : Bool
  pub cmpl_status_pend_chk : Bool
  pub pfetch_en : Bool
  pub fetch_credit : Bool
  pub c2h_buf_sz_idx : ℕ
  pub cmpl_rng_sz_idx : ℕ
  pub cmpl_desc_sz : ℕ
  pub cmpl_stat_en : Bool
  pub cmpl_timer_idx : ℕ
  pub cmpl_cnt_th_idx : ℕ
  pub cmpl_trig_mode : ℕ
  pub cmpl_en_intr : Bool
  pub fp_descq_isr_top : Callback
  pub fp_descq_c2h_packet : Callback

-- `memset(&qconf, 0, sizeof(struct qdma_queue_conf))`; `Q_H2C` is the value 0.
abbrev pub zero_queue_conf : QueueConf
zero_queue_conf = record {
  qidx = 0;
  st = false;
  q_type = q_h2c;
  irq_en = false;
  desc_rng_sz_idx = 0;
  wb_status_en = false;
  cmpl_status_acc_en = false;
  cmpl_status_pend_chk = false;
  pfetch_en = false;
  fetch_credit = false;
  c2h_buf_sz_idx = 0;
  cmpl_rng_sz_idx = 0;
  cmpl_desc_sz = 0;
  cmpl_stat_en = false;
  cmpl_timer_idx = 0;
  cmpl_cnt_th_idx = 0;
  cmpl_trig_mode = 0;
  cmpl_en_intr = false;
  fp_descq_isr_top = null;
  fp_descq_c2h_packet = null;
}

-- `enum qdma_drv_mode`
pub data DrvMode : Type 0 where
  auto_mode poll_mode direct_intr_mode : DrvMode

-- `struct qdma_dev_conf`, the fields that the driver sets.
pub record QdmaDevConf : Type 0 where
  pub qsets_max : ℕ
  pub master_pf : Bool
  pub intr_moderation : Bool
  pub msix_qvec_max : ℕ
  pub user_msix_qvec_max : ℕ
  pub data_msix_qvec_max : ℕ
  pub qdma_drv_mode : DrvMode
  pub bar_num_config : ℕ
  pub qsets_base : ℕ
  pub pdev : ℕ

abbrev pub zero_dev_conf : QdmaDevConf
zero_dev_conf = record {
  qsets_max = 0;
  master_pf = false;
  intr_moderation = false;
  msix_qvec_max = 0;
  user_msix_qvec_max = 0;
  data_msix_qvec_max = 0;
  qdma_drv_mode = auto_mode;
  bar_num_config = 0;
  qsets_base = 0;
  pdev = 0;
}

-- `struct global_csr_conf`: four arrays of 16 words.
pub record GlobalCsrConf : Type 0 where
  pub ring_sz : List ℕ
  pub c2h_timer_cnt : List ℕ
  pub c2h_cnt_th : List ℕ
  pub c2h_buf_sz : List ℕ

-- `struct qdma_sw_sg`; a chain by `next` is a list, whose end is the NULL pointer.
pub record SwSg : Type 0 where
  pub pg : ℕ
  pub offset : ℕ
  pub len : ℕ
  pub dma_addr : ℕ

-- `struct qdma_request`, the fields that the driver sets.
pub record QdmaRequest : Type 0 where
  pub uld_data : ℕ
  pub fp_done : Callback
  pub count : ℕ
  pub dma_mapped : Bool
  pub check_qstate_disabled : Bool
  pub sgcnt : ℕ
  pub sgl : List SwSg

-- `skb_frag_t`: the page, the offset and the size of a fragment.
pub record Frag : Type 0 where
  pub pg : ℕ
  pub offset : ℕ
  pub size : ℕ

-- `struct sk_buff` as the transmit path reads it.
pub record Skb : Type 0 where
  pub addr : ℕ
  pub len : ℕ
  pub headlen : ℕ
  pub frags : List Frag
  pub is_gso : Bool
  pub queue_mapping : ℕ

-- `struct sk_buff` as the receive path builds it: the linear part is a copy of `linear.size` bytes, of
-- which the first `pulled_len` were pulled; `napi` is the number of the NAPI structure that is marked.
pub record RxSkb : Type 0 where
  pub addr : ℕ
  pub linear : Frag
  pub frags : List Frag
  pub len : ℕ
  pub data_len : ℕ
  pub truesize_add : ℕ
  pub pulled_len : ℕ
  pub protocol : ℕ
  pub ip_summed : ℕ
  pub queue : ℕ
  pub napi : ℕ

-- `struct rtnl_link_stats64`, the counters that the driver uses.
pub record QStats : Type 0 where
  pub rx_packets : ℕ
  pub tx_packets : ℕ
  pub rx_bytes : ℕ
  pub tx_bytes : ℕ
  pub tx_dropped : ℕ

abbrev pub zero_stats : QStats
zero_stats = record { rx_packets = 0; tx_packets = 0; rx_bytes = 0; tx_bytes = 0; tx_dropped = 0 }

-- `struct onic_platform_info`
pub record PlatformInfo : Type 0 where
  pub qdma_bar : ℕ
  pub user_bar : ℕ
  pub queue_base : ℕ
  pub queue_max : ℕ
  pub used_queues : ℕ
  pub pci_msix_user_cnt : ℕ
  pub pci_master_pf : Bool
  pub is_poll_mode : Bool
  pub intr_mod_en : Bool
  pub ring_sz : ℤ
  pub c2h_tmr_cnt : ℤ
  pub c2h_cnt_thr : ℤ
  pub c2h_buf_sz : ℤ
  pub rsfec_en : Bool
  pub port_id : ℕ
  pub mac_addr : List ℕ

-- `kzalloc(sizeof(struct onic_platform_info), GFP_KERNEL)`
abbrev pub zero_platform_info : PlatformInfo
zero_platform_info = record {
  qdma_bar = 0;
  user_bar = 0;
  queue_base = 0;
  queue_max = 0;
  used_queues = 0;
  pci_msix_user_cnt = 0;
  pci_master_pf = false;
  is_poll_mode = false;
  intr_mod_en = false;
  ring_sz = pos 0;
  c2h_tmr_cnt = pos 0;
  c2h_cnt_thr = pos 0;
  c2h_buf_sz = pos 0;
  rsfec_en = false;
  port_id = 0;
  mac_addr = 0 ∷ 0 ∷ 0 ∷ 0 ∷ 0 ∷ 0 ∷ [];
}

-- `struct onic_priv`; `pinfo` is the address, `info` what it points at.
pub record OnicPriv : Type 0 where
  pub rx_desc_rng_sz_idx : ℕ
  pub tx_desc_rng_sz_idx : ℕ
  pub rx_buf_sz_idx : ℕ
  pub rx_timer_idx : ℕ
  pub rx_cnt_th_idx : ℕ
  pub cmpl_rng_sz_idx : ℕ
  pub netdev : ℕ
  pub pcidev : ℕ
  pub pinfo : ℕ
  pub info : PlatformInfo
  pub num_msix : ℕ
  pub nb_queues : ℕ
  pub dma_req : ℕ
  pub qdma_dev_conf : QdmaDevConf
  pub dev_handle : ℕ
  pub bar_base : ℕ
  pub base_tx_q_handle : ℕ
  pub base_rx_q_handle : ℕ
  pub napi : ℕ
  pub tx_qstats : ℕ
  pub rx_qstats : ℕ

-- `memset(xpriv, 0, sizeof(struct onic_priv))`
abbrev pub zero_priv : OnicPriv
zero_priv = record {
  rx_desc_rng_sz_idx = 0;
  tx_desc_rng_sz_idx = 0;
  rx_buf_sz_idx = 0;
  rx_timer_idx = 0;
  rx_cnt_th_idx = 0;
  cmpl_rng_sz_idx = 0;
  netdev = 0;
  pcidev = 0;
  pinfo = 0;
  info = zero_platform_info;
  num_msix = 0;
  nb_queues = 0;
  dma_req = 0;
  qdma_dev_conf = zero_dev_conf;
  dev_handle = 0;
  bar_base = 0;
  base_tx_q_handle = 0;
  base_rx_q_handle = 0;
  napi = 0;
  tx_qstats = 0;
  rx_qstats = 0;
}

-- The tables of functions that the driver gives to the kernel, by their addresses.
pub data OpsTable : Type 0 where
  null_ops onic_netdev_ops onic_ethtool_ops : OpsTable

-- `struct net_device`, the fields that the driver reads or sets.
pub record NetDevice : Type 0 where
  pub netdev_ops : OpsTable
  pub ethtool_ops : OpsTable
  pub real_num_tx_queues : ℕ
  pub real_num_rx_queues : ℕ
  pub features_sg : Bool
  pub dev_addr : List ℕ
  pub name : List ℕ

-- `struct onic_dma_request`; `netdev` is an address, and `none` is a NULL `skb`.
pub record OnicDmaRequest : Type 0 where
  pub addr : ℕ
  pub skb : Option Skb
  pub netdev : ℕ
  pub qdma : QdmaRequest

abbrev pub zero_request : QdmaRequest
zero_request = record {
  uld_data = 0;
  fp_done = null;
  count = 0;
  dma_mapped = false;
  check_qstate_disabled = false;
  sgcnt = 0;
  sgl = [];
}
