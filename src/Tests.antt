-- ===== src/Tests.antt =====
-- A kernel and a device to try the model on, and the runs on them.
mod Interface
mod Packets
mod Device
mod Files
mod Traffic
mod Driver
use onic_driver.Base.{
  ℕ, suc, ◌+◌, ◌-◌, Bool, true, false, ◌==◌, if◌then◌else◌, add64, List, [], ◌∷◌,
}
use onic_driver.Base.Int.{ℤ, pos, negsuc}
use onic_driver.Kernel.{
  QType, QueueConf, QdmaDevConf, GlobalCsrConf, PlatformInfo, zero_platform_info, zero_priv,
  zero_stats, OpsTable, NetDevice, Skb, Frag, Op, Log, Env, World,
}

-- The handles of the first transmit queue and of the first receive queue.
abbrev pub first : QType → ℕ
first QType.q_h2c = 0
first QType.q_c2h = 512

abbrev pub answer : Log → Op → ℕ
answer l (Op.qdma_queue_add d c) = add64 (first c.q_type) c.qidx
answer l (Op.readl a) = if a == 65552 then 272 else 3
answer l (Op.ioremap b n) = 65536
answer l o = 4096

abbrev pub status_ok : Log → Op → ℤ
status_ok l Op.netif_carrier_ok = pos 1
status_ok l (Op.pci_msix_vec_count d) = pos 8
status_ok l (Op.qdma_queue_packet_write d q r) = pos 64
status_ok l o = pos 0

-- A device that does not start its queues, and one that takes no packets.
abbrev pub status_no_start : Log → Op → ℤ
status_no_start l (Op.qdma_queue_start d q) = negsuc 4
status_no_start l o = status_ok l o

abbrev pub status_full : Log → Op → ℤ
status_full l (Op.qdma_queue_packet_write d q r) = negsuc 15
status_full l o = status_ok l o

abbrev pub tables : GlobalCsrConf
tables = record {
  ring_sz = 2048 ∷ 64 ∷ 128 ∷ [];
  c2h_timer_cnt = 1 ∷ 5 ∷ [];
  c2h_cnt_th = 2 ∷ 64 ∷ [];
  c2h_buf_sz = 4096 ∷ 256 ∷ [];
}

abbrev pub kernel : (Log → Op → ℤ) → Env
kernel status = record {
  status = status;
  value = answer;
  csr = λ l. tables;
  padded = λ skb. skb;
  typed = λ l skb. (2048, record skb { pulled_len = skb.pulled_len + 14; len = skb.len - 14 });
  priv_of = λ n. suc n;
}

abbrev pub info : PlatformInfo
info = record zero_platform_info {
  ring_sz = pos 64;
  c2h_tmr_cnt = pos 5;
  c2h_cnt_thr = pos 64;
  c2h_buf_sz = pos 4096;
  queue_max = 4;
  port_id = 1;
  rsfec_en = true;
}

abbrev pub card : NetDevice
card = record {
  netdev_ops = OpsTable.null_ops;
  ethtool_ops = OpsTable.null_ops;
  real_num_tx_queues = 2;
  real_num_rx_queues = 2;
  features_sg = true;
  dev_addr = [];
  name = [];
}

abbrev pub start : World
start = record {
  log = [];
  priv = record zero_priv {
    netdev = 16;
    pinfo = 8;
    info = info;
    bar_base = 65536;
    tx_qstats = 1;
    rx_qstats = 3;
    base_rx_q_handle = 512;
  };
  net = card;
  stats = λ a. zero_stats;
}

abbrev pub skb : Skb
skb = record {
  addr = 7;
  len = 300;
  headlen = 100;
  frags = record { pg = 1; offset = 0; size = 200 } ∷ [];
  is_gso = false;
  queue_mapping = 1;
}
