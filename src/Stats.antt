-- ===== src/Stats.antt =====
-- The small operations of the network device (onic_main.c: `onic_set_mac_address`, `onic_do_ioctl`,
-- `onic_change_mtu`, `onic_get_stats64`).
pub mod Sums
pub mod Counters
pub mod Changes
pub mod Traffic
use onic_driver.Base.{
  ℕ, zero, suc, ◌+◌, ◌%◌, ◌/◌, ◌^◌, Bool, true, false, ◌&&◌, not, ◌==◌, if◌then◌else◌, add64, List,
  [], ◌∷◌,
}
use onic_driver.Base.Int.{ℤ, pos, eaddrnotavail}
use onic_driver.Kernel.{QStats, Env, World, Io, pure, ◌>>=◌, ◌>>◌, get, modify_net, netdev_priv}

-- `is_valid_ether_addr` of the kernel: not all zero, and the lowest bit of the first byte clear.
abbrev pub all_zero : List ℕ → Bool
all_zero [] = true
all_zero (b ∷ addr) = (b == 0) && all_zero addr

abbrev pub is_multicast : List ℕ → Bool
is_multicast [] = false
is_multicast (b ∷ addr) = b % 2 == 1

abbrev pub is_valid_ether_addr : List ℕ → Bool
is_valid_ether_addr addr = not (is_multicast addr) && not (all_zero addr)

-- `addr` is the six bytes of `sa_data`.
unfoldable pub onic_set_mac_address : List ℕ → Io ℤ
onic_set_mac_address addr =
    if not (is_valid_ether_addr addr)
    then pure eaddrnotavail
    else do modify_net (λ n. record n { dev_addr = addr }); pure (pos 0)

unfoldable pub onic_do_ioctl : ℕ → Io ℤ
onic_do_ioctl cmd = pure (pos 0)

unfoldable pub onic_change_mtu : ℤ → Io ℤ
onic_change_mtu mtu = pure (pos 0)

-- The two loops of `onic_get_stats64`, with `n` rounds left at the queue `q_num`.
unfoldable pub add_tx : ℕ → ℕ → (ℕ → QStats) → QStats → QStats
add_tx zero q_num tx_qstats stats = stats
add_tx (suc n) q_num tx_qstats stats = add_tx n (q_num + 1) tx_qstats (record stats {
  tx_bytes = add64 stats.tx_bytes (tx_qstats q_num).tx_bytes;
  tx_packets = add64 stats.tx_packets (tx_qstats q_num).tx_packets;
})

unfoldable pub add_rx : ℕ → ℕ → (ℕ → QStats) → QStats → QStats
add_rx zero q_num rx_qstats stats = stats
add_rx (suc n) q_num rx_qstats stats = add_rx n (q_num + 1) rx_qstats (record stats {
  rx_bytes = add64 stats.rx_bytes (rx_qstats q_num).rx_bytes;
  rx_packets = add64 stats.rx_packets (rx_qstats q_num).rx_packets;
})

-- `stats` as `onic_get_stats64` leaves it.
unfoldable pub onic_get_stats64 : ℕ → QStats → Io QStats
unfolding add_tx add_rx
onic_get_stats64 netdev stats = if netdev == 0 then pure stats else do
  xpriv ← netdev_priv netdev
  if xpriv == 0 then pure stats else do
    w ← get
    if not (w.priv.tx_qstats == 0) && not (w.priv.rx_qstats == 0)
        then pure (
            add_rx w.net.real_num_rx_queues 0 (λ q. w.stats (w.priv.rx_qstats + q))
              (add_tx w.net.real_num_tx_queues 0 (λ q. w.stats (w.priv.tx_qstats + q)) stats))
        else pure stats
