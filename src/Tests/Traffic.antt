-- ===== src/Tests/Traffic.antt =====
-- Traffic in both directions, and what the statistics show of it.
use onic_driver.Base.{◌≡◌, refl, false, List, [], ◌∷◌}
use onic_driver.Base.Int.{pos, lt_zero}
use onic_driver.Kernel.{SwSg, World, zero_stats}
use onic_driver.Tx.{onic_start_xmit, xmit_queue, xmit_map, map_frags, xmit_submit}
use onic_driver.Rx.{onic_rx_pkt_process, onic_rx_deliver}
use onic_driver.Stats.{onic_get_stats64}
use onic_driver.Stats.Traffic.{
  Totals, out, come_in, tally_all, Shows, Traffic, idle, sends, receives, onic_get_stats64-Shows,
}
use onic_driver.Tests.{kernel, status_ok, start, skb}

-- A packet of 1500 bytes that lies in one page.
abbrev page : List SwSg
page = record { pg = 1; offset = 0; len = 1500; dma_addr = 0 } ∷ []

abbrev received_one : World
received_one = (onic_rx_pkt_process 513 17 1500 1 page (kernel status_ok) start).1

abbrev then_sent : World
then_sent = (onic_start_xmit skb 16 (kernel status_ok) received_one).1

sends_then : (onic_start_xmit skb 16 (kernel status_ok) received_one).0 ≡ pos 0
unfolding onic_start_xmit xmit_queue xmit_map map_frags xmit_submit onic_rx_pkt_process
    onic_rx_deliver
sends_then = refl

takes : lt_zero (onic_rx_pkt_process 513 17 1500 1 page (kernel status_ok) start).0 ≡ false
unfolding onic_rx_pkt_process onic_rx_deliver
takes = refl

both_ways : Traffic (kernel status_ok) 16 start then_sent (out 300 ∷ come_in 1500 ∷ [])
both_ways = sends skb (receives 513 17 1500 1 page idle refl refl refl refl takes) sends_then

abbrev no_packet : Totals
no_packet = record { tx_packets = 0; tx_bytes = 0; rx_packets = 0; rx_bytes = 0 }

start-Shows : Shows (onic_get_stats64 16 zero_stats (kernel status_ok) start).0 no_packet
unfolding onic_get_stats64
start-Shows = record { tx_packets = refl; tx_bytes = refl; rx_packets = refl; rx_bytes = refl }

onic_get_stats64-Shows_example :
    Shows
      (onic_get_stats64 16 zero_stats (kernel status_ok) then_sent).0
      (tally_all no_packet (out 300 ∷ come_in 1500 ∷ []))
onic_get_stats64-Shows_example =
    onic_get_stats64-Shows (kernel status_ok) 16 start refl refl then_sent
      (out 300 ∷ come_in 1500 ∷ []) no_packet refl refl both_ways start-Shows
