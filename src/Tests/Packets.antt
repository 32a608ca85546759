-- ===== src/Tests/Packets.antt =====
-- Runs of the transmit path and of the receive path.
use onic_driver.Base.{ℕ, ◌+◌, ◌≡◌, refl, ap, some, List, [], ◌∷◌}
use onic_driver.Base.Int.{pos, negsuc, lt_zero}
use onic_driver.Kernel.{SwSg, OnicDmaRequest, Op, Event, Log, World}
use onic_driver.Tx.{
  onic_start_xmit, xmit_queue, xmit_map, xmit_submit, map_frags, free_packet_data,
  onic_unmap_free_pkt_data, free_pkt, unmap_sgl, onic_tx_done,
}
use onic_driver.Tx.Mapping.{mapped, unmapped, consumed, count_if}
use onic_driver.Tx.Xmit.{Describes}
use onic_driver.Tx.Start.{StartXmitEnds, onic_start_xmit-Ends}
use onic_driver.Tx.Start.{onic_start_xmit-onic_tx_done, onic_start_xmit-error_balance, handle_of}
use onic_driver.Tx.Trace.{Reach, begin, send, complete, Reach-mapped}
use onic_driver.Tx.Goods.{Good, goods}
use onic_driver.Tx.Sequence.{Run, accept, complete_all, Run-held, Run-complete_all}
use onic_driver.Tx.Sequence.{held}
use onic_driver.Kernel.Ledger.{taken, given}
use mathlib.Core.List.Perm
use onic_driver.Tests.{kernel, status_ok, status_full, start, skb}

sends : (onic_start_xmit skb 16 (kernel status_ok) start).0 ≡ pos 0
unfolding onic_start_xmit xmit_queue xmit_map map_frags xmit_submit
sends = refl

refuses : (onic_start_xmit skb 16 (kernel status_full) start).0 ≡ negsuc 15
unfolding onic_start_xmit xmit_queue xmit_map map_frags xmit_submit free_packet_data
    onic_unmap_free_pkt_data free_pkt unmap_sgl
refuses = refl

onic_start_xmit-onic_tx_done_example :
    (own : OnicDmaRequest) × (event : Event) × (rest : Log) × ((onic_start_xmit skb 16
        (kernel status_ok)
        start).1.log
      ≡ event ∷ rest)
    × (event.op ≡ Op.qdma_queue_packet_write 0 (handle_of skb start) own)
    × Describes skb own.qdma
    × ((v : World)
        → let v' = (onic_tx_done (some own) (kernel status_ok) v).1 in
          let w' = (onic_start_xmit skb 16 (kernel status_ok) start).1 in
          ((a : ℕ)
            → mapped a w'.log + unmapped a [] + mapped a v'.log + unmapped a v.log
              ≡ unmapped a w'.log + mapped a [] + unmapped a v'.log + mapped a v.log)
          × ((p : ℕ) → consumed p v'.log ≡ consumed p v.log + count_if 7 p))
onic_start_xmit-onic_tx_done_example =
    onic_start_xmit-onic_tx_done (kernel status_ok) skb 16 start refl refl sends

onic_start_xmit-error_balance_example :
    mapped 4096 (onic_start_xmit skb 16 (kernel status_full) start).1.log + 0
    ≡ unmapped 4096 (onic_start_xmit skb 16 (kernel status_full) start).1.log + 0
onic_start_xmit-error_balance_example =
    onic_start_xmit-error_balance (kernel status_full) skb 16 start refl refl (ap lt_zero refuses)
      (λ e. cc (refuses, e)) 4096

-- The request that the device takes, and its last call.
abbrev sent_own : OnicDmaRequest
sent_own = (onic_start_xmit-onic_tx_done (kernel status_ok) skb 16 start refl refl sends).0

sent_and_done :
    Reach
      (kernel status_ok)
      16
      start
      (onic_tx_done
        (some sent_own)
        (kernel status_ok)
        (onic_start_xmit skb 16 (kernel status_ok) start).1).1
      []
sent_and_done =
    let (own, event, rest, l, o, d, f) =
      onic_start_xmit-onic_tx_done (kernel status_ok) skb 16 start refl refl sends in
    complete sent_own [] [] (send skb event rest begin sends l o)

Reach-mapped_example :
    let v =
      (onic_tx_done
        (some sent_own)
        (kernel status_ok)
        (onic_start_xmit skb 16 (kernel status_ok) start).1).1 in
    mapped 4096 v.log + 0 ≡ unmapped 4096 v.log + 0 + 0
Reach-mapped_example =
    Reach-mapped (kernel status_ok) 16 start refl refl
      (onic_tx_done (some sent_own) (kernel status_ok)
        (onic_start_xmit skb 16 (kernel status_ok) start).1).1
      [] sent_and_done 4096

-- A packet of 1500 bytes in two segments.
abbrev segments : List SwSg
segments =
    record { pg = 1; offset = 0; len = 1000; dma_addr = 0 }
    ∷ record { pg = 2; offset = 64; len = 500; dma_addr = 0 }
    ∷ []

-- The packet is sent, then one that the device refuses, or none takes it away.
abbrev sent_world : World
sent_world = (onic_start_xmit skb 16 (kernel status_ok) start).1

one_sent : Run (kernel status_ok) 16 start sent_world (sent_own ∷ [])
one_sent =
    let (own, event, rest, l, o, d, f) =
      onic_start_xmit-onic_tx_done (kernel status_ok) skb 16 start refl refl sends in
    accept skb event rest 0 (handle_of skb start) Run.begin sends l o

Run-held_example :
    taken goods (Good.packet 7) sent_world.log + 0
    ≡ given goods (Good.packet 7) sent_world.log + 0 + held (sent_own ∷ []) (Good.packet 7)
Run-held_example =
    Run-held (kernel status_ok) 16 refl refl start sent_world (sent_own ∷ []) one_sent
      (Good.packet 7)

Run-complete_all_example :
    let v' = complete_all (kernel status_ok) (sent_own ∷ []) sent_world in
    taken goods (Good.packet 7) v'.log + 0 ≡ given goods (Good.packet 7) v'.log + 0
Run-complete_all_example =
    Run-complete_all (kernel status_ok) 16 refl refl start sent_world (sent_own ∷ [])
      (sent_own ∷ []) one_sent (Perm.refl (sent_own ∷ [])) (Good.packet 7)

onic_start_xmit-Ends_example :
    StartXmitEnds skb 16 start
      (onic_start_xmit skb 16 (kernel status_full) start).0
      (onic_start_xmit skb 16 (kernel status_full) start).1
onic_start_xmit-Ends_example = onic_start_xmit-Ends (kernel status_full) skb 16 start refl refl
