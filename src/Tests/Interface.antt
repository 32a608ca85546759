-- ===== src/Tests/Interface.antt =====
-- Runs of `onic_open`, `onic_stop` and `onic_rx_poll`.
use onic_driver.Base.{ℕ, ◌+◌, ◌≡◌, refl, true, ◌==◌, if◌then◌else◌, add64, arith}
use onic_driver.Base.Int.{pos, ne_zero}
use onic_driver.Queue.Resource.{Resource, acquired, released}
use onic_driver.Queue.{
  onic_qdma_rx_queue_add, rx_setup_loop, onic_qdma_rx_queue_setup, tx_setup_loop,
  onic_qdma_tx_queue_setup, start_loop, onic_qdma_start,
}
use onic_driver.Queue.Setup.{HandlesFollow}
use onic_driver.Netdev.{onic_stats_alloc, onic_open_up, release_queues, onic_open, onic_stop}
use onic_driver.Netdev.{onic_rx_poll, onic_isr_rx_tophalf}
use onic_driver.Rx.{rx_queue}
use onic_driver.Netdev.QueueHandles.{schedules, serves, onic_isr_rx_tophalf-onic_rx_poll}
use onic_driver.Netdev.Poll.{ends, asks, onic_rx_poll-asks}
use onic_driver.Netdev.Balance.{held, KnowsHandles, QueuesFit}
use onic_driver.Netdev.Open.{onic_open-fails_clean, onic_open-holds}
use onic_driver.Kernel.Ledger.{taken, given}
use onic_driver.Kernel.Blocks.{memory, block}
use onic_driver.Netdev.Allocs.{onic_open-leaks}
use onic_driver.Netdev.Frees.{onic_open-onic_stop-memory}
use onic_driver.Netdev.Life.{Life, Phase, Life-owns}
use onic_driver.Tx.{onic_start_xmit}
use onic_driver.Kernel.{World}
use onic_driver.Netdev.Stop.{onic_stop-gives_back, onic_open-onic_stop}
use onic_driver.Tests.{first, kernel, status_ok, status_no_start, start, card, skb}

follows : HandlesFollow (kernel status_ok) first
follows l d c e = refl

follows_no_start : HandlesFollow (kernel status_no_start) first
follows_no_start l d c e = refl

fits : QueuesFit start
fits = record { rx = omega arith; tx = omega arith }

knows : KnowsHandles first start
knows = record { rx = λ l. refl; tx = λ l. refl }

opens : (onic_open 16 (kernel status_ok) start).0 ≡ pos 0
unfolding onic_open onic_stats_alloc onic_qdma_rx_queue_setup rx_setup_loop onic_qdma_rx_queue_add
    onic_qdma_tx_queue_setup tx_setup_loop onic_qdma_start start_loop onic_open_up
opens = refl

does_not_open : ne_zero (onic_open 16 (kernel status_no_start) start).0 ≡ true
unfolding onic_open onic_stats_alloc onic_qdma_rx_queue_setup rx_setup_loop onic_qdma_rx_queue_add
    onic_qdma_tx_queue_setup tx_setup_loop onic_qdma_start start_loop release_queues
does_not_open = refl

onic_open-fails_clean_example :
    acquired (Resource.queue 512) (onic_open 16 (kernel status_no_start) start).1.log + 0
    ≡ released (Resource.queue 512) (onic_open 16 (kernel status_no_start) start).1.log + 0
onic_open-fails_clean_example =
    onic_open-fails_clean first (kernel status_no_start) follows_no_start 16 start fits
      does_not_open (Resource.queue 512)

onic_open-holds_example :
    acquired (Resource.running 1) (onic_open 16 (kernel status_ok) start).1.log + 0
    ≡ released (Resource.running 1) (onic_open 16 (kernel status_ok) start).1.log
      + 0
      + held first card (Resource.running 1)
onic_open-holds_example =
    onic_open-holds first (kernel status_ok) follows 16 start fits opens (Resource.running 1)

onic_stop-gives_back_example :
    released (Resource.queue 513) (onic_stop 16 (kernel status_ok) start).1.log + 0
    ≡ acquired (Resource.queue 513) (onic_stop 16 (kernel status_ok) start).1.log
      + 0
      + held first card (Resource.queue 513)
onic_stop-gives_back_example =
    onic_stop-gives_back first (kernel status_ok) 16 start fits knows refl refl (Resource.queue 513)

onic_open-onic_stop_example :
    acquired
        (Resource.napi 1)
        (onic_stop 16 (kernel status_ok) (onic_open 16 (kernel status_ok) start).1).1.log
      + 0
    ≡ released
        (Resource.napi 1)
        (onic_stop 16 (kernel status_ok) (onic_open 16 (kernel status_ok) start).1).1.log
      + 0
onic_open-onic_stop_example =
    onic_open-onic_stop first (kernel status_ok) 16 start follows fits refl refl opens
      (Resource.napi 1)

onic_rx_poll-asks_example :
    let r = onic_rx_poll 9 16 1 64 (kernel status_ok) start in
    (ends 1 r.1.log ≡ 0 + 1) × ((r.0 ≡ pos 0) × (asks 1 r.1.log ≡ 0 + 0))
onic_rx_poll-asks_example = onic_rx_poll-asks (kernel status_ok) 9 16 1 64 start refl refl refl

onic_isr_rx_tophalf-onic_rx_poll_example :
    let h = add64 512 1 in
    let v = (onic_isr_rx_tophalf h (kernel status_ok) start).1 in
    let u = (onic_rx_poll 9 16 1 64 (kernel status_ok) v).1 in
    (rx_queue h 512 ≡ 1)
    × ((i : ℕ) → schedules i v.log ≡ 0 + (if 1 == i then 1 else 0))
    × ((k : ℕ) → serves k u.log ≡ 0 + (if h == k then 1 else 0))
onic_isr_rx_tophalf-onic_rx_poll_example =
    onic_isr_rx_tophalf-onic_rx_poll (kernel status_ok) 9 16 1 64 start (omega arith) refl refl refl

-- The interface goes up, sends a packet and goes down.
abbrev up_and_sent : World
up_and_sent =
    (onic_start_xmit skb 16 (kernel status_ok) (onic_open 16 (kernel status_ok) start).1).1

abbrev down_again : World
down_again = (onic_stop 16 (kernel status_ok) up_and_sent).1

lives : Life (kernel status_ok) 16 start down_again Phase.down
lives = Life.stops (Life.transmits skb (Life.opens Life.begin opens))

Life-owns_example :
    acquired (Resource.running 1) down_again.log + 0
    ≡ released (Resource.running 1) down_again.log + 0 + 0
Life-owns_example =
    Life-owns first (kernel status_ok) 16 start follows fits refl refl down_again Phase.down lives
      (Resource.running 1)

onic_open-onic_stop-memory_example :
    let w' = (onic_stop 16 (kernel status_ok) (onic_open 16 (kernel status_ok) start).1).1 in
    taken memory 4096 w'.log + 0 ≡ given memory 4096 w'.log + 0
onic_open-onic_stop-memory_example =
    onic_open-onic_stop-memory (kernel status_ok) 16 start refl refl opens 4096

allocates : (onic_stats_alloc 17 (kernel status_no_start) start).0 ≡ pos 0
unfolding onic_stats_alloc
allocates = refl

sets_up :
    let s = onic_stats_alloc 17 (kernel status_no_start) start in
    (onic_qdma_rx_queue_setup (kernel status_no_start) s.1).0 ≡ pos 0
unfolding onic_stats_alloc onic_qdma_rx_queue_setup rx_setup_loop onic_qdma_rx_queue_add
sets_up = refl

onic_open-leaks_example :
    let w' = (onic_open 16 (kernel status_no_start) start).1 in
    taken memory 4096 w'.log + 0 ≡ given memory 4096 w'.log + 0 + block w'.priv.tx_qstats 4096
onic_open-leaks_example =
    onic_open-leaks (kernel status_no_start) 16 start refl refl allocates sets_up does_not_open 4096
