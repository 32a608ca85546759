-- ===== src/Stats/Traffic.antt =====
-- The statistics of an interface under traffic: `onic_get_stats64` (onic_main.c) against the packets that
-- the paths of both directions have taken.
use onic_driver.Base.{
  ℕ, ◌+◌, ◌%◌, ◌^◌, ◌≡◌, ◌∙◌, refl, ap, true, false, ◌==◌, ltb, Option, List, [], ◌∷◌, arith,
}
use onic_driver.Base.Int.{pos, lt_zero}
use onic_driver.Kernel.{SwSg, Skb, OnicPriv, OnicDmaRequest, QStats, zero_stats, Env, World}
use onic_driver.Tx.{onic_start_xmit, onic_tx_done}
use onic_driver.Rx.{rx_queue, onic_rx_pkt_process}
use onic_driver.Stats.{onic_get_stats64}
use onic_driver.Stats.Changes.{
  tx_sum, rx_sum, Changed, Unseen-Changed, sent-Changed, received-Changed,
}
use onic_driver.Stats.Sums.{SumsUp, onic_get_stats64-SumsUp}
use onic_driver.Stats.Counters.{
  Place, Place-Frame, one, none, onic_tx_done-Unseen, onic_start_xmit-XmitCounts,
  onic_rx_pkt_process-CountsOne,
}

-- What statistics mean: the packets and bytes of both directions, without bound.
pub record Totals : Type 0 where
  pub tx_packets : ℕ
  pub tx_bytes : ℕ
  pub rx_packets : ℕ
  pub rx_bytes : ℕ

-- The packets that an interface takes and those it fails to take, by their length. A received packet
-- that it fails to take is kept by libqdma, which hands it over again.
pub data Packet : Type 0 where
  out come_in failed : ℕ → Packet

unfoldable pub tally : Totals → Packet → Totals
tally t (out n) = record t { tx_packets = t.tx_packets + 1; tx_bytes = t.tx_bytes + n }
tally t (come_in n) = record t { rx_packets = t.rx_packets + 1; rx_bytes = t.rx_bytes + n }
tally t (failed n) = record t { rx_packets = t.rx_packets + 1; rx_bytes = t.rx_bytes + n }

-- The latest packet first.
unfoldable pub tally_all : Totals → List Packet → Totals
tally_all t [] = t
tally_all t (p ∷ ps) = tally (tally_all t ps) p

-- `s` shows `t` on counters of 64 bits.
pub record Shows (s : QStats) (t : Totals) : Type 0 where
  pub tx_packets : s.tx_packets % 2 ^ 64 ≡ t.tx_packets % 2 ^ 64
  pub tx_bytes : s.tx_bytes % 2 ^ 64 ≡ t.tx_bytes % 2 ^ 64
  pub rx_packets : s.rx_packets % 2 ^ 64 ≡ t.rx_packets % 2 ^ 64
  pub rx_bytes : s.rx_bytes % 2 ^ 64 ≡ t.rx_bytes % 2 ^ 64

-- The states that an interface can reach from `w` by traffic, with the packets that it has taken. A
-- received packet comes with the handle of a queue of the device.
pub data Traffic (env : Env) (netdev : ℕ) (w : World) : World → List Packet → Type 0 where
  idle : Traffic env netdev w w []
  sends :
      {v : World} {ps : List Packet} (skb : Skb)
      → Traffic env netdev w v ps
      → (onic_start_xmit skb netdev env v).0 ≡ pos 0
      → Traffic env netdev w (onic_start_xmit skb netdev env v).1 (out (env.padded skb).len ∷ ps)
  turns_away :
      {v : World} {ps : List Packet} (skb : Skb)
      → Traffic env netdev w v ps
      → lt_zero (onic_start_xmit skb netdev env v).0 ≡ true
      → Traffic env netdev w (onic_start_xmit skb netdev env v).1 ps
  completes :
      {v : World} {ps : List Packet} (req : Option OnicDmaRequest)
      → Traffic env netdev w v ps
      → Traffic env netdev w (onic_tx_done req env v).1 ps
  receives :
      {v : World} {ps : List Packet} (qhndl quld len sgcnt : ℕ) (sgl : List SwSg)
      → Traffic env netdev w v ps
      → (v.priv.netdev == 0) ≡ false
      → (quld == 0) ≡ false
      → (sgcnt == 0) ≡ false
      → ltb (rx_queue qhndl v.priv.base_rx_q_handle) v.net.real_num_rx_queues ≡ true
      → lt_zero (onic_rx_pkt_process qhndl quld len sgcnt sgl env v).0 ≡ false
      → Traffic env netdev w
          (onic_rx_pkt_process qhndl quld len sgcnt sgl env v).1
          (come_in len ∷ ps)
  fails :
      {v : World} {ps : List Packet} (qhndl quld len sgcnt : ℕ) (sgl : List SwSg)
      → Traffic env netdev w v ps
      → (v.priv.netdev == 0) ≡ false
      → (quld == 0) ≡ false
      → (sgcnt == 0) ≡ false
      → ltb (rx_queue qhndl v.priv.base_rx_q_handle) v.net.real_num_rx_queues ≡ true
      → lt_zero (onic_rx_pkt_process qhndl quld len sgcnt sgl env v).0 ≡ true
      → Traffic env netdev w
          (onic_rx_pkt_process qhndl quld len sgcnt sgl env v).1
          (failed len ∷ ps)

-- The sums over the queues show totals.
record SumsShow (w : World) (t : Totals) : Type 0 where
  tx_packets : tx_sum (λ s. s.tx_packets) w % 2 ^ 64 ≡ t.tx_packets % 2 ^ 64
  tx_bytes : tx_sum (λ s. s.tx_bytes) w % 2 ^ 64 ≡ t.tx_bytes % 2 ^ 64
  rx_packets : rx_sum (λ s. s.rx_packets) w % 2 ^ 64 ≡ t.rx_packets % 2 ^ 64
  rx_bytes : rx_sum (λ s. s.rx_bytes) w % 2 ^ 64 ≡ t.rx_bytes % 2 ^ 64

-- A change of the sums, and the same change of the totals.
Changed-SumsShow :
    {w v : World} {a b c d : ℕ} (t u : Totals)
    → Changed w v a b c d
    → u.tx_packets ≡ t.tx_packets + a
    → u.tx_bytes ≡ t.tx_bytes + b
    → u.rx_packets ≡ t.rx_packets + c
    → u.rx_bytes ≡ t.rx_bytes + d
    → SumsShow w t
    → SumsShow v u
Changed-SumsShow t u k e f g h s = record {
  tx_packets = omega (arith, k.tx_packets, s.tx_packets);
  tx_bytes = omega (arith, k.tx_bytes, s.tx_bytes);
  rx_packets = omega (arith, k.rx_packets, s.rx_packets);
  rx_bytes = omega (arith, k.rx_bytes, s.rx_bytes);
}

module _ (env : Env) (netdev : ℕ) (w : World) (found : (netdev == 0) ≡ false)
    (has_priv : (env.priv_of netdev == 0) ≡ false) where
  Traffic-SumsShow :
      (v : World) (ps : List Packet) (t : Totals)
      → Traffic env netdev w v ps
      → SumsShow w t
      → Place w v × SumsShow v (tally_all t ps)
  unfolding tally_all tally
  Traffic-SumsShow v [] t idle s = (Place-Frame.stay w, s)
  Traffic-SumsShow _ (out n ∷ ps) t (sends {v = v} skb r good) s =
      let (p, k) = Traffic-SumsShow v ps t r s in
      elim (onic_start_xmit-XmitCounts env skb netdev v found has_priv) [
        | none bad u ↦ cc (ap lt_zero good)
        | one q fits z c ↦ (
          Place-Frame.both p c.place,
          Changed-SumsShow (tally_all t ps) _ (sent-Changed q (env.padded skb).len fits c) refl refl
              (omega arith) (omega arith) k,
        )
      ]
  Traffic-SumsShow _ ps t (turns_away {v = v} skb r bad) s =
      let (p, k) = Traffic-SumsShow v ps t r s in
      elim (onic_start_xmit-XmitCounts env skb netdev v found has_priv) [
        | one q fits z c ↦ cc (ap lt_zero z)
        | none b u ↦ (
          Place-Frame.both p u.place,
          Changed-SumsShow (tally_all t ps) _ (Unseen-Changed u) (omega arith) (omega arith)
              (omega arith) (omega arith) k,
        )
      ]
  Traffic-SumsShow _ ps t (completes {v = v} req r) s =
      let (p, k) = Traffic-SumsShow v ps t r s in
      let u = onic_tx_done-Unseen env req v in
      (
        Place-Frame.both p u.place,
        Changed-SumsShow (tally_all t ps) _ (Unseen-Changed u) (omega arith) (omega arith)
            (omega arith) (omega arith) k,
      )
  Traffic-SumsShow _ (come_in n ∷ ps) t (receives {v = v} qhndl quld len sgcnt sgl r a b c l z) s =
      let (p, k) = Traffic-SumsShow v ps t r s in
      let one = onic_rx_pkt_process-CountsOne env qhndl quld len sgcnt sgl v a b c in
      (
        Place-Frame.both p one.place,
        Changed-SumsShow (tally_all t ps) _
            (received-Changed (rx_queue qhndl v.priv.base_rx_q_handle) len l one) (omega arith)
            (omega arith) refl refl k,
      )
  Traffic-SumsShow _ (failed n ∷ ps) t (fails {v = v} qhndl quld len sgcnt sgl r a b c l z) s =
      let (p, k) = Traffic-SumsShow v ps t r s in
      let one = onic_rx_pkt_process-CountsOne env qhndl quld len sgcnt sgl v a b c in
      (
        Place-Frame.both p one.place,
        Changed-SumsShow (tally_all t ps) _
            (received-Changed (rx_queue qhndl v.priv.base_rx_q_handle) len l one) (omega arith)
            (omega arith) refl refl k,
      )

  -- The report of `onic_get_stats64` on cleared statistics is the sums.
  abbrev pub report : World → QStats
  report v = (onic_get_stats64 netdev zero_stats env v).0

  report-sums :
      (v : World)
      → (v.priv.tx_qstats == 0) ≡ false
      → (v.priv.rx_qstats == 0) ≡ false
      → SumsUp v zero_stats (report v)
  report-sums v tx rx = (onic_get_stats64-SumsUp env netdev zero_stats v found has_priv tx rx).0

  -- The statistics of the driver implement a count of packets and bytes: after any traffic from `w`,
  -- `onic_get_stats64` shows, on 64 bits, what it showed in `w` with each packet that was sent and each
  -- that was received added once, with its length, whatever queue it went through, and with no packet
  -- that was turned away from sending and no completion. A received packet that `onic_rx_pkt_process`
  -- fails to take is added too, each time that it is handed over. The network device is not NULL, has a
  -- private part and its counters, and received packets come with handles of its queues.
  pub onic_get_stats64-Shows :
      (v : World) (ps : List Packet) (t : Totals)
      → (w.priv.tx_qstats == 0) ≡ false
      → (w.priv.rx_qstats == 0) ≡ false
      → Traffic env netdev w v ps
      → Shows (report w) t
      → Shows (report v) (tally_all t ps)
  onic_get_stats64-Shows v ps t tx rx traffic s =
      let before = report-sums w tx rx in
      let (p, k) = Traffic-SumsShow v ps t traffic (record {
        tx_packets = omega (arith, before.tx_packets, s.tx_packets);
        tx_bytes = omega (arith, before.tx_bytes, s.tx_bytes);
        rx_packets = omega (arith, before.rx_packets, s.rx_packets);
        rx_bytes = omega (arith, before.rx_bytes, s.rx_bytes);
      }) in
      let after =
        report-sums v (ap (λ (q : OnicPriv). q.tx_qstats == 0) p.same_priv ∙ tx)
          (ap (λ (q : OnicPriv). q.rx_qstats == 0) p.same_priv ∙ rx) in
      record {
        tx_packets = omega (arith, after.tx_packets, k.tx_packets);
        tx_bytes = omega (arith, after.tx_bytes, k.tx_bytes);
        rx_packets = omega (arith, after.rx_packets, k.rx_packets);
        rx_bytes = omega (arith, after.rx_bytes, k.rx_bytes);
      }
