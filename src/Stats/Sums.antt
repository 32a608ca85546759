-- ===== src/Stats/Sums.antt =====
-- The sums of `onic_get_stats64` (onic_main.c).
use onic_driver.Base.{
  ℕ, zero, suc, ◌+◌, ◌%◌, ◌^◌, ◌≡◌, ◌∙◌, refl, ap, sym, Bool, true, false, ◌==◌, if-true, subst,
  not, ◌&&◌, add64, sum_range, arith,
}
use onic_driver.Kernel.{QStats, Env, World, Io, pure}
use onic_driver.Stats.{add_tx, add_rx, onic_get_stats64}

-- What `stats` holds after the counters of `n` transmit queues and `m` receive queues were added.
pub record SumsUp (w : World) (stats stats' : QStats) : Type 0 where
  pub tx_packets :
      stats'.tx_packets % 2 ^ 64
      ≡ (stats.tx_packets
          + sum_range w.net.real_num_tx_queues 0 (λ q. (w.stats (w.priv.tx_qstats + q)).tx_packets))
        % 2 ^ 64
  pub tx_bytes :
      stats'.tx_bytes % 2 ^ 64
      ≡ (stats.tx_bytes
          + sum_range w.net.real_num_tx_queues 0 (λ q. (w.stats (w.priv.tx_qstats + q)).tx_bytes))
        % 2 ^ 64
  pub rx_packets :
      stats'.rx_packets % 2 ^ 64
      ≡ (stats.rx_packets
          + sum_range w.net.real_num_rx_queues 0 (λ q. (w.stats (w.priv.rx_qstats + q)).rx_packets))
        % 2 ^ 64
  pub rx_bytes :
      stats'.rx_bytes % 2 ^ 64
      ≡ (stats.rx_bytes
          + sum_range w.net.real_num_rx_queues 0 (λ q. (w.stats (w.priv.rx_qstats + q)).rx_bytes))
        % 2 ^ 64
  pub same_dropped : stats'.tx_dropped ≡ stats.tx_dropped

-- One more term of a sum on 64 bits.
add64-next :
    (a x s r : ℕ) → r % 2 ^ 64 ≡ (add64 a x + s) % 2 ^ 64 → r % 2 ^ 64 ≡ (a + (x + s)) % 2 ^ 64
add64-next a x s r e = omega (arith, e)

module _ (t : ℕ → QStats) where
  add_tx-sums :
      (n q : ℕ) (stats : QStats)
      → let r = add_tx n q t stats in
        (r.tx_packets % 2 ^ 64
          ≡ (stats.tx_packets + sum_range n q (λ i. (t i).tx_packets)) % 2 ^ 64)
        × (r.tx_bytes % 2 ^ 64 ≡ (stats.tx_bytes + sum_range n q (λ i. (t i).tx_bytes)) % 2 ^ 64)
        × (r.rx_packets ≡ stats.rx_packets)
        × (r.rx_bytes ≡ stats.rx_bytes)
        × (r.tx_dropped ≡ stats.tx_dropped)
  unfolding add_tx
  add_tx-sums zero q stats =
      (ap (λ n. n % 2 ^ 64) (omega arith), ap (λ n. n % 2 ^ 64) (omega arith), refl, refl, refl)
  add_tx-sums (suc n) q stats =
      let (p, b, c, d, e) = add_tx-sums n (q + 1) (record stats {
        tx_bytes = add64 stats.tx_bytes (t q).tx_bytes;
        tx_packets = add64 stats.tx_packets (t q).tx_packets;
      }) in
      (
        add64-next stats.tx_packets (t q).tx_packets _ _ p,
        add64-next stats.tx_bytes (t q).tx_bytes _ _ b,
        c,
        d,
        e,
      )

  add_rx-sums :
      (n q : ℕ) (stats : QStats)
      → let r = add_rx n q t stats in
        (r.rx_packets % 2 ^ 64
          ≡ (stats.rx_packets + sum_range n q (λ i. (t i).rx_packets)) % 2 ^ 64)
        × (r.rx_bytes % 2 ^ 64 ≡ (stats.rx_bytes + sum_range n q (λ i. (t i).rx_bytes)) % 2 ^ 64)
        × (r.tx_packets ≡ stats.tx_packets)
        × (r.tx_bytes ≡ stats.tx_bytes)
        × (r.tx_dropped ≡ stats.tx_dropped)
  unfolding add_rx
  add_rx-sums zero q stats =
      (ap (λ n. n % 2 ^ 64) (omega arith), ap (λ n. n % 2 ^ 64) (omega arith), refl, refl, refl)
  add_rx-sums (suc n) q stats =
      let (p, b, c, d, e) = add_rx-sums n (q + 1) (record stats {
        rx_bytes = add64 stats.rx_bytes (t q).rx_bytes;
        rx_packets = add64 stats.rx_packets (t q).rx_packets;
      }) in
      (
        add64-next stats.rx_packets (t q).rx_packets _ _ p,
        add64-next stats.rx_bytes (t q).rx_bytes _ _ b,
        c,
        d,
        e,
      )

neither : {a b : Bool} → a ≡ false → b ≡ false → (not a && not b) ≡ true
neither e f = rw (e, f) refl

-- On a network device that is not NULL, has a private part and allocated counters,
-- `onic_get_stats64` adds the counters of all its queues to what it was given, on 64 bits, leaves
-- the number of dropped packets, and changes nothing else.
pub onic_get_stats64-SumsUp :
    (env : Env) (netdev : ℕ) (stats : QStats) (w : World)
    → (netdev == 0) ≡ false
    → (env.priv_of netdev == 0) ≡ false
    → (w.priv.tx_qstats == 0) ≡ false
    → (w.priv.rx_qstats == 0) ≡ false
    → let r = onic_get_stats64 netdev stats env w in SumsUp w stats r.0 × (r.1 ≡ w)
unfolding onic_get_stats64
onic_get_stats64-SumsUp env netdev stats w found has_priv tx rx =
    let tx_q = λ (q : ℕ). w.stats (w.priv.tx_qstats + q) in
    let rx_q = λ (q : ℕ). w.stats (w.priv.rx_qstats + q) in
    let n = w.net.real_num_tx_queues in
    let m = w.net.real_num_rx_queues in
    let sums = add_tx n 0 tx_q stats in
    let (tp, tb, a, b, d) = add_tx-sums tx_q n 0 stats in
    let (rp, rb, a', b', d') = add_rx-sums rx_q m 0 sums in
    rw (found, has_priv)
      (subst (λ (k : Io QStats). SumsUp w stats (k env w).0 × ((k env w).1 ≡ w))
        (sym (
          if-true (not (w.priv.tx_qstats == 0) && not (w.priv.rx_qstats == 0))
            (pure (add_rx m 0 rx_q sums)) (pure stats) (neither tx rx)))
        (
          record {
            tx_packets = ap (λ x. x % 2 ^ 64) a' ∙ tp;
            tx_bytes = ap (λ x. x % 2 ^ 64) b' ∙ tb;
            rx_packets = rp ∙ ap (λ x. (x + sum_range m 0 (λ q. (rx_q q).rx_packets)) % 2 ^ 64) a;
            rx_bytes = rb ∙ ap (λ x. (x + sum_range m 0 (λ q. (rx_q q).rx_bytes)) % 2 ^ 64) b;
            same_dropped = d' ∙ d;
          },
          refl,
        ))
