-- ===== src/Stats/Changes.antt =====
-- How the sums of the counters over the queues of a device change with a packet that a queue counts
-- (onic_main.c: the counters that `onic_get_stats64` adds).
use onic_driver.Base.{
  ℕ, zero, suc, ◌+◌, ◌%◌, ◌^◌, ◌≤◌, ◌<◌, ◌≡◌, ◌∙◌, refl, ap, inl, inr, true, ◌==◌, ltb, ltb→lt,
  if◌then◌else◌, Bool-cases, ==→eq, ne→==, add64, sum_range, sum_range-cong, arith,
}
use onic_driver.Kernel.{QStats, World}
use onic_driver.Tx.Xmit.{counted}
use onic_driver.Rx.Pages.{received}
use onic_driver.Stats.Counters.{visible, Place, Unseen, CountsOne}

-- The sums over the queues of a device.
abbrev pub tx_sum : (QStats → ℕ) → World → ℕ
tx_sum f w = sum_range w.net.real_num_tx_queues 0 (λ q. f (w.stats (w.priv.tx_qstats + q)))

abbrev pub rx_sum : (QStats → ℕ) → World → ℕ
rx_sum f w = sum_range w.net.real_num_rx_queues 0 (λ q. f (w.stats (w.priv.rx_qstats + q)))

-- The numbers from `q` on are the same.
sum_range-behind :
    (n q i d : ℕ) (f g : ℕ → ℕ)
    → i < q
    → ((j : ℕ) → g j ≡ (if j == i then add64 (f j) d else f j))
    → sum_range n q g ≡ sum_range n q f
sum_range-behind zero q i d f g l e = refl
sum_range-behind (suc n) q i d f g l e = omega (
  arith,
  e q,
  ap {B = ℕ} (λ b. if b then add64 (f q) d else f q)
      (ne→== q i (λ same. absurd (omega (arith, same)))),
  sum_range-behind n (q + 1) i d f g (omega arith) e,
)

-- One of the numbers goes up by `d` on 64 bits, and with it the sum.
sum_range-bump :
    (n q i d : ℕ) (f g : ℕ → ℕ)
    → q ≤ i
    → i < q + n
    → ((j : ℕ) → g j ≡ (if j == i then add64 (f j) d else f j))
    → sum_range n q g % 2 ^ 64 ≡ (sum_range n q f + d) % 2 ^ 64
sum_range-bump zero q i d f g l m e = absurd (omega arith)
sum_range-bump (suc n) q i d f g l m e = elim (Bool-cases (q == i)) [
  | inl here ↦ omega (
    arith,
    e q,
    ap {B = ℕ} (λ b. if b then add64 (f q) d else f q) here,
    sum_range-behind n (q + 1) i d f g (omega (arith, ==→eq q i here)) e,
  )
  | inr later ↦ omega (
    arith,
    e q,
    ap {B = ℕ} (λ b. if b then add64 (f q) d else f q) later,
    sum_range-bump n (q + 1) i d f g (ground (arith, l, later)) (omega arith) e,
  )
]

-- The sums over the queues after a packet that the structure at `base + i` counts in one of them.
bump :
    (n i d base : ℕ) (field : QStats → ℕ) (s t : ℕ → QStats)
    → ltb i n ≡ true
    → ((b : ℕ) → field (t b) ≡ (if b == base + i then add64 (field (s b)) d else field (s b)))
    → sum_range n 0 (λ q. field (t (base + q))) % 2 ^ 64
      ≡ (sum_range n 0 (λ q. field (s (base + q))) + d) % 2 ^ 64
bump n i d base field s t l e =
    sum_range-bump n 0 i d (λ q. field (s (base + q))) (λ q. field (t (base + q))) (omega arith)
      (omega (arith, ltb→lt i n l))
      (λ j.
        e (base + j)
        ∙ ap {B = ℕ} (λ c. if c then add64 (field (s (base + j))) d else field (s (base + j)))
            (shift j))
  where
    shift : (j : ℕ) → (base + j == base + i) ≡ (j == i)
    shift j = ground arith

-- The counters of a device in `v`, by those in `w`.
pub record Changed (w v : World) (tx txb rx rxb : ℕ) : Type 0 where
  pub tx_packets :
      tx_sum (λ s. s.tx_packets) v % 2 ^ 64 ≡ (tx_sum (λ s. s.tx_packets) w + tx) % 2 ^ 64
  pub tx_bytes : tx_sum (λ s. s.tx_bytes) v % 2 ^ 64 ≡ (tx_sum (λ s. s.tx_bytes) w + txb) % 2 ^ 64
  pub rx_packets :
      rx_sum (λ s. s.rx_packets) v % 2 ^ 64 ≡ (rx_sum (λ s. s.rx_packets) w + rx) % 2 ^ 64
  pub rx_bytes : rx_sum (λ s. s.rx_bytes) v % 2 ^ 64 ≡ (rx_sum (λ s. s.rx_bytes) w + rxb) % 2 ^ 64

-- A sum in `v` is one over the counters of `v` at the place of `w`.
tx_sum-Place :
    (f : QStats → ℕ) {w v : World}
    → Place w v
    → tx_sum f v ≡ sum_range w.net.real_num_tx_queues 0 (λ q. f (v.stats (w.priv.tx_qstats + q)))
tx_sum-Place f {w} {v} p = rw (p.same_priv, p.same_net) refl

rx_sum-Place :
    (f : QStats → ℕ) {w v : World}
    → Place w v
    → rx_sum f v ≡ sum_range w.net.real_num_rx_queues 0 (λ q. f (v.stats (w.priv.rx_qstats + q)))
rx_sum-Place f {w} {v} p = rw (p.same_priv, p.same_net) refl

module _ {w v : World} (p : Place w v) where
  -- A counter that is the same everywhere, and one that goes up in the queue `i`.
  tx_same :
      (f : QStats → ℕ)
      → ((b : ℕ) → f (v.stats b) ≡ f (w.stats b))
      → tx_sum f v % 2 ^ 64 ≡ (tx_sum f w + 0) % 2 ^ 64
  tx_same f e = omega (
    arith,
    tx_sum-Place f p,
    sum_range-cong w.net.real_num_tx_queues 0 (λ q. f (v.stats (w.priv.tx_qstats + q)))
        (λ q. f (w.stats (w.priv.tx_qstats + q))) (λ i l. e (w.priv.tx_qstats + i)),
  )

  rx_same :
      (f : QStats → ℕ)
      → ((b : ℕ) → f (v.stats b) ≡ f (w.stats b))
      → rx_sum f v % 2 ^ 64 ≡ (rx_sum f w + 0) % 2 ^ 64
  rx_same f e = omega (
    arith,
    rx_sum-Place f p,
    sum_range-cong w.net.real_num_rx_queues 0 (λ q. f (v.stats (w.priv.rx_qstats + q)))
        (λ q. f (w.stats (w.priv.rx_qstats + q))) (λ i l. e (w.priv.rx_qstats + i)),
  )

  tx_bump :
      (f : QStats → ℕ) (i d : ℕ)
      → ltb i w.net.real_num_tx_queues ≡ true
      → ((b : ℕ)
          → f (v.stats b)
            ≡ (if b == w.priv.tx_qstats + i then add64 (f (w.stats b)) d else f (w.stats b)))
      → tx_sum f v % 2 ^ 64 ≡ (tx_sum f w + d) % 2 ^ 64
  tx_bump f i d l e =
      ap (λ n. n % 2 ^ 64) (tx_sum-Place f p)
      ∙ bump w.net.real_num_tx_queues i d w.priv.tx_qstats f w.stats v.stats l e

  rx_bump :
      (f : QStats → ℕ) (i d : ℕ)
      → ltb i w.net.real_num_rx_queues ≡ true
      → ((b : ℕ)
          → f (v.stats b)
            ≡ (if b == w.priv.rx_qstats + i then add64 (f (w.stats b)) d else f (w.stats b)))
      → rx_sum f v % 2 ^ 64 ≡ (rx_sum f w + d) % 2 ^ 64
  rx_bump f i d l e =
      ap (λ n. n % 2 ^ 64) (rx_sum-Place f p)
      ∙ bump w.net.real_num_rx_queues i d w.priv.rx_qstats f w.stats v.stats l e

pub Unseen-Changed : {w v : World} → Unseen w v → Changed w v 0 0 0 0
Unseen-Changed u = record {
  tx_packets = tx_same u.place (λ s. s.tx_packets) (λ b. ap (λ t. t.0) (u.same_visible b));
  tx_bytes = tx_same u.place (λ s. s.tx_bytes) (λ b. ap (λ t. t.1) (u.same_visible b));
  rx_packets = rx_same u.place (λ s. s.rx_packets) (λ b. ap (λ t. t.2) (u.same_visible b));
  rx_bytes = rx_same u.place (λ s. s.rx_bytes) (λ b. ap (λ t. t.3) (u.same_visible b));
}

-- What the two kinds of counting write, seen at any structure.
counted-visible :
    (a n : ℕ) (t : ℕ → QStats) (b : ℕ)
    → visible (counted a n t b) ≡ (
      (if b == a then add64 (t b).tx_packets 1 else (t b).tx_packets),
      (if b == a then add64 (t b).tx_bytes n else (t b).tx_bytes),
      (t b).rx_packets,
      (t b).rx_bytes,
    )
counted-visible a n t b = elim (Bool-cases (b == a)) [
  | inl here ↦ rw (here, ==→eq b a here) refl
  | inr other ↦ rw other refl
]

received-visible :
    (a n : ℕ) (t : ℕ → QStats) (b : ℕ)
    → visible (received a n t b) ≡ (
      (t b).tx_packets,
      (t b).tx_bytes,
      (if b == a then add64 (t b).rx_packets 1 else (t b).rx_packets),
      (if b == a then add64 (t b).rx_bytes n else (t b).rx_bytes),
    )
received-visible a n t b = elim (Bool-cases (b == a)) [
  | inl here ↦ rw (here, ==→eq b a here) refl
  | inr other ↦ rw other refl
]

pub sent-Changed :
    (i len : ℕ) {w v : World}
    → ltb i w.net.real_num_tx_queues ≡ true
    → CountsOne (w.priv.tx_qstats + i) len counted w v
    → Changed w v 1 len 0 0
sent-Changed i len {w} {v} l c =
    let e = λ (b : ℕ). c.same_visible b ∙ counted-visible (w.priv.tx_qstats + i) len w.stats b in
    record {
      tx_packets = tx_bump c.place (λ s. s.tx_packets) i 1 l (λ b. ap (λ t. t.0) (e b));
      tx_bytes = tx_bump c.place (λ s. s.tx_bytes) i len l (λ b. ap (λ t. t.1) (e b));
      rx_packets = rx_same c.place (λ s. s.rx_packets) (λ b. ap (λ t. t.2) (e b));
      rx_bytes = rx_same c.place (λ s. s.rx_bytes) (λ b. ap (λ t. t.3) (e b));
    }

pub received-Changed :
    (i len : ℕ) {w v : World}
    → ltb i w.net.real_num_rx_queues ≡ true
    → CountsOne (w.priv.rx_qstats + i) len received w v
    → Changed w v 0 0 1 len
received-Changed i len {w} {v} l c =
    let e = λ (b : ℕ). c.same_visible b ∙ received-visible (w.priv.rx_qstats + i) len w.stats b in
    record {
      tx_packets = tx_same c.place (λ s. s.tx_packets) (λ b. ap (λ t. t.0) (e b));
      tx_bytes = tx_same c.place (λ s. s.tx_bytes) (λ b. ap (λ t. t.1) (e b));
      rx_packets = rx_bump c.place (λ s. s.rx_packets) i 1 l (λ b. ap (λ t. t.2) (e b));
      rx_bytes = rx_bump c.place (λ s. s.rx_bytes) i len l (λ b. ap (λ t. t.3) (e b));
    }
