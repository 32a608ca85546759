-- ===== src/Stats/Counters.antt =====
-- What the packet paths of onic_main.c (`onic_start_xmit`, `onic_tx_done`, `onic_rx_pkt_process`) do to the
-- counters that `onic_get_stats64` reports.
use onic_driver.Base.{
  ℕ, ◌+◌, ◌≡◌, ◌∙◌, refl, ap, inl, inr, true, false, Bool-cases, ◌==◌, not, ltb, if-both, Option,
  List, arith,
}
use onic_driver.Base.Int.{ℤ, pos, einval, ne_zero, lt_zero}
use onic_driver.Kernel.{
  SwSg, Skb, OnicDmaRequest, QStats, Op, Env, World, called, Io, pure, ◌>>=◌, ◌>>◌, perform, padded,
}
use onic_driver.Kernel.Steps.{Frame}
use onic_driver.Tx.{onic_start_xmit, onic_tx_done, xmit_queue, eth_zlen}
use onic_driver.Tx.Release.{dropped}
use onic_driver.Tx.Xmit.{counted, sent, refused, lost}
use onic_driver.Tx.Start.{queue_of, turned_away, taken, onic_start_xmit-Ends}
use onic_driver.Tx.Steps.{onic_tx_done-Always, onic_start_xmit-Always}
use onic_driver.Rx.{rx_queue, onic_rx_pkt_process}
use onic_driver.Rx.Pages.{received}
use onic_driver.Rx.Steps.{passes-Always}

-- The counters of a structure that are reported.
abbrev pub visible : QStats → ℕ × ℕ × ℕ × ℕ
visible s = (s.tx_packets, s.tx_bytes, s.rx_packets, s.rx_bytes)

-- The structures of the driver and of the network device stay.
pub record Place (w v : World) : Type 0 where
  pub same_priv : v.priv ≡ w.priv
  pub same_net : v.net ≡ w.net

-- And so do the counters that are reported.
pub record Unseen (w v : World) : Type 0 where
  pub place : Place w v
  pub same_visible : (a : ℕ) → visible (v.stats a) ≡ visible (w.stats a)

pub Place-Frame : Frame Place
Place-Frame = record {
  stay = λ w. record { same_priv = refl; same_net = refl };
  both =
      λ a b. record { same_priv = b.same_priv ∙ a.same_priv; same_net = b.same_net ∙ a.same_net };
}

pub Unseen-Frame : Frame Unseen
Unseen-Frame = record {
  stay = λ w. record { place = Place-Frame.stay w; same_visible = λ a. refl };
  both = λ a b. record {
    place = Place-Frame.both a.place b.place;
    same_visible = λ x. b.same_visible x ∙ a.same_visible x;
  };
}

-- And so do all counters.
record Exact (w v : World) : Type 0 where
  place : Place w v
  same_stats : v.stats ≡ w.stats

Exact-Frame : Frame Exact
Exact-Frame = record {
  stay = λ w. record { place = Place-Frame.stay w; same_stats = refl };
  both = λ a b. record {
    place = Place-Frame.both a.place b.place;
    same_stats = b.same_stats ∙ a.same_stats;
  };
}

-- A write that leaves the reported counters of its structure.
visible-dropped : (a : ℕ) (t : ℕ → QStats) (b : ℕ) → visible (dropped a t b) ≡ visible (t b)
visible-dropped a t b = ground arith

-- A packet that is taken, by the queue that counts it.
pub record CountsOne (a len : ℕ) (counts : ℕ → ℕ → (ℕ → QStats) → ℕ → QStats) (w v : World)
    : Type 0 where
  pub place : Place w v
  pub same_visible : (b : ℕ) → visible (v.stats b) ≡ visible (counts a len w.stats b)

module _ (env : Env) where
  pub onic_tx_done-Unseen :
      (req : Option OnicDmaRequest) (w : World) → Unseen w (onic_tx_done req env w).1
  onic_tx_done-Unseen req w =
      onic_tx_done-Always Unseen-Frame
        (λ op e env w. record {
          place = record { same_priv = refl; same_net = refl };
          same_visible = λ a. refl;
        })
        (λ a env w. record {
          place = record { same_priv = refl; same_net = refl };
          same_visible = λ b. visible-dropped a w.stats b;
        })
        req env w

  onic_start_xmit-Place :
      (skb : Skb) (netdev : ℕ) (w : World) → Place w (onic_start_xmit skb netdev env w).1
  onic_start_xmit-Place skb netdev w =
      onic_start_xmit-Always Place-Frame
        (λ op e env w. record { same_priv = refl; same_net = refl })
        (λ a env w. record { same_priv = refl; same_net = refl })
        (λ a n env w. record { same_priv = refl; same_net = refl }) skb netdev env w

  -- A packet for a queue that the device does not have is not taken.
  beyond-fails :
      (skb : Skb) (netdev : ℕ) (w : World)
      → ltb (queue_of (env.padded skb)) w.net.real_num_tx_queues ≡ false
      → lt_zero (onic_start_xmit skb netdev env w).0 ≡ true
  unfolding onic_start_xmit xmit_queue
  beyond-fails skb netdev w beyond =
      let pad = Op.skb_put_padto skb.addr eth_zlen in
      let v = called Op.netif_carrier_ok env w in
      let Fails = λ (u : World) (m : Io ℤ). lt_zero (m env u).0 ≡ true in
      let drop = perform (Op.dev_kfree_skb_any skb.addr) >> pure einval in
      if-both (Fails w) (env.priv_of netdev == 0) (pure einval) _ refl (
        if-both (Fails v) (not (ne_zero (env.status w.log Op.netif_carrier_ok))) drop _ refl (
          if-both (Fails v) skb.is_gso (pure einval) _ refl (
            if-both (Fails (called pad env v)) (ne_zero (env.status v.log pad)) drop
              (padded skb >>= λ skb'. xmit_queue skb' netdev) refl (rw beyond refl))))

  pub data XmitCounts (skb : Skb) (w : World) (ret : ℤ) (v : World) : Type 0 where
    one :
        (q : ℕ)
        → ltb q w.net.real_num_tx_queues ≡ true
        → ret ≡ pos 0
        → CountsOne (w.priv.tx_qstats + q) skb.len counted w v
        → XmitCounts skb w ret v
    none : lt_zero ret ≡ true → Unseen w v → XmitCounts skb w ret v

  dropped-Unseen : (a : ℕ) {w v : World} → Place w v → v.stats ≡ dropped a w.stats → Unseen w v
  dropped-Unseen a {w} {v} p e = record {
    place = p;
    same_visible = λ b. ap (λ (t : ℕ → QStats). visible (t b)) e ∙ visible-dropped a w.stats b;
  }

  -- `onic_start_xmit` counts the padded packet, once and on a queue of the device, exactly where it
  -- returns 0.
  pub onic_start_xmit-XmitCounts :
      (skb : Skb) (netdev : ℕ) (w : World)
      → (netdev == 0) ≡ false
      → (env.priv_of netdev == 0) ≡ false
      → let r = onic_start_xmit skb netdev env w in XmitCounts (env.padded skb) w r.0 r.1
  onic_start_xmit-XmitCounts skb netdev w found has_priv =
      let p = onic_start_xmit-Place skb netdev w in
      elim (onic_start_xmit-Ends env skb netdev w found has_priv) [
        | turned_away bad t ↦ none bad (record {
          place = p;
          same_visible = λ b. ap (λ (s : ℕ → QStats). visible (s b)) t.same_stats;
        })
        | taken (refused bad g) ↦ none bad (dropped-Unseen _ p g.drops)
        | taken (lost bad g) ↦ none (ap lt_zero bad) (dropped-Unseen _ p g.drops)
        | taken (sent good s) ↦
            elim (Bool-cases (ltb (queue_of (env.padded skb)) w.net.real_num_tx_queues)) [
              | inr beyond ↦ cc (beyond-fails skb netdev w beyond, ap lt_zero good)
              | inl fits ↦ one (queue_of (env.padded skb)) fits good (record {
                place = p;
                same_visible = λ b. ap (λ (t : ℕ → QStats). visible (t b)) s.counts;
              })
            ]
      ]

  -- `onic_rx_pkt_process` counts a packet once, whether it can be delivered or not.
  pub onic_rx_pkt_process-CountsOne :
      (qhndl quld len sgcnt : ℕ) (sgl : List SwSg) (w : World)
      → (w.priv.netdev == 0) ≡ false
      → (quld == 0) ≡ false
      → (sgcnt == 0) ≡ false
      → CountsOne
          (w.priv.rx_qstats + rx_queue qhndl w.priv.base_rx_q_handle)
          len
          received
          w
          (onic_rx_pkt_process qhndl quld len sgcnt sgl env w).1
  unfolding onic_rx_pkt_process
  onic_rx_pkt_process-CountsOne qhndl quld len sgcnt sgl w a b c =
      let q_no = rx_queue qhndl w.priv.base_rx_q_handle in
      let kept =
        passes-Always Exact-Frame
          (λ op e env w. record {
            place = record { same_priv = refl; same_net = refl };
            same_stats = refl;
          })
          q_no len sgcnt sgl env w in
      let at = w.priv.rx_qstats + q_no in
      rw (a, b, c)
        (record {
          place = record { same_priv = kept.place.same_priv; same_net = kept.place.same_net };
          same_visible =
              λ i. ap (λ (t : ℕ → QStats). visible (received at len t i)) kept.same_stats;
        })
