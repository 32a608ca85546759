-- ===== src/Tx/Release.antt =====
-- Giving a request back: `onic_unmap_free_pkt_data` and the label `free_packet_data` of onic_main.c.
use onic_driver.Base.{
  ℕ, suc, ◌+◌, ◌≡◌, refl, ap, ap₂, true, false, ◌==◌, if◌then◌else◌, add64, Option, some, List, [],
  ◌∷◌, length, arith,
}
use onic_driver.Base.Int.{ℤ, pos}
use onic_driver.Kernel.{SwSg, Frag, Skb, OnicPriv, OnicDmaRequest, QStats, Op, Env, World, called}
use onic_driver.Tx.{unmap_frags, unmap_sgl, free_pkt, onic_unmap_free_pkt_data, free_packet_data}
use onic_driver.Tx.Mapping.{mapped, unmapped, count_if, consumed, occurs}

-- The list of a request covers the packet: an entry for the linear part and one for each fragment.
abbrev pub Covers : Skb → List SwSg → Type 0
Covers skb sgl = length sgl ≡ suc (length skb.frags)

-- Every entry of `sgl` is unmapped once, the packet at `p` is consumed `n p` times, and nothing is
-- mapped.
pub record Unmaps (sgl : List SwSg) (n : ℕ → ℕ) (w w' : World) : Type 0 where
  pub same_priv : w'.priv ≡ w.priv
  pub same_stats : w'.stats ≡ w.stats
  pub same_mapped : (a : ℕ) → mapped a w'.log ≡ mapped a w.log
  pub unmaps : (a : ℕ) → unmapped a w'.log ≡ unmapped a w.log + occurs a sgl
  pub consumes : (p : ℕ) → consumed p w'.log ≡ consumed p w.log + n p

-- The counter of dropped packets goes up by one in the structure at `a`.
abbrev pub dropped : ℕ → (ℕ → QStats) → ℕ → QStats
dropped a t b = if b == a then record (t a) { tx_dropped = add64 (t a).tx_dropped 1 } else t b

module _ (env : Env) where
  unmap_frags-Unmaps :
      (sgl : List SwSg) (frags : List Frag) (w : World)
      → length sgl ≡ length frags
      → Unmaps sgl (λ p. 0) w (unmap_frags sgl frags env w).1
  unfolding unmap_frags
  unmap_frags-Unmaps [] frags w e = record {
    same_priv = refl;
    same_stats = refl;
    same_mapped = λ a. refl;
    unmaps = λ a. omega arith;
    consumes = λ p. omega arith;
  }
  unmap_frags-Unmaps (s ∷ sgl) [] w e = absurd (omega arith)
  unmap_frags-Unmaps (s ∷ sgl) (f ∷ frags) w e =
      let ih =
        unmap_frags-Unmaps sgl frags (called (Op.dma_unmap_single s.dma_addr f.size) env w)
          (omega arith) in
      record {
        same_priv = ih.same_priv;
        same_stats = ih.same_stats;
        same_mapped = λ a. omega (arith, ih.same_mapped a);
        unmaps = λ a. omega (arith, ih.unmaps a);
        consumes = λ p. omega (arith, ih.consumes p);
      }

  unmap_sgl-Unmaps :
      (sgl : List SwSg) (skb : Skb) (w : World)
      → Covers skb sgl
      → Unmaps sgl (λ p. 0) w (unmap_sgl sgl skb env w).1
  unfolding unmap_sgl
  unmap_sgl-Unmaps [] skb w e = absurd (omega arith)
  unmap_sgl-Unmaps (s ∷ sgl) skb w e =
      let ih =
        unmap_frags-Unmaps sgl skb.frags (called (Op.dma_unmap_single s.dma_addr skb.headlen) env w)
          (omega arith) in
      record {
        same_priv = ih.same_priv;
        same_stats = ih.same_stats;
        same_mapped = λ a. omega (arith, ih.same_mapped a);
        unmaps = λ a. omega (arith, ih.unmaps a);
        consumes = λ p. omega (arith, ih.consumes p);
      }

  -- The packet and the request behind it are given back too.
  free_pkt-Unmaps :
      (r : OnicDmaRequest) (skb : Skb) (w : World)
      → Covers skb r.qdma.sgl
      → Unmaps r.qdma.sgl (count_if skb.addr) w (free_pkt r (some skb) env w).1
  unfolding free_pkt
  free_pkt-Unmaps r skb w e =
      let s = unmap_sgl-Unmaps r.qdma.sgl skb w e in
      record {
        same_priv = s.same_priv;
        same_stats = s.same_stats;
        same_mapped = λ a. omega (arith, s.same_mapped a);
        unmaps = λ a. omega (arith, s.unmaps a);
        consumes = λ p. omega (arith, s.consumes p);
      }

  -- A complete request is found through its own address.
  pub onic_unmap_free_pkt_data-found :
      (r : OnicDmaRequest) (skb : Skb) (w : World)
      → (r.qdma.uld_data == 0) ≡ false
      → (r.netdev == 0) ≡ false
      → (env.priv_of r.netdev == 0) ≡ false
      → r.skb ≡ some skb
      → onic_unmap_free_pkt_data (some r) env w ≡ free_pkt r (some skb) env w
  unfolding onic_unmap_free_pkt_data
  onic_unmap_free_pkt_data-found r skb w a b c d =
      rw (a, b, c) (ap (λ (o : Option Skb). free_pkt r o env w) d)

  pub onic_unmap_free_pkt_data-Unmaps :
      (r : OnicDmaRequest) (skb : Skb) (w : World)
      → (r.qdma.uld_data == 0) ≡ false
      → (r.netdev == 0) ≡ false
      → (env.priv_of r.netdev == 0) ≡ false
      → r.skb ≡ some skb
      → Covers skb r.qdma.sgl
      → ((onic_unmap_free_pkt_data (some r) env w).0 ≡ pos 0)
        × Unmaps r.qdma.sgl (count_if skb.addr) w (onic_unmap_free_pkt_data (some r) env w).1
  unfolding free_pkt
  onic_unmap_free_pkt_data-Unmaps r skb w a b c d e =
      rw (onic_unmap_free_pkt_data-found r skb w a b c d) (refl, free_pkt-Unmaps r skb w e)

  -- A request whose `uld_data` is still 0 is not found: only its own memory is freed.
  pub free_packet_data-not_found :
      (r : OnicDmaRequest) (q_id : ℕ) (ret : ℤ) (w : World)
      → (r.qdma.uld_data == 0) ≡ true
      → free_packet_data r q_id ret env w ≡ (
        ret,
        record (called (Op.kmem_cache_free r.addr) env w) {
          stats = dropped (w.priv.tx_qstats + q_id) w.stats;
        },
      )
  unfolding free_packet_data onic_unmap_free_pkt_data
  free_packet_data-not_found r q_id ret w e = rw e refl

  -- A complete request is unmapped, and its packet consumed.
  pub free_packet_data-Unmaps :
      (r : OnicDmaRequest) (skb : Skb) (q_id : ℕ) (ret : ℤ) (w : World)
      → (r.qdma.uld_data == 0) ≡ false
      → (r.netdev == 0) ≡ false
      → (env.priv_of r.netdev == 0) ≡ false
      → r.skb ≡ some skb
      → Covers skb r.qdma.sgl
      → let w' = (free_packet_data r q_id ret env w).1 in
        ((free_packet_data r q_id ret env w).0 ≡ ret)
        × Unmaps r.qdma.sgl (count_if skb.addr) w (record w' { stats = w.stats })
        × (w'.stats ≡ dropped (w.priv.tx_qstats + q_id) w.stats)
  unfolding free_packet_data
  free_packet_data-Unmaps r skb q_id ret w a b c d e =
      let (z, u) = onic_unmap_free_pkt_data-Unmaps r skb w a b c d e in
      rw z (
        refl,
        record {
          same_priv = u.same_priv;
          same_stats = refl;
          same_mapped = u.same_mapped;
          unmaps = u.unmaps;
          consumes = u.consumes;
        },
        ap₂ (λ (p : OnicPriv) (t : ℕ → QStats). dropped (p.tx_qstats + q_id) t) u.same_priv
            u.same_stats,
      )
