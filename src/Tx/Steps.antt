-- ===== src/Tx/Steps.antt =====
-- What the functions of the transmit path (onic_main.c) keep, for any relation that their calls and their
-- writes of the counters keep.
use onic_driver.Base.{
  ℕ, ◌+◌, ◌%◌, ◌^◌, ◌≡◌, refl, Bool, true, false, ◌==◌, not, ltb, if◌then◌else◌, add64, Option,
  none, some, List, [], ◌∷◌,
}
use onic_driver.Base.Int.{ℤ, efault, einval, enomem, ne_zero, lt_zero}
use onic_driver.Kernel.{
  SwSg, QdmaRequest, zero_request, Frag, Skb, OnicDmaRequest, QStats, Memory, dma_request, Op,
  World, called, pure, ◌>>◌, perform, modify_stats,
}
use onic_driver.Kernel.Steps.{Frame, Always, Calls, done, next, either}
use onic_driver.Tx.{
  eth_zlen, unmap_frags, unmap_sgl, free_pkt, onic_unmap_free_pkt_data, onic_tx_done,
  free_packet_data, map_frags, submitted, xmit_submit, xmit_map, xmit_queue, onic_start_xmit,
}

-- The calls of the transmit path.
abbrev pub is_tx_call : Op → Bool
is_tx_call (Op.dma_map_single n) = true
is_tx_call (Op.skb_frag_dma_map f) = true
is_tx_call (Op.dma_mapping_error a) = true
is_tx_call (Op.dma_unmap_single a n) = true
is_tx_call (Op.dev_consume_skb_irq p) = true
is_tx_call (Op.dev_kfree_skb_any p) = true
is_tx_call (Op.kmem_cache_free a) = true
is_tx_call (Op.alloc Memory.dma_request n) = true
is_tx_call (Op.qdma_queue_packet_write d h r) = true
is_tx_call (Op.skb_put_padto p n) = true
is_tx_call Op.netif_carrier_ok = true
is_tx_call o = false

-- The two writes of the counters of a queue.
abbrev pub count_dropped : QStats → QStats
count_dropped s = record s { tx_dropped = add64 s.tx_dropped 1 }

abbrev pub count_sent : ℕ → QStats → QStats
count_sent n s = record s { tx_packets = add64 s.tx_packets 1; tx_bytes = add64 s.tx_bytes n }

module _ {R : World → World → Type 0} (frame : Frame R)
    (calls : (op : Op) → is_tx_call op ≡ true → Calls frame op)
    (drops : (a : ℕ) → Always frame (modify_stats a count_dropped)) where
  unmap_frags-Always : (sgl : List SwSg) (frags : List Frag) → Always frame (unmap_frags sgl frags)
  unfolding unmap_frags
  unmap_frags-Always [] frags = done frame tt
  unmap_frags-Always (s ∷ sgl) [] = done frame tt
  unmap_frags-Always (s ∷ sgl) (f ∷ frags) =
      next frame (perform (Op.dma_unmap_single s.dma_addr f.size)) (unmap_frags sgl frags)
        (calls _ refl) (unmap_frags-Always sgl frags)

  unmap_sgl-Always : (sgl : List SwSg) (skb : Skb) → Always frame (unmap_sgl sgl skb)
  unfolding unmap_sgl
  unmap_sgl-Always [] skb = done frame tt
  unmap_sgl-Always (s ∷ sgl) skb =
      next frame (perform (Op.dma_unmap_single s.dma_addr skb.headlen)) (unmap_frags sgl skb.frags)
        (calls _ refl) (unmap_frags-Always sgl skb.frags)

  free_pkt-Always : (r : OnicDmaRequest) (skb : Option Skb) → Always frame (free_pkt r skb)
  unfolding free_pkt
  free_pkt-Always r none env w = frame.stay w
  free_pkt-Always r (some skb) env w =
      let v = (unmap_sgl r.qdma.sgl skb env w).1 in
      let u = called (Op.dev_consume_skb_irq skb.addr) env v in
      frame.both (unmap_sgl-Always r.qdma.sgl skb env w) (
        frame.both (calls (Op.dev_consume_skb_irq skb.addr) refl env v)
          (calls (Op.kmem_cache_free r.addr) refl env u))

  pub onic_unmap_free_pkt_data-Always :
      (req : Option OnicDmaRequest) → Always frame (onic_unmap_free_pkt_data req)
  unfolding onic_unmap_free_pkt_data
  onic_unmap_free_pkt_data-Always none = done frame einval
  onic_unmap_free_pkt_data-Always (some r) =
      either frame (r.qdma.uld_data == 0) (pure einval) _ (done frame einval) (
        either frame (r.netdev == 0) (pure einval) _ (done frame einval) (λ env w.
          either frame (env.priv_of r.netdev == 0) (pure einval) (free_pkt r r.skb)
            (done frame einval) (free_pkt-Always r r.skb) env w))

  pub onic_tx_done-Always : (req : Option OnicDmaRequest) → Always frame (onic_tx_done req)
  unfolding onic_tx_done
  onic_tx_done-Always req env w = onic_unmap_free_pkt_data-Always req env w

  pub free_packet_data-Always :
      (r : OnicDmaRequest) (q_id : ℕ) (ret : ℤ) → Always frame (free_packet_data r q_id ret)
  unfolding free_packet_data
  free_packet_data-Always r q_id ret env w =
      let t = onic_unmap_free_pkt_data (some r) env w in
      let free = perform (Op.kmem_cache_free r.addr) in
      let u = ((if ne_zero t.0 then free else pure tt) env t.1).1 in
      frame.both (onic_unmap_free_pkt_data-Always (some r) env w) (
        frame.both
          (either frame (ne_zero t.0) free (pure tt) (calls _ refl) (done frame tt) env t.1)
          (drops (u.priv.tx_qstats + q_id) env u))

  pub map_frags-Always :
      (frags : List Frag) (req : QdmaRequest) → Always frame (map_frags frags req)
  unfolding map_frags
  map_frags-Always [] req env w = frame.stay w
  map_frags-Always (f ∷ frags) req env w =
      let ask = Op.skb_frag_dma_map f in
      let a = env.value w.log ask in
      let v = called ask env w in
      let check = Op.dma_mapping_error a in
      frame.both (calls ask refl env w) (
        frame.both (calls check refl env v) (
          either frame (ne_zero (env.status v.log check)) (pure (true, _)) (map_frags frags _)
            (λ e u. frame.stay u) (map_frags-Always frags _) env (called check env v)))

  -- A transmission, where the counters of sent packets may be written too.
  module _ (counts : (a n : ℕ) → Always frame (modify_stats a (count_sent n))) where
    xmit_submit-Always :
        (skb : Skb) (r : OnicDmaRequest) (q_id q_handle : ℕ)
        → Always frame (xmit_submit skb r q_id q_handle)
    unfolding xmit_submit
    xmit_submit-Always skb r q_id q_handle env w =
        let op = Op.qdma_queue_packet_write w.priv.dev_handle q_handle r in
        let s = env.status w.log op in
        let v = called op env w in
        frame.both (calls op refl env w) (
          either frame (lt_zero s) (free_packet_data r q_id s) _ (free_packet_data-Always r q_id s)
            (λ env u. counts (u.priv.tx_qstats + q_id) skb.len env u) env v)

    xmit_map-Always :
        (skb : Skb) (netdev q_id q_handle addr : ℕ)
        → Always frame (xmit_map skb netdev q_id q_handle addr)
    unfolding xmit_map
    xmit_map-Always skb netdev q_id q_handle addr env w =
        let ask = Op.dma_map_single skb.headlen in
        let a = env.value w.log ask in
        let v = called ask env w in
        let check = Op.dma_mapping_error a in
        let sg : SwSg = record { pg = 0; offset = 0; len = skb.headlen; dma_addr = a } in
        let req = record zero_request { count = skb.headlen; sgl = sg ∷ [] } in
        let r : OnicDmaRequest = record {
          addr = addr;
          skb = some skb;
          netdev = netdev;
          qdma = req;
        } in
        frame.both (calls ask refl env w) (
          frame.both (calls check refl env v) (
            either frame (ne_zero (env.status v.log check)) (free_packet_data r q_id efault) _
              (free_packet_data-Always r q_id efault)
              (λ env u.
                let m = map_frags skb.frags (record req { sgcnt = 1 }) env u in
                frame.both (map_frags-Always skb.frags (record req { sgcnt = 1 }) env u) (
                  either frame m.0.0 (free_packet_data (record r { qdma = m.0.1 }) q_id efault)
                    (xmit_submit skb (submitted r m.0.1) q_id q_handle)
                    (free_packet_data-Always (record r { qdma = m.0.1 }) q_id efault)
                    (xmit_submit-Always skb (submitted r m.0.1) q_id q_handle) env m.1))
              env (called check env v)))

    xmit_queue-Always : (skb : Skb) (netdev : ℕ) → Always frame (xmit_queue skb netdev)
    unfolding xmit_queue
    xmit_queue-Always skb netdev env w =
        let q_id = skb.queue_mapping % 2 ^ 16 in
        let op = Op.alloc dma_request 1 in
        let a = env.value w.log op in
        either frame (not (ltb q_id w.net.real_num_tx_queues))
          (perform (Op.dev_kfree_skb_any skb.addr) >> pure einval) _
          (calls (Op.dev_kfree_skb_any skb.addr) refl)
          (λ env w. frame.both (calls op refl env w) (
            either frame (env.value w.log op == 0) (pure enomem) _ (done frame enomem)
              (xmit_map-Always skb netdev q_id _ (env.value w.log op)) env (called op env w)))
          env w

    pub onic_start_xmit-Always :
        (skb : Skb) (netdev : ℕ) → Always frame (onic_start_xmit skb netdev)
    unfolding onic_start_xmit
    onic_start_xmit-Always skb netdev env w =
        let pad = Op.skb_put_padto skb.addr eth_zlen in
        let drop = perform (Op.dev_kfree_skb_any skb.addr) >> pure einval in
        let drop-Always = calls (Op.dev_kfree_skb_any skb.addr) refl in
        either frame (env.priv_of netdev == 0) (pure einval) _ (done frame einval)
          (λ env w. frame.both (calls Op.netif_carrier_ok refl env w) (
            either frame (not (ne_zero (env.status w.log Op.netif_carrier_ok))) drop _ drop-Always
              (either frame skb.is_gso (pure einval) _ (done frame einval) (λ env v.
                frame.both (calls pad refl env v) (
                  either frame (ne_zero (env.status v.log pad)) drop _ drop-Always
                    (λ env u. xmit_queue-Always (env.padded skb) netdev env u) env
                    (called pad env v))))
              env (called Op.netif_carrier_ok env w)))
          env w
