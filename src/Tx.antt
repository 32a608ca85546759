-- ===== src/Tx.antt =====
-- The transmit path of onic_main.c: `onic_start_xmit`, `onic_tx_done` and
-- `onic_unmap_free_pkt_data`.
--
-- The scatter-gather entries of a request are the array `sgl` of its `struct onic_dma_request`; each
-- entry's `next` is the entry behind it, and NULL in the last, so that the chain is the list of the
-- entries used. `uld_data` holds the address of the request itself, or 0.
pub mod Mapping
pub mod Release
pub mod Xmit
pub mod Start
pub mod Trace
pub mod Goods
pub mod Account
pub mod Sequence
pub mod Steps
use onic_driver.Base.{
  ℕ, ◌+◌, ◌%◌, ◌^◌, Bool, true, false, not, ltb, ◌==◌, if◌then◌else◌, add32, add64, Option, none,
  some, List, [], ◌∷◌, ◌++◌, length,
}
use onic_driver.Base.Int.{ℤ, pos, ne_zero, lt_zero, enomem, efault, einval}
use onic_driver.Kernel.{
  SwSg, QdmaRequest, zero_request, Frag, Skb, OnicDmaRequest, Callback, Op, dma_request, Io, pure,
  ◌>>=◌, ◌>>◌, get, request, fetch, perform, netdev_priv, padded, modify_stats,
}

-- `ETH_ZLEN`
abbrev pub eth_zlen : ℕ
eth_zlen = 60

-- The loop of `onic_unmap_free_pkt_data` over the entries behind the first and the fragments.
unfoldable pub unmap_frags : List SwSg → List Frag → Io (Unit {0})
unmap_frags [] frags = pure tt
unmap_frags (s ∷ sgl) [] = pure tt
unmap_frags (s ∷ sgl) (f ∷ frags) = do
  perform (Op.dma_unmap_single s.dma_addr f.size)
  unmap_frags sgl frags

-- `req->sgl` always has its first entry.
unfoldable pub unmap_sgl : List SwSg → Skb → Io (Unit {0})
unfolding unmap_frags
unmap_sgl [] skb = pure tt
unmap_sgl (s ∷ sgl) skb = do
  perform (Op.dma_unmap_single s.dma_addr skb.headlen)
  unmap_frags sgl skb.frags

-- `onic_unmap_free_pkt_data` from its check of the packet on.
unfoldable pub free_pkt : OnicDmaRequest → Option Skb → Io ℤ
unfolding unmap_sgl
free_pkt r none = pure einval
free_pkt r (some skb) = do
  unmap_sgl r.qdma.sgl skb
  perform (Op.dev_consume_skb_irq skb.addr)
  perform (Op.kmem_cache_free r.addr)
  pure (pos 0)

-- The request is found through `req->uld_data`; `none` is a NULL `req`.
unfoldable pub onic_unmap_free_pkt_data : Option OnicDmaRequest → Io ℤ
unfolding free_pkt
onic_unmap_free_pkt_data none = pure einval
onic_unmap_free_pkt_data (some r) =
    if r.qdma.uld_data == 0
    then pure einval
    else if r.netdev == 0
    then pure einval
    else do xpriv ← netdev_priv r.netdev; if xpriv == 0 then pure einval else free_pkt r r.skb

-- `bytes_done` and `err` are only printed.
unfoldable pub onic_tx_done : Option OnicDmaRequest → Io ℤ
unfolding onic_unmap_free_pkt_data
onic_tx_done req = do onic_unmap_free_pkt_data req; pure (pos 0)

-- The label `free_packet_data` of `onic_start_xmit`.
unfoldable pub free_packet_data : OnicDmaRequest → ℕ → ℤ → Io ℤ
free_packet_data r q_id ret = do
  err ← onic_unmap_free_pkt_data (some r)
  (if ne_zero err then perform (Op.kmem_cache_free r.addr) else pure tt)
  w ← get
  modify_stats (w.priv.tx_qstats + q_id) (λ s. record s { tx_dropped = add64 s.tx_dropped 1 })
  pure ret

-- The loop of `onic_start_xmit` over the fragments: whether a mapping failed, and the request.
unfoldable pub map_frags : List Frag → QdmaRequest → Io (Bool × QdmaRequest)
map_frags [] req = pure (false, req)
map_frags (f ∷ frags) req = do
  dma_addr ← fetch (Op.skb_frag_dma_map f)
  ret ← request (Op.dma_mapping_error dma_addr)
  let sg : SwSg = record { pg = 0; offset = 0; len = f.size; dma_addr = dma_addr }
  let req' = record req { count = add32 req.count f.size; sgl = req.sgl ++ sg ∷ [] }
  if ne_zero ret
      then pure (true, req')
      else map_frags frags (record req' { sgcnt = add32 req'.sgcnt 1 })

-- The request as `onic_start_xmit` hands it to libqdma.
abbrev pub submitted : OnicDmaRequest → QdmaRequest → OnicDmaRequest
submitted r req = record r {
  qdma = record req {
    dma_mapped = true;
    check_qstate_disabled = true;
    fp_done = Callback.tx_done;
    uld_data = r.addr;
  };
}

-- `onic_start_xmit` from the submission of the mapped request on.
unfoldable pub xmit_submit : Skb → OnicDmaRequest → ℕ → ℕ → Io ℤ
xmit_submit skb r q_id q_handle = do
  w ← get
  count ← request (Op.qdma_queue_packet_write w.priv.dev_handle q_handle r)
  if lt_zero count then free_packet_data r q_id count else do
    w ← get
    modify_stats (w.priv.tx_qstats + q_id)
        (λ s. record s { tx_packets = add64 s.tx_packets 1; tx_bytes = add64 s.tx_bytes skb.len })
    pure (pos 0)

-- `onic_start_xmit` from the zeroed request at the address `addr` on.
unfoldable pub xmit_map : Skb → ℕ → ℕ → ℕ → ℕ → Io ℤ
xmit_map skb netdev q_id q_handle addr = do
  dma_addr ← fetch (Op.dma_map_single skb.headlen)
  ret ← request (Op.dma_mapping_error dma_addr)
  let sg : SwSg = record { pg = 0; offset = 0; len = skb.headlen; dma_addr = dma_addr }
  let req = record zero_request { count = skb.headlen; sgl = sg ∷ [] }
  let r : OnicDmaRequest = record { addr = addr; skb = some skb; netdev = netdev; qdma = req }
  if ne_zero ret then free_packet_data r q_id efault else do
    (failed, req') ← map_frags skb.frags (record req { sgcnt = 1 })
    if failed
        then free_packet_data (record r { qdma = req' }) q_id efault
        else xmit_submit skb (submitted r req') q_id q_handle

-- `onic_start_xmit` from the choice of the queue on.
unfoldable pub xmit_queue : Skb → ℕ → Io ℤ
xmit_queue skb netdev = do
  w ← get
  let q_id = skb.queue_mapping % 2 ^ 16
  if not (ltb q_id w.net.real_num_tx_queues)
      then (do perform (Op.dev_kfree_skb_any skb.addr); pure einval)
      else do
        onic_req ← fetch (Op.alloc dma_request 1)
        if onic_req == 0
            then pure enomem
            else xmit_map skb netdev q_id (add64 w.priv.base_tx_q_handle q_id) onic_req

unfoldable pub onic_start_xmit : Skb → ℕ → Io ℤ
onic_start_xmit skb netdev = do
  xpriv ← netdev_priv netdev
  if xpriv == 0 then pure einval else do
    ret ← request Op.netif_carrier_ok
    if not (ne_zero ret)
        then (do perform (Op.dev_kfree_skb_any skb.addr); pure einval)
        else if skb.is_gso
        then pure einval
        else do
          ret ← request (Op.skb_put_padto skb.addr eth_zlen)
          if ne_zero ret
              then (do perform (Op.dev_kfree_skb_any skb.addr); pure einval)
              else do skb' ← padded skb; xmit_queue skb' netdev
