-- ===== src/Tx/Goods.antt =====
-- What the transmit path of onic_main.c holds beside the mappings: the packets that were handed to the
-- device, and the memory of the requests.
use onic_driver.Base.{
  ℕ, ◌+◌, ◌≡◌, ◌∙◌, refl, ap, subst, sym, inl, inr, true, false, Bool-cases, ◌==◌, if◌then◌else◌,
  Option, some, none, List, [], ◌∷◌, arith,
}
use onic_driver.Base.Int.{ℤ, pos, efault, ne_zero, lt_zero}
use onic_driver.Kernel.{
  SwSg, QdmaRequest, zero_request, Frag, Skb, OnicDmaRequest, Memory, Op, Event, Log, Env, World,
  called,
}
use onic_driver.Kernel.Ledger.{
  Ledger, Moves, Rests, Rests-refl, Moves-trans, Moves-eq, Rests-trans, called-Moves,
}
use onic_driver.Tx.{
  unmap_frags, unmap_sgl, free_pkt, free_packet_data, onic_unmap_free_pkt_data, map_frags,
  submitted, xmit_submit, xmit_map,
}
use onic_driver.Tx.Mapping.{count_if, all_mapped, map_failed, map_frags-MapEnds}
use onic_driver.Tx.Release.{onic_unmap_free_pkt_data-found, free_packet_data-not_found}

-- A packet by its address, and the memory of a request by its own.
pub data Good : Type 0 where
  packet request : ℕ → Good

abbrev pub same_skb : Option Skb → ℕ → ℕ
same_skb none p = 0
same_skb (some skb) p = count_if skb.addr p

-- What a request holds.
abbrev pub holds : OnicDmaRequest → Good → ℕ
holds r (Good.packet p) = same_skb r.skb p
holds r (Good.request a) = count_if r.addr a

-- A packet is taken when its request is handed to libqdma, the memory of a request when it is allocated.
abbrev pub take_good : Good → Op → ℤ → ℕ → ℕ
take_good (Good.packet p) (Op.qdma_queue_packet_write d h r) s v = same_skb r.skb p
take_good (Good.request a) (Op.alloc Memory.dma_request n) s v = if v == 0 then 0 else count_if v a
take_good x o s v = 0

abbrev pub give_good : Good → Op → ℕ
give_good (Good.packet p) (Op.dev_consume_skb_irq q) = count_if q p
give_good (Good.request a) (Op.kmem_cache_free b) = count_if b a
give_good x o = 0

abbrev pub goods : Ledger Good
goods = record { take = take_good; give = give_good }

-- What is held of a request before it is handed over.
abbrev pub memory_of : ℕ → Good → ℕ
memory_of a (Good.packet p) = 0
memory_of a (Good.request b) = count_if a b

consumed-entry :
    (r : OnicDmaRequest) (skb : Skb)
    → r.skb ≡ some skb
    → (s : ℤ) (v : ℕ) (x : Good)
    → let op = Op.dev_consume_skb_irq skb.addr in
      take_good x op s v + holds r x ≡ give_good x op + memory_of r.addr x
consumed-entry r skb e s v (Good.packet p) = omega (arith, ap {B = ℕ} (λ o. same_skb o p) e)
consumed-entry r skb e s v (Good.request a) = omega arith

unmap-idle :
    (env : Env) (a n : ℕ) (w : World) → Rests goods w (called (Op.dma_unmap_single a n) env w)
unmap-idle env a n w = called-Moves goods env _ w (λ x. 0) (λ x. 0) (λ x. ground arith)

consume-Moves :
    (env : Env) (r : OnicDmaRequest) (skb : Skb) (w : World)
    → r.skb ≡ some skb
    → Moves goods w (called (Op.dev_consume_skb_irq skb.addr) env w) (holds r) (memory_of r.addr)
consume-Moves env r skb w e =
    called-Moves goods env (Op.dev_consume_skb_irq skb.addr) w (holds r) (memory_of r.addr)
      (consumed-entry r skb e _ _)

free-Moves :
    (env : Env) (a : ℕ) (w : World)
    → Moves goods w (called (Op.kmem_cache_free a) env w) (memory_of a) (λ x. 0)
free-Moves env a w =
    called-Moves goods env (Op.kmem_cache_free a) w (memory_of a) (λ x. 0) (λ x. ground arith)

module _ (env : Env) where
  unmap_frags-Rests :
      (sgl : List SwSg) (frags : List Frag) (w : World)
      → Rests goods w (unmap_frags sgl frags env w).1
  unfolding unmap_frags
  unmap_frags-Rests [] frags w = Rests-refl goods w
  unmap_frags-Rests (s ∷ sgl) [] w = Rests-refl goods w
  unmap_frags-Rests (s ∷ sgl) (f ∷ frags) w =
      Rests-trans goods (unmap-idle env s.dma_addr f.size w) (unmap_frags-Rests sgl frags _)

  unmap_sgl-Rests :
      (sgl : List SwSg) (skb : Skb) (w : World) → Rests goods w (unmap_sgl sgl skb env w).1
  unfolding unmap_sgl
  unmap_sgl-Rests [] skb w = Rests-refl goods w
  unmap_sgl-Rests (s ∷ sgl) skb w =
      Rests-trans goods (unmap-idle env s.dma_addr skb.headlen w)
        (unmap_frags-Rests sgl skb.frags _)

  -- A request that is given back gives up its packet and its memory.
  free_pkt-Moves :
      (r : OnicDmaRequest) (skb : Skb) (w : World)
      → r.skb ≡ some skb
      → Moves goods w (free_pkt r (some skb) env w).1 (holds r) (λ x. 0)
  unfolding free_pkt
  free_pkt-Moves r skb w e =
      let v = (unmap_sgl r.qdma.sgl skb env w).1 in
      let u = called (Op.dev_consume_skb_irq skb.addr) env v in
      Moves-trans goods (Moves-eq goods (unmap_sgl-Rests r.qdma.sgl skb w) (λ x. omega arith))
        (Moves-trans goods (consume-Moves env r skb v e) (free-Moves env r.addr u))

  map_frags-Rests :
      (frags : List Frag) (req : QdmaRequest) (w : World)
      → Rests goods w (map_frags frags req env w).1
  unfolding map_frags
  map_frags-Rests [] req w = Rests-refl goods w
  map_frags-Rests (f ∷ frags) req w =
      let ask = Op.skb_frag_dma_map f in
      let v = called ask env w in
      let check = Op.dma_mapping_error (env.value w.log ask) in
      let asked =
        Rests-trans goods (called-Moves goods env ask w (λ x. 0) (λ x. 0) (λ x. ground arith))
          (called-Moves goods env check v (λ x. 0) (λ x. 0) (λ x. ground arith)) in
      elim (Bool-cases (ne_zero (env.status v.log check))) [
        | inl bad ↦ rw bad asked
        | inr good ↦ rw good (Rests-trans goods asked (map_frags-Rests frags _ _))
      ]

  -- A request that was not handed over gives up its memory, one that was gives up all.
  free_packet_data-early :
      (r : OnicDmaRequest) (q_id : ℕ) (ret : ℤ) (w : World)
      → (r.qdma.uld_data == 0) ≡ true
      → Moves goods w (free_packet_data r q_id ret env w).1 (memory_of r.addr) (λ x. 0)
  free_packet_data-early r q_id ret w e =
      subst (λ (t : ℤ × World). Moves goods w t.1 (memory_of r.addr) (λ x. 0))
        (sym (free_packet_data-not_found env r q_id ret w e))
        (record { moves = (free-Moves env r.addr w).moves })

  pub onic_unmap_free_pkt_data-Moves :
      (r : OnicDmaRequest) (skb : Skb) (w : World)
      → (r.qdma.uld_data == 0) ≡ false
      → (r.netdev == 0) ≡ false
      → (env.priv_of r.netdev == 0) ≡ false
      → r.skb ≡ some skb
      → ((onic_unmap_free_pkt_data (some r) env w).0 ≡ pos 0)
        × Moves goods w (onic_unmap_free_pkt_data (some r) env w).1 (holds r) (λ x. 0)
  unfolding free_pkt
  onic_unmap_free_pkt_data-Moves r skb w a b c d =
      rw (onic_unmap_free_pkt_data-found env r skb w a b c d) (refl, free_pkt-Moves r skb w d)

  free_packet_data-late :
      (r : OnicDmaRequest) (skb : Skb) (q_id : ℕ) (ret : ℤ) (w : World)
      → (r.qdma.uld_data == 0) ≡ false
      → (r.netdev == 0) ≡ false
      → (env.priv_of r.netdev == 0) ≡ false
      → r.skb ≡ some skb
      → ((free_packet_data r q_id ret env w).0 ≡ ret)
        × Moves goods w (free_packet_data r q_id ret env w).1 (holds r) (λ x. 0)
  unfolding free_packet_data
  free_packet_data-late r skb q_id ret w a b c d =
      let (z, m) = onic_unmap_free_pkt_data-Moves r skb w a b c d in
      rw z (refl, record { moves = m.moves })

-- A request that its completion can give back.
pub record IsOurs (netdev : ℕ) (r : OnicDmaRequest) : Type 0 where
  pub packet : Skb
  pub same_packet : r.skb ≡ some packet
  pub device : r.netdev ≡ netdev
  pub has_address : (r.qdma.uld_data == 0) ≡ false

-- How a transmission ends: the packet and its request are with the device, or nothing is left over.
pub data Handed (netdev : ℕ) (w : World) (ret : ℤ) (w' : World) : Type 0 where
  handed :
      (own : OnicDmaRequest) (event : Event) (rest : Log) (d h : ℕ)
      → ret ≡ pos 0
      → w'.log ≡ event ∷ rest
      → event.op ≡ Op.qdma_queue_packet_write d h own
      → IsOurs netdev own
      → Moves goods w w' (λ x. 0) (holds own)
      → Handed netdev w ret w'
  kept : lt_zero ret ≡ true → Rests goods w w' → Handed netdev w ret w'

module _ (env : Env) (skb : Skb) (netdev q_id q_handle : ℕ) (found : (netdev == 0) ≡ false)
    (has_priv : (env.priv_of netdev == 0) ≡ false) where
  -- From a request in memory `addr` on.
  abbrev From : ℕ → World → ℤ × World → Type 0
  From addr w t = (u : World) → Moves goods u w (λ x. 0) (memory_of addr) → Handed netdev u t.0 t.1

  xmit_submit-From :
      (addr : ℕ) (req : QdmaRequest) (w : World)
      → (addr == 0) ≡ false
      → let r : OnicDmaRequest = record {
        addr = addr;
        skb = some skb;
        netdev = netdev;
        qdma = req;
      } in
        From addr w (xmit_submit skb (submitted r req) q_id q_handle env w)
  unfolding xmit_submit
  xmit_submit-From addr req w some_addr u before =
      let r = submitted (record { addr = addr; skb = some skb; netdev = netdev; qdma = req }) req in
      let op = Op.qdma_queue_packet_write w.priv.dev_handle q_handle r in
      let v = called op env w in
      let s = env.status w.log op in
      let given =
        Moves-trans goods before
          (called-Moves goods env op w (memory_of addr) (holds r) (λ x. ground arith)) in
      elim (Bool-cases (lt_zero s)) [
        | inl bad ↦
            let (z, m) = free_packet_data-late env r skb q_id s v some_addr found has_priv refl in
            rw bad (kept (ap lt_zero z ∙ bad) (Moves-trans goods given m))
        | inr good ↦ rw good (
            handed r (record { op = op; status = s; value = env.value w.log op }) w.log
              w.priv.dev_handle q_handle refl refl refl
              (record { packet = skb; same_packet = refl; device = refl; has_address = some_addr })
              (record { moves = given.moves }))
      ]

  -- A mapping failed: the request gives up its memory, and libqdma has not seen the packet.
  early-From :
      (addr : ℕ) (req : QdmaRequest) (w : World)
      → (req.uld_data == 0) ≡ true
      → let r : OnicDmaRequest = record {
        addr = addr;
        skb = some skb;
        netdev = netdev;
        qdma = req;
      } in
        From addr w (free_packet_data r q_id efault env w)
  early-From addr req w e u before =
      let r : OnicDmaRequest = record {
        addr = addr;
        skb = some skb;
        netdev = netdev;
        qdma = req;
      } in
      kept (ap (λ (t : ℤ × World). lt_zero t.0) (free_packet_data-not_found env r q_id efault w e))
        (Moves-trans goods before (free_packet_data-early env r q_id efault w e))

  pub xmit_map-From :
      (addr : ℕ) (w : World)
      → (addr == 0) ≡ false
      → From addr w (xmit_map skb netdev q_id q_handle addr env w)
  unfolding xmit_map
  xmit_map-From addr w some_addr u before =
      let ask = Op.dma_map_single skb.headlen in
      let a = env.value w.log ask in
      let check = Op.dma_mapping_error a in
      let v = called check env (called ask env w) in
      let sg : SwSg = record { pg = 0; offset = 0; len = skb.headlen; dma_addr = a } in
      let req = record zero_request { count = skb.headlen; sgl = sg ∷ [] } in
      let asked =
        Rests-trans goods (called-Moves goods env ask w (λ x. 0) (λ x. 0) (λ x. ground arith))
          (called-Moves goods env check (called ask env w) (λ x. 0) (λ x. 0) (λ x. ground arith)) in
      let first = Moves-trans goods before (Moves-eq goods asked (λ x. omega arith)) in
      let m = map_frags skb.frags (record req { sgcnt = 1 }) env v in
      let all = Moves-trans goods first (
        Moves-eq goods (map_frags-Rests env skb.frags (record req { sgcnt = 1 }) v)
          (λ x. omega arith)) in
      elim (Bool-cases (ne_zero (env.status (called ask env w).log check))) [
        | inl bad ↦ rw bad (early-From addr req v refl u first)
        | inr good ↦ rw good (elim (map_frags-MapEnds env skb.frags (record req { sgcnt = 1 }) v) [
          | map_failed f e k ↦ rw f (early-From addr m.0.1 m.1 (ap (λ n. n == 0) e) u all)
          | all_mapped f e k ↦ rw f (xmit_submit-From addr m.0.1 m.1 some_addr u all)
        ])
      ]
