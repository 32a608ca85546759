-- ===== src/Tx/Xmit.antt =====
-- What `onic_start_xmit` of onic_main.c does with a packet that has a queue.
use onic_driver.Base.{
  ℕ, ◌+◌, ◌%◌, ◌^◌, ◌≡◌, ◌∙◌, refl, ap, ap₂, inl, inr, true, false, Bool-cases, ◌==◌, if◌then◌else◌,
  add64, some, List, [], ◌∷◌, map, length, length-map, sum_of, arith,
}
use onic_driver.Base.Int.{ℤ, pos, efault, ne_zero, lt_zero}
use onic_driver.Kernel.{
  SwSg, QdmaRequest, zero_request, Frag, Skb, OnicPriv, OnicDmaRequest, QStats, Op, Event, Log, Env,
  World, called,
}
use onic_driver.Tx.{map_frags, submitted, xmit_submit, xmit_map, free_packet_data}
use onic_driver.Tx.Mapping.{
  count_if, mapped, unmapped, gives_back, consumed, occurs, MapsAll, MapEnds, all_mapped,
  map_failed, map_frags-MapEnds,
}
use onic_driver.Tx.Release.{Covers, dropped, free_packet_data-not_found, free_packet_data-Unmaps}

-- The counters of a queue after a packet of `n` bytes was sent.
abbrev pub counted : ℕ → ℕ → (ℕ → QStats) → ℕ → QStats
counted a n t b =
    if b == a
    then record (t a) { tx_packets = add64 (t a).tx_packets 1; tx_bytes = add64 (t a).tx_bytes n }
    else t b

-- `req` describes the packet: an entry for each of its parts, their total and their number.
pub record Describes (skb : Skb) (req : QdmaRequest) : Type 0 where
  pub lens : map (λ (s : SwSg). s.len) req.sgl ≡ skb.headlen ∷ map (λ (f : Frag). f.size) skb.frags
  pub count : req.count % 2 ^ 32 ≡ (skb.headlen + sum_of (λ (f : Frag). f.size) skb.frags) % 2 ^ 32
  pub sgcnt : req.sgcnt % 2 ^ 32 ≡ (1 + length skb.frags) % 2 ^ 32

-- The packet was handed to the device as `request`, by the last call that was made.
pub record Sent (skb : Skb) (netdev q_id q_handle : ℕ) (w w' : World) : Type 0 where
  pub own : OnicDmaRequest
  pub event : Event
  pub rest : Log
  pub last : w'.log ≡ event ∷ rest
  pub op : event.op ≡ Op.qdma_queue_packet_write w.priv.dev_handle q_handle own
  pub packet : own.skb ≡ some skb
  pub device : own.netdev ≡ netdev
  pub own_address : own.qdma.uld_data ≡ own.addr
  pub has_address : (own.qdma.uld_data == 0) ≡ false
  pub describes : Describes skb own.qdma
  pub same_priv : w'.priv ≡ w.priv
  pub maps : (a : ℕ) → mapped a w'.log ≡ mapped a w.log + occurs a own.qdma.sgl
  pub unmaps : (a : ℕ) → unmapped a w'.log ≡ unmapped a w.log
  pub counts : w'.stats ≡ counted (w.priv.tx_qstats + q_id) skb.len w.stats

-- The packet was consumed, and every mapping made for it undone.
pub record GivenBack (skb : Skb) (q_id : ℕ) (w w' : World) : Type 0 where
  pub balance : (a : ℕ) → mapped a w'.log + unmapped a w.log ≡ unmapped a w'.log + mapped a w.log
  pub consumes : (p : ℕ) → consumed p w'.log ≡ consumed p w.log + count_if skb.addr p
  pub drops : w'.stats ≡ dropped (w.priv.tx_qstats + q_id) w.stats

-- Nothing was given back: neither the packet nor a mapping.
pub record Lost (q_id : ℕ) (w w' : World) : Type 0 where
  pub nothing : gives_back w'.log ≡ gives_back w.log
  pub unmaps : (a : ℕ) → unmapped a w'.log ≡ unmapped a w.log
  pub drops : w'.stats ≡ dropped (w.priv.tx_qstats + q_id) w.stats

pub data XmitEnds (skb : Skb) (netdev q_id q_handle : ℕ) (w : World) (ret : ℤ) (w' : World)
    : Type 0 where
  sent :
      ret ≡ pos 0 → Sent skb netdev q_id q_handle w w' → XmitEnds skb netdev q_id q_handle w ret w'
  refused :
      lt_zero ret ≡ true → GivenBack skb q_id w w' → XmitEnds skb netdev q_id q_handle w ret w'
  lost : ret ≡ efault → Lost q_id w w' → XmitEnds skb netdev q_id q_handle w ret w'

pub Describes-Covers : {skb : Skb} {req : QdmaRequest} → Describes skb req → Covers skb req.sgl
Describes-Covers {skb} {req} d = omega (
  arith,
  ap length d.lens,
  length-map (λ (s : SwSg). s.len) req.sgl,
  length-map (λ (f : Frag). f.size) skb.frags,
)

module _ (env : Env) (skb : Skb) (netdev q_id q_handle : ℕ) where
  -- The submission of a mapped request, made in `v` for a packet that came in `w`.
  xmit_submit-Ends :
      (r : OnicDmaRequest) (w v : World)
      → v.priv ≡ w.priv
      → v.stats ≡ w.stats
      → (r.qdma.uld_data == 0) ≡ false
      → (netdev == 0) ≡ false
      → (env.priv_of netdev == 0) ≡ false
      → r.netdev ≡ netdev
      → r.skb ≡ some skb
      → r.qdma.uld_data ≡ r.addr
      → Describes skb r.qdma
      → ((a : ℕ) → mapped a v.log ≡ mapped a w.log + occurs a r.qdma.sgl)
      → ((a : ℕ) → unmapped a v.log ≡ unmapped a w.log)
      → ((p : ℕ) → consumed p v.log ≡ consumed p w.log)
      → XmitEnds skb netdev q_id q_handle w
          (xmit_submit skb r q_id q_handle env v).0
          (xmit_submit skb r q_id q_handle env v).1
  unfolding xmit_submit
  xmit_submit-Ends r w v ep es ul nd pv en ek eu d m u c =
      let op = Op.qdma_queue_packet_write v.priv.dev_handle q_handle r in
      elim (Bool-cases (lt_zero (env.status v.log op))) [
        | inl bad ↦
            let (z, f, t) =
              free_packet_data-Unmaps env r skb q_id (env.status v.log op) (called op env v) ul
                (ap (λ n. n == 0) en ∙ nd) (ap (λ n. env.priv_of n == 0) en ∙ pv) ek
                (Describes-Covers d) in
            rw bad (
              refused (ap lt_zero z ∙ bad) (record {
                balance = λ a. omega (arith, f.same_mapped a, f.unmaps a, m a, u a);
                consumes = λ p. omega (arith, f.consumes p, c p);
                drops =
                    t
                    ∙ ap₂ (λ (p : OnicPriv) (l : ℕ → QStats). dropped (p.tx_qstats + q_id) l) ep es;
              }))
        | inr good ↦ rw good (
            sent refl (record {
              own = r;
              event = record { op = op; status = env.status v.log op; value = env.value v.log op };
              rest = v.log;
              last = refl;
              op = ap (λ (p : OnicPriv). Op.qdma_queue_packet_write p.dev_handle q_handle r) ep;
              packet = ek;
              device = en;
              own_address = eu;
              has_address = ul;
              describes = d;
              same_priv = ep;
              maps = λ a. omega (arith, m a);
              unmaps = λ a. omega (arith, u a);
              counts =
                  ap₂ (λ (p : OnicPriv) (l : ℕ → QStats). counted (p.tx_qstats + q_id) skb.len l) ep
                    es;
            }))
      ]

  -- The request before the loop over the fragments, and the packet's linear part.
  abbrev first_entry : ℕ → SwSg
  first_entry a = record { pg = 0; offset = 0; len = skb.headlen; dma_addr = a }

  abbrev first_request : ℕ → QdmaRequest
  first_request a = record zero_request { count = skb.headlen; sgl = first_entry a ∷ [] }

  first_mapped :
      (w : World) (i : ℕ)
      → let a = env.value w.log (Op.dma_map_single skb.headlen) in
        let asked = called (Op.dma_map_single skb.headlen) env w in
        ne_zero (env.status asked.log (Op.dma_mapping_error a)) ≡ false
        → mapped i (called (Op.dma_mapping_error a) env asked).log ≡ count_if a i + mapped i w.log
  first_mapped w i good = rw good (omega arith)

  Describes-all :
      (a : ℕ) (req : QdmaRequest) (w v : World)
      → MapsAll skb.frags (record (first_request a) { sgcnt = 1 }) req w v
      → Describes skb req
  Describes-all a req w v s = record {
    lens = ap (map (λ (s : SwSg). s.len)) s.sgl ∙ ap (λ (l : List ℕ). skb.headlen ∷ l) s.lens;
    count = s.count;
    sgcnt = s.sgcnt;
  }

  -- What comes after the loop over the fragments, by how the loop ended.
  mapped_frags :
      (addr : ℕ) (w : World)
      → (addr == 0) ≡ false
      → (netdev == 0) ≡ false
      → (env.priv_of netdev == 0) ≡ false
      → let a = env.value w.log (Op.dma_map_single skb.headlen) in
        let asked = called (Op.dma_map_single skb.headlen) env w in
        let v = called (Op.dma_mapping_error a) env asked in
        let r : OnicDmaRequest = record {
          addr = addr;
          skb = some skb;
          netdev = netdev;
          qdma = first_request a;
        } in
        let m = map_frags skb.frags (record (first_request a) { sgcnt = 1 }) env v in
        let next : ℤ × World =
          (if m.0.0
              then free_packet_data (record r { qdma = m.0.1 }) q_id efault
              else xmit_submit skb (submitted r m.0.1) q_id q_handle)
            env m.1 in
        ne_zero (env.status asked.log (Op.dma_mapping_error a)) ≡ false
        → MapEnds skb.frags (record (first_request a) { sgcnt = 1 }) v m.0 m.1
        → XmitEnds skb netdev q_id q_handle w next.0 next.1
  mapped_frags addr w ad nd pv good (map_failed bad u k) =
      let a = env.value w.log (Op.dma_map_single skb.headlen) in
      let v = called (Op.dma_mapping_error a) env (called (Op.dma_map_single skb.headlen) env w) in
      let m = map_frags skb.frags (record (first_request a) { sgcnt = 1 }) env v in
      let r : OnicDmaRequest = record {
        addr = addr;
        skb = some skb;
        netdev = netdev;
        qdma = m.0.1;
      } in
      let e = free_packet_data-not_found env r q_id efault m.1 (ap (λ n. n == 0) u) in
      rw bad (
        lost (ap (λ t. t.0) e) (record {
          nothing = ap (λ t. gives_back t.1.log) e ∙ omega (arith, k.same_back);
          unmaps = λ i. ap (λ t. unmapped i t.1.log) e ∙ omega (arith, k.same_unmapped i);
          drops =
              ap (λ t. t.1.stats) e
              ∙ ap₂ (λ (p : OnicPriv) (l : ℕ → QStats). dropped (p.tx_qstats + q_id) l) k.same_priv
                  k.same_stats;
        }))
  mapped_frags addr w ad nd pv good (all_mapped ok s k) =
      let a = env.value w.log (Op.dma_map_single skb.headlen) in
      let v = called (Op.dma_mapping_error a) env (called (Op.dma_map_single skb.headlen) env w) in
      let m = map_frags skb.frags (record (first_request a) { sgcnt = 1 }) env v in
      let r : OnicDmaRequest = record {
        addr = addr;
        skb = some skb;
        netdev = netdev;
        qdma = first_request a;
      } in
      let d = Describes-all a m.0.1 v m.1 s in
      rw ok (
        xmit_submit-Ends (submitted r m.0.1) w m.1 k.same_priv k.same_stats ad nd pv refl refl refl
          (record { lens = d.lens; count = d.count; sgcnt = d.sgcnt })
          (λ i. omega (arith, s.maps i, ap (occurs i) s.sgl, first_mapped w i good))
          (λ i. omega (arith, k.same_unmapped i)) (λ p. omega (arith, k.same_consumed p)))

  pub xmit_map-Ends :
      (addr : ℕ) (w : World)
      → (addr == 0) ≡ false
      → (netdev == 0) ≡ false
      → (env.priv_of netdev == 0) ≡ false
      → XmitEnds skb netdev q_id q_handle w
          (xmit_map skb netdev q_id q_handle addr env w).0
          (xmit_map skb netdev q_id q_handle addr env w).1
  unfolding xmit_map
  xmit_map-Ends addr w ad nd pv =
      let a = env.value w.log (Op.dma_map_single skb.headlen) in
      let asked = called (Op.dma_map_single skb.headlen) env w in
      let v = called (Op.dma_mapping_error a) env asked in
      let r : OnicDmaRequest = record {
        addr = addr;
        skb = some skb;
        netdev = netdev;
        qdma = first_request a;
      } in
      elim (Bool-cases (ne_zero (env.status asked.log (Op.dma_mapping_error a)))) [
        | inl bad ↦
            let e = free_packet_data-not_found env r q_id efault v refl in
            rw bad (
              lost (ap (λ t. t.0) e) (record {
                nothing = ap (λ t. gives_back t.1.log) e ∙ omega arith;
                unmaps = λ i. ap (λ t. unmapped i t.1.log) e ∙ omega arith;
                drops = ap (λ t. t.1.stats) e;
              }))
        | inr good ↦ rw good (
            mapped_frags addr w ad nd pv good
              (map_frags-MapEnds env skb.frags (record (first_request a) { sgcnt = 1 }) v))
      ]
