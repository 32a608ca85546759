-- ===== src/Tx/Start.antt =====
-- `onic_start_xmit` of onic_main.c as the network stack sees it, and the completion of a packet that
-- was sent, `onic_tx_done`.
use onic_driver.Base.{
  ℕ, ◌+◌, ◌%◌, ◌^◌, ◌≡◌, ◌∙◌, refl, ap, ap₂, inl, inr, true, false, Bool-cases, ◌==◌, ltb,
  if◌then◌else◌, if-both, ◌≢◌, add64, some, ◌∷◌, arith,
}
use onic_driver.Base.Int.{ℤ, pos, efault, einval, lt_zero, ne_zero}
use onic_driver.Kernel.{
  Skb, OnicPriv, OnicDmaRequest, QStats, Op, Event, Log, Env, World, called, dma_request, Io, pure,
  ◌>>=◌, ◌>>◌, request, perform, padded,
}
use onic_driver.Tx.{onic_start_xmit, xmit_queue, onic_tx_done, eth_zlen}
use onic_driver.Tx.Mapping.{mapped, unmapped, consumed, count_if, gives_back}
use onic_driver.Tx.Release.{dropped, onic_unmap_free_pkt_data-Unmaps}
use onic_driver.Tx.Xmit.{
  Describes, Describes-Covers, counted, XmitEnds, sent, refused, lost, xmit_map-Ends,
}

-- The queue that the stack chose for a packet, and its handle.
abbrev pub queue_of : Skb → ℕ
queue_of skb = skb.queue_mapping % 2 ^ 16

abbrev pub handle_of : Skb → World → ℕ
handle_of skb w = add64 w.priv.base_tx_q_handle (queue_of skb)

-- The packet met one of the tests at the start: no mapping and no counter has changed.
pub record TurnedAway (w w' : World) : Type 0 where
  pub maps : (a : ℕ) → mapped a w'.log ≡ mapped a w.log
  pub unmaps : (a : ℕ) → unmapped a w'.log ≡ unmapped a w.log
  pub same_stats : w'.stats ≡ w.stats

pub data StartXmitEnds (skb : Skb) (netdev : ℕ) (w : World) (ret : ℤ) (w' : World) : Type 0 where
  turned_away : lt_zero ret ≡ true → TurnedAway w w' → StartXmitEnds skb netdev w ret w'
  taken :
      XmitEnds skb netdev (queue_of skb) (handle_of skb w) w ret w'
      → StartXmitEnds skb netdev w ret w'

-- The counts of a log that the ends of a transmission speak of.
record SameCounts (v w : World) : Type 0 where
  same_priv : v.priv ≡ w.priv
  same_stats : v.stats ≡ w.stats
  maps : (a : ℕ) → mapped a v.log ≡ mapped a w.log
  unmaps : (a : ℕ) → unmapped a v.log ≡ unmapped a w.log
  consumes : (p : ℕ) → consumed p v.log ≡ consumed p w.log
  gives : gives_back v.log ≡ gives_back w.log

module _ (skb : Skb) (netdev q_id q_handle : ℕ) (v w : World) (same : SameCounts v w) where
  XmitEnds-earlier :
      (ret : ℤ) (w' : World)
      → XmitEnds skb netdev q_id q_handle v ret w'
      → XmitEnds skb netdev q_id q_handle w ret w'
  XmitEnds-earlier ret w' (sent z s) = sent z (record {
    own = s.own;
    event = s.event;
    rest = s.rest;
    last = s.last;
    op =
        s.op
        ∙ ap (λ (p : OnicPriv). Op.qdma_queue_packet_write p.dev_handle q_handle s.own)
            same.same_priv;
    packet = s.packet;
    device = s.device;
    own_address = s.own_address;
    has_address = s.has_address;
    describes = s.describes;
    same_priv = s.same_priv ∙ same.same_priv;
    maps = λ a. omega (arith, s.maps a, same.maps a);
    unmaps = λ a. omega (arith, s.unmaps a, same.unmaps a);
    counts =
        s.counts
        ∙ ap₂ (λ (p : OnicPriv) (l : ℕ → QStats). counted (p.tx_qstats + q_id) skb.len l)
            same.same_priv same.same_stats;
  })
  XmitEnds-earlier ret w' (refused bad g) = refused bad (record {
    balance = λ a. omega (arith, g.balance a, same.maps a, same.unmaps a);
    consumes = λ p. omega (arith, g.consumes p, same.consumes p);
    drops =
        g.drops
        ∙ ap₂ (λ (p : OnicPriv) (l : ℕ → QStats). dropped (p.tx_qstats + q_id) l) same.same_priv
            same.same_stats;
  })
  XmitEnds-earlier ret w' (lost bad g) = lost bad (record {
    nothing = g.nothing ∙ same.gives;
    unmaps = λ a. omega (arith, g.unmaps a, same.unmaps a);
    drops =
        g.drops
        ∙ ap₂ (λ (p : OnicPriv) (l : ℕ → QStats). dropped (p.tx_qstats + q_id) l) same.same_priv
            same.same_stats;
  })

module _ (env : Env) (skb : Skb) (netdev : ℕ) (w : World) (found : (netdev == 0) ≡ false)
    (has_priv : (env.priv_of netdev == 0) ≡ false) where
  -- The world after the two questions that `onic_start_xmit` asks first.
  abbrev asked : World
  asked = called (Op.skb_put_padto skb.addr eth_zlen) env (called Op.netif_carrier_ok env w)

  xmit_queue-Ends :
      (let r = xmit_queue (env.padded skb) netdev env asked in
        StartXmitEnds (env.padded skb) netdev w r.0 r.1)
  unfolding xmit_queue
  xmit_queue-Ends =
      let q_id = queue_of (env.padded skb) in
      let addr = env.value asked.log (Op.alloc dma_request 1) in
      let v = called (Op.alloc dma_request 1) env asked in
      elim (Bool-cases (ltb q_id w.net.real_num_tx_queues)) [
        | inl fits ↦ rw fits (elim (Bool-cases (addr == 0)) [
          | inl null ↦ rw null (
              turned_away refl
                (record { maps = λ a. omega arith; unmaps = λ a. omega arith; same_stats = refl }))
          | inr there ↦ rw there (
              taken (
                XmitEnds-earlier (env.padded skb) netdev q_id (handle_of (env.padded skb) w) v w
                  (record {
                    same_priv = refl;
                    same_stats = refl;
                    maps = λ a. omega arith;
                    unmaps = λ a. omega arith;
                    consumes = λ p. omega arith;
                    gives = omega arith;
                  })
                  _ _
                  (xmit_map-Ends env (env.padded skb) netdev q_id (handle_of (env.padded skb) w)
                    addr v there found has_priv)))
        ])
        | inr beyond ↦ rw beyond (
            turned_away refl
              (record { maps = λ a. omega arith; unmaps = λ a. omega arith; same_stats = refl }))
      ]

  -- What `onic_start_xmit` does behind its test for a GSO packet.
  abbrev behind_gso : Io ℤ
  behind_gso = do
    ret ← request (Op.skb_put_padto skb.addr eth_zlen)
    if ne_zero ret
        then (do perform (Op.dev_kfree_skb_any skb.addr); pure einval)
        else do skb' ← padded skb; xmit_queue skb' netdev

  abbrev EndsWell : World → Io ℤ → Type 0
  EndsWell v m = StartXmitEnds (env.padded skb) netdev w (m env v).0 (m env v).1

  -- Nothing was done but to ask, and to free the packet.
  behind_gso-Ends : EndsWell (called Op.netif_carrier_ok env w) behind_gso
  behind_gso-Ends =
      let v = called Op.netif_carrier_ok env w in
      elim (Bool-cases (ne_zero (env.status v.log (Op.skb_put_padto skb.addr eth_zlen)))) [
        | inl bad ↦ rw bad (
            turned_away refl
              (record { maps = λ a. omega arith; unmaps = λ a. omega arith; same_stats = refl }))
        | inr good ↦ rw good xmit_queue-Ends
      ]

  -- On a network device that is not NULL and has a private part, `onic_start_xmit` ends in one of four
  -- ways. A test at the start turns the packet away: the result is negative, no mapping is made or
  -- undone, and the counters are as before. Or it returns 0, its last call hands over a request that
  -- describes the padded packet and holds a mapping for each of its parts, and the packet is counted as
  -- sent. Or the result is negative, the packet has been consumed and each mapping undone, and it is
  -- counted as dropped. Or the result is -EFAULT, neither the packet nor any mapping has been given
  -- back, and it is counted as dropped.
  pub onic_start_xmit-Ends : EndsWell w (onic_start_xmit skb netdev)
  unfolding onic_start_xmit
  onic_start_xmit-Ends =
      let carrier = called Op.netif_carrier_ok env w in
      rw has_priv (elim (Bool-cases (ne_zero (env.status w.log Op.netif_carrier_ok))) [
        | inr down ↦ rw down (
            turned_away refl
              (record { maps = λ a. omega arith; unmaps = λ a. omega arith; same_stats = refl }))
        | inl up ↦ rw up (
            if-both (EndsWell carrier) skb.is_gso (pure einval) behind_gso
              (turned_away refl
                (record { maps = λ a. omega arith; unmaps = λ a. omega arith; same_stats = refl }))
              behind_gso-Ends)
      ])

  -- When `onic_start_xmit` returns 0 on a network device that is not NULL and has a private part,
  -- its last call hands a request that describes the padded packet to the queue of the packet, and
  -- the completion of that request by `onic_tx_done`, in whatever state it comes, undoes each
  -- mapping that was made for the packet and consumes the packet exactly once: over the
  -- transmission and the completion together, as many mappings of each address are made as undone.
  pub onic_start_xmit-onic_tx_done :
      (onic_start_xmit skb netdev env w).0 ≡ pos 0
      → (own : OnicDmaRequest) × (event : Event) × (rest : Log) × ((onic_start_xmit skb netdev env
            w).1.log
          ≡ event ∷ rest)
        × (event.op
            ≡ Op.qdma_queue_packet_write w.priv.dev_handle (handle_of (env.padded skb) w) own)
        × Describes (env.padded skb) own.qdma
        × ((v : World)
            → let v' = (onic_tx_done (some own) env v).1 in
              let w' = (onic_start_xmit skb netdev env w).1 in
              ((a : ℕ)
                → mapped a w'.log + unmapped a w.log + mapped a v'.log + unmapped a v.log
                  ≡ unmapped a w'.log + mapped a w.log + unmapped a v'.log + mapped a v.log)
              × ((p : ℕ) → consumed p v'.log ≡ consumed p v.log + count_if (env.padded skb).addr p))
  unfolding onic_tx_done
  onic_start_xmit-onic_tx_done good = elim onic_start_xmit-Ends [
    | turned_away bad t ↦ cc (ap lt_zero good)
    | taken (lost bad l) ↦ cc
    | taken (refused bad g) ↦ cc (ap lt_zero good)
    | taken (sent z s) ↦ (
      s.own,
      s.event,
      s.rest,
      s.last,
      s.op,
      s.describes,
      λ v.
          let u =
            (onic_unmap_free_pkt_data-Unmaps env s.own (env.padded skb) v s.has_address
              (ap (λ n. n == 0) s.device ∙ found) (ap (λ n. env.priv_of n == 0) s.device ∙ has_priv)
              s.packet (Describes-Covers s.describes)).1 in
          (
            λ a. omega (arith, s.maps a, s.unmaps a, u.same_mapped a, u.unmaps a),
            λ p. omega (arith, u.consumes p),
          ),
    )
  ]

  -- When `onic_start_xmit` returns a negative value other than -EFAULT on a network device that is
  -- not NULL and has a private part, each address was mapped as often as it was unmapped.
  pub onic_start_xmit-error_balance :
      lt_zero (onic_start_xmit skb netdev env w).0 ≡ true
      → (onic_start_xmit skb netdev env w).0 ≢ efault
      → (a : ℕ)
      → let w' = (onic_start_xmit skb netdev env w).1 in
        mapped a w'.log + unmapped a w.log ≡ unmapped a w'.log + mapped a w.log
  onic_start_xmit-error_balance bad other a = elim onic_start_xmit-Ends [
    | turned_away b t ↦ omega (arith, t.maps a, t.unmaps a)
    | taken (lost b l) ↦ absurd (other b)
    | taken (refused b g) ↦ g.balance a
    | taken (sent z s) ↦ cc (ap lt_zero z)
  ]
