-- ===== src/Tx/Account.antt =====
-- Sequences of transmissions, of whatever outcome, and completions (onic_main.c: `onic_start_xmit`,
-- `onic_tx_done`), and the packets and requests that are left at their end.
use onic_driver.Base.{
  ℕ, ◌%◌, ◌^◌, ◌≡◌, refl, inl, inr, true, false, Bool-cases, ◌==◌, ltb, if◌then◌else◌, if-both,
  add64, arith,
}
use onic_driver.Base.Int.{ℤ, einval, ne_zero, lt_zero}
use onic_driver.Kernel.{
  Skb, dma_request, Op, Env, World, called, Io, pure, ◌>>=◌, ◌>>◌, request, perform, padded,
}
use onic_driver.Kernel.Ledger.{Rests, Moves-trans, Rests-trans, called-Moves}
use onic_driver.Tx.{onic_start_xmit, xmit_queue, eth_zlen}
use onic_driver.Tx.Goods.{goods, memory_of, Handed, kept, xmit_map-From}

module _ (env : Env) (netdev : ℕ) (found : (netdev == 0) ≡ false)
    (has_priv : (env.priv_of netdev == 0) ≡ false) where
  -- From a state in which nothing has been taken for the packet.
  abbrev Ends : World → Io ℤ → Type 0
  Ends w m = (u : World) → Rests goods u w → Handed netdev u (m env w).0 (m env w).1

  -- An end with an error, right away or behind a call that moves nothing.
  kept-at_once : (w : World) (ret : ℤ) → lt_zero ret ≡ true → Ends w (pure ret)
  kept-at_once w ret bad u before = kept bad before

  kept-freed : (w : World) (p : ℕ) → Ends w (perform (Op.dev_kfree_skb_any p) >> pure einval)
  kept-freed w p u before = kept refl (
      Rests-trans goods before
        (called-Moves goods env (Op.dev_kfree_skb_any p) w (λ x. 0) (λ x. 0) (λ x. ground arith)))

  xmit_queue-Ends : (skb : Skb) (w : World) → Ends w (xmit_queue skb netdev)
  unfolding xmit_queue
  xmit_queue-Ends skb w u before =
      let q_id = skb.queue_mapping % 2 ^ 16 in
      let op = Op.alloc dma_request 1 in
      let addr = env.value w.log op in
      elim (Bool-cases (ltb q_id w.net.real_num_tx_queues)) [
        | inr beyond ↦ rw beyond (kept-freed w skb.addr u before)
        | inl fits ↦ rw fits (elim (Bool-cases (addr == 0)) [
          | inl null ↦ rw null (
              kept refl (
                Rests-trans goods before
                  (called-Moves goods env op w (λ x. 0) (λ x. 0) (λ x. ground (arith, null)))))
          | inr there ↦ rw there (
              xmit_map-From env skb netdev q_id (add64 w.priv.base_tx_q_handle q_id) found has_priv
                addr (called op env w) there u
                (Moves-trans goods before (
                  called-Moves goods env op w (λ x. 0) (memory_of addr)
                    (λ x. ground (arith, there)))))
        ])
      ]

  -- What `onic_start_xmit` does behind its test for a GSO packet.
  abbrev behind_gso : Skb → Io ℤ
  behind_gso skb = do
    ret ← request (Op.skb_put_padto skb.addr eth_zlen)
    if ne_zero ret
        then (do perform (Op.dev_kfree_skb_any skb.addr); pure einval)
        else do skb' ← padded skb; xmit_queue skb' netdev

  behind_gso-Ends : (skb : Skb) (w : World) → Ends w (behind_gso skb)
  behind_gso-Ends skb w u before =
      let pad = Op.skb_put_padto skb.addr eth_zlen in
      let v = called pad env w in
      let asked =
        Rests-trans goods before
          (called-Moves goods env pad w (λ x. 0) (λ x. 0) (λ x. ground arith)) in
      elim (Bool-cases (ne_zero (env.status w.log pad))) [
        | inl bad ↦ rw bad (kept-freed v skb.addr u asked)
        | inr good ↦ rw good (xmit_queue-Ends (env.padded skb) v u asked)
      ]

  pub onic_start_xmit-Handed :
      (skb : Skb) (w : World)
      → Handed netdev w (onic_start_xmit skb netdev env w).0 (onic_start_xmit skb netdev env w).1
  unfolding onic_start_xmit
  onic_start_xmit-Handed skb w =
      let v = called Op.netif_carrier_ok env w in
      let asked : Rests goods w v =
        called-Moves goods env Op.netif_carrier_ok w (λ x. 0) (λ x. 0) (λ x. ground arith) in
      rw has_priv (elim (Bool-cases (ne_zero (env.status w.log Op.netif_carrier_ok))) [
        | inr down ↦ rw down (kept-freed v skb.addr w asked)
        | inl up ↦ rw up (
            if-both (λ (m : Io ℤ). Handed netdev w (m env v).0 (m env v).1) skb.is_gso (pure einval)
              (behind_gso skb) (kept refl asked) (behind_gso-Ends skb v w asked))
      ])
