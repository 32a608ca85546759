-- ===== src/Tx/Trace.antt =====
-- Sequences of transmissions and completions (onic_main.c: `onic_start_xmit`, `onic_tx_done`), in any
-- order, and the mappings that are left at their end.
use onic_driver.Base.{
  ℕ, ◌+◌, ◌≡◌, ◌≢◌, ◌∙◌, ap, subst, true, false, ◌==◌, some, List, [], ◌∷◌, ◌++◌, sum_of, arith,
}
use onic_driver.Base.Int.{pos, efault, lt_zero}
use onic_driver.Kernel.{Skb, OnicDmaRequest, Op, Event, Log, Env, World}
use onic_driver.Tx.{onic_start_xmit, onic_tx_done}
use onic_driver.Tx.Mapping.{mapped, unmapped, occurs}
use onic_driver.Tx.Release.{Covers, onic_unmap_free_pkt_data-Unmaps}
use onic_driver.Tx.Xmit.{Describes-Covers, sent, refused, lost}
use onic_driver.Tx.Start.{
  handle_of, turned_away, taken, onic_start_xmit-Ends, onic_start_xmit-error_balance,
}

-- The states that the interface `netdev` can reach from `w` by sending packets and completing requests
-- that are under way. The list holds the requests that the device has taken and not completed, and a
-- completion may take any of them. A packet that is answered with -EFAULT ends the sequence.
pub data Reach (env : Env) (netdev : ℕ) (w : World) : World → List OnicDmaRequest → Type 0 where
  begin : Reach env netdev w w []
  send :
      {v : World} {own : OnicDmaRequest} {under_way : List OnicDmaRequest} (skb : Skb)
      (event : Event) (rest : Log)
      → Reach env netdev w v under_way
      → (onic_start_xmit skb netdev env v).0 ≡ pos 0
      → (onic_start_xmit skb netdev env v).1.log ≡ event ∷ rest
      → event.op ≡ Op.qdma_queue_packet_write v.priv.dev_handle (handle_of (env.padded skb) v) own
      → Reach env netdev w (onic_start_xmit skb netdev env v).1 (own ∷ under_way)
  reject :
      {v : World} {under_way : List OnicDmaRequest} (skb : Skb)
      → Reach env netdev w v under_way
      → lt_zero (onic_start_xmit skb netdev env v).0 ≡ true
      → (onic_start_xmit skb netdev env v).0 ≢ efault
      → Reach env netdev w (onic_start_xmit skb netdev env v).1 under_way
  complete :
      {v : World} (own : OnicDmaRequest) (before behind : List OnicDmaRequest)
      → Reach env netdev w v (before ++ own ∷ behind)
      → Reach env netdev w (onic_tx_done (some own) env v).1 (before ++ behind)

-- How often an address stands in the requests that are under way.
abbrev pub held_by : ℕ → List OnicDmaRequest → ℕ
held_by a rs = sum_of (λ (r : OnicDmaRequest). occurs a r.qdma.sgl) rs

-- A request that `onic_tx_done` can give back.
record IsWhole (netdev : ℕ) (r : OnicDmaRequest) : Type 0 where
  packet : Skb
  same_packet : r.skb ≡ some packet
  device : r.netdev ≡ netdev
  has_address : (r.qdma.uld_data == 0) ≡ false
  covers : Covers packet r.qdma.sgl

abbrev AllWhole : ℕ → List OnicDmaRequest → Type 0
AllWhole n [] = Unit
AllWhole n (r ∷ rs) = IsWhole n r × AllWhole n rs

AllWhole-middle :
    (n : ℕ) (xs : List OnicDmaRequest) (r : OnicDmaRequest) (ys : List OnicDmaRequest)
    → AllWhole n (xs ++ r ∷ ys)
    → IsWhole n r × AllWhole n (xs ++ ys)
AllWhole-middle n [] r ys (a, b) = (a, b)
AllWhole-middle n (x ∷ xs) r ys (a, b) = let (c, d) = AllWhole-middle n xs r ys b in (c, (a, d))

held_by-middle :
    (a : ℕ) (xs : List OnicDmaRequest) (r : OnicDmaRequest) (ys : List OnicDmaRequest)
    → held_by a (xs ++ r ∷ ys) ≡ held_by a (xs ++ ys) + occurs a r.qdma.sgl
held_by-middle a [] r ys = omega arith
held_by-middle a (x ∷ xs) r ys = omega (arith, held_by-middle a xs r ys)

-- The last call of a log names one request.
pub same-own :
    {l rest rest' : Log} {event event' : Event} {d d' h h' : ℕ} {r s : OnicDmaRequest}
    → l ≡ event ∷ rest
    → event.op ≡ Op.qdma_queue_packet_write d h r
    → l ≡ event' ∷ rest'
    → event'.op ≡ Op.qdma_queue_packet_write d' h' s
    → r ≡ s
same-own a b c d = cc (a, b, c, d)

module _ (env : Env) (netdev : ℕ) (w : World) (found : (netdev == 0) ≡ false)
    (has_priv : (env.priv_of netdev == 0) ≡ false) where
  -- What a successful transmission hands over is whole, and adds its mappings.
  sent-Whole :
      (skb : Skb) (v : World) (own : OnicDmaRequest) (event : Event) (rest : Log)
      → (onic_start_xmit skb netdev env v).0 ≡ pos 0
      → (onic_start_xmit skb netdev env v).1.log ≡ event ∷ rest
      → event.op ≡ Op.qdma_queue_packet_write v.priv.dev_handle (handle_of (env.padded skb) v) own
      → IsWhole netdev own
        × ((a : ℕ)
            → let v' = (onic_start_xmit skb netdev env v).1 in
              (mapped a v'.log ≡ mapped a v.log + occurs a own.qdma.sgl)
              × (unmapped a v'.log ≡ unmapped a v.log))
  sent-Whole skb v own event rest good l o =
      elim (onic_start_xmit-Ends env skb netdev v found has_priv) [
        | turned_away bad t ↦ cc (ap lt_zero good)
        | taken (lost bad t) ↦ cc
        | taken (refused bad g) ↦ cc (ap lt_zero good)
        | taken (sent z s) ↦
            subst
              (λ (r : OnicDmaRequest).
                IsWhole netdev r
                × ((a : ℕ)
                    → let v' = (onic_start_xmit skb netdev env v).1 in
                      (mapped a v'.log ≡ mapped a v.log + occurs a r.qdma.sgl)
                      × (unmapped a v'.log ≡ unmapped a v.log)))
              (same-own s.last s.op l o)
              (
                record {
                  packet = env.padded skb;
                  same_packet = s.packet;
                  device = s.device;
                  has_address = s.has_address;
                  covers = Describes-Covers s.describes;
                },
                λ a. (s.maps a, s.unmaps a),
              )
      ]

  -- A completion undoes the mappings of its request.
  onic_tx_done-Whole :
      (own : OnicDmaRequest) (v : World)
      → IsWhole netdev own
      → (a : ℕ)
      → let v' = (onic_tx_done (some own) env v).1 in
        (mapped a v'.log ≡ mapped a v.log)
        × (unmapped a v'.log ≡ unmapped a v.log + occurs a own.qdma.sgl)
  unfolding onic_tx_done
  onic_tx_done-Whole own v whole a =
      let u =
        (onic_unmap_free_pkt_data-Unmaps env own whole.packet v whole.has_address
          (ap (λ n. n == 0) whole.device ∙ found)
          (ap (λ n. env.priv_of n == 0) whole.device ∙ has_priv) whole.same_packet
          whole.covers).1 in
      (u.same_mapped a, u.unmaps a)

  -- How the mappings stand after a sequence.
  reached :
      (v : World) (under_way : List OnicDmaRequest)
      → Reach env netdev w v under_way
      → AllWhole netdev under_way
        × ((a : ℕ)
            → mapped a v.log + unmapped a w.log
              ≡ unmapped a v.log + mapped a w.log + held_by a under_way)
  reached v [] begin = (tt, λ a. omega arith)
  reached _ (own ∷ under_way) (send {v = v} skb event rest r good l o) =
      let (all, f) = reached v under_way r in
      let (whole, g) = sent-Whole skb v own event rest good l o in
      ((whole, all), λ a. omega (arith, f a, (g a).0, (g a).1))
  reached _ under_way (reject {v = v} skb r bad other) =
      let (all, f) = reached v under_way r in
      (
        all,
        λ a.
            omega (
              arith,
              f a,
              onic_start_xmit-error_balance env skb netdev v found has_priv bad other a,
            ),
      )
  reached _ _ (complete {v = v} own before behind r) =
      let (all, f) = reached v (before ++ own ∷ behind) r in
      let (whole, others) = AllWhole-middle netdev before own behind all in
      (
        others,
        λ a. omega (
          arith,
          f a,
          held_by-middle a before own behind,
          (onic_tx_done-Whole own v whole a).0,
          (onic_tx_done-Whole own v whole a).1,
        ),
      )

  -- After any sequence of successful transmissions, rejected ones and completions, in any order, on a
  -- network device that is not NULL and has a private part, where no packet was answered with -EFAULT,
  -- the mappings that were made and not undone are exactly those of the requests that are under way.
  pub Reach-mapped :
      (v : World) (under_way : List OnicDmaRequest)
      → Reach env netdev w v under_way
      → (a : ℕ)
      → mapped a v.log + unmapped a w.log ≡ unmapped a v.log + mapped a w.log + held_by a under_way
  Reach-mapped v under_way r a = (reached v under_way r).1 a
