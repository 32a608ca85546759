-- ===== src/Tx/Sequence.antt =====
-- The packets and the requests along a sequence of transmissions and completions (onic_main.c:
-- `onic_start_xmit`, `onic_tx_done`), and the end that the completions bring it to.
use onic_driver.Base.{
  ℕ, ◌+◌, ◌≡◌, ◌∙◌, refl, ap, subst, true, false, ◌==◌, some, List, [], ◌∷◌, ◌++◌, sum_of,
  sum_of-append, arith,
}
use onic_driver.Base.Int.{pos, lt_zero}
use onic_driver.Kernel.{Skb, OnicDmaRequest, Op, Event, Log, Env, World}
use onic_driver.Kernel.Ledger.{Moves, Rests-refl, Moves-trans, taken, given}
use onic_driver.Tx.{onic_start_xmit, onic_tx_done}
use onic_driver.Tx.Goods.{Good, holds, goods, IsOurs, handed, kept, onic_unmap_free_pkt_data-Moves}
use onic_driver.Tx.Account.{onic_start_xmit-Handed}
use onic_driver.Tx.Trace.{same-own}
use mathlib.Core.List.{Permᴰ, Perm}
use mathlib.Core.Logic.{∥∥₁_elim}
use native.Mathlib.Nat.{ℕ_set}

-- The states that the interface `netdev` can reach from `w` by transmissions of any outcome and by
-- completions, with the requests that the device has taken and not completed.
pub data Run (env : Env) (netdev : ℕ) (w : World) : World → List OnicDmaRequest → Type 0 where
  begin : Run env netdev w w []
  accept :
      {v : World} {own : OnicDmaRequest} {under_way : List OnicDmaRequest} (skb : Skb)
      (event : Event) (rest : Log) (d h : ℕ)
      → Run env netdev w v under_way
      → (onic_start_xmit skb netdev env v).0 ≡ pos 0
      → (onic_start_xmit skb netdev env v).1.log ≡ event ∷ rest
      → event.op ≡ Op.qdma_queue_packet_write d h own
      → Run env netdev w (onic_start_xmit skb netdev env v).1 (own ∷ under_way)
  turn_away :
      {v : World} {under_way : List OnicDmaRequest} (skb : Skb)
      → Run env netdev w v under_way
      → lt_zero (onic_start_xmit skb netdev env v).0 ≡ true
      → Run env netdev w (onic_start_xmit skb netdev env v).1 under_way
  complete :
      {v : World} (own : OnicDmaRequest) (before behind : List OnicDmaRequest)
      → Run env netdev w v (before ++ own ∷ behind)
      → Run env netdev w (onic_tx_done (some own) env v).1 (before ++ behind)

-- What a list of requests holds together.
abbrev pub held : List OnicDmaRequest → Good → ℕ
held rs x = sum_of (λ (r : OnicDmaRequest). holds r x) rs

-- The completion of a list of requests, the first one first.
abbrev pub complete_all : Env → List OnicDmaRequest → World → World
complete_all env [] w = w
complete_all env (r ∷ rs) w = complete_all env rs (onic_tx_done (some r) env w).1

abbrev AllOurs : ℕ → List OnicDmaRequest → Type 0
AllOurs n [] = Unit
AllOurs n (r ∷ rs) = IsOurs n r × AllOurs n rs

AllOurs-middle :
    (n : ℕ) (xs : List OnicDmaRequest) (r : OnicDmaRequest) (ys : List OnicDmaRequest)
    → AllOurs n (xs ++ r ∷ ys)
    → IsOurs n r × AllOurs n (xs ++ ys)
AllOurs-middle n [] r ys (a, b) = (a, b)
AllOurs-middle n (x ∷ xs) r ys (a, b) = let (c, d) = AllOurs-middle n xs r ys b in (c, (a, d))

AllOurs-Permᴰ : (n : ℕ) {xs ys : List OnicDmaRequest} → Permᴰ xs ys → AllOurs n xs → AllOurs n ys
AllOurs-Permᴰ n Permᴰ.nil all = all
AllOurs-Permᴰ n (Permᴰ.cons e p) (a, all) = (subst (IsOurs n) e a, AllOurs-Permᴰ n p all)
AllOurs-Permᴰ n (Permᴰ.swap e f) (a, (b, all)) = (subst (IsOurs n) f b, (subst (IsOurs n) e a, all))
AllOurs-Permᴰ n (Permᴰ.trans p q) all = AllOurs-Permᴰ n q (AllOurs-Permᴰ n p all)

held-Permᴰ : (x : Good) {xs ys : List OnicDmaRequest} → Permᴰ xs ys → held xs x ≡ held ys x
held-Permᴰ x Permᴰ.nil = refl
held-Permᴰ x (Permᴰ.cons e p) =
    omega (arith, ap (λ (r : OnicDmaRequest). holds r x) e, held-Permᴰ x p)
held-Permᴰ x (Permᴰ.swap e f) =
    omega
      (arith, ap (λ (r : OnicDmaRequest). holds r x) e, ap (λ (r : OnicDmaRequest). holds r x) f)
held-Permᴰ x (Permᴰ.trans p q) = held-Permᴰ x p ∙ held-Permᴰ x q

module _ (env : Env) (netdev : ℕ) (found : (netdev == 0) ≡ false)
    (has_priv : (env.priv_of netdev == 0) ≡ false) where
  -- A completion gives up what its request holds.
  onic_tx_done-Moves :
      (own : OnicDmaRequest) (v : World)
      → IsOurs netdev own
      → Moves goods v (onic_tx_done (some own) env v).1 (holds own) (λ x. 0)
  unfolding onic_tx_done
  onic_tx_done-Moves own v o =
      (onic_unmap_free_pkt_data-Moves env own o.packet v o.has_address
        (ap (λ n. n == 0) o.device ∙ found) (ap (λ n. env.priv_of n == 0) o.device ∙ has_priv)
        o.same_packet).1

  -- What a successful transmission hands over, by its last call.
  accepted :
      (skb : Skb) (v : World) (own : OnicDmaRequest) (event : Event) (rest : Log) (d h : ℕ)
      → (onic_start_xmit skb netdev env v).0 ≡ pos 0
      → (onic_start_xmit skb netdev env v).1.log ≡ event ∷ rest
      → event.op ≡ Op.qdma_queue_packet_write d h own
      → IsOurs netdev own × Moves goods v (onic_start_xmit skb netdev env v).1 (λ x. 0) (holds own)
  accepted skb v own event rest d h good l o =
      elim (onic_start_xmit-Handed env netdev found has_priv skb v) [
        | kept bad m ↦ cc (ap lt_zero good)
        | handed own' event' rest' d' h' z l' o' ours m ↦
            subst
              (λ (r : OnicDmaRequest).
                IsOurs netdev r
                × Moves goods v (onic_start_xmit skb netdev env v).1 (λ x. 0) (holds r))
              (same-own l' o' l o) (ours, m)
      ]

  -- Along a sequence, what is held is what the requests under way hold.
  Run-Moves :
      (w v : World) (under_way : List OnicDmaRequest)
      → Run env netdev w v under_way
      → AllOurs netdev under_way × Moves goods w v (λ x. 0) (held under_way)
  Run-Moves w v [] begin = (tt, Rests-refl goods w)
  Run-Moves w _ (own ∷ under_way) (accept {v = v} skb event rest d h r good l o) =
      let (all, m) = Run-Moves w v under_way r in
      let (ours, k) = accepted skb v own event rest d h good l o in
      ((ours, all), Moves-trans goods m (record { moves = λ x. omega (arith, k.moves x) }))
  Run-Moves w _ under_way (turn_away {v = v} skb r bad) =
      let (all, m) = Run-Moves w v under_way r in
      elim (onic_start_xmit-Handed env netdev found has_priv skb v) [
        | handed own' event' rest' d' h' z l' o' ours k ↦ cc (ap lt_zero z)
        | kept b k ↦ (all, record { moves = λ x. omega (arith, m.moves x, k.moves x) })
      ]
  Run-Moves w _ _ (complete {v = v} own before behind r) =
      let (all, m) = Run-Moves w v (before ++ own ∷ behind) r in
      let (ours, others) = AllOurs-middle netdev before own behind all in
      let k = onic_tx_done-Moves own v ours in
      (
        others,
        record {
          moves = λ x. omega (
            arith,
            m.moves x,
            k.moves x,
            sum_of-append (λ (r : OnicDmaRequest). holds r x) before (own ∷ behind),
            sum_of-append (λ (r : OnicDmaRequest). holds r x) before behind,
          );
        },
      )

  -- After any sequence of transmissions, whatever each of them returned, and completions in any order,
  -- on a network device that is not NULL and has a private part: each packet that was handed to
  -- libqdma has been consumed once for each time, but for those of the requests under way, and the memory
  -- of each request that was allocated has been freed once, but for that of the requests under way.
  pub Run-held :
      (w v : World) (under_way : List OnicDmaRequest)
      → Run env netdev w v under_way
      → (x : Good)
      → taken goods x v.log + given goods x w.log
        ≡ given goods x v.log + taken goods x w.log + held under_way x
  Run-held w v under_way r x = omega (arith, (Run-Moves w v under_way r).1.moves x)

  complete_all-Moves :
      (rs : List OnicDmaRequest) (v : World)
      → AllOurs netdev rs
      → Moves goods v (complete_all env rs v) (held rs) (λ x. 0)
  complete_all-Moves [] v all = Rests-refl goods v
  complete_all-Moves (r ∷ rs) v (ours, all) =
      let k = onic_tx_done-Moves r v ours in
      let m = complete_all-Moves rs (onic_tx_done (some r) env v).1 all in
      record { moves = λ x. omega (arith, k.moves x, m.moves x) }

  -- Once the device has completed all requests that are under way, in whatever order, every packet that
  -- was handed to libqdma has been consumed exactly as often as it was handed over, and every request
  -- that was allocated has been freed exactly once. This holds after any sequence of transmissions,
  -- whatever each of them returned, and completions, on a network device that is not NULL and has a
  -- private part.
  pub Run-complete_all :
      (w v : World) (under_way order : List OnicDmaRequest)
      → Run env netdev w v under_way
      → Perm under_way order
      → (x : Good)
      → let v' = complete_all env order v in
        taken goods x v'.log + given goods x w.log ≡ given goods x v'.log + taken goods x w.log
  Run-complete_all w v under_way order r p x =
      let (all, m) = Run-Moves w v under_way r in
      ∥∥₁_elim p (ℕ_set _ _) (λ q. omega (
        arith,
        m.moves x,
        held-Permᴰ x q,
        (complete_all-Moves order v (AllOurs-Permᴰ netdev q all)).moves x,
      ))
