-- ===== src/Rx/Steps.antt =====
-- What the functions of the receive path (onic_main.c) keep, for any relation that their calls and their
-- write of the counters keep.
use onic_driver.Base.{
  ℕ, zero, suc, ◌+◌, ◌≡◌, refl, Bool, true, false, ◌==◌, if◌then◌else◌, add64, List, [], ◌∷◌,
}
use onic_driver.Base.Int.{ℤ, pos, einval, enomem, lt_zero}
use onic_driver.Kernel.{
  SwSg, QStats, RxSkb, eth_type_trans, Op, World, called, Io, pure, ◌>>=◌, ◌>>◌, perform,
  modify_stats,
}
use onic_driver.Kernel.Steps.{Frame, Always, Calls, done, next, either}
use onic_driver.Rx.{
  copies, copied_skb, paged_skb, handed, onic_rx_pull_len, onic_rx_deliver, put_pages, rx_queue,
  onic_rx_pkt_process,
}

-- The calls of the receive path.
abbrev pub is_rx_call : Op → Bool
is_rx_call (Op.napi_alloc_skb q n) = true
is_rx_call (Op.put_page p) = true
is_rx_call (Op.netif_receive_skb skb) = true
is_rx_call o = false

-- The write of the counters of a queue.
abbrev pub count_received : ℕ → QStats → QStats
count_received n s = record s { rx_packets = add64 s.rx_packets 1; rx_bytes = add64 s.rx_bytes n }

module _ {R : World → World → Type 0} (frame : Frame R)
    (calls : (op : Op) → is_rx_call op ≡ true → Calls frame op) where
  pub onic_rx_deliver-Always :
      (q_no len sgcnt : ℕ) (sgl : List SwSg) → Always frame (onic_rx_deliver q_no len sgcnt sgl)
  unfolding onic_rx_deliver
  onic_rx_deliver-Always q_no len zero sgl env w = frame.stay w
  onic_rx_deliver-Always q_no len (suc n) [] env w = frame.stay w
  onic_rx_deliver-Always q_no len (suc n) (s ∷ sgl) env w =
      either frame (copies w.net.features_sg len) _ _
        (λ e v.
          let op = Op.napi_alloc_skb q_no len in
          let skb = e.value v.log op in
          let put = perform (Op.put_page s.pg) in
          let pass =
            (eth_type_trans (copied_skb skb len s)
              >>= (λ (r : ℕ × RxSkb). perform (Op.netif_receive_skb (handed q_no r)))) in
          frame.both (calls op refl e v) (
            either frame (skb == 0) (pure enomem) (put >> pass >> pure (pos 0)) (done frame enomem)
              (next frame put pass (calls _ refl) (λ e u. calls _ refl e u)) e (called op e v)))
        (λ e v.
          let op = Op.napi_alloc_skb q_no onic_rx_pull_len in
          let skb = e.value v.log op in
          let pass =
            (eth_type_trans (paged_skb skb len (suc n) s sgl)
              >>= (λ (r : ℕ × RxSkb). perform (Op.netif_receive_skb (handed q_no r)))) in
          frame.both (calls op refl e v) (
            either frame (skb == 0) (pure enomem) (pass >> pure (pos 0)) (done frame enomem)
              (λ e u. calls _ refl e u) e (called op e v)))
        env w

  pub put_pages-Always : (n : ℕ) (sgl : List SwSg) → Always frame (put_pages n sgl)
  unfolding put_pages
  put_pages-Always zero sgl = done frame tt
  put_pages-Always (suc n) [] = done frame tt
  put_pages-Always (suc n) (s ∷ sgl) =
      next frame (perform (Op.put_page s.pg)) (put_pages n sgl) (calls _ refl)
        (put_pages-Always n sgl)

  -- The packet's way to the stack, or out of the driver.
  abbrev pub passes : (q_no len sgcnt : ℕ) → List SwSg → Io ℤ
  passes q_no len sgcnt sgl = do
    ret ← onic_rx_deliver q_no len sgcnt sgl
    if lt_zero ret then put_pages sgcnt sgl else pure tt
    pure ret

  pub passes-Always :
      (q_no len sgcnt : ℕ) (sgl : List SwSg) → Always frame (passes q_no len sgcnt sgl)
  passes-Always q_no len sgcnt sgl env w =
      let r = onic_rx_deliver q_no len sgcnt sgl env w in
      frame.both (onic_rx_deliver-Always q_no len sgcnt sgl env w) (
        either frame (lt_zero r.0) (put_pages sgcnt sgl) (pure tt) (put_pages-Always sgcnt sgl)
          (done frame tt) env r.1)

  pub onic_rx_pkt_process-Always :
      ((a n : ℕ) → Always frame (modify_stats a (count_received n)))
      → (qhndl quld len sgcnt : ℕ) (sgl : List SwSg)
      → Always frame (onic_rx_pkt_process qhndl quld len sgcnt sgl)
  unfolding onic_rx_pkt_process
  onic_rx_pkt_process-Always counts qhndl quld len sgcnt sgl env w =
      let q_no = rx_queue qhndl w.priv.base_rx_q_handle in
      either frame (w.priv.netdev == 0) (pure einval) _ (done frame einval)
        (either frame (quld == 0) (pure einval) _ (done frame einval) (
          either frame (sgcnt == 0) (pure einval) _ (done frame einval) (λ e v.
            frame.both (passes-Always q_no len sgcnt sgl e v)
              (counts (w.priv.rx_qstats + q_no) len e (passes q_no len sgcnt sgl e v).1))))
        env w
