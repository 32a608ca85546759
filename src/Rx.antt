-- ===== src/Rx.antt =====
-- The receive path of onic_main.c: `onic_rx_deliver` and `onic_rx_pkt_process`.
--
-- The chain of scatter-gather entries is a list, whose end is the NULL pointer. The entry that
-- `onic_rx_deliver` shortens is not looked at again after it. What `eth_type_trans` makes of a packet is
-- a parameter.
pub mod Deliver
pub mod Pages
pub mod Steps
use onic_driver.Base.{
  ℕ, zero, suc, ◌+◌, ◌%◌, ◌^◌, Bool, not, leb, ◌||◌, ◌==◌, if◌then◌else◌, add32, add64, sub32,
  sub64, List, [], ◌∷◌,
}
use onic_driver.Base.Int.{ℤ, pos, lt_zero, enomem, einval}
use onic_driver.Kernel.{
  SwSg, Frag, RxSkb, Op, Io, pure, ◌>>=◌, ◌>>◌, get, fetch, perform, modify_stats, eth_type_trans,
}

-- `ONIC_RX_COPY_THRES` and `ONIC_RX_PULL_LEN`
abbrev pub onic_rx_copy_thres : ℕ
onic_rx_copy_thres = 256

abbrev pub onic_rx_pull_len : ℕ
onic_rx_pull_len = 128

-- The loop of `onic_rx_deliver` that fills the fragments of the packet.
abbrev pub fill_page_descs : ℕ → List SwSg → List Frag
fill_page_descs zero sgl = []
fill_page_descs (suc sgcnt) [] = []
fill_page_descs (suc sgcnt) (s ∷ sgl) =
    record { pg = s.pg; offset = s.offset; size = s.len } ∷ fill_page_descs sgcnt sgl

-- The test of `onic_rx_deliver` for a packet that is copied whole.
abbrev pub copies : Bool → ℕ → Bool
copies features_sg len = leb len onic_rx_copy_thres || not features_sg

-- The packet that is a copy of `len` bytes of the first entry.
abbrev pub copied_skb : (addr len : ℕ) → SwSg → RxSkb
copied_skb addr len s = record {
  addr = addr;
  linear = record { pg = s.pg; offset = s.offset; size = len };
  frags = [];
  len = len;
  data_len = 0;
  truesize_add = 0;
  pulled_len = 0;
  protocol = 0;
  ip_summed = 0;
  queue = 0;
  napi = 0;
}

-- The first entry without the part that is copied to the packet's linear part.
abbrev pub pulled : SwSg → SwSg
pulled s = record s { offset = add32 s.offset onic_rx_pull_len; len = sub32 s.len onic_rx_pull_len }

-- The packet whose fragments are the pages of the entries.
abbrev pub paged_skb : (addr len sgcnt : ℕ) → SwSg → List SwSg → RxSkb
paged_skb addr len sgcnt s sgl = record {
  addr = addr;
  linear = record { pg = s.pg; offset = s.offset; size = onic_rx_pull_len };
  frags = fill_page_descs sgcnt (pulled s ∷ sgl);
  len = len;
  data_len = sub32 len onic_rx_pull_len;
  truesize_add = sub32 len onic_rx_pull_len;
  pulled_len = 0;
  protocol = 0;
  ip_summed = 0;
  queue = 0;
  napi = 0;
}

-- The packet as it is handed to the stack, from the answer of `eth_type_trans`; `CHECKSUM_NONE` is 0.
abbrev pub handed : (q_no : ℕ) → ℕ × RxSkb → RxSkb
handed q_no r = record r.1 { protocol = r.0; ip_summed = 0; queue = q_no; napi = q_no }

unfoldable pub onic_rx_deliver : (q_no len sgcnt : ℕ) → List SwSg → Io ℤ
onic_rx_deliver q_no len zero sgl = pure einval
onic_rx_deliver q_no len (suc n) [] = pure einval
onic_rx_deliver q_no len (suc n) (s ∷ sgl) = do
  w ← get
  if copies w.net.features_sg len
      then (do
        skb ← fetch (Op.napi_alloc_skb q_no len)
        if skb == 0 then pure enomem else do
          perform (Op.put_page s.pg)
          r ← eth_type_trans (copied_skb skb len s)
          perform (Op.netif_receive_skb (handed q_no r))
          pure (pos 0))
      else (do
        skb ← fetch (Op.napi_alloc_skb q_no onic_rx_pull_len)
        if skb == 0 then pure enomem else do
          r ← eth_type_trans (paged_skb skb len (suc n) s sgl)
          perform (Op.netif_receive_skb (handed q_no r))
          pure (pos 0))

-- The loop of `onic_rx_pkt_process` over the pages of a packet that could not be delivered.
unfoldable pub put_pages : ℕ → List SwSg → Io (Unit {0})
put_pages zero sgl = pure tt
put_pages (suc sgcnt) [] = pure tt
put_pages (suc sgcnt) (s ∷ sgl) = do perform (Op.put_page s.pg); put_pages sgcnt sgl

-- The queue of a handle, as `u32`.
abbrev pub rx_queue : (qhndl base : ℕ) → ℕ
rx_queue qhndl base = sub64 qhndl base % 2 ^ 32

-- `onic_rx_pkt_process`; `quld` is the address of the `struct onic_priv`, and `netdev` in it is read
-- before the address is compared with NULL.
unfoldable pub onic_rx_pkt_process : (qhndl quld len sgcnt : ℕ) → List SwSg → Io ℤ
onic_rx_pkt_process qhndl quld len sgcnt sgl = do
  w ← get
  if w.priv.netdev == 0
      then pure einval
      else if quld == 0
      then pure einval
      else if sgcnt == 0
      then pure einval
      else do
        let q_no = rx_queue qhndl w.priv.base_rx_q_handle
        ret ← onic_rx_deliver q_no len sgcnt sgl
        (if lt_zero ret then put_pages sgcnt sgl else pure tt)
        modify_stats (w.priv.rx_qstats + q_no)
            (λ s. record s { rx_packets = add64 s.rx_packets 1; rx_bytes = add64 s.rx_bytes len })
        pure ret
