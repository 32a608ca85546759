-- ===== src/Rx/Deliver.antt =====
-- The bytes of a received packet and of its segments (`onic_rx_deliver` of onic_main.c).
use onic_driver.Base.{
  ℕ, zero, suc, ◌+◌, ◌-◌, ◌^◌, ◌<◌, ◌≤◌, ◌≡◌, Bool, true, false, List, [], ◌∷◌, ◌++◌, length,
  sum_of,
}
use onic_driver.Kernel.{SwSg, Frag, RxSkb, Op, Event, Log, Env, World}
use onic_driver.Rx.{copies}

-- The places of `n` bytes of the page `pg` from an offset on.
abbrev pub bytes : ℕ → ℕ → ℕ → List (ℕ × ℕ)
bytes pg offset zero = []
bytes pg offset (suc n) = (pg, offset) ∷ bytes pg (offset + 1) n

abbrev pub frag_bytes : List Frag → List (ℕ × ℕ)
frag_bytes [] = []
frag_bytes (f ∷ frags) = bytes f.pg f.offset f.size ++ frag_bytes frags

abbrev pub sgl_bytes : List SwSg → List (ℕ × ℕ)
sgl_bytes [] = []
sgl_bytes (s ∷ sgl) = bytes s.pg s.offset s.len ++ sgl_bytes sgl

-- The bytes that were pulled from a packet, and those of the packet: the rest of its linear part and
-- then its fragments.
abbrev pub header_bytes : RxSkb → List (ℕ × ℕ)
header_bytes skb = bytes skb.linear.pg skb.linear.offset skb.pulled_len

abbrev pub skb_bytes : RxSkb → List (ℕ × ℕ)
skb_bytes skb =
    bytes skb.linear.pg (skb.linear.offset + skb.pulled_len) (skb.linear.size - skb.pulled_len)
    ++ frag_bytes skb.frags

-- What is documented of `eth_type_trans`: it pulls the 14 bytes of the Ethernet header from a packet
-- whose linear part holds them.
pub record PullsHeader (env : Env) : Type 0 where
  pub pulls :
      (l : Log) (skb : RxSkb)
      → skb.pulled_len + 14 ≤ skb.linear.size
      → (env.typed l skb).1 ≡ (record skb { pulled_len = skb.pulled_len + 14; len = skb.len - 14 })

-- A packet of `len` bytes as the device hands it over: one entry, with an Ethernet header, where it is
-- copied whole; else the entries add up, and the first one holds what is copied from it.
pub data IsPacket (features_sg : Bool) (len sgcnt : ℕ) (sgl : List SwSg) : Type 0 where
  in_one :
      (s : SwSg)
      → copies features_sg len ≡ true
      → sgl ≡ s ∷ []
      → sgcnt ≡ 1
      → s.len ≡ len
      → 14 ≤ len
      → IsPacket features_sg len sgcnt sgl
  in_pages :
      (s : SwSg) (rest : List SwSg)
      → copies features_sg len ≡ false
      → sgl ≡ s ∷ rest
      → sgcnt ≡ suc (length rest)
      → 128 ≤ s.len
      → s.len < 2 ^ 32
      → s.offset + 128 < 2 ^ 32
      → s.len + sum_of (λ (t : SwSg). t.len) rest ≡ len
      → IsPacket features_sg len sgcnt sgl

-- The packet `skb` was handed to the stack by the last call, without its Ethernet header.
pub record Delivered (q_no len : ℕ) (sgl : List SwSg) (w' : World) : Type 0 where
  pub skb : RxSkb
  pub event : Event
  pub rest : Log
  pub last : w'.log ≡ event ∷ rest
  pub op : event.op ≡ Op.netif_receive_skb skb
  pub header : skb.pulled_len ≡ 14
  pub content : header_bytes skb ++ skb_bytes skb ≡ sgl_bytes sgl
  pub size : skb.len + 14 ≡ len
  pub no_checksum : skb.ip_summed ≡ 0
  pub queue : skb.queue ≡ q_no
  pub napi : skb.napi ≡ q_no
