-- ===== src/Rx/Pages.antt =====
-- Where the pages of a received packet go (onic_main.c: `onic_rx_pkt_process`).
use onic_driver.Base.{ℕ, ◌+◌, ◌≡◌, true, ◌==◌, if◌then◌else◌, add64, List, sum_of}
use onic_driver.Base.Int.{ℤ, pos, lt_zero}
use onic_driver.Kernel.{SwSg, Frag, QStats, Op, Event, Log, World}

abbrev pub is_page : ℕ → ℕ → ℕ
is_page p q = if p == q then 1 else 0

-- How often the page `p` is put by a call, and how often it goes to the stack as a fragment.
abbrev pub puts_op : ℕ → Op → ℕ
puts_op p (Op.put_page q) = is_page q p
puts_op p o = 0

abbrev pub passes_op : ℕ → Op → ℕ
passes_op p (Op.netif_receive_skb skb) = sum_of (λ (f : Frag). is_page f.pg p) skb.frags
passes_op p o = 0

-- Whether a call hands a packet to the stack.
abbrev pub hands_op : Op → ℕ
hands_op (Op.netif_receive_skb skb) = 1
hands_op o = 0

abbrev pub puts : ℕ → Log → ℕ
puts p l = sum_of (λ (e : Event). puts_op p e.op) l

abbrev pub passes : ℕ → Log → ℕ
passes p l = sum_of (λ (e : Event). passes_op p e.op) l

abbrev pub hands : Log → ℕ
hands l = sum_of (λ (e : Event). hands_op e.op) l

-- How often the page `p` stands in a chain of entries.
abbrev pub pages : ℕ → List SwSg → ℕ
pages p sgl = sum_of (λ (s : SwSg). is_page s.pg p) sgl

-- How a packet ends: it was handed to the stack and each of its pages went there or was put, or the
-- number `n p` of put pages was added to those of the page `p` and nothing was handed over.
pub data PacketEnds (sgl : List SwSg) (n : ℕ → ℕ) (w : World) (ret : ℤ) (w' : World) : Type 0 where
  passed_on :
      ret ≡ pos 0
      → hands w'.log ≡ hands w.log + 1
      → ((p : ℕ) → puts p w'.log + passes p w'.log ≡ puts p w.log + passes p w.log + pages p sgl)
      → PacketEnds sgl n w ret w'
  refused :
      lt_zero ret ≡ true
      → hands w'.log ≡ hands w.log
      → ((p : ℕ) → puts p w'.log ≡ puts p w.log + n p)
      → PacketEnds sgl n w ret w'

-- The counters of a receive queue after a packet of `n` bytes.
abbrev pub received : ℕ → ℕ → (ℕ → QStats) → ℕ → QStats
received a n t b =
    if b == a
    then record (t a) { rx_packets = add64 (t a).rx_packets 1; rx_bytes = add64 (t a).rx_bytes n }
    else t b
