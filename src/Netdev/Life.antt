-- ===== src/Netdev/Life.antt =====
-- The life of an interface (onic_main.c): `onic_open` and `onic_stop` in turn, with the traffic and the
-- interrupts between them, against a machine of two states.
use onic_driver.Base.{ℕ, ◌+◌, ◌≡◌, refl, ap, true, false, ◌==◌, Option, List, arith}
use onic_driver.Base.Int.{pos, ne_zero}
use onic_driver.Kernel.{SwSg, Skb, OnicDmaRequest, NetDevice, QType, Env, World}
use onic_driver.Tx.{onic_start_xmit, onic_tx_done}
use onic_driver.Rx.{onic_rx_pkt_process}
use onic_driver.Queue.Setup.{HandlesFollow}
use onic_driver.Queue.Resource.{Resource, acquired, released, Flow, Flow-eq, Flow-trans}
use onic_driver.Netdev.{
  onic_open, onic_stop, onic_rx_poll, onic_isr_rx_tophalf, onic_isr_tx_tophalf,
}
use onic_driver.Netdev.Handlers.{
  tx_done-Quiet, start_xmit-Quiet, pkt_process-Quiet, rx_poll-Quiet, rx_isr-Quiet, tx_isr-Quiet,
}
use onic_driver.Netdev.Quiet.{Quiet}
use onic_driver.Netdev.Balance.{
  held, KnowsHandles, KnowsHandles-same, QueuesFit, QueuesFit-same, opened, not_opened,
}
use onic_driver.Netdev.Open.{onic_open-Ends}
use onic_driver.Netdev.Stop.{onic_stop-Flow}

-- What an interface is to the kernel, and what it owns then.
pub data Phase : Type 0 where
  down up : Phase

abbrev pub owns : (QType → ℕ) → NetDevice → Phase → Resource → ℕ
owns first n Phase.down x = 0
owns first n Phase.up x = held first n x

-- The states that the interface `netdev` can reach from `w`, where it is down. The kernel opens an
-- interface that is down and stops one that is up; an error of `onic_open` leaves it down, whatever
-- `onic_stop` returns takes it down. Completions may come late.
pub data Life (env : Env) (netdev : ℕ) (w : World) : World → Phase → Type 0 where
  begin : Life env netdev w w Phase.down
  opens :
      {v : World}
      → Life env netdev w v Phase.down
      → (onic_open netdev env v).0 ≡ pos 0
      → Life env netdev w (onic_open netdev env v).1 Phase.up
  fails :
      {v : World}
      → Life env netdev w v Phase.down
      → ne_zero (onic_open netdev env v).0 ≡ true
      → Life env netdev w (onic_open netdev env v).1 Phase.down
  stops :
      {v : World}
      → Life env netdev w v Phase.up
      → Life env netdev w (onic_stop netdev env v).1 Phase.down
  transmits :
      {v : World} (skb : Skb)
      → Life env netdev w v Phase.up
      → Life env netdev w (onic_start_xmit skb netdev env v).1 Phase.up
  completes :
      {v : World} {phase : Phase} (req : Option OnicDmaRequest)
      → Life env netdev w v phase
      → Life env netdev w (onic_tx_done req env v).1 phase
  receives :
      {v : World} (qhndl quld len sgcnt : ℕ) (sgl : List SwSg)
      → Life env netdev w v Phase.up
      → Life env netdev w (onic_rx_pkt_process qhndl quld len sgcnt sgl env v).1 Phase.up
  polls :
      {v : World} (napi queue_id quota : ℕ)
      → Life env netdev w v Phase.up
      → Life env netdev w (onic_rx_poll napi netdev queue_id quota env v).1 Phase.up
  rx_interrupt :
      {v : World} (qhndl : ℕ)
      → Life env netdev w v Phase.up
      → Life env netdev w (onic_isr_rx_tophalf qhndl env v).1 Phase.up
  tx_interrupt :
      {v : World} (qhndl : ℕ)
      → Life env netdev w v Phase.up
      → Life env netdev w (onic_isr_tx_tophalf qhndl env v).1 Phase.up

-- What is known of a state of the life: what the phase owns is held, and an open interface knows its
-- queues.
record Knows (first : QType → ℕ) (w v : World) (phase : Phase) : Type 0 where
  flow : Flow w v (owns first w.net phase) (λ x. 0)
  handles : phase ≡ Phase.up → KnowsHandles first v

quiet-Knows :
    {first : QType → ℕ} {w v u : World} {phase : Phase}
    → Knows first w v phase
    → Quiet v u
    → Knows first w u phase
quiet-Knows {first} {w} {v} {u} k q = record {
  flow = Flow-eq (Flow-trans k.flow q.quiet) (λ x. omega arith);
  handles = λ e. KnowsHandles-same v u q.quiet.same_net q.same_priv (k.handles e);
}

module _ (first : QType → ℕ) (env : Env) (netdev : ℕ) (w : World) (follow : HandlesFollow env first)
    (fit : QueuesFit w) (found : (netdev == 0) ≡ false)
    (has_priv : (env.priv_of netdev == 0) ≡ false) where
  Life-Knows : (v : World) (phase : Phase) → Life env netdev w v phase → Knows first w v phase
  Life-Knows v Phase.down begin = record {
    flow = record { same_net = refl; same_device = refl; flow = λ x. omega arith };
    handles = λ e. cc;
  }
  Life-Knows _ Phase.up (opens {v = v} l good) =
      let k = Life-Knows v Phase.down l in
      elim (onic_open-Ends first env follow netdev v (QueuesFit-same k.flow.same_net fit)) [
        | not_opened bad f ↦ cc (ap ne_zero good)
        | opened z know f ↦ record {
          flow =
              Flow-eq (Flow-trans k.flow f)
                (λ x. omega (arith, ap (λ n. held first n x) k.flow.same_net));
          handles = λ e. know;
        }
      ]
  Life-Knows _ Phase.down (fails {v = v} l bad) =
      let k = Life-Knows v Phase.down l in
      elim (onic_open-Ends first env follow netdev v (QueuesFit-same k.flow.same_net fit)) [
        | opened z know f ↦ cc (ap ne_zero z)
        | not_opened b f ↦ record {
          flow = Flow-eq (Flow-trans k.flow f) (λ x. omega arith);
          handles = λ e. cc;
        }
      ]
  Life-Knows _ Phase.down (stops {v = v} l) =
      let k = Life-Knows v Phase.up l in
      let f =
        onic_stop-Flow first env netdev v (QueuesFit-same k.flow.same_net fit) (k.handles refl)
          found has_priv in
      record {
        flow =
            Flow-eq (Flow-trans k.flow f)
              (λ x. omega (arith, ap (λ n. held first n x) k.flow.same_net));
        handles = λ e. cc;
      }
  Life-Knows _ Phase.up (transmits {v = v} skb l) =
      quiet-Knows (Life-Knows v Phase.up l) (start_xmit-Quiet env skb netdev v)
  Life-Knows _ phase (completes {v = v} req l) =
      quiet-Knows (Life-Knows v phase l) (tx_done-Quiet env req v)
  Life-Knows _ Phase.up (receives {v = v} qhndl quld len sgcnt sgl l) =
      quiet-Knows (Life-Knows v Phase.up l) (pkt_process-Quiet env qhndl quld len sgcnt sgl v)
  Life-Knows _ Phase.up (polls {v = v} napi queue_id quota l) =
      quiet-Knows (Life-Knows v Phase.up l) (rx_poll-Quiet env napi netdev queue_id quota v)
  Life-Knows _ Phase.up (rx_interrupt {v = v} qhndl l) =
      quiet-Knows (Life-Knows v Phase.up l) (rx_isr-Quiet env qhndl v)
  Life-Knows _ Phase.up (tx_interrupt {v = v} qhndl l) =
      quiet-Knows (Life-Knows v Phase.up l) (tx_isr-Quiet env qhndl v)

  -- The interface implements a machine of two states. Whatever sequence of openings, failed openings,
  -- stops, transmissions, completions, received packets, polls and interrupts leads from a state in
  -- which the interface is down, as long as the kernel opens only what is down and stops only what is
  -- up: when it is down, every queue, running queue and NAPI structure has been given back as often as
  -- it was taken, and when it is up, exactly its queues, running, and their NAPI structures are held
  -- beyond that. The handles of the queues follow one another, the numbers of queues fit 16 bits, and
  -- the network device is not NULL and has a private part.
  pub Life-owns :
      (v : World) (phase : Phase)
      → Life env netdev w v phase
      → (x : Resource)
      → acquired x v.log + released x w.log
        ≡ released x v.log + acquired x w.log + owns first w.net phase x
  Life-owns v phase l x = omega (arith, (Life-Knows v phase l).flow.flow x)
