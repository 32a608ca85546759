-- ===== src/Netdev/Blocks.antt =====
-- The memory of an interface (onic_main.c: `onic_open`, `onic_stop`): the counters of its queues and the
-- NAPI structures.
use onic_driver.Base.{ℕ, ◌≡◌, ◌∙◌, refl, ap, inl, inr, true, false, Bool-cases, ◌==◌, arith}
use onic_driver.Base.Int.{ℤ, pos, ne_zero}
use onic_driver.Kernel.{OnicPriv, napi_structs, Op, Env, World, called}
use onic_driver.Kernel.Ledger.{Moves, Rests, Rests-refl, Rests-trans}
use onic_driver.Kernel.Blocks.{
  memory, block, moves_block, called-Rests, block-null, kfree-Moves, alloc-Moves,
}
use onic_driver.Kernel.Steps.{Frame, Always, Calls}
use onic_driver.Queue.{
  rx_setup_loop, rx_release_loop, onic_qdma_rx_queue_setup, onic_qdma_rx_queue_release,
  onic_qdma_tx_queue_setup, onic_qdma_tx_queue_release, onic_qdma_start, onic_qdma_stop,
}
use onic_driver.Queue.Steps.{
  is_queue_call, rx_setup_loop-Always, rx_release_loop-Always, tx_queue_release-Always,
  tx_queue_setup-Always, onic_qdma_stop-Always, onic_qdma_start-Always,
}
use onic_driver.Netdev.Steps.{is_up_call, each_queue-Always, onic_open_up-Always}
use onic_driver.Netdev.{each_queue, onic_open_up}

-- No memory moves, and the driver's pointers to it stay.
pub record Fixed (w v : World) : Type 0 where
  pub rests : Rests memory w v
  pub same_napi : v.priv.napi ≡ w.priv.napi
  pub same_stats : v.priv.tx_qstats ≡ w.priv.tx_qstats

pub Fixed-Frame : Frame Fixed
Fixed-Frame = record {
  stay = λ w. record { rests = Rests-refl memory w; same_napi = refl; same_stats = refl };
  both = λ a b. record {
    rests = Rests-trans memory a.rests b.rests;
    same_napi = b.same_napi ∙ a.same_napi;
    same_stats = b.same_stats ∙ a.same_stats;
  };
}

pub called-Fixed :
    (env : Env) (op : Op) (w : World) → moves_block op ≡ false → Fixed w (called op env w)
called-Fixed env op w e = record {
  rests = called-Rests env op w e;
  same_napi = refl;
  same_stats = refl;
}

queue-Calls : (op : Op) → is_queue_call op ≡ true → Calls Fixed-Frame op
queue-Calls op e env w = called-Fixed env op w (ground (arith, e))

up-Calls : (op : Op) → is_up_call op ≡ true → Calls Fixed-Frame op
up-Calls op e env w = called-Fixed env op w (ground (arith, e))

priv-Fixed :
    (w : World) (p : OnicPriv)
    → p.napi ≡ w.priv.napi
    → p.tx_qstats ≡ w.priv.tx_qstats
    → Fixed w (record w { priv = p })
priv-Fixed w p a b = record {
  rests = record { moves = λ x. omega arith };
  same_napi = a;
  same_stats = b;
}

-- How the receive queues are set up: with the memory of their NAPI structures, or not at all.
pub data SetUp (w : World) (ret : ℤ) (v : World) : Type 0 where
  set_up :
      ret ≡ pos 0
      → Moves memory w v (λ a. 0) (block v.priv.napi)
      → v.priv.tx_qstats ≡ w.priv.tx_qstats
      → SetUp w ret v
  not_set_up :
      ne_zero ret ≡ true → Rests memory w v → v.priv.tx_qstats ≡ w.priv.tx_qstats → SetUp w ret v

module _ (env : Env) where
  pub rx_release-Moves :
      (k : ℕ) (w : World)
      → let v = (onic_qdma_rx_queue_release k env w).1 in
        Moves memory w v (block w.priv.napi) (λ a. 0) × (v.priv.tx_qstats ≡ w.priv.tx_qstats)
  unfolding onic_qdma_rx_queue_release
  rx_release-Moves k w =
      let v = (rx_release_loop k 0 env w).1 in
      let f =
        rx_release_loop-Always Fixed-Frame queue-Calls (λ h env w. priv-Fixed w _ refl refl)
          (λ h env w. priv-Fixed w _ refl refl) k 0 env w in
      (
        record {
          moves = λ a. omega (
            arith,
            f.rests.moves a,
            (kfree-Moves env v.priv.napi v).moves a,
            ap (λ p. block p a) f.same_napi,
          );
        },
        f.same_stats,
      )

  pub rx_setup-SetUp : (w : World) → let r = onic_qdma_rx_queue_setup env w in SetUp w r.0 r.1
  unfolding onic_qdma_rx_queue_setup
  rx_setup-SetUp w =
      let n = w.net.real_num_rx_queues in
      let op = Op.alloc napi_structs n in
      let napi = env.value w.log op in
      let asked = called op env w in
      let v = record asked { priv = record w.priv { napi = napi } } in
      let took = alloc-Moves env napi_structs n w refl in
      let r = rx_setup_loop n 0 env v in
      let f =
        rx_setup_loop-Always Fixed-Frame queue-Calls (λ h env w. priv-Fixed w _ refl refl)
          (λ h env w. priv-Fixed w _ refl refl) n 0 env v in
      elim (Bool-cases (napi == 0)) [
        | inl null ↦ rw null (
            not_set_up refl
              (record { moves = λ a. omega (arith, took.moves a, block-null napi a null) }) refl)
        | inr there ↦ rw there (elim (Bool-cases (ne_zero r.0.0)) [
          | inl bad ↦
              let (m, e) = rx_release-Moves r.0.1 r.1 in
              rw bad (
                not_set_up bad
                  (record {
                    moves = λ a. omega (
                      arith,
                      took.moves a,
                      f.rests.moves a,
                      m.moves a,
                      ap (λ p. block p a) f.same_napi,
                    );
                  })
                  (e ∙ f.same_stats))
          | inr good ↦ rw good (
              set_up refl
                (record {
                  moves = λ a.
                      omega (arith, took.moves a, f.rests.moves a, ap (λ p. block p a) f.same_napi);
                })
                f.same_stats)
        ])
      ]

  -- The functions behind the set-up of the receive queues leave the memory.
  pub tx_setup-Fixed : Always Fixed-Frame onic_qdma_tx_queue_setup
  tx_setup-Fixed =
      tx_queue_setup-Always Fixed-Frame queue-Calls (λ h env w. priv-Fixed w _ refl refl)
        (λ h env w. priv-Fixed w _ refl refl)

  pub start-Fixed : Always Fixed-Frame onic_qdma_start
  start-Fixed =
      onic_qdma_start-Always Fixed-Frame queue-Calls (λ h env w. priv-Fixed w _ refl refl)
        (λ h env w. priv-Fixed w _ refl refl)

  pub stop-Fixed : (txq rxq : ℕ) → Always Fixed-Frame (onic_qdma_stop txq rxq)
  stop-Fixed =
      onic_qdma_stop-Always Fixed-Frame queue-Calls (λ h env w. priv-Fixed w _ refl refl)
        (λ h env w. priv-Fixed w _ refl refl)

  pub tx_release-Fixed : (k : ℕ) → Always Fixed-Frame (onic_qdma_tx_queue_release k)
  tx_release-Fixed =
      tx_queue_release-Always Fixed-Frame queue-Calls (λ h env w. priv-Fixed w _ refl refl)
        (λ h env w. priv-Fixed w _ refl refl)

  pub napi_disable-Fixed : (k q : ℕ) → Always Fixed-Frame (each_queue Op.napi_disable k q)
  napi_disable-Fixed = each_queue-Always Fixed-Frame up-Calls Op.napi_disable (λ i. refl)

  pub open_up-Fixed : Always Fixed-Frame onic_open_up
  open_up-Fixed = onic_open_up-Always Fixed-Frame up-Calls
