-- ===== src/Netdev/Allocs.antt =====
-- Who frees the memory of an interface (onic_main.c: `onic_open`, `onic_stop`).
use onic_driver.Base.{
  ℕ, ◌+◌, ◌≡◌, ◌∙◌, refl, ap, sym, inl, inr, ◌⊎◌, true, false, Bool-cases, ◌==◌, if◌then◌else◌,
  arith,
}
use onic_driver.Base.Int.{ℤ, pos, ne_zero}
use onic_driver.Kernel.{qstats, Op, Env, World, Io, ◌>>=◌}
use onic_driver.Kernel.Ledger.{Moves, Rests, Rests-refl, taken, given}
use onic_driver.Kernel.Blocks.{memory, block, block-null, kfree-Moves, alloc-Moves}
use onic_driver.Queue.{
  onic_qdma_rx_queue_setup, onic_qdma_tx_queue_setup, onic_qdma_tx_queue_release, onic_qdma_start,
}
use onic_driver.Netdev.{
  onic_stats_alloc, onic_open_up, release_rx_queues, release_queues, onic_open,
}
use onic_driver.Netdev.Blocks.{
  Fixed, Fixed-Frame, set_up, not_set_up, rx_release-Moves, rx_setup-SetUp, tx_setup-Fixed,
  start-Fixed, tx_release-Fixed, open_up-Fixed,
}

-- The part of `onic_open` behind the set-up of the receive queues.
abbrev pub open_rest : Io ℤ
open_rest = do
  ret ← onic_qdma_tx_queue_setup
  if ne_zero ret
      then release_rx_queues ret
      else do ret ← onic_qdma_start; if ne_zero ret then release_queues ret else onic_open_up

-- From `w` on, an error gives back the NAPI structures, and a success keeps them.
record Rest (w : World) (ret : ℤ) (v : World) : Type 0 where
  moves : Moves memory w v (block w.priv.napi) (λ a. if ne_zero ret then 0 else block v.priv.napi a)
  same_stats : v.priv.tx_qstats ≡ w.priv.tx_qstats

module _ (env : Env) where
  release_rx-Rest :
      (ret : ℤ) (w : World)
      → ne_zero ret ≡ true
      → let r = release_rx_queues ret env w in Rest w r.0 r.1
  unfolding release_rx_queues
  release_rx-Rest ret w bad =
      let (m, e) = rx_release-Moves env w.net.real_num_rx_queues w in
      record { moves = record { moves = λ a. rw bad (m.moves a) }; same_stats = e }

  Rest-behind : {w v : World} {ret : ℤ} {u : World} → Fixed w v → Rest v ret u → Rest w ret u
  Rest-behind {w} {v} {ret} {u} f r = record {
    moves = record {
      moves = λ a. omega (arith, f.rests.moves a, r.moves.moves a, ap (λ p. block p a) f.same_napi);
    };
    same_stats = r.same_stats ∙ f.same_stats;
  }

  release-Rest :
      (ret : ℤ) (w : World)
      → ne_zero ret ≡ true
      → let r = release_queues ret env w in Rest w r.0 r.1
  unfolding release_queues
  release-Rest ret w bad =
      let m = w.net.real_num_tx_queues in
      Rest-behind (tx_release-Fixed env m env w)
        (release_rx-Rest ret (onic_qdma_tx_queue_release m env w).1 bad)

  up-Rest : (w : World) → let r = onic_open_up env w in Rest w r.0 r.1
  unfolding onic_open_up
  up-Rest w =
      let f = open_up-Fixed env env w in
      record {
        moves = record {
          moves = λ a. omega (arith, f.rests.moves a, ap (λ p. block p a) f.same_napi);
        };
        same_stats = f.same_stats;
      }

  open_rest-Rest : (w : World) → let r = open_rest env w in Rest w r.0 r.1
  open_rest-Rest w =
      let r = onic_qdma_tx_queue_setup env w in
      let s = onic_qdma_start env r.1 in
      elim (Bool-cases (ne_zero r.0)) [
        | inl bad ↦ rw bad (Rest-behind (tx_setup-Fixed env env w) (release_rx-Rest r.0 r.1 bad))
        | inr good ↦ rw good (elim (Bool-cases (ne_zero s.0)) [
          | inl bad ↦ rw bad (
              Rest-behind (Fixed-Frame.both (tx_setup-Fixed env env w) (start-Fixed env env r.1))
                (release-Rest s.0 s.1 bad))
          | inr fine ↦ rw fine (
              Rest-behind (Fixed-Frame.both (tx_setup-Fixed env env w) (start-Fixed env env r.1))
                (up-Rest s.1))
        ])
      ]

-- What `onic_open` does with the memory, by how far it comes.
pub data OpenMemory (w : World) (ret : ℤ) (v : World) : Type 0 where
  nothing_held : ne_zero ret ≡ true → Rests memory w v → OpenMemory w ret v
  counters_held :
      Moves memory w v
        (λ a. 0)
        (λ a. block v.priv.tx_qstats a + (if ne_zero ret then 0 else block v.priv.napi a))
      → OpenMemory w ret v

module _ (env : Env) (netdev : ℕ) (w : World) where
  -- The counters' memory, and whether it was handed out.
  stats_alloc-Moves :
      (xpriv : ℕ)
      → let r = onic_stats_alloc xpriv env w in
        ((ne_zero r.0 ≡ true) × Rests memory w r.1)
        ⊎ ((ne_zero r.0 ≡ false) × Moves memory w r.1 (λ a. 0) (block r.1.priv.tx_qstats))
  unfolding onic_stats_alloc
  stats_alloc-Moves xpriv =
      let n = w.net.real_num_tx_queues + w.net.real_num_rx_queues in
      let op = Op.alloc qstats n in
      let took = alloc-Moves env qstats n w refl in
      let p = env.value w.log op in
      elim (Bool-cases (xpriv == 0)) [
        | inl null ↦ rw null (inl (refl, Rests-refl memory w))
        | inr found ↦ rw found (elim (Bool-cases (w.priv.netdev == 0)) [
          | inl null ↦ rw null (inl (refl, Rests-refl memory w))
          | inr found ↦ rw found (elim (Bool-cases (p == 0)) [
            | inl null ↦ rw null (
                inl
                  (refl, record { moves = λ a. omega (arith, took.moves a, block-null p a null) }))
            | inr there ↦ rw there (inr (refl, record { moves = took.moves }))
          ])
        ])
      ]

  -- `onic_open` either fails and holds no memory, or it holds the memory of the counters, whatever it
  -- returns, and that of the NAPI structures exactly where it returns 0.
  pub onic_open-OpenMemory : let r = onic_open netdev env w in OpenMemory w r.0 r.1
  unfolding onic_open
  onic_open-OpenMemory =
      let xpriv = env.priv_of netdev in
      let s = onic_stats_alloc xpriv env w in
      let q = onic_qdma_rx_queue_setup env s.1 in
      let rest = open_rest-Rest env q.1 in
      elim (Bool-cases (netdev == 0)) [
        | inl null ↦ rw null (nothing_held refl (Rests-refl memory w))
        | inr found ↦ rw found (elim (Bool-cases (xpriv == 0)) [
          | inl null ↦ rw null (nothing_held refl (Rests-refl memory w))
          | inr found ↦ rw found (elim (stats_alloc-Moves xpriv) [
            | inl (bad, m) ↦ rw bad (nothing_held bad m)
            | inr (good, m) ↦ rw good (elim (rx_setup-SetUp env s.1) [
              | not_set_up bad k e ↦ rw bad (
                  nothing_held bad (record {
                    moves = λ a. omega (
                      arith,
                      m.moves a,
                      k.moves a,
                      (kfree-Moves env q.1.priv.tx_qstats q.1).moves a,
                      ap (λ p. block p a) e,
                    );
                  }))
              | set_up fine k e ↦ rw (ap ne_zero fine) (
                  counters_held (record {
                    moves = λ a. omega (
                      arith,
                      m.moves a,
                      k.moves a,
                      rest.moves.moves a,
                      ap (λ p. block p a) (rest.same_stats ∙ e),
                    );
                  }))
            ])
          ])
        ])
      ]

  -- Behind the two allocations only the rest of `onic_open` is left.
  onic_open-open_rest :
      let s = onic_stats_alloc (env.priv_of netdev) env w in
      let q = onic_qdma_rx_queue_setup env s.1 in
      (netdev == 0) ≡ false
      → (env.priv_of netdev == 0) ≡ false
      → s.0 ≡ pos 0
      → q.0 ≡ pos 0
      → onic_open netdev env w ≡ open_rest env q.1
  unfolding onic_open
  onic_open-open_rest found has_priv good fine =
      rw (found, has_priv, ap ne_zero good, ap ne_zero fine) refl

  -- When the counters have been allocated and the receive queues set up, an error of `onic_open` leaves
  -- the memory of the counters allocated and not freed, and all other memory freed. The network device
  -- is not NULL and has a private part.
  pub onic_open-leaks :
      let s = onic_stats_alloc (env.priv_of netdev) env w in
      let w' = (onic_open netdev env w).1 in
      (netdev == 0) ≡ false
      → (env.priv_of netdev == 0) ≡ false
      → s.0 ≡ pos 0
      → (onic_qdma_rx_queue_setup env s.1).0 ≡ pos 0
      → ne_zero (onic_open netdev env w).0 ≡ true
      → (a : ℕ)
      → taken memory a w'.log + given memory a w.log
        ≡ given memory a w'.log + taken memory a w.log + block w'.priv.tx_qstats a
  onic_open-leaks found has_priv good fine bad a =
      let s = onic_stats_alloc (env.priv_of netdev) env w in
      let q = onic_qdma_rx_queue_setup env s.1 in
      let same = onic_open-open_rest found has_priv good fine in
      let rest = open_rest-Rest env q.1 in
      elim (stats_alloc-Moves (env.priv_of netdev)) [
        | inl (fails, m) ↦ cc (ap ne_zero good)
        | inr (fine', m) ↦ elim (rx_setup-SetUp env s.1) [
          | not_set_up fails k e ↦ cc (ap ne_zero fine)
          | set_up z k e ↦ omega (
            arith,
            m.moves a,
            k.moves a,
            rest.moves.moves a,
            ap (λ p. block p a) (rest.same_stats ∙ e),
            ap {B = ℕ} (λ t. taken memory a t.1.log) same,
            ap {B = ℕ} (λ t. given memory a t.1.log) same,
            ap {B = ℕ} (λ t. block t.1.priv.tx_qstats a) same,
            ap {B = ℕ} (λ b. if b then 0 else block (open_rest env q.1).1.priv.napi a)
                (sym (ap (λ t. ne_zero t.0) same) ∙ bad),
          )
        ]
      ]
