-- ===== src/Netdev/Quiet.antt =====
-- The steps of `onic_open` and `onic_stop` that take no queue and give none back.
use onic_driver.Base.{ℕ, ◌+◌, ◌≡◌, ◌∙◌, refl, inl, inr, true, ◌==◌, Bool-cases, arith}
use onic_driver.Base.Int.{ℤ}
use onic_driver.Kernel.{Op, qstats, Env, World, called}
use onic_driver.Kernel.Tally.{Weights, weigh_op}
use onic_driver.Queue.Resource.{acquire, release, Flow, Flow-eq, Flow-trans, IsIdle, alloc-IsIdle}
use onic_driver.Kernel.Steps.{Frame, Always, Calls}
use onic_driver.Netdev.Steps.{is_up_call, each_queue-Always, onic_open_up-Always}
use onic_driver.Netdev.{onic_stats_alloc, each_queue, onic_open_up}

-- The private part is the same, and no resource has changed hands.
pub record Quiet (w w' : World) : Type 0 where
  pub same_priv : w'.priv ≡ w.priv
  pub quiet : Flow w w' (λ x. 0) (λ x. 0)

-- A call other than adding or starting a queue weighs what its operation weighs.
abbrev pub IsPlain : Op → Type 0
IsPlain op = (g : Weights) (s : ℤ) (v : ℕ) → weigh_op g op s v ≡ g.other op

pub Quiet-trans : {u v w : World} → Quiet u v → Quiet v w → Quiet u w
Quiet-trans a b = record {
  same_priv = b.same_priv ∙ a.same_priv;
  quiet = Flow-eq (Flow-trans a.quiet b.quiet) (λ x. omega arith);
}

pub called-Quiet :
    (env : Env) (op : Op) (w : World) → IsPlain op → IsIdle op → Quiet w (called op env w)
called-Quiet env op w plain idle = record {
  same_priv = refl;
  quiet = record {
    same_net = refl;
    same_device = refl;
    flow = λ x.
        let s = env.status w.log op in
        let v = env.value w.log op in
        omega (arith, plain (acquire x) s v, plain (release x) s v, (idle x).0, (idle x).1);
  };
}

pub Quiet-refl : {w : World} → Quiet w w
Quiet-refl = record {
  same_priv = refl;
  quiet = record { same_net = refl; same_device = refl; flow = λ x. omega arith };
}

pub Quiet-Frame : Frame Quiet
Quiet-Frame = record { stay = λ w. Quiet-refl; both = Quiet-trans }

up-IsPlain : (op : Op) → is_up_call op ≡ true → IsPlain op
up-IsPlain op e g s v = ground arith

up-IsIdle : (op : Op) → is_up_call op ≡ true → IsIdle op
up-IsIdle op e x = ground arith

pub up-Calls : (op : Op) → is_up_call op ≡ true → Calls Quiet-Frame op
up-Calls op e env w = called-Quiet env op w (up-IsPlain op e) (up-IsIdle op e)

pub napi_disable-Quiet : (k q : ℕ) → Always Quiet-Frame (each_queue Op.napi_disable k q)
napi_disable-Quiet = each_queue-Always Quiet-Frame up-Calls Op.napi_disable (λ i. refl)

pub onic_open_up-Quiet : Always Quiet-Frame onic_open_up
onic_open_up-Quiet = onic_open_up-Always Quiet-Frame up-Calls

pub onic_stats_alloc-Flow :
    (env : Env) (xpriv : ℕ) (w : World) → Flow w (onic_stats_alloc xpriv env w).1 (λ x. 0) (λ x. 0)
unfolding onic_stats_alloc
onic_stats_alloc-Flow env xpriv w =
    let n = w.net.real_num_tx_queues + w.net.real_num_rx_queues in
    let op = Op.alloc qstats n in
    let asked = called-Quiet env op w (λ g s v. refl) (alloc-IsIdle qstats n) in
    elim (Bool-cases (xpriv == 0)) [
      | inl null ↦ rw null (Quiet-refl {w = w}).quiet
      | inr found ↦ rw found (elim (Bool-cases (w.priv.netdev == 0)) [
        | inl null ↦ rw null (Quiet-refl {w = w}).quiet
        | inr found ↦ rw found (elim (Bool-cases (env.value w.log op == 0)) [
          | inl null ↦
              rw null (record { same_net = refl; same_device = refl; flow = asked.quiet.flow })
          | inr found ↦
              rw found (record { same_net = refl; same_device = refl; flow = asked.quiet.flow })
        ])
      ])
    ]
