-- ===== src/Setup/Report.antt =====
-- The report of the device's tables that `onic_qdma_csr_index_setup` (onic_main.c) asks for.
use onic_driver.Base.{ℕ, ◌≡◌, ◌∙◌, refl, ap, sym, inl, inr, Bool-cases, [], ◌∷◌, ◌++◌}
use onic_driver.Base.Int.{ne_zero-false, pos, ne_zero, lt_zero}
use onic_driver.Kernel.{Op, Event, Log, Env, World, called}
use onic_driver.Kernel.Steps.{Frame}
use onic_driver.Setup.{onic_qdma_csr_index_setup}
use onic_driver.Setup.Steps.{searches-Always}
use mathlib.Core.List.{append_assoc}

-- The calls of `w` are still the first ones in `v`.
pub record Grows (w v : World) : Type 0 where
  pub later : Log
  pub grown : v.log ≡ later ++ w.log

pub Grows-refl : (w : World) → Grows w w
Grows-refl w = record { later = []; grown = refl }

pub Grows-trans : {u v w : World} → Grows u v → Grows v w → Grows u w
Grows-trans {u} a b = record {
  later = b.later ++ a.later;
  grown = b.grown ∙ ap (λ l. b.later ++ l) a.grown ∙ sym (append_assoc b.later a.later u.log);
}

pub Grows-Frame : Frame Grows
Grows-Frame = record { stay = Grows-refl; both = Grows-trans }

pub called-Grows : (env : Env) (op : Op) (w : World) → Grows w (called op env w)
called-Grows env op w = record {
  later = record { op = op; status = env.status w.log op; value = env.value w.log op } ∷ [];
  grown = refl;
}

-- Between `w` and `v` the device with the handle `handle` was asked for its tables, behind the calls
-- `log`, and answered with success.
pub record Reported (handle : ℕ) (w : World) (log : Log) (v : World) : Type 0 where
  pub event : Event
  pub op : event.op ≡ Op.qdma_global_csr_get handle
  pub good : event.status ≡ pos 0
  pub before : Log
  pub in_run : log ≡ before ++ w.log
  pub later : Log
  pub made : v.log ≡ later ++ (event ∷ log)

pub Reported-between :
    {handle : ℕ} {log : Log} {u v w x : World}
    → Grows u v
    → Grows w x
    → Reported handle v log w
    → Reported handle u log x
Reported-between {handle} {log} {u} a b r = record {
  event = r.event;
  op = r.op;
  good = r.good;
  before = r.before ++ a.later;
  in_run = r.in_run ∙ ap (λ l. r.before ++ l) a.grown ∙ sym (append_assoc r.before a.later u.log);
  later = b.later ++ r.later;
  made =
      b.grown ∙ ap (λ l. b.later ++ l) r.made ∙ sym (append_assoc b.later r.later (r.event ∷ log));
}

-- The searches make no call and leave the device's handle.
record Quiet (w v : World) : Type 0 where
  same_log : v.log ≡ w.log
  same_handle : v.priv.dev_handle ≡ w.priv.dev_handle

Quiet-Frame : Frame Quiet
Quiet-Frame = record {
  stay = λ w. record { same_log = refl; same_handle = refl };
  both = λ a b. record {
    same_log = b.same_log ∙ a.same_log;
    same_handle = b.same_handle ∙ a.same_handle;
  };
}

pub onic_qdma_csr_index_setup-Reported :
    (env : Env) (w : World)
    → (onic_qdma_csr_index_setup env w).0 ≡ pos 0
    → let v = (onic_qdma_csr_index_setup env w).1 in Reported v.priv.dev_handle w w.log v
unfolding onic_qdma_csr_index_setup
onic_qdma_csr_index_setup-Reported env w =
    let op = Op.qdma_global_csr_get w.priv.dev_handle in
    let u = called op env w in
    elim (Bool-cases (ne_zero (env.status w.log op))) [
      | inl bad ↦ rw bad (λ z. cc (ap lt_zero z))
      | inr good ↦ rw good (λ z.
          let q =
            searches-Always Quiet-Frame (λ i e x. record { same_log = refl; same_handle = refl })
              (λ i e x. record { same_log = refl; same_handle = refl })
              (λ i e x. record { same_log = refl; same_handle = refl })
              (λ i e x. record { same_log = refl; same_handle = refl }) (env.csr w.log) w.priv.info
              env u in
          record {
            event = record { op = op; status = env.status w.log op; value = env.value w.log op };
            op = ap (λ d. Op.qdma_global_csr_get d) (sym q.same_handle);
            good = ne_zero-false (env.status w.log op) good;
            before = [];
            in_run = refl;
            later = [];
            made = q.same_log;
          })
    ]
