-- ===== src/Queue/Resource.antt =====
-- What the driver holds of the device and of the network stack, read off the log: the queues that are
-- added, the queues that run, and the NAPI structures that are registered.
use onic_driver.Base.{ℕ, ◌+◌, ◌≡◌, ◌∙◌, refl, ◌==◌, if◌then◌else◌, arith}
use onic_driver.Kernel.{Op, Memory, Log, World, QType}
use onic_driver.Kernel.Tally.{Weights, total}
use onic_driver.Queue.Loops.{Adds}
use onic_driver.Queue.Setup.{rx_added, tx_added}

-- A queue by its handle, a running queue by its handle, a NAPI structure by its number.
pub data Resource : Type 0 where
  queue running napi : ℕ → Resource

abbrev pub count_if : ℕ → ℕ → ℕ
count_if a b = if a == b then 1 else 0

-- The successful calls that take a resource.
abbrev pub acquire : Resource → Weights
acquire (queue h) = record { added = λ k. count_if k h; started = λ k. 0; other = λ op. 0 }
acquire (running h) = record { added = λ k. 0; started = λ k. count_if k h; other = λ op. 0 }
acquire (napi q) = record {
  added = λ k. 0;
  started = λ k. 0;
  other = λ op. elim op [ Op.netif_napi_add i ↦ count_if i q | _ ↦ 0 ];
}

-- The calls that give it back.
abbrev pub release : Resource → Weights
release (queue h) = record {
  added = λ k. 0;
  started = λ k. 0;
  other = λ op. elim op [ Op.qdma_queue_remove d k ↦ count_if k h | _ ↦ 0 ];
}
release (running h) = record {
  added = λ k. 0;
  started = λ k. 0;
  other = λ op. elim op [ Op.qdma_queue_stop d k ↦ count_if k h | _ ↦ 0 ];
}
release (napi q) = record {
  added = λ k. 0;
  started = λ k. 0;
  other = λ op. elim op [ Op.netif_napi_del i ↦ count_if i q | _ ↦ 0 ];
}

-- How often a resource was taken, and given back, in a log.
abbrev pub acquired : Resource → Log → ℕ
acquired x l = total (acquire x) l

abbrev pub released : Resource → Log → ℕ
released x l = total (release x) l

-- Between `w` and `w'` each resource `x` was taken `a x` times more than it was given back, if
-- `b x` givings back are left out of the account.
pub record Flow (w w' : World) (a b : Resource → ℕ) : Type 0 where
  pub same_net : w'.net ≡ w.net
  pub same_device : w'.priv.dev_handle ≡ w.priv.dev_handle
  pub flow :
      (x : Resource)
      → acquired x w'.log + released x w.log + b x ≡ released x w'.log + acquired x w.log + a x

pub Flow-trans :
    {u v w : World} {a b c d : Resource → ℕ}
    → Flow u v a b
    → Flow v w c d
    → Flow u w (λ x. a x + c x) (λ x. b x + d x)
Flow-trans f g = record {
  same_net = g.same_net ∙ f.same_net;
  same_device = g.same_device ∙ f.same_device;
  flow = λ x. omega (arith, f.flow x, g.flow x);
}

pub Flow-eq :
    {u v : World} {a b c d : Resource → ℕ}
    → Flow u v a b
    → ((x : Resource) → a x + d x ≡ c x + b x)
    → Flow u v c d
Flow-eq f e = record {
  same_net = f.same_net;
  same_device = f.same_device;
  flow = λ x. omega (arith, f.flow x, e x);
}

pub Adds-Flow :
    {w w' : World} {n : Weights → ℕ} (a b : Resource → ℕ)
    → Adds w w' n
    → ((x : Resource) → n (acquire x) ≡ a x)
    → ((x : Resource) → n (release x) ≡ b x)
    → Flow w w' a b
Adds-Flow a b s e f = record {
  same_net = s.same_net;
  same_device = rw s.same_priv;
  flow = λ x. omega (arith, s.grows (acquire x), s.grows (release x), e x, f x);
}

-- A call that takes no resource, and one that gives none back either.
abbrev pub TakesNothing : Op → Type 0
TakesNothing o = (x : Resource) → (acquire x).other o ≡ 0

abbrev pub IsIdle : Op → Type 0
IsIdle o = (x : Resource) → ((acquire x).other o ≡ 0) × ((release x).other o ≡ 0)

pub queue_remove-TakesNothing : (d h : ℕ) → TakesNothing (Op.qdma_queue_remove d h)
queue_remove-TakesNothing d h (queue k) = refl
queue_remove-TakesNothing d h (running k) = refl
queue_remove-TakesNothing d h (napi q) = refl

pub napi_del-TakesNothing : (i : ℕ) → TakesNothing (Op.netif_napi_del i)
napi_del-TakesNothing i (queue k) = refl
napi_del-TakesNothing i (running k) = refl
napi_del-TakesNothing i (napi q) = refl

pub queue_stop-TakesNothing : (d h : ℕ) → TakesNothing (Op.qdma_queue_stop d h)
queue_stop-TakesNothing d h (queue k) = refl
queue_stop-TakesNothing d h (running k) = refl
queue_stop-TakesNothing d h (napi q) = refl

pub kfree-IsIdle : (p : ℕ) → IsIdle (Op.kfree p)
kfree-IsIdle p (queue k) = (refl, refl)
kfree-IsIdle p (running k) = (refl, refl)
kfree-IsIdle p (napi q) = (refl, refl)

pub alloc-IsIdle : (m : Memory) (n : ℕ) → IsIdle (Op.alloc m n)
alloc-IsIdle m n (queue k) = (refl, refl)
alloc-IsIdle m n (running k) = (refl, refl)
alloc-IsIdle m n (napi q) = (refl, refl)

-- No queue that is added or started is given back by that.
pub added-gives_nothing :
    (x : Resource) (first : QType → ℕ) (i : ℕ) → rx_added first (release x) i ≡ 0
added-gives_nothing (queue k) first i = refl
added-gives_nothing (running k) first i = refl
added-gives_nothing (napi q) first i = refl

pub tx_added-gives_nothing :
    (x : Resource) (first : QType → ℕ) (i : ℕ) → tx_added first (release x) i ≡ 0
tx_added-gives_nothing (queue k) first i = refl
tx_added-gives_nothing (running k) first i = refl
tx_added-gives_nothing (napi q) first i = refl

pub started-gives_nothing : (x : Resource) (h : ℕ) → (release x).started h ≡ 0
started-gives_nothing (queue k) h = refl
started-gives_nothing (running k) h = refl
started-gives_nothing (napi q) h = refl
