-- ===== src/Probe/Assets.antt =====
-- What `onic_pci_probe` of onic_main.c takes from the kernel and from libqdma, read off the log.
use onic_driver.Base.{ℕ, ◌+◌, ◌≡◌, false, ◌==◌, if◌then◌else◌, sum_of, arith}
use onic_driver.Base.Int.{ℤ, ne_zero}
use onic_driver.Kernel.{OnicPriv, QdmaDevConf, Memory, Op, Event, Log, Env, World, called}

-- A network device, a cache of requests, an open device of libqdma, a mapped BAR and a registration.
pub data Asset : Type 0 where
  net_device cache device mapping registration : ℕ → Asset

abbrev pub is_it : ℕ → ℕ → ℕ
is_it a b = if a == b then 1 else 0

-- A pointer counts when it is not NULL.
abbrev pub is_new : ℕ → ℕ → ℕ
is_new a v = if v == 0 then 0 else is_it v a

-- What a call with an answer gains, and what a call loses.
abbrev pub gained_op : Asset → Op → ℤ → ℕ → ℕ
gained_op (Asset.net_device a) (Op.alloc Memory.net_device n) s v = is_new a v
gained_op (Asset.cache a) (Op.kmem_cache_create n) s v = is_new a v
gained_op (Asset.device a) (Op.qdma_device_open c) s v = if ne_zero s then 0 else is_it v a
gained_op (Asset.mapping a) (Op.ioremap b n) s v = is_new a v
gained_op (Asset.registration a) (Op.register_netdev b) s v = if ne_zero s then 0 else is_it b a
gained_op x o s v = 0

abbrev pub lost_op : Asset → Op → ℕ
lost_op (Asset.net_device a) (Op.free_netdev b) = is_it b a
lost_op (Asset.cache a) (Op.kmem_cache_destroy b) = is_it b a
lost_op (Asset.device a) (Op.qdma_device_close b) = is_it b a
lost_op (Asset.mapping a) (Op.iounmap b) = is_it b a
lost_op (Asset.registration a) (Op.unregister_netdev b) = is_it b a
lost_op x o = 0

abbrev pub gained : Asset → Log → ℕ
gained x l = sum_of (λ (e : Event). gained_op x e.op e.status e.value) l

abbrev pub lost : Asset → Log → ℕ
lost x l = sum_of (λ (e : Event). lost_op x e.op) l

-- From `w` to `v`, what is held goes from `h` to `k`.
pub record Change (w v : World) (h k : Asset → ℕ) : Type 0 where
  pub change :
      (x : Asset) → gained x v.log + lost x w.log + h x ≡ lost x v.log + gained x w.log + k x

pub Change-trans :
    (w v u : World) {h k m : Asset → ℕ} → Change w v h k → Change v u k m → Change w u h m
Change-trans w v u f g = record { change = λ x. omega (arith, f.change x, g.change x) }

pub Change-eq :
    {w v : World} {h k m : Asset → ℕ} → Change w v h k → ((x : Asset) → k x ≡ m x) → Change w v h m
Change-eq f e = record { change = λ x. omega (arith, f.change x, e x) }

-- How often an asset is a given one.
abbrev pub one : Asset → Asset → ℕ
one (Asset.net_device a) (Asset.net_device b) = is_it a b
one (Asset.cache a) (Asset.cache b) = is_it a b
one (Asset.device a) (Asset.device b) = is_it a b
one (Asset.mapping a) (Asset.mapping b) = is_it a b
one (Asset.registration a) (Asset.registration b) = is_it a b
one e x = 0

-- The handles of a private part that the cleanup uses.
abbrev pub refs : OnicPriv → ℕ × ℕ × ℕ
refs p = (p.dma_req, p.dev_handle, p.bar_base)

-- What a probe holds after each of its steps, by those handles, and what an interface holds.
abbrev pub with_netdev : ℕ → Asset → ℕ
with_netdev n x = 0 + one (Asset.net_device n) x

abbrev pub with_cache : ℕ → ℕ → Asset → ℕ
with_cache n c x = with_netdev n x + one (Asset.cache c) x

abbrev pub with_device : ℕ → ℕ × ℕ → Asset → ℕ
with_device n r x = with_cache n r.0 x + one (Asset.device r.1) x

abbrev pub with_mapping : ℕ → ℕ × ℕ × ℕ → Asset → ℕ
with_mapping n r x = with_device n (r.0, r.1) x + one (Asset.mapping r.2) x

abbrev pub owned : ℕ → OnicPriv → Asset → ℕ
owned n p x = with_mapping n (refs p) x + one (Asset.registration n) x

-- Calls that gain one asset, and that lose one.
pub record Gains (op : Op) (s : ℤ) (v : ℕ) (e : Asset) : Type 0 where
  pub gains : (x : Asset) → gained_op x op s v ≡ one e x
  pub keeps : (x : Asset) → lost_op x op ≡ 0

pub called-Gains :
    (env : Env) (op : Op) (w : World) (e : Asset) (h : Asset → ℕ)
    → Gains op (env.status w.log op) (env.value w.log op) e
    → Change w (called op env w) h (λ x. h x + one e x)
called-Gains env op w e h g = record { change = λ x. omega (arith, g.gains x, g.keeps x) }

pub record Loses (op : Op) (e : Asset) : Type 0 where
  pub loses : (x : Asset) → lost_op x op ≡ one e x
  pub gains_not : (x : Asset) (s : ℤ) (v : ℕ) → gained_op x op s v ≡ 0

pub called-Loses :
    (env : Env) (op : Op) (w : World) (e : Asset) (h : Asset → ℕ)
    → Loses op e
    → Change w (called op env w) (λ x. h x + one e x) h
called-Loses env op w e h g = record {
  change = λ x. omega (arith, g.loses x, g.gains_not x (env.status w.log op) (env.value w.log op));
}

pub free_netdev-Loses : (a : ℕ) → Loses (Op.free_netdev a) (Asset.net_device a)
free_netdev-Loses a = record { loses = λ x. ground arith; gains_not = λ x s v. ground arith }

pub kmem_cache_destroy-Loses : (a : ℕ) → Loses (Op.kmem_cache_destroy a) (Asset.cache a)
kmem_cache_destroy-Loses a = record { loses = λ x. ground arith; gains_not = λ x s v. ground arith }

pub qdma_device_close-Loses : (a : ℕ) → Loses (Op.qdma_device_close a) (Asset.device a)
qdma_device_close-Loses a = record { loses = λ x. ground arith; gains_not = λ x s v. ground arith }

pub iounmap-Loses : (a : ℕ) → Loses (Op.iounmap a) (Asset.mapping a)
iounmap-Loses a = record { loses = λ x. ground arith; gains_not = λ x s v. ground arith }

pub unregister_netdev-Loses : (a : ℕ) → Loses (Op.unregister_netdev a) (Asset.registration a)
unregister_netdev-Loses a = record { loses = λ x. ground arith; gains_not = λ x s v. ground arith }

pub alloc-Gains :
    (n v : ℕ) (s : ℤ)
    → (v == 0) ≡ false
    → Gains (Op.alloc Memory.net_device n) s v (Asset.net_device v)
alloc-Gains n v s e = record { gains = λ x. ground (arith, e); keeps = λ x. ground arith }

pub kmem_cache_create-Gains :
    (n v : ℕ) (s : ℤ) → (v == 0) ≡ false → Gains (Op.kmem_cache_create n) s v (Asset.cache v)
kmem_cache_create-Gains n v s e = record {
  gains = λ x. ground (arith, e);
  keeps = λ x. ground arith;
}

pub ioremap-Gains :
    (b n v : ℕ) (s : ℤ) → (v == 0) ≡ false → Gains (Op.ioremap b n) s v (Asset.mapping v)
ioremap-Gains b n v s e = record { gains = λ x. ground (arith, e); keeps = λ x. ground arith }

pub register_netdev-Gains :
    (a v : ℕ) (s : ℤ) → ne_zero s ≡ false → Gains (Op.register_netdev a) s v (Asset.registration a)
register_netdev-Gains a v s e = record { gains = λ x. ground (arith, e); keeps = λ x. ground arith }

pub qdma_device_open-Gains :
    (c : QdmaDevConf) (v : ℕ) (s : ℤ)
    → ne_zero s ≡ false
    → Gains (Op.qdma_device_open c) s v (Asset.device v)
qdma_device_open-Gains c v s e = record {
  gains = λ x. ground (arith, e);
  keeps = λ x. ground arith;
}
