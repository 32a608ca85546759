-- ===== src/Kernel/Monad.antt =====
-- The state that the driver keeps and sees, and the monad of its functions.
use onic_driver.Base.{ℕ, ◌==◌, if◌then◌else◌, ◌∷◌}
use onic_driver.Base.Int.{ℤ}
use onic_driver.Kernel.Types.{OnicPriv, NetDevice, QStats, Skb, RxSkb}
use onic_driver.Kernel.Calls.{Op, Log, Env}

-- `qstats` is the memory of `struct rtnl_link_stats64`, addressed in units of one structure.
pub record World : Type 0 where
  pub log : Log
  pub priv : OnicPriv
  pub net : NetDevice
  pub stats : ℕ → QStats

abbrev pub Io : Type 0 → Type 0
Io A = Env → World → A × World

abbrev pub pure : {A : Type 0} → A → Io A
pure a env w = (a, w)

infixl 5 ◌>>=◌ ◌>>◌
abbrev pub ◌>>=◌ : {A B : Type 0} → Io A → (A → Io B) → Io B
◌>>=◌ m f env w = f (m env w).0 env (m env w).1

abbrev pub ◌>>◌ : {A B : Type 0} → Io A → Io B → Io B
◌>>◌ m k env w = k env (m env w).1

abbrev pub get : Io World
get env w = (w, w)

abbrev pub modify_priv : (OnicPriv → OnicPriv) → Io (Unit {0})
modify_priv f env w = (tt, record w { priv = f w.priv })

abbrev pub modify_net : (NetDevice → NetDevice) → Io (Unit {0})
modify_net f env w = (tt, record w { net = f w.net })

-- The world after a call, with the answer that the environment gives in the log.
abbrev pub called : Op → Env → World → World
called op env w = record w {
  log = record { op = op; status = env.status w.log op; value = env.value w.log op } ∷ w.log;
}

-- A call whose `int` is used.
abbrev pub request : Op → Io ℤ
request op env w = (env.status w.log op, called op env w)

-- A call whose pointer or unsigned value is used.
abbrev pub fetch : Op → Io ℕ
fetch op env w = (env.value w.log op, called op env w)

-- A call that returns an `int` and stores a value.
abbrev pub request_both : Op → Io (ℤ × ℕ)
request_both op env w = ((env.status w.log op, env.value w.log op), called op env w)

-- A call whose answer is not looked at, or that has none.
abbrev pub perform : Op → Io (Unit {0})
perform op env w = (tt, called op env w)

-- `netdev_priv(netdev)`
abbrev pub netdev_priv : ℕ → Io ℕ
netdev_priv netdev env w = (env.priv_of netdev, w)

abbrev pub eth_type_trans : RxSkb → Io (ℕ × RxSkb)
eth_type_trans skb env w = (env.typed w.log skb, w)

-- The packet as a successful `skb_put_padto` leaves it.
abbrev pub padded : Skb → Io Skb
padded skb env w = (env.padded skb, w)

-- One write of a structure in the statistics memory.
abbrev pub modify_stats : ℕ → (QStats → QStats) → Io (Unit {0})
modify_stats a f env w = (tt, record w { stats = λ b. if b == a then f (w.stats a) else w.stats b })
