-- ===== src/Kernel/Ledger.antt =====
-- Reading a log as a ledger: what each call takes and what it gives back, and how a step of the driver
-- moves what is held.
use onic_driver.Base.{ℕ, ◌+◌, ◌≡◌, Bool, if◌then◌else◌, if-both, sum_of, arith}
use onic_driver.Base.Int.{ℤ}
use onic_driver.Kernel.Calls.{Op, Event, Log, Env}
use onic_driver.Kernel.Monad.{World, called, Io}

-- For each kind of thing, how many a call with its answer takes, and how many a call gives back.
pub record Ledger (G : Type 0) : Type 0 where
  pub take : G → Op → ℤ → ℕ → ℕ
  pub give : G → Op → ℕ

module _ {G : Type 0} (book : Ledger G) where
  abbrev pub taken : G → Log → ℕ
  taken x l = sum_of (λ (e : Event). book.take x e.op e.status e.value) l

  abbrev pub given : G → Log → ℕ
  given x l = sum_of (λ (e : Event). book.give x e.op) l

  -- From `w` to `v`, what is held goes from `h` to `k`.
  pub record Moves (w v : World) (h k : G → ℕ) : Type 0 where
    pub moves : (x : G) → taken x v.log + given x w.log + h x ≡ given x v.log + taken x w.log + k x

  -- Nothing moves.
  abbrev pub Rests : World → World → Type 0
  Rests w v = Moves w v (λ x. 0) (λ x. 0)

  pub Rests-refl : (w : World) → Rests w w
  Rests-refl w = record { moves = λ x. omega arith }

  pub Moves-trans : {w v u : World} {h k m : G → ℕ} → Moves w v h k → Moves v u k m → Moves w u h m
  Moves-trans a b = record { moves = λ x. omega (arith, a.moves x, b.moves x) }

  -- The two ends may both be written in another way, or go up by the same amount.
  pub Moves-eq :
      {w v : World} {h k h' k' : G → ℕ}
      → Moves w v h k
      → ((x : G) → h x + k' x ≡ h' x + k x)
      → Moves w v h' k'
  Moves-eq a e = record { moves = λ x. omega (arith, a.moves x, e x) }

  pub Rests-trans : {w v u : World} → Rests w v → Rests v u → Rests w u
  Rests-trans a b = Moves-trans a b

  -- A call moves what its entry says.
  pub called-Moves :
      (env : Env) (op : Op) (w : World) (h k : G → ℕ)
      → ((x : G)
          → book.take x op (env.status w.log op) (env.value w.log op) + h x ≡ book.give x op + k x)
      → Moves w (called op env w) h k
  called-Moves env op w h k e = record { moves = λ x. omega (arith, e x) }

  -- A function that moves nothing, whatever is answered.
  abbrev pub IsNeutral : {A : Type 0} → Io A → Type 0
  IsNeutral m = (env : Env) (w : World) → Rests w (m env w).1

  pub branch :
      {A : Type 0} (b : Bool) (m k : Io A)
      → IsNeutral m
      → IsNeutral k
      → IsNeutral (if b then m else k)
  branch b m k p q env w = if-both (λ (j : Io _). Rests w (j env w).1) b m k (p env w) (q env w)
