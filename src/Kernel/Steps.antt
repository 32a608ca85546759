-- ===== src/Kernel/Steps.antt =====
-- A relation between the worlds before and after a function, carried through the function's calls: what
-- holds of every call and every change of a function holds of the function.
use onic_driver.Base.{Bool, if◌then◌else◌, if-both}
use onic_driver.Kernel.Calls.{Op, Env}
use onic_driver.Kernel.Monad.{World, called, Io, pure, ◌>>=◌, ◌>>◌, get}

-- A relation that functions may keep: it holds where nothing happens, and it can be put together.
pub record Frame (R : World → World → Type 0) : Type 0 where
  pub stay : (w : World) → R w w
  pub both : {u v w : World} → R u v → R v w → R u w

module _ {R : World → World → Type 0} (frame : Frame R) where
  -- The function keeps the relation, whatever is answered.
  abbrev pub Always : {A : Type 0} → Io A → Type 0
  Always m = (env : Env) (w : World) → R w (m env w).1

  -- A call keeps the relation, whatever is answered.
  abbrev pub Calls : Op → Type 0
  Calls op = (env : Env) (w : World) → R w (called op env w)

  pub done : {A : Type 0} (a : A) → Always (pure a)
  done a env w = frame.stay w

  pub next : {A B : Type 0} (m : Io A) (k : Io B) → Always m → Always k → Always (m >> k)
  next m k p q env w = frame.both (p env w) (q env (m env w).1)

  -- A function that looks at the world first.
  pub seen : {B : Type 0} (f : World → Io B) → ((v : World) → Always (f v)) → Always (get >>= f)
  seen f q env w = q w env w

  pub either :
      {A : Type 0} (b : Bool) (m k : Io A) → Always m → Always k → Always (if b then m else k)
  either b m k p q env w = if-both (λ (j : Io _). R w (j env w).1) b m k (p env w) (q env w)
