-- ===== src/Kernel/Blocks.antt =====
-- The memory that the driver takes with `kcalloc` and `kzalloc` and gives back with `kfree`, by address.
use onic_driver.Base.{ℕ, ◌≡◌, refl, Bool, true, false, ◌==◌, if◌then◌else◌, arith}
use onic_driver.Base.Int.{ℤ}
use onic_driver.Kernel.Calls.{Memory, Op, Env}
use onic_driver.Kernel.Monad.{World, called}
use onic_driver.Kernel.Ledger.{Ledger, Moves, Rests, called-Moves}

-- The memory of `kmem_cache_zalloc` and `alloc_etherdev_mq` has ways of its own.
abbrev pub is_block : Memory → Bool
is_block Memory.dma_request = false
is_block Memory.net_device = false
is_block m = true

-- A pointer that is not NULL is one block.
abbrev pub block : ℕ → ℕ → ℕ
block p a = if p == 0 then 0 else if p == a then 1 else 0

abbrev pub take_block : ℕ → Op → ℤ → ℕ → ℕ
take_block a (Op.alloc m n) s v = if is_block m then block v a else 0
take_block a o s v = 0

-- `kfree(NULL)` does nothing.
abbrev pub give_block : ℕ → Op → ℕ
give_block a (Op.kfree p) = block p a
give_block a o = 0

abbrev pub memory : Ledger ℕ
memory = record { take = take_block; give = give_block }

-- A call that moves no memory.
abbrev pub moves_block : Op → Bool
moves_block (Op.alloc m n) = true
moves_block (Op.kfree p) = true
moves_block o = false

pub called-Rests :
    (env : Env) (op : Op) (w : World) → moves_block op ≡ false → Rests memory w (called op env w)
called-Rests env op w e = called-Moves memory env op w (λ a. 0) (λ a. 0) (λ a. ground (arith, e))

pub kfree-Moves :
    (env : Env) (p : ℕ) (w : World) → Moves memory w (called (Op.kfree p) env w) (block p) (λ a. 0)
kfree-Moves env p w = called-Moves memory env (Op.kfree p) w (block p) (λ a. 0) (λ a. omega arith)

pub alloc-Moves :
    (env : Env) (m : Memory) (n : ℕ) (w : World)
    → is_block m ≡ true
    → let op = Op.alloc m n in
      Moves memory w (called op env w) (λ a. 0) (block (env.value w.log op))
alloc-Moves env m n w e =
    called-Moves memory env (Op.alloc m n) w (λ a. 0) (block (env.value w.log (Op.alloc m n)))
      (λ a. ground (arith, e))

pub block-null : (p a : ℕ) → (p == 0) ≡ true → block p a ≡ 0
block-null p a e = rw e refl
