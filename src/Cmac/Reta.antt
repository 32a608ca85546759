-- ===== src/Cmac/Reta.antt =====
-- The indirection table that `onic_init_reta` of onic_main.c writes.
use onic_driver.Base.{
  ℕ, zero, suc, ◌+◌, ◌*◌, ◌/◌, ◌%◌, ◌^◌, ◌<◌, ◌≤◌, ◌≡◌, ◌≢◌, ◌∙◌, refl, ap, ap₂, bit_or, inl, inr,
  ◌==◌, ==→eq, subst, Bool-cases, eq→==, ne→==, bit_and, some, arith,
}
use onic_driver.Base.Bits.{bit_and-low, bit_and-high, bit_or-fields}
use onic_driver.Kernel.{Op, Env, World, called}
use onic_driver.Register.{qdma_func_offset_indir_table, qdma_func_offset_qconf}
use onic_driver.Cmac.{reta_loop, qconf, onic_init_reta}
use onic_driver.Cmac.Writes.{register}

module _ (env : Env) (b port_id num_rx : ℕ) where
  -- An address that the loop does not write keeps its value.
  reta_loop-other :
      (n i a : ℕ) (w : World)
      → ((k : ℕ) → i ≤ k → k < i + n → b + qdma_func_offset_indir_table port_id k ≢ a)
      → register (reta_loop b port_id num_rx n i env w).1.log a ≡ register w.log a
  unfolding reta_loop
  reta_loop-other zero i a w f = refl
  reta_loop-other (suc n) i a w f =
      let op =
        Op.writel (bit_and (i % num_rx) 65535) (b + qdma_func_offset_indir_table port_id i) in
      reta_loop-other n (i + 1) a (called op env w) (λ k l m. f k (omega arith) (omega arith))
      ∙ rw (ne→== (b + qdma_func_offset_indir_table port_id i) a (f i (omega arith) (omega arith)))
          refl

  reta_loop-entry :
      (n i k : ℕ) (w : World)
      → i ≤ k
      → k < i + n
      → register
          (reta_loop b port_id num_rx n i env w).1.log
          (b + qdma_func_offset_indir_table port_id k)
        ≡ some (bit_and (k % num_rx) 65535)
  unfolding reta_loop
  reta_loop-entry zero i k w l m = absurd (omega arith)
  reta_loop-entry (suc n) i k w l m =
      let op = λ (j : ℕ).
        Op.writel (bit_and (j % num_rx) 65535) (b + qdma_func_offset_indir_table port_id j) in
      elim (Bool-cases (i == k)) [
        | inl here ↦
            subst
              (λ j.
                register (reta_loop b port_id num_rx n (i + 1) env (called (op i) env w)).1.log
                  (b + qdma_func_offset_indir_table port_id j)
                ≡ some (bit_and (j % num_rx) 65535))
              (==→eq i k here)
              (reta_loop-other n (i + 1) (b + qdma_func_offset_indir_table port_id i)
                  (called (op i) env w) (λ j x y e. absurd (omega (arith, e)))
                ∙ rw
                    (eq→== (b + qdma_func_offset_indir_table port_id i)
                      (b + qdma_func_offset_indir_table port_id i) refl)
                    refl)
        | inr later ↦
            reta_loop-entry n (i + 1) k (called (op i) env w) (ground (arith, l, later))
              (omega arith)
      ]

-- After `onic_init_reta` on an interface with receive queues, each of the 128 entries of the
-- indirection table of the driver's port holds the remainder of its number by the number of
-- receive queues, so that it names an existing queue, and the word in front of the table holds the
-- function map.
pub onic_init_reta-entries :
    (env : Env) (w : World)
    → 0 < w.net.real_num_rx_queues
    → let l = (onic_init_reta env w).1.log in
      let b = w.priv.bar_base in
      let i = w.priv.info.port_id in
      let n = w.net.real_num_rx_queues in
      (register l (b + qdma_func_offset_qconf i) ≡ some (qconf w.priv.info.queue_base n))
      × ((k : ℕ)
          → k < 128
          → (register l (b + qdma_func_offset_indir_table i k) ≡ some (k % n)) × (k % n < n))
unfolding onic_init_reta
onic_init_reta-entries env w some_queue =
    let b = w.priv.bar_base in
    let i = w.priv.info.port_id in
    let n = w.net.real_num_rx_queues in
    let conf = b + qdma_func_offset_qconf i in
    let v = called (Op.writel (qconf w.priv.info.queue_base n) conf) env w in
    (
      reta_loop-other env b i n 128 0 conf v (λ k l m e. absurd (omega (arith, e)))
          ∙ rw (eq→== conf conf refl) refl,
      λ k l. (
        reta_loop-entry env b i n 128 0 k v (omega arith) l
            ∙ ap some (bit_and-low (k % n) (omega (arith, l))),
        omega (arith, some_queue),
      ),
    )

-- The two fields of the function map.
qconf-fields :
    (queue_base num_rx : ℕ)
    → queue_base < 2 ^ 16
    → num_rx < 2 ^ 16
    → qconf queue_base num_rx ≡ queue_base * 2 ^ 16 + num_rx
qconf-fields queue_base num_rx l m =
    ap₂ bit_or (bit_and-high queue_base l) (
      ap (λ n. bit_and n 65535) {x = num_rx * 2 ^ 0} {y = num_rx} (omega arith)
      ∙ bit_and-low num_rx m)
    ∙ bit_or-fields queue_base num_rx m

-- The shell can read back the function map that `onic_init_reta` writes: on an interface with receive
-- queues, the high 16 bits of the word are the first queue of the platform file and the low 16 bits are
-- the number of receive queues, when both fit 16 bits.
pub onic_init_reta-function_map :
    (env : Env) (w : World)
    → 0 < w.net.real_num_rx_queues
    → w.net.real_num_rx_queues < 2 ^ 16
    → w.priv.info.queue_base < 2 ^ 16
    → let a = w.priv.bar_base + qdma_func_offset_qconf w.priv.info.port_id in
      (word : ℕ) × (register (onic_init_reta env w).1.log a ≡ some word)
      × (word / 2 ^ 16 ≡ w.priv.info.queue_base)
      × (word % 2 ^ 16 ≡ w.net.real_num_rx_queues)
onic_init_reta-function_map env w some_queue m l =
    let e = qconf-fields w.priv.info.queue_base w.net.real_num_rx_queues l m in
    (
      qconf w.priv.info.queue_base w.net.real_num_rx_queues,
      (onic_init_reta-entries env w some_queue).0,
      omega (arith, e),
      omega (arith, e),
    )
