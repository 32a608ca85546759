-- ===== src/Register/Layout.antt =====
-- The layout of the register map (onic_register.h).
use onic_driver.Base.{
  ℕ, ◌+◌, ◌%◌, ◌<◌, ◌≤◌, ◌≡◌, ◌≢◌, refl, sym, ap, ◌∙◌, arith, ◌⊎◌, inl, inr, Bool-cases, Option,
  some, none, List, [], ◌∷◌, ◌==◌, if◌then◌else◌,
}
use onic_driver.Register.{
  cmac_conf, cmac_stat, cmac_subsystem_offset, shell_maxlen, qdma_func_offset,
  qdma_func_offset_qconf, qdma_func_offset_indir_table, qdma_func_offset_hash_key,
  qdma_subsys_offset,
}
use onic_driver.Register.Conf.{ConfReg, conf_reg, conf_regs}
use onic_driver.Register.Stat.{StatReg, stat_reg, stat_regs}

-- The first of the registers at a place.
abbrev find_reg {ℓ} : {R : Type ℓ} → (R → ℕ) → ℕ → List R → Option R
find_reg place n [] = none
find_reg place n (r ∷ rs) = if place r == n then some r else find_reg place n rs

pub conf_reg-aligned : (r : ConfReg) → (conf_reg r % 4 ≡ 0) × (conf_reg r + 4 ≤ 8192)
unfolding conf_reg
conf_reg-aligned r = (ground arith, ground arith)

pub stat_reg-aligned : (r : StatReg) → (stat_reg r % 4 ≡ 0) × (stat_reg r + 4 ≤ 8192)
unfolding stat_reg
stat_reg-aligned r = (ground arith, ground arith)

find-conf : (r : ConfReg) → find_reg conf_reg (conf_reg r) conf_regs ≡ some r
unfolding conf_reg
find-conf r = ground arith

find-stat : (r : StatReg) → find_reg stat_reg (stat_reg r) stat_regs ≡ some r
unfolding stat_reg
find-stat r = ground arith

some-inj : {A : Type 0} {a b : A} → some a ≡ some b → a ≡ b
some-inj e = cc

conf_reg-inj : (r s : ConfReg) → conf_reg r ≡ conf_reg s → r ≡ s
conf_reg-inj r s e =
    some-inj (sym (find-conf r) ∙ ap (λ n. find_reg conf_reg n conf_regs) e ∙ find-conf s)

stat_reg-inj : (r s : StatReg) → stat_reg r ≡ stat_reg s → r ≡ s
stat_reg-inj r s e =
    some-inj (sym (find-stat r) ∙ ap (λ n. find_reg stat_reg n stat_regs) e ∙ find-stat s)

find-no_conf : (s : StatReg) → find_reg conf_reg (stat_reg s) conf_regs ≡ none
unfolding conf_reg stat_reg
find-no_conf s = ground arith

conf_reg-stat_reg : (r : ConfReg) (s : StatReg) → conf_reg r ≢ stat_reg s
conf_reg-stat_reg r s e =
    cc (find-conf r, ap (λ n. find_reg conf_reg n conf_regs) e, find-no_conf s)

-- A register of a CMAC, of either kind, and its place on the port `i`.
abbrev pub CmacReg : Type 0
CmacReg = ConfReg ⊎ StatReg

abbrev pub cmac_place : ℕ → CmacReg → ℕ
cmac_place i (inl r) = cmac_conf i r
cmac_place i (inr s) = cmac_stat i s

-- The place inside the block of the port.
abbrev inside : CmacReg → ℕ
inside (inl r) = conf_reg r
inside (inr s) = stat_reg s

inside-aligned : (x : CmacReg) → (inside x % 4 ≡ 0) × (inside x + 4 ≤ 8192)
inside-aligned (inl r) = conf_reg-aligned r
inside-aligned (inr s) = stat_reg-aligned s

inside-inj : (x y : CmacReg) → inside x ≡ inside y → x ≡ y
inside-inj (inl r) (inl s) e = ap inl (conf_reg-inj r s e)
inside-inj (inl r) (inr s) e = absurd (conf_reg-stat_reg r s e)
inside-inj (inr r) (inl s) e = absurd (conf_reg-stat_reg s r (sym e))
inside-inj (inr r) (inr s) e = ap inr (stat_reg-inj r s e)

cmac_place-inside : (i : ℕ) (x : CmacReg) → cmac_place i x ≡ cmac_subsystem_offset i + inside x
cmac_place-inside i (inl r) = refl
cmac_place-inside i (inr s) = refl

-- Two registers of the CMACs that share a place are the same register of the same port, where
-- every index but 0 names the second port, and a register is an aligned word inside the user BAR.
pub cmac_place-distinct :
    (i j : ℕ) (x y : CmacReg)
    → (cmac_place i x % 4 ≡ 0)
      × (cmac_place i x + 4 ≤ shell_maxlen)
      × (cmac_place i x ≡ cmac_place j y → (x ≡ y) × ((i == 0) ≡ (j == 0)))
cmac_place-distinct i j x y =
    let (a, b) = inside-aligned x in
    let (c, d) = inside-aligned y in
    rw (cmac_place-inside i x, cmac_place-inside j y)
      (elim (Bool-cases (i == 0)) [
        | inl zero_i ↦ rw zero_i (elim (Bool-cases (j == 0)) [
          | inl zero_j ↦
              rw zero_j
                (omega (arith, a), omega (arith, b), λ e. (inside-inj x y (omega (arith, e)), refl))
          | inr other_j ↦
              rw other_j (omega (arith, a), omega (arith, b), λ e. absurd (omega (arith, e, b, d)))
        ])
        | inr other_i ↦ rw other_i (elim (Bool-cases (j == 0)) [
          | inl zero_j ↦
              rw zero_j (omega (arith, a), omega (arith, b), λ e. absurd (omega (arith, e, b, d)))
          | inr other_j ↦
              rw other_j
                (omega (arith, a), omega (arith, b), λ e. (inside-inj x y (omega (arith, e)), refl))
        ])
      ])

-- The QDMA blocks of the first four functions lie side by side: in each, the configuration word
-- lies before the 128 words of the indirection table, these are different and lie before the first
-- 128 words of the hash key, and those end before the block of the next function, which does not
-- begin behind `QDMA_SUBSYS_OFFSET`.
pub qdma_func_offset-blocks :
    (i k m : ℕ)
    → i < 4
    → k < 128
    → m < 128
    → (qdma_func_offset_qconf i < qdma_func_offset_indir_table i k)
      × (qdma_func_offset_indir_table i k < qdma_func_offset_hash_key i m)
      × (qdma_func_offset_hash_key i m + 4 ≤ qdma_func_offset (i + 1))
      × (qdma_func_offset (i + 1) ≤ qdma_subsys_offset)
      × (qdma_func_offset_indir_table i k ≡ qdma_func_offset_indir_table i m → k ≡ m)
qdma_func_offset-blocks i k m a b c =
    (omega arith, omega arith, omega arith, omega arith, λ e. omega (arith, e))
