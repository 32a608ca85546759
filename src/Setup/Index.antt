-- ===== src/Setup/Index.antt =====
-- The indices that `onic_qdma_csr_index_setup` of onic_main.c stores.
use onic_driver.Base.{
  ℕ, ◌<◌, ◌≡◌, ◌≢◌, ◌∙◌, refl, ap, sym, subst, inl, inr, false, Bool-cases, List, get_elem?, some,
  arith,
}
use onic_driver.Base.Int.{ℤ, pos, ne_zero, lt_zero, to_u32}
use onic_driver.Kernel.{OnicPriv, PlatformInfo, GlobalCsrConf, Op, Env, World, called, Io, pure}
use onic_driver.Setup.{
  onic_arr_find, qdma_global_csr_array_sz, index8, find_index, store_ring_sz, store_timer,
  store_cnt_th, store_buf_sz, onic_qdma_csr_index_setup,
}
use onic_driver.Setup.Steps.{first_search, second, third, fourth}
use onic_driver.Setup.Find.{at, nowhere, onic_arr_find-Found}

-- `i` is the first index of the table whose entry is `element`.
pub record Names (arr : List ℕ) (element : ℤ) (i : ℕ) : Type 0 where
  pub small : i < 16
  pub entry : get_elem? arr i ≡ some (to_u32 element)
  pub first : (j : ℕ) → j < i → get_elem? arr j ≢ some (to_u32 element)

Found-Names :
    (arr : List ℕ) (element : ℤ)
    → lt_zero (onic_arr_find arr qdma_global_csr_array_sz element) ≡ false
    → Names arr element (index8 (onic_arr_find arr qdma_global_csr_array_sz element))
Found-Names arr element good = elim (onic_arr_find-Found arr qdma_global_csr_array_sz element) [
  | nowhere e f ↦ cc (ap lt_zero e)
  | at k e l g f ↦ named k l g f (sym (ap index8 e ∙ omega (arith, l)))
]
  where
    named :
        (k : ℕ) {i : ℕ}
        → k < 16
        → get_elem? arr k ≡ some (to_u32 element)
        → ((j : ℕ) → j < k → get_elem? arr j ≢ some (to_u32 element))
        → k ≡ i
        → Names arr element i
    named k l g f e = subst (Names arr element) e (record { small = l; entry = g; first = f })

-- All six indices name what the platform file asks for.
pub record IndicesSet (csr : GlobalCsrConf) (info : PlatformInfo) (p : OnicPriv) : Type 0 where
  pub tx_ring : Names csr.ring_sz info.ring_sz p.tx_desc_rng_sz_idx
  pub rx_ring : Names csr.ring_sz info.ring_sz p.rx_desc_rng_sz_idx
  pub cmpl_ring : Names csr.ring_sz info.ring_sz p.cmpl_rng_sz_idx
  pub timer : Names csr.c2h_timer_cnt info.c2h_tmr_cnt p.rx_timer_idx
  pub cnt_th : Names csr.c2h_cnt_th info.c2h_cnt_thr p.rx_cnt_th_idx
  pub buf_sz : Names csr.c2h_buf_sz info.c2h_buf_sz p.rx_buf_sz_idx

module _ (env : Env) where
  -- A search that is passed has found its value.
  find_index-passes :
      (arr : List ℕ) (element : ℤ) (store : ℕ → OnicPriv → OnicPriv) (next : Io ℤ) (w : World)
      → (find_index arr element store next env w).0 ≡ pos 0
      → let i = index8 (onic_arr_find arr qdma_global_csr_array_sz element) in
        Names arr element i
        × (find_index arr element store next env w ≡ next env (record w { priv = store i w.priv }))
  find_index-passes arr element store next w =
      elim (Bool-cases (lt_zero (onic_arr_find arr qdma_global_csr_array_sz element))) [
        | inl bad ↦ rw bad (λ z. cc)
        | inr good ↦ rw good (λ z. (Found-Names arr element good, refl))
      ]

  module _ (csr : GlobalCsrConf) (info : PlatformInfo) where
    searches-IndicesSet :
        (w : World)
        → (first_search csr info env w).0 ≡ pos 0
        → IndicesSet csr info (first_search csr info env w).1.priv
    searches-IndicesSet w z =
        let at16 =
          λ (arr : List ℕ) (x : ℤ). index8 (onic_arr_find arr qdma_global_csr_array_sz x) in
        let (a, e) =
          find_index-passes csr.ring_sz info.ring_sz store_ring_sz (second csr info) w z in
        let w1 = record w { priv = store_ring_sz (at16 csr.ring_sz info.ring_sz) w.priv } in
        let z1 = sym (ap (λ r. r.0) e) ∙ z in
        let (b, f) =
          find_index-passes csr.c2h_timer_cnt info.c2h_tmr_cnt store_timer (third csr info) w1 z1 in
        let w2 = record w1 {
          priv = store_timer (at16 csr.c2h_timer_cnt info.c2h_tmr_cnt) w1.priv;
        } in
        let z2 = sym (ap (λ r. r.0) f) ∙ z1 in
        let (c, g) =
          find_index-passes csr.c2h_cnt_th info.c2h_cnt_thr store_cnt_th (fourth csr info) w2 z2 in
        let w3 = record w2 { priv = store_cnt_th (at16 csr.c2h_cnt_th info.c2h_cnt_thr) w2.priv } in
        let z3 = sym (ap (λ r. r.0) g) ∙ z2 in
        let (d, h) =
          find_index-passes csr.c2h_buf_sz info.c2h_buf_sz store_buf_sz (pure (pos 0)) w3 z3 in
        subst (IndicesSet csr info) (sym (ap (λ r. r.1.priv) (e ∙ f ∙ g ∙ h)))
          (record { tx_ring = a; rx_ring = a; cmpl_ring = a; timer = b; cnt_th = c; buf_sz = d })

  -- When `onic_qdma_csr_index_setup` returns 0, each of the six indices that it stored is the first
  -- place of its table, as the device filled it in, that holds the value of the platform file.
  pub onic_qdma_csr_index_setup-IndicesSet :
      (w : World)
      → (onic_qdma_csr_index_setup env w).0 ≡ pos 0
      → IndicesSet (env.csr w.log) w.priv.info (onic_qdma_csr_index_setup env w).1.priv
  unfolding onic_qdma_csr_index_setup
  onic_qdma_csr_index_setup-IndicesSet w =
      elim (Bool-cases (ne_zero (env.status w.log (Op.qdma_global_csr_get w.priv.dev_handle)))) [
        | inl bad ↦ rw bad (λ z. cc (ap lt_zero z))
        | inr good ↦ rw good (
            searches-IndicesSet (env.csr w.log) w.priv.info
              (called (Op.qdma_global_csr_get w.priv.dev_handle) env w))
      ]
