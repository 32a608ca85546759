-- ===== src/Setup/Steps.antt =====
-- What `onic_qdma_csr_index_setup` and `onic_set_num_queue` (onic_main.c) keep, for any relation that
-- their calls and their writes of the private part keep.
use onic_driver.Base.{ℕ, ◌≡◌, refl, Bool, true, false, List}
use onic_driver.Base.Int.{ℤ, pos, ne_zero, le_zero, lt_zero, einval, to_u16}
use onic_driver.Kernel.{
  OnicPriv, PlatformInfo, GlobalCsrConf, Op, World, called, Io, pure, ◌>>=◌, ◌>>◌, get, modify_priv,
}
use onic_driver.Kernel.Steps.{Frame, Always, Calls, either}
use onic_driver.Setup.{
  onic_set_num_queue, find_index, index8, qdma_global_csr_array_sz, store_ring_sz, store_timer,
  store_cnt_th, store_buf_sz, data_vectors, onic_qdma_csr_index_setup, onic_arr_find,
}

-- The calls of these functions.
abbrev pub is_setup_call : Op → Bool
is_setup_call (Op.pci_msix_vec_count d) = true
is_setup_call (Op.qdma_global_csr_get d) = true
is_setup_call o = false

-- The write of `onic_set_num_queue`.
abbrev pub store_vectors : ℤ → OnicPriv → OnicPriv
store_vectors n p = record p { num_msix = to_u16 n; nb_queues = data_vectors n p.info }

-- The four searches of `onic_qdma_csr_index_setup`, from each of them on.
module _ (csr : GlobalCsrConf) (info : PlatformInfo) where
  abbrev pub fourth : Io ℤ
  fourth = find_index csr.c2h_buf_sz info.c2h_buf_sz store_buf_sz (pure (pos 0))

  abbrev pub third : Io ℤ
  third = find_index csr.c2h_cnt_th info.c2h_cnt_thr store_cnt_th fourth

  abbrev pub second : Io ℤ
  second = find_index csr.c2h_timer_cnt info.c2h_tmr_cnt store_timer third

  abbrev pub first_search : Io ℤ
  first_search = find_index csr.ring_sz info.ring_sz store_ring_sz second

module _ {R : World → World → Type 0} (frame : Frame R) where
  find_index-Always :
      (arr : List ℕ) (element : ℤ) (store : ℕ → OnicPriv → OnicPriv) (next : Io ℤ)
      → ((i : ℕ) → Always frame (modify_priv (store i)))
      → Always frame next
      → Always frame (find_index arr element store next)
  find_index-Always arr element store next write n =
      let index = onic_arr_find arr qdma_global_csr_array_sz element in
      either frame (lt_zero index) (pure index) (modify_priv (store (index8 index)) >> next)
        (λ e u. frame.stay u)
        (λ e u.
          frame.both (write (index8 index) e u)
            (n e (record u { priv = store (index8 index) u.priv })))

  module _ (ring : (i : ℕ) → Always frame (modify_priv (store_ring_sz i)))
      (timer : (i : ℕ) → Always frame (modify_priv (store_timer i)))
      (cnt_th : (i : ℕ) → Always frame (modify_priv (store_cnt_th i)))
      (buf_sz : (i : ℕ) → Always frame (modify_priv (store_buf_sz i))) where
    pub searches-Always :
        (csr : GlobalCsrConf) (info : PlatformInfo) → Always frame (first_search csr info)
    searches-Always csr info =
        find_index-Always csr.ring_sz info.ring_sz store_ring_sz (second csr info) ring (
          find_index-Always csr.c2h_timer_cnt info.c2h_tmr_cnt store_timer (third csr info) timer (
            find_index-Always csr.c2h_cnt_th info.c2h_cnt_thr store_cnt_th (fourth csr info) cnt_th
              (find_index-Always csr.c2h_buf_sz info.c2h_buf_sz store_buf_sz (pure (pos 0)) buf_sz
                (λ e u. frame.stay u))))

module _ {R : World → World → Type 0} (frame : Frame R)
    (calls : (op : Op) → is_setup_call op ≡ true → Calls frame op) where
  pub onic_set_num_queue-Always :
      ((n : ℤ) → Always frame (modify_priv (store_vectors n))) → Always frame onic_set_num_queue
  unfolding onic_set_num_queue
  onic_set_num_queue-Always vectors env w =
      let op = Op.pci_msix_vec_count w.priv.pcidev in
      let n = env.status w.log op in
      frame.both (calls op refl env w) (
        either frame (le_zero n) (pure n) (modify_priv (store_vectors n) >> pure (pos 0))
          (λ e u. frame.stay u) (vectors n) env (called op env w))

  module _ (ring : (i : ℕ) → Always frame (modify_priv (store_ring_sz i)))
      (timer : (i : ℕ) → Always frame (modify_priv (store_timer i)))
      (cnt_th : (i : ℕ) → Always frame (modify_priv (store_cnt_th i)))
      (buf_sz : (i : ℕ) → Always frame (modify_priv (store_buf_sz i))) where
    pub onic_qdma_csr_index_setup-Always : Always frame onic_qdma_csr_index_setup
    unfolding onic_qdma_csr_index_setup
    onic_qdma_csr_index_setup-Always env w =
        let op = Op.qdma_global_csr_get w.priv.dev_handle in
        let csr = env.csr w.log in
        frame.both (calls op refl env w) (
          either frame (ne_zero (env.status w.log op)) (pure einval)
            (get >>= (λ (u : World). first_search csr u.priv.info)) (λ e u. frame.stay u)
            (λ e u. searches-Always frame ring timer cnt_th buf_sz csr u.priv.info e u) env
            (called op env w))
