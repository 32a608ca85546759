-- ===== src/Setup.antt =====
-- Finding out what the device offers and opening it (onic_main.c: `onic_set_num_queue`,
-- `onic_arr_find`, `onic_qdma_csr_index_setup`, `onic_qdma_setup`).
pub mod Find
pub mod Index
pub mod Vectors
pub mod Steps
pub mod Report
use onic_driver.Base.{
  ℕ, zero, suc, ◌+◌, ◌-◌, ◌%◌, ◌^◌, Bool, ◌==◌, not, if◌then◌else◌, sub16, List, [], ◌∷◌,
}
use onic_driver.Base.Int.{ℤ, pos, negsuc, ne_zero, lt_zero, le_zero, to_u16, to_u32, einval}
use onic_driver.Kernel.{
  OnicPriv, PlatformInfo, QdmaDevConf, zero_dev_conf, DrvMode, GlobalCsrConf, Op, Env, World, Io,
  pure, ◌>>=◌, ◌>>◌, get, modify_priv, request, request_both,
}

-- The two steps of `onic_set_num_queue` on an `unsigned short`.
abbrev pub data_vectors : ℤ → PlatformInfo → ℕ
data_vectors num_msix info =
    let nb_queues = sub16 (to_u16 num_msix) info.pci_msix_user_cnt in
    if info.pci_master_pf then sub16 nb_queues 1 else nb_queues

unfoldable pub onic_set_num_queue : Io ℤ
onic_set_num_queue = do
  w ← get
  num_msix ← request (Op.pci_msix_vec_count w.priv.pcidev)
  if le_zero num_msix then pure num_msix else do
    modify_priv
        (λ p. record p { num_msix = to_u16 num_msix; nb_queues = data_vectors num_msix p.info })
    pure (pos 0)

-- The loop of `onic_arr_find` with `n` rounds left, at the index `i` of the array's rest.
abbrev pub find_loop : List ℕ → ℕ → ℕ → ℕ → ℤ
find_loop arr zero i element = negsuc 0
find_loop [] (suc n) i element = negsuc 0
find_loop (x ∷ arr) (suc n) i element =
    if x == element then pos i else find_loop arr n (i + 1) element

-- `element` is compared as an `unsigned int`.
unfoldable pub onic_arr_find : List ℕ → ℕ → ℤ → ℤ
onic_arr_find arr n element = find_loop arr n 0 (to_u32 element)

-- `QDMA_GLOBAL_CSR_ARRAY_SZ`
abbrev pub qdma_global_csr_array_sz : ℕ
qdma_global_csr_array_sz = 16

-- The `u8` that an index is stored in.
abbrev pub index8 : ℤ → ℕ
index8 i = to_u32 i % 2 ^ 8

-- `qdma_global_csr_get`, which fills `csr_conf`.
abbrev pub csr_get : Io (ℤ × GlobalCsrConf)
csr_get env w = (
  (env.status w.log (Op.qdma_global_csr_get w.priv.dev_handle), env.csr w.log),
  (request (Op.qdma_global_csr_get w.priv.dev_handle) env w).1,
)

-- One of the four searches of `onic_qdma_csr_index_setup`: what it stores, and what comes after it.
abbrev pub find_index : List ℕ → ℤ → (ℕ → OnicPriv → OnicPriv) → Io ℤ → Io ℤ
find_index arr element store next =
    let index = onic_arr_find arr qdma_global_csr_array_sz element in
    if lt_zero index then pure index else do modify_priv (store (index8 index)); next

abbrev pub store_ring_sz : ℕ → OnicPriv → OnicPriv
store_ring_sz i p = record p { tx_desc_rng_sz_idx = i; rx_desc_rng_sz_idx = i; cmpl_rng_sz_idx = i }

abbrev pub store_timer : ℕ → OnicPriv → OnicPriv
store_timer i p = record p { rx_timer_idx = i }

abbrev pub store_cnt_th : ℕ → OnicPriv → OnicPriv
store_cnt_th i p = record p { rx_cnt_th_idx = i }

abbrev pub store_buf_sz : ℕ → OnicPriv → OnicPriv
store_buf_sz i p = record p { rx_buf_sz_idx = i }

unfoldable pub onic_qdma_csr_index_setup : Io ℤ
onic_qdma_csr_index_setup = do
  (ret, csr_conf) ← csr_get
  if ne_zero ret then pure einval else do
    w ← get
    find_index csr_conf.ring_sz w.priv.info.ring_sz store_ring_sz (
        find_index csr_conf.c2h_timer_cnt w.priv.info.c2h_tmr_cnt store_timer (
          find_index csr_conf.c2h_cnt_th w.priv.info.c2h_cnt_thr store_cnt_th
            (find_index csr_conf.c2h_buf_sz w.priv.info.c2h_buf_sz store_buf_sz (pure (pos 0)))))

-- The configuration that `onic_qdma_setup` fills in.
abbrev pub dev_conf : OnicPriv → QdmaDevConf
dev_conf p = record zero_dev_conf {
  bar_num_config = p.info.qdma_bar;
  msix_qvec_max = p.num_msix;
  data_msix_qvec_max = p.nb_queues;
  user_msix_qvec_max = p.info.pci_msix_user_cnt;
  master_pf = p.info.pci_master_pf;
  intr_moderation =
      if p.info.is_poll_mode then zero_dev_conf.intr_moderation else p.info.intr_mod_en;
  qsets_max = p.info.queue_max;
  qsets_base = p.info.queue_base;
  pdev = p.pcidev;
  qdma_drv_mode = if p.info.is_poll_mode then DrvMode.poll_mode else DrvMode.direct_intr_mode;
}

unfoldable pub onic_qdma_setup : Io ℤ
onic_qdma_setup = do
  modify_priv (λ p. record p { qdma_dev_conf = dev_conf p })
  w ← get
  (ret, dev_handle) ← request_both (Op.qdma_device_open w.priv.qdma_dev_conf)
  modify_priv (λ p. record p { dev_handle = dev_handle })
  if ne_zero ret then pure einval else do
    ret ← onic_qdma_csr_index_setup
    if ne_zero ret
        then (do w ← get; request (Op.qdma_device_close w.priv.dev_handle); pure einval)
        else pure (pos 0)
