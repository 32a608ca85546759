-- ===== src/Tests/Device.antt =====
-- Runs on the device: its tables, its port, the probe and the removal.
use onic_driver.Base.{
  ℕ, ◌+◌, ◌/◌, ◌%◌, ◌^◌, ◌<◌, ◌≤◌, ◌≡◌, refl, true, false, ◌==◌, inl, inr, some, arith, [], ◌∷◌,
}
use onic_driver.Base.Int.{ℤ, pos}
use onic_driver.Register.{
  qdma_func_offset, qdma_func_offset_qconf, qdma_func_offset_indir_table, qdma_func_offset_hash_key,
  qdma_subsys_offset, shell_maxlen,
}
use onic_driver.Register.Conf.{ConfReg}
use onic_driver.Register.Sys.{syscfg_reg}
use onic_driver.Register.Stat.{StatReg}
use onic_driver.Register.Layout.{CmacReg, cmac_place, cmac_place-distinct, qdma_func_offset-blocks}
use onic_driver.Setup.{onic_set_num_queue, onic_arr_find, onic_qdma_csr_index_setup}
use onic_driver.Setup.Find.{Found, onic_arr_find-Found}
use onic_driver.Setup.Vectors.{reserved, onic_set_num_queue-vectors}
use onic_driver.Setup.Index.{IndicesSet, onic_qdma_csr_index_setup-IndicesSet}
use onic_driver.Cmac.{wait_shell, onic_enable_cmac, onic_disable_cmac, onic_init_reta, qconf}
use onic_driver.Cmac.Bar.{outside, onic_enable_cmac-inside}
use onic_driver.Cmac.Writes.{register}
use onic_driver.Cmac.Wait.{read_status, polled, shows, wait_shell-returns}
use onic_driver.Cmac.Lanes.{port, aligns, EnableEnds}
use onic_driver.Cmac.Enable.{reset_asked, reset_seen, onic_enable_cmac-Ends}
use onic_driver.Cmac.Reta.{onic_init_reta-entries, onic_init_reta-function_map}
use onic_driver.Stats.{onic_get_stats64}
use onic_driver.Stats.Sums.{SumsUp, onic_get_stats64-SumsUp}
use onic_driver.Kernel.{called, zero_stats}
use onic_driver.Tests.{kernel, status_ok, start, info, tables}

indexed : (onic_qdma_csr_index_setup (kernel status_ok) start).0 ≡ pos 0
unfolding onic_qdma_csr_index_setup onic_arr_find
indexed = refl

onic_qdma_csr_index_setup-IndicesSet_example :
    IndicesSet tables info (onic_qdma_csr_index_setup (kernel status_ok) start).1.priv
onic_qdma_csr_index_setup-IndicesSet_example =
    onic_qdma_csr_index_setup-IndicesSet (kernel status_ok) start indexed

onic_arr_find-Found_example :
    Found (2048 ∷ 64 ∷ 64 ∷ []) 3 0 64 (onic_arr_find (2048 ∷ 64 ∷ 64 ∷ []) 3 (pos 64))
onic_arr_find-Found_example = onic_arr_find-Found (2048 ∷ 64 ∷ 64 ∷ []) 3 (pos 64)

wait_shell-returns_example :
    let env = kernel status_ok in
    (j : ℕ) × (j ≤ 1)
    × ((i : ℕ) (l : i < j) → shows env 256 65536 (polled env 65536 i start) ≡ false)
    × (shows env 256 65536 (polled env 65536 j start) ≡ true)
    × (wait_shell 2 256 65536 env start
        ≡ (true, called (read_status 65536) env (polled env 65536 j start)))
unfolding syscfg_reg
wait_shell-returns_example =
    wait_shell-returns (kernel status_ok) 256 65536 2 1 start (omega arith) refl

onic_enable_cmac-Ends_example :
    let env = kernel status_ok in
    let asked = reset_asked env start in
    let v = (onic_enable_cmac 2 env start).1 in
    (j : ℕ) × (ret : ℤ) × (j ≤ 1)
    × ((m : ℕ) → m < j → shows env 256 65536 (polled env 65536 m asked) ≡ false)
    × (shows env 256 65536 (polled env 65536 j asked) ≡ true)
    × ((onic_enable_cmac 2 env start).0 ≡ some ret)
    × EnableEnds (aligns env 65536 1 (reset_seen env j start)) start.priv ret v.log
    × (port start.priv v.log ConfReg.rsfec_conf_enable ≡ some 3)
    × (port start.priv v.log ConfReg.rsfec_conf_ind_correction ≡ some 7)
unfolding syscfg_reg
onic_enable_cmac-Ends_example =
    onic_enable_cmac-Ends (kernel status_ok) 2 1 start (omega arith) refl

onic_init_reta-entries_example :
    let l = (onic_init_reta (kernel status_ok) start).1.log in
    (register l (65536 + qdma_func_offset_qconf 1) ≡ some (qconf 0 2))
    × ((k : ℕ)
        → k < 128
        → (register l (65536 + qdma_func_offset_indir_table 1 k) ≡ some (k % 2)) × (k % 2 < 2))
onic_init_reta-entries_example = onic_init_reta-entries (kernel status_ok) start (omega arith)

onic_get_stats64-SumsUp_example :
    let r = onic_get_stats64 16 zero_stats (kernel status_ok) start in
    SumsUp start zero_stats r.0 × (r.1 ≡ start)
onic_get_stats64-SumsUp_example =
    onic_get_stats64-SumsUp (kernel status_ok) 16 zero_stats start refl refl refl refl

-- Two registers, and two places of a table.
abbrev tx_register : CmacReg
tx_register = inl ConfReg.conf_tx_1

abbrev rx_status : CmacReg
rx_status = inr StatReg.stat_rx_status

abbrev fifth : ℕ
fifth = 5

abbrev sixth : ℕ
sixth = 6

cmac_place-distinct_example :
    (cmac_place 0 tx_register % 4 ≡ 0)
    × (cmac_place 0 tx_register + 4 ≤ shell_maxlen)
    × (cmac_place 0 tx_register ≡ cmac_place 1 rx_status
        → (tx_register ≡ rx_status) × ((0 == 0) ≡ (1 == 0)))
cmac_place-distinct_example = cmac_place-distinct 0 1 tx_register rx_status

qdma_func_offset-blocks_example :
    (qdma_func_offset_qconf 1 < qdma_func_offset_indir_table 1 fifth)
    × (qdma_func_offset_indir_table 1 fifth < qdma_func_offset_hash_key 1 sixth)
    × (qdma_func_offset_hash_key 1 sixth + 4 ≤ qdma_func_offset 2)
    × (qdma_func_offset 2 ≤ qdma_subsys_offset)
    × (qdma_func_offset_indir_table 1 fifth ≡ qdma_func_offset_indir_table 1 sixth → fifth ≡ sixth)
qdma_func_offset-blocks_example =
    qdma_func_offset-blocks 1 fifth sixth (omega arith) (omega arith) (omega arith)

onic_set_num_queue-vectors_example :
    let r = onic_set_num_queue (kernel status_ok) start in
    (r.0 ≡ pos 0) × (r.1.priv.num_msix ≡ 8) × (r.1.priv.nb_queues + reserved info ≡ 8)
onic_set_num_queue-vectors_example =
    onic_set_num_queue-vectors (kernel status_ok) 7 start refl (omega arith) (omega arith)

onic_init_reta-function_map_example :
    (word : ℕ) × (register
        (onic_init_reta (kernel status_ok) start).1.log
        (65536 + qdma_func_offset_qconf 1)
      ≡ some word)
    × (word / 2 ^ 16 ≡ 0)
    × (word % 2 ^ 16 ≡ 2)
onic_init_reta-function_map_example =
    onic_init_reta-function_map (kernel status_ok) start (omega arith) (omega arith) (omega arith)

onic_enable_cmac-inside_example :
    (outside 65536 (onic_enable_cmac 2 (kernel status_ok) start).1.log ≡ 0)
    × (outside 65536 (onic_disable_cmac (kernel status_ok) start).1.log ≡ 0)
    × (outside 65536 (onic_init_reta (kernel status_ok) start).1.log ≡ 0)
onic_enable_cmac-inside_example = onic_enable_cmac-inside (kernel status_ok) 2 start (omega arith)
