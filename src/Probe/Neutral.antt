-- ===== src/Probe/Neutral.antt =====
-- Functions that neither take an asset of `onic_pci_probe` (onic_main.c) nor give one back.
pub mod Port
pub mod Setup
pub mod File
use onic_driver.Base.{
  ℕ, zero, suc, ◌+◌, ◌%◌, ◌≡◌, ◌∙◌, refl, Bool, true, ◌==◌, if◌then◌else◌, if-both, Option, some,
  none, List, [], ◌∷◌, arith, not, bit_and, ◌||◌, length, ◌^◌,
}
use onic_driver.Base.Int.{ℤ, pos, ne_zero, le_zero, lt_zero, einval, enomem, to_u16}
use onic_driver.Kernel.{
  OnicPriv, PlatformInfo, zero_platform_info, GlobalCsrConf, Memory, Op, Env, World, called, Io,
  pure, ◌>>=◌, ◌>>◌, get, modify_priv, fetch, perform,
}
use onic_driver.Kernel.Steps.{Frame}
use onic_driver.Register.{
  syscfg_offset, cmac_stat, qdma_func_offset_qconf, qdma_func_offset_indir_table,
}
use onic_driver.Register.Sys.{SysReg}
use onic_driver.Register.Conf.{ConfReg}
use onic_driver.Register.Stat.{StatReg}
use onic_driver.Json.{
  JsonLib, Token, is_object, token_loop, fw_name, read_tokens, parse_tokens, parse_file,
  onic_get_platform_info,
}
use onic_driver.Stats.{onic_set_mac_address}
use onic_driver.Setup.{
  onic_set_num_queue, find_index, index8, qdma_global_csr_array_sz, store_ring_sz, store_timer,
  store_cnt_th, store_buf_sz, data_vectors, onic_qdma_csr_index_setup, onic_arr_find,
}
use onic_driver.Cmac.{
  conf_writes, disable_writes, flow_writes, qconf, start_writes, rsfec_writes, shell_bit,
  wait_shell, onic_rx_lane_aligned, enable_flow, rx_not_aligned, enable_lanes, onic_enable_cmac,
  onic_disable_cmac, reta_loop, onic_init_reta,
}
use onic_driver.Probe.Assets.{Asset, refs, gained_op, lost_op, gained, lost, Change}

-- The assets and those handles are as before.
pub record Still (w w' : World) : Type 0 where
  pub same_gained : (x : Asset) → gained x w'.log ≡ gained x w.log
  pub same_lost : (x : Asset) → lost x w'.log ≡ lost x w.log
  pub same_refs : refs w'.priv ≡ refs w.priv

pub Still-refl : {w : World} → Still w w
Still-refl = record { same_gained = λ x. refl; same_lost = λ x. refl; same_refs = refl }

pub Still-trans : {w v u : World} → Still w v → Still v u → Still w u
Still-trans f g = record {
  same_gained = λ x. g.same_gained x ∙ f.same_gained x;
  same_lost = λ x. g.same_lost x ∙ f.same_lost x;
  same_refs = g.same_refs ∙ f.same_refs;
}

pub Still-Change : {w v : World} (h : Asset → ℕ) → Still w v → Change w v h h
Still-Change h s = record { change = λ x. omega (arith, s.same_gained x, s.same_lost x) }

pub Still-Frame : Frame Still
Still-Frame = record { stay = λ w. Still-refl; both = Still-trans }

-- A function that moves no asset.
abbrev pub IsNeutral : {A : Type 0} → Io A → Type 0
IsNeutral m = (env : Env) (w : World) → Still w (m env w).1

-- A call that moves no asset.
abbrev pub IsPlain : Op → Type 0
IsPlain op = (x : Asset) → ((s : ℤ) (v : ℕ) → gained_op x op s v ≡ 0) × (lost_op x op ≡ 0)

pub called-Still : {op : Op} → IsPlain op → (env : Env) (w : World) → Still w (called op env w)
called-Still {op} p env w = record {
  same_gained = λ x. omega (arith, (p x).0 (env.status w.log op) (env.value w.log op));
  same_lost = λ x. omega (arith, (p x).1);
  same_refs = refl;
}

pub branch :
    {A : Type 0} (b : Bool) (m k : Io A)
    → IsNeutral m
    → IsNeutral k
    → IsNeutral (if b then m else k)
branch b m k p q env w = if-both (λ (j : Io _). Still w (j env w).1) b m k (p env w) (q env w)
