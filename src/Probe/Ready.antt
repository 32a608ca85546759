-- ===== src/Probe/Ready.antt =====
-- What a successful probe leaves behind (onic_main.c: `onic_pci_probe`, from the request cache on).

pub mod Attach
use onic_driver.Base.{
  ℕ, ◌≡◌, ◌∙◌, refl, ap, sym, subst, inl, inr, true, false, Bool-cases, ◌==◌, Option, some, none,
  arith, [],
}
use onic_driver.Base.Int.{ne_zero-false, ℤ, pos, ne_zero}
use onic_driver.Kernel.{
  OnicPriv, PlatformInfo, GlobalCsrConf, Op, Env, World, called, Log, Io, pure, ◌>>=◌, ◌>>◌, get,
  request,
}
use onic_driver.Kernel.Steps.{Frame, Always, Calls}
use onic_driver.Kernel.Ledger.{Rests, Rests-refl, Rests-trans}
use onic_driver.Kernel.Blocks.{memory, moves_block, called-Rests}
use onic_driver.Cmac.{onic_enable_cmac, onic_init_reta}
use onic_driver.Cmac.Steps.{is_port_call, onic_enable_cmac-Always, onic_init_reta-Always}
use onic_driver.Setup.{onic_qdma_setup, onic_qdma_csr_index_setup, dev_conf}
use onic_driver.Setup.Index.{IndicesSet, onic_qdma_csr_index_setup-IndicesSet}
use onic_driver.Setup.Report.{Grows, Grows-refl, Grows-trans, called-Grows, Reported}
use onic_driver.Setup.Steps.{is_setup_call, onic_qdma_csr_index_setup-Always}
use onic_driver.Probe.{
  exit, destroy_kmem_cache, close_qdma_device, iounmap_bar, disable_cmac, probe_register,
  probe_cmac, probe_bar, probe_cache,
}
use onic_driver.Probe.Ends.{exit-ret, destroy-ret}

-- Nothing of the private part and of the network device changes, and no memory moves.
pub record Same (w v : World) : Type 0 where
  pub grows : Grows w v
  pub same_priv : v.priv ≡ w.priv
  pub same_net : v.net ≡ w.net
  pub rests : Rests memory w v

pub Same-Frame : Frame Same
Same-Frame = record {
  stay = λ w. record {
    grows = Grows-refl w;
    same_priv = refl;
    same_net = refl;
    rests = Rests-refl memory w;
  };
  both = λ a b. record {
    grows = Grows-trans a.grows b.grows;
    same_priv = b.same_priv ∙ a.same_priv;
    same_net = b.same_net ∙ a.same_net;
    rests = Rests-trans memory a.rests b.rests;
  };
}

pub called-Same : (op : Op) → moves_block op ≡ false → Calls Same-Frame op
called-Same op e env w = record {
  grows = called-Grows env op w;
  same_priv = refl;
  same_net = refl;
  rests = called-Rests env op w e;
}

pub port-Calls : (op : Op) → is_port_call op ≡ true → Calls Same-Frame op
port-Calls op e = called-Same op (ground (arith, e))

-- What the private part says about its device: its structures and the platform information.
abbrev pub identity : OnicPriv → ℕ × ℕ × ℕ × PlatformInfo
identity p = (p.netdev, p.pcidev, p.pinfo, p.info)

-- The cache, the mapping and the indices of the tables are in place, and the rest of the device is as
-- in `w`.
pub record Attached (env : Env) (w v : World) : Type 0 where
  pub same_identity : identity v.priv ≡ identity w.priv
  pub same_net : v.net ≡ w.net
  pub rests : Rests memory w v
  pub has_cache : (v.priv.dma_req == 0) ≡ false
  pub has_mapping : (v.priv.bar_base == 0) ≡ false
  pub indices :
      (log : Log) × Reported v.priv.dev_handle w log v × IndicesSet (env.csr log) w.priv.info v.priv

abbrev pub device : OnicPriv → (ℕ × ℕ × ℕ × PlatformInfo) × ℕ
device p = (identity p, p.dma_req)

-- The device, its structures, the platform information and the cache are as before.
pub record Kept (w v : World) : Type 0 where
  pub grows : Grows w v
  pub same_device : device v.priv ≡ device w.priv
  pub same_net : v.net ≡ w.net
  pub rests : Rests memory w v

pub Kept-Frame : Frame Kept
Kept-Frame = record {
  stay = λ w. record {
    grows = Grows-refl w;
    same_device = refl;
    same_net = refl;
    rests = Rests-refl memory w;
  };
  both = λ a b. record {
    grows = Grows-trans a.grows b.grows;
    same_device = b.same_device ∙ a.same_device;
    same_net = b.same_net ∙ a.same_net;
    rests = Rests-trans memory a.rests b.rests;
  };
}

pub priv-Kept :
    (w : World) (p : OnicPriv) → device p ≡ device w.priv → Kept w (record w { priv = p })
priv-Kept w p e = record {
  grows = record { later = []; grown = refl };
  same_device = e;
  same_net = refl;
  rests = record { moves = λ a. omega arith };
}

pub setup-Calls : (op : Op) → is_setup_call op ≡ true → Calls Kept-Frame op
setup-Calls op e env w = record {
  grows = called-Grows env op w;
  same_device = refl;
  same_net = refl;
  rests = called-Rests env op w (ground (arith, e));
}
