-- ===== src/Probe/Neutral/Port.antt =====
-- The functions of the Ethernet port (onic_main.c, `onic_disable_cmac` to `onic_init_reta`) move no asset.
use onic_driver.Base.{ℕ, ◌≡◌, true, arith}
use onic_driver.Kernel.{Op}
use onic_driver.Kernel.Steps.{Calls}
use onic_driver.Cmac.{onic_disable_cmac, onic_enable_cmac, onic_init_reta}
use onic_driver.Cmac.Steps.{
  is_port_call, onic_disable_cmac-Always, onic_enable_cmac-Always, onic_init_reta-Always,
}
use onic_driver.Probe.Neutral.{Still-Frame, IsNeutral, IsPlain, called-Still}

port-IsPlain : (op : Op) → is_port_call op ≡ true → IsPlain op
port-IsPlain op e x = (λ s u. ground arith, ground arith)

port-Calls : (op : Op) → is_port_call op ≡ true → Calls Still-Frame op
port-Calls op e = called-Still (port-IsPlain op e)

pub onic_disable_cmac-IsNeutral : IsNeutral onic_disable_cmac
onic_disable_cmac-IsNeutral = onic_disable_cmac-Always Still-Frame port-Calls

pub onic_enable_cmac-IsNeutral : (fuel : ℕ) → IsNeutral (onic_enable_cmac fuel)
onic_enable_cmac-IsNeutral = onic_enable_cmac-Always Still-Frame port-Calls

pub onic_init_reta-IsNeutral : IsNeutral onic_init_reta
onic_init_reta-IsNeutral = onic_init_reta-Always Still-Frame port-Calls
