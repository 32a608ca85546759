-- ===== src/Probe/Neutral/File.antt =====
-- Reading the platform file (onic_main.c: `onic_get_pinfo`) moves no asset.
use onic_driver.Base.{ℕ, ◌≡◌, true, List, arith}
use onic_driver.Kernel.{Op}
use onic_driver.Json.{JsonLib}
use onic_driver.Probe.{onic_get_pinfo}
use onic_driver.Probe.Steps.{is_info_call, onic_get_pinfo-Always}
use onic_driver.Probe.Neutral.{Still-Frame, IsNeutral, IsPlain, called-Still}

pub kfree-IsPlain : (a : ℕ) → IsPlain (Op.kfree a)
kfree-IsPlain a x = (λ s u. ground arith, ground arith)

info-IsPlain : (op : Op) → is_info_call op ≡ true → IsPlain op
info-IsPlain op e x = (λ s u. ground arith, ground arith)

pub onic_get_pinfo-IsNeutral :
    (lib : JsonLib) (file_name : List ℕ) → IsNeutral (onic_get_pinfo lib file_name)
onic_get_pinfo-IsNeutral =
    onic_get_pinfo-Always Still-Frame (λ op e. called-Still (info-IsPlain op e))
