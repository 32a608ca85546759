-- ===== src/Probe/Steps.antt =====
-- What `onic_get_pinfo` (onic_main.c) keeps, for any relation that its calls keep.
use onic_driver.Base.{ℕ, ◌≡◌, ◌==◌, refl, Bool, true, if◌then◌else◌, List, arith}
use onic_driver.Base.Int.{ℤ, pos, ne_zero, enomem}
use onic_driver.Kernel.{
  PlatformInfo, zero_platform_info, Memory, Op, World, called, pure, ◌>>=◌, ◌>>◌, perform,
}
use onic_driver.Kernel.Steps.{Frame, Always, Calls, either}
use onic_driver.Json.{JsonLib, onic_get_platform_info}
use onic_driver.Json.Steps.{is_file_call, onic_get_platform_info-Always}
use onic_driver.Probe.{onic_get_pinfo}

-- The structure's memory, and the calls of reading the file.
abbrev pub is_info_call : Op → Bool
is_info_call (Op.alloc Memory.platform_info n) = true
is_info_call op = is_file_call op

module _ {R : World → World → Type 0} (frame : Frame R)
    (calls : (op : Op) → is_info_call op ≡ true → Calls frame op) (lib : JsonLib) where
  file-Calls : (op : Op) → is_file_call op ≡ true → Calls frame op
  file-Calls op e = calls op (ground (arith, e))

  pub onic_get_pinfo-Always : (file_name : List ℕ) → Always frame (onic_get_pinfo lib file_name)
  unfolding onic_get_pinfo
  onic_get_pinfo-Always file_name env w =
      let op = Op.alloc Memory.platform_info 1 in
      let a = env.value w.log op in
      let read = onic_get_platform_info lib file_name zero_platform_info in
      let finish = λ (r : ℤ × PlatformInfo).
        if ne_zero r.0
        then (perform (Op.kfree a) >> pure (r.0, 0, r.1))
        else pure (pos 0, a, r.1) in
      frame.both (calls op refl env w) (
        either frame (a == 0) (pure (enomem, 0, zero_platform_info)) (read >>= finish)
          (λ e u. frame.stay u)
          (λ e u.
            let r = (read e u).0 in
            frame.both
              (onic_get_platform_info-Always frame file-Calls lib file_name zero_platform_info e u)
              (either frame (ne_zero r.0) (perform (Op.kfree a) >> pure (r.0, 0, r.1))
                (pure (pos 0, a, r.1)) (calls (Op.kfree a) refl) (λ e u. frame.stay u) e
                (read e u).1))
          env (called op env w))
