-- ===== src/Json/Steps.antt =====
-- What `onic_get_platform_info` (onic_json.c) keeps, for any relation that its calls keep.
use onic_driver.Base.{
  ℕ, ◌≡◌, ◌%◌, ◌^◌, ◌||◌, ◌==◌, refl, Bool, true, false, if◌then◌else◌, List, not, length,
}
use onic_driver.Base.Int.{pos, ne_zero, einval, enomem, to_u16}
use onic_driver.Kernel.{PlatformInfo, Memory, Op, World, called, pure, ◌>>=◌, ◌>>◌, fetch, perform}
use onic_driver.Kernel.Steps.{Frame, Always, Calls, either}
use onic_driver.Json.{
  JsonLib, Token, is_object, token_loop, fw_name, read_tokens, parse_tokens, parse_file,
  onic_get_platform_info,
}

-- The calls of reading the file.
abbrev pub is_file_call : Op → Bool
is_file_call (Op.alloc Memory.tokens n) = true
is_file_call (Op.kfree a) = true
is_file_call (Op.request_firmware f) = true
is_file_call Op.release_firmware = true
is_file_call o = false

module _ {R : World → World → Type 0} (frame : Frame R)
    (calls : (op : Op) → is_file_call op ≡ true → Calls frame op) (lib : JsonLib) where
  read_tokens-Always :
      (json : List ℕ) (array : ℕ) (tokens : ℕ → Token) (n : ℕ) (p : PlatformInfo)
      → Always frame (read_tokens lib json array tokens n p)
  unfolding read_tokens
  read_tokens-Always json array tokens n p =
      either frame ((n == 0) || not (is_object (tokens 0).type_of))
        (perform (Op.kfree array) >> pure (einval, p))
        (pure (pos 0, token_loop lib json tokens n n 1 p)) (calls (Op.kfree array) refl)
        (λ e u. frame.stay u)

  parse_tokens-Always :
      (json : List ℕ) (n : ℕ) (p : PlatformInfo) → Always frame (parse_tokens lib json n p)
  unfolding parse_tokens
  parse_tokens-Always json n p =
      let found = lib.jsmn_parse json (length json % 2 ^ 16) n in
      let op = Op.alloc Memory.tokens n in
      let next = λ (array : ℕ). read_tokens lib json array found.1 (to_u16 found.0) p in
      either frame (n == 0) (pure (einval, p))
        (fetch op >>= (λ (array : ℕ). if array == 0 then pure (enomem, p) else next array))
        (λ e u. frame.stay u)
        (λ e u. frame.both (calls op refl e u) (
          either frame (e.value u.log op == 0) (pure (enomem, p)) (next (e.value u.log op))
            (λ e u. frame.stay u)
            (read_tokens-Always json (e.value u.log op) found.1 (to_u16 found.0) p) e
            (called op e u)))

  pub onic_get_platform_info-Always :
      (fname : List ℕ) (p : PlatformInfo) → Always frame (onic_get_platform_info lib fname p)
  unfolding onic_get_platform_info parse_file
  onic_get_platform_info-Always fname p env w =
      let op = Op.request_firmware (fw_name fname) in
      let json = lib.firmware (fw_name fname) in
      let n = to_u16 (lib.jsmn_count json (length json % 2 ^ 16)) in
      frame.both (calls op refl env w) (
        either frame (ne_zero (env.status w.log op)) (pure (env.status w.log op, p))
          (do r ← parse_tokens lib json n p; perform Op.release_firmware; pure r)
          (λ e u. frame.stay u)
          (λ e u.
            frame.both (parse_tokens-Always json n p e u)
              (calls Op.release_firmware refl e (parse_tokens lib json n p e u).1))
          env (called op env w))
