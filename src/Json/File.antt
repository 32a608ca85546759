-- ===== src/Json/File.antt =====
-- `onic_get_platform_info` of onic_json.c on a file that holds an object of known settings.
use onic_driver.Base.{
  ℕ, ◌+◌, ◌%◌, ◌^◌, ◌<◌, ◌≤◌, ◌≡◌, ◌∙◌, refl, ap, true, false, ◌==◌, if-false, ne→==, List, [], ◌∷◌,
  length, arith,
}
use onic_driver.Base.Int.{ℤ, pos, ne_zero, to_u16}
use onic_driver.Kernel.{PlatformInfo, Memory, Op, Env, World, called, Io}
use onic_driver.Json.{
  Token, is_object, JsonLib, fw_name, read_tokens, parse_tokens, parse_file, onic_get_platform_info,
}
use onic_driver.Json.Written.{as_written, store_all-as_written}
use onic_driver.Json.Settings.{
  Setting, widths, store_all, Lays, token_loop-store_all, width-positive,
}

-- The file is an object of `settings`, by the tokens that jsmn finds in it.
pub record HoldsSettings (lib : JsonLib) (json : List ℕ) (settings : List Setting) : Type 0 where
  pub counted : lib.jsmn_count json (length json % 2 ^ 16) ≡ pos (1 + widths settings)
  pub fits : 1 + widths settings < 2 ^ 16
  pub tokens : ℕ → Token
  pub parsed :
      lib.jsmn_parse json (length json % 2 ^ 16) (1 + widths settings)
      ≡ (pos (1 + widths settings), tokens)
  pub object : is_object (tokens 0).type_of ≡ true
  pub lays : Lays json tokens 1 settings

length-widths : (settings : List Setting) → length settings ≤ widths settings
length-widths [] = omega arith
length-widths (s ∷ ss) = omega (arith, length-widths ss, width-positive s)

to_u16-small : (n : ℕ) → n < 2 ^ 16 → to_u16 (pos n) ≡ n
to_u16-small n l = omega arith

nonempty : (settings : List Setting) → (1 + widths settings == 0) ≡ false
nonempty settings = ne→== (1 + widths settings) 0 (λ e. absurd (omega (arith, e)))

module _ (env : Env) (lib : JsonLib) where
  read_tokens-store_all :
      (json : List ℕ) (array : ℕ) (tokens : ℕ → Token) (settings : List Setting) (p : PlatformInfo)
      (w : World)
      → is_object (tokens 0).type_of ≡ true
      → Lays json tokens 1 settings
      → (read_tokens lib json array tokens (1 + widths settings) p env w).0
        ≡ (pos 0, store_all lib settings p)
  unfolding read_tokens
  read_tokens-store_all json array tokens settings p w object lays =
      let n = 1 + widths settings in
      rw (nonempty settings, object)
        (ap (λ q. (pos 0, q))
          (token_loop-store_all json tokens lib n n 1 settings p lays refl
            (omega (arith, length-widths settings))))

  parse_tokens-store_all :
      (json : List ℕ) (settings : List Setting) (p : PlatformInfo) (w : World)
      → HoldsSettings lib json settings
      → (env.value w.log (Op.alloc Memory.tokens (1 + widths settings)) == 0) ≡ false
      → (parse_tokens lib json (1 + widths settings) p env w).0 ≡ (pos 0, store_all lib settings p)
  unfolding parse_tokens
  parse_tokens-store_all json settings p w h there =
      let n = 1 + widths settings in
      let op = Op.alloc Memory.tokens n in
      let array = env.value w.log op in
      let v = called op env w in
      rw (nonempty settings, there)
        (ap (λ f. (read_tokens lib json array f.1 (to_u16 f.0) p env v).0) h.parsed
          ∙ ap (λ m. (read_tokens lib json array h.tokens m p env v).0) (to_u16-small n h.fits)
          ∙ read_tokens-store_all json array h.tokens settings p v h.object h.lays)

  -- When the file is loaded, jsmn finds an object of settings in it, of less than 65536 tokens, and
  -- there is memory for the tokens, `onic_get_platform_info` returns 0, and each field holds what the
  -- settings say of it. A number holds the last value of its own key that the parser of its width reads,
  -- in base ten; a flag is on unless the last text of its key begins with `0`, `f` or `F`; and each byte
  -- of the address holds the last value at its place that could be read, in base sixteen. A field of
  -- which the settings say nothing is left. A setting is the name of a key with a text of at most 31
  -- bytes without NUL, or the key of the address with an array of at most six such texts.
  pub onic_get_platform_info-as_written :
      (fname : List ℕ) (settings : List Setting) (p : PlatformInfo) (w : World)
      → env.status w.log (Op.request_firmware (fw_name fname)) ≡ pos 0
      → HoldsSettings lib (lib.firmware (fw_name fname)) settings
      → let v = called (Op.request_firmware (fw_name fname)) env w in
        (env.value v.log (Op.alloc Memory.tokens (1 + widths settings)) == 0) ≡ false
        → (onic_get_platform_info lib fname p env w).0 ≡ (pos 0, as_written lib settings p)
  unfolding onic_get_platform_info parse_file
  onic_get_platform_info-as_written fname settings p w loaded h there =
      let v = called (Op.request_firmware (fw_name fname)) env w in
      let json = lib.firmware (fw_name fname) in
      ap (λ (m : Io (ℤ × PlatformInfo)). (m env v).0)
        (if-false (ne_zero (env.status w.log (Op.request_firmware (fw_name fname)))) _ _
          (ap ne_zero loaded))
      ∙ ap (λ z. (parse_tokens lib json (to_u16 z) p env v).0) h.counted
      ∙ ap (λ m. (parse_tokens lib json m p env v).0) (to_u16-small (1 + widths settings) h.fits)
      ∙ parse_tokens-store_all json settings p v h there
      ∙ ap (λ q. (pos 0, q)) (store_all-as_written lib settings p)
