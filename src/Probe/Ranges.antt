-- ===== src/Probe/Ranges.antt =====
-- The C types of the platform information (onic_json.h), and what the platform file can store
-- (onic_json.c: `onic_get_platform_info`; onic_main.c: `onic_get_pinfo`).
use onic_driver.Base.{
  ℕ, zero, suc, ◌+◌, ◌<◌, ◌^◌, ◌≡◌, refl, ◌==◌, ltb, Bool, Bool-cases, inl, inr, ◌%◌, not, ◌||◌,
  if◌then◌else◌, if-both, Option, some, none, List, length, arith,
}
use onic_driver.Base.Int.{ℤ, pos, negsuc, ne_zero, to_u16, einval, enomem}
use onic_driver.Kernel.{
  PlatformInfo, zero_platform_info, Memory, Op, Env, World, called, Io, pure, ◌>>◌, perform,
}
use onic_driver.Json.{
  JsonLib, Token, is_object, or_old, Key, find_key, all_keys, parsing_buffer, store_value,
  token_step, token_loop, fw_name, read_tokens, parse_tokens, parse_file, onic_get_platform_info,
}
use onic_driver.Probe.{onic_get_pinfo}

-- A value of the type `int`.
abbrev pub FitsInt : ℤ → Type 0
FitsInt (pos n) = n < 2 ^ 31
FitsInt (negsuc n) = n < 2 ^ 31

-- Each number is a value of the type of its field.
pub record InRange (p : PlatformInfo) : Type 0 where
  pub qdma_bar : p.qdma_bar < 2 ^ 8
  pub user_bar : p.user_bar < 2 ^ 8
  pub queue_base : p.queue_base < 2 ^ 16
  pub queue_max : p.queue_max < 2 ^ 16
  pub used_queues : p.used_queues < 2 ^ 16
  pub pci_msix_user_cnt : p.pci_msix_user_cnt < 2 ^ 8
  pub ring_sz : FitsInt p.ring_sz
  pub c2h_tmr_cnt : FitsInt p.c2h_tmr_cnt
  pub c2h_cnt_thr : FitsInt p.c2h_cnt_thr
  pub c2h_buf_sz : FitsInt p.c2h_buf_sz
  pub port_id : p.port_id < 2 ^ 8

-- The kernel's parsers return values of their type.
pub record ParsersFit (lib : JsonLib) : Type 0 where
  pub u8 : (text : List ℕ) (base n : ℕ) → lib.kstrtou8 text base ≡ some n → n < 2 ^ 8
  pub u16 : (text : List ℕ) (base n : ℕ) → lib.kstrtou16 text base ≡ some n → n < 2 ^ 16
  pub int : (text : List ℕ) (base : ℕ) (n : ℤ) → lib.kstrtoint text base ≡ some n → FitsInt n

-- What holds of the old value and of a new one holds of what is left.
or_old-either {ℓ κ} :
    {A : Type ℓ} (P : A → Type κ) (o : Option A) (old : A)
    → ((new : A) → o ≡ some new → P new)
    → P old
    → P (or_old o old)
or_old-either P none old f p = p
or_old-either P (some new) old f p = f new refl

module _ (lib : JsonLib) (fit : ParsersFit lib) where
  new_u8 : (text : List ℕ) (old : ℕ) → old < 2 ^ 8 → or_old (lib.kstrtou8 text 10) old < 2 ^ 8
  new_u8 text old l = or_old-either (λ n. n < 2 ^ 8) (lib.kstrtou8 text 10) old (fit.u8 text 10) l

  new_u16 : (text : List ℕ) (old : ℕ) → old < 2 ^ 16 → or_old (lib.kstrtou16 text 10) old < 2 ^ 16
  new_u16 text old l =
      or_old-either (λ n. n < 2 ^ 16) (lib.kstrtou16 text 10) old (fit.u16 text 10) l

  new_int : (text : List ℕ) (old : ℤ) → FitsInt old → FitsInt (or_old (lib.kstrtoint text 10) old)
  new_int text old l = or_old-either FitsInt (lib.kstrtoint text 10) old (fit.int text 10) l

  store_value-InRange :
      (k : Key) (text : List ℕ) (p : PlatformInfo) → InRange p → InRange (store_value lib k text p)
  unfolding store_value
  store_value-InRange k text p r = ground (
    arith,
    new_u8 text p.qdma_bar,
    new_u8 text p.user_bar,
    new_u16 text p.queue_base,
    new_u16 text p.queue_max,
    new_u16 text p.used_queues,
    new_u8 text p.pci_msix_user_cnt,
    new_int text p.ring_sz,
    new_int text p.c2h_tmr_cnt,
    new_int text p.c2h_cnt_thr,
    new_int text p.c2h_buf_sz,
    new_u8 text p.port_id,
  )

  module _ (json : List ℕ) (tokens : ℕ → Token) where
    token_step-InRange :
        (i : ℕ) (o : Option Key) (p : PlatformInfo)
        → InRange p
        → InRange (token_step lib json tokens i o p).1
    unfolding token_step
    token_step-InRange i none p r = r
    token_step-InRange i (some k) p r =
        ground (arith, store_value-InRange k (parsing_buffer json (tokens (i + 1))) p r)

    token_loop-InRange :
        (num_tokens fuel i : ℕ) (p : PlatformInfo)
        → InRange p
        → InRange (token_loop lib json tokens num_tokens fuel i p)
    unfolding token_loop
    token_loop-InRange num_tokens zero i p r = r
    token_loop-InRange num_tokens (suc fuel) i p r =
        let o = find_key json (tokens i) all_keys in
        let next = token_step lib json tokens i o p in
        if-both InRange (ltb i num_tokens)
          (token_loop lib json tokens num_tokens fuel next.0 next.1) p
          (token_loop-InRange num_tokens fuel next.0 next.1 (token_step-InRange i o p r)) r

  -- What a reading leaves in the structure.
  abbrev Leaves : Io (ℤ × PlatformInfo) → Type 0
  Leaves m = (env : Env) (w : World) → InRange (m env w).0.1

  either-Leaves :
      (b : Bool) (m k : Io (ℤ × PlatformInfo)) → Leaves m → Leaves k → Leaves (if b then m else k)
  either-Leaves b m k p q env w =
      if-both (λ (j : Io (ℤ × PlatformInfo)). InRange (j env w).0.1) b m k (p env w) (q env w)

  read_tokens-Leaves :
      (json : List ℕ) (array : ℕ) (tokens : ℕ → Token) (num_tokens : ℕ) (p : PlatformInfo)
      → InRange p
      → Leaves (read_tokens lib json array tokens num_tokens p)
  unfolding read_tokens
  read_tokens-Leaves json array tokens num_tokens p r =
      either-Leaves ((num_tokens == 0) || not (is_object (tokens 0).type_of))
        (perform (Op.kfree array) >> pure (einval, p)) _ (λ env w. r)
        (λ env w. token_loop-InRange json tokens num_tokens num_tokens 1 p r)

  parse_tokens-Leaves :
      (json : List ℕ) (num_tokens : ℕ) (p : PlatformInfo)
      → InRange p
      → Leaves (parse_tokens lib json num_tokens p)
  unfolding parse_tokens
  parse_tokens-Leaves json num_tokens p r =
      let found = lib.jsmn_parse json (length json % 2 ^ 16) num_tokens in
      either-Leaves (num_tokens == 0) (pure (einval, p)) _ (λ env w. r)
        (λ env w.
          let array = env.value w.log (Op.alloc Memory.tokens num_tokens) in
          either-Leaves (array == 0) (pure (enomem, p))
            (read_tokens lib json array found.1 (to_u16 found.0) p) (λ e v. r)
            (read_tokens-Leaves json array found.1 (to_u16 found.0) p r) env
            (called (Op.alloc Memory.tokens num_tokens) env w))

  onic_get_platform_info-Leaves :
      (fname : List ℕ) (p : PlatformInfo) → InRange p → Leaves (onic_get_platform_info lib fname p)
  unfolding onic_get_platform_info parse_file
  onic_get_platform_info-Leaves fname p r env w =
      let op = Op.request_firmware (fw_name fname) in
      let json = lib.firmware (fw_name fname) in
      elim (Bool-cases (ne_zero (env.status w.log op))) [
        | inl bad ↦ rw bad r
        | inr good ↦ rw good (
            parse_tokens-Leaves json (to_u16 (lib.jsmn_count json (length json % 2 ^ 16))) p r env
              (called op env w))
      ]

-- Whatever the platform file holds and whatever jsmn finds in it, `onic_get_pinfo` hands out numbers
-- that are values of the types of their fields, when the kernel's number parsers return values of their
-- own types.
pub onic_get_pinfo-InRange :
    (lib : JsonLib) (env : Env) (file_name : List ℕ) (w : World)
    → ParsersFit lib
    → InRange (onic_get_pinfo lib file_name env w).0.2
unfolding onic_get_pinfo
onic_get_pinfo-InRange lib env file_name w fit =
    let op = Op.alloc Memory.platform_info 1 in
    let v = called op env w in
    let r = onic_get_platform_info lib file_name zero_platform_info env v in
    let fresh : InRange zero_platform_info = ground arith in
    let read = onic_get_platform_info-Leaves lib fit file_name zero_platform_info fresh env v in
    elim (Bool-cases (env.value w.log op == 0)) [
      | inl null ↦ rw null fresh
      | inr found ↦
          rw found
            (elim (Bool-cases (ne_zero r.0.0)) [ inl bad ↦ rw bad read | inr good ↦ rw good read ])
    ]
