-- ===== src/Json/Array.antt =====
-- The memory of the tokens of the platform file (onic_json.c: `onic_get_platform_info`).
use onic_driver.Base.{
  ℕ, ◌%◌, ◌^◌, ◌≡◌, refl, inl, inr, true, false, Bool-cases, ◌==◌, ◌||◌, not, List, length, arith,
}
use onic_driver.Base.Int.{ℤ, pos, ne_zero, to_u16}
use onic_driver.Kernel.{PlatformInfo, Memory, Op, Env, World, called}
use onic_driver.Kernel.Ledger.{Moves, Rests, Rests-refl}
use onic_driver.Kernel.Blocks.{memory, block, block-null, called-Rests, kfree-Moves, alloc-Moves}
use onic_driver.Json.{
  JsonLib, Token, is_object, fw_name, read_tokens, parse_tokens, parse_file, onic_get_platform_info,
}

-- What the allocation of the tokens of a file returns: an array for the tokens that the parser counts,
-- asked for when the file was requested.
abbrev pub tokens_array : JsonLib → Env → (fname : List ℕ) → World → ℕ
tokens_array lib env fname w =
    let json = lib.firmware (fw_name fname) in
    let num_tokens = to_u16 (lib.jsmn_count json (length json % 2 ^ 16)) in
    env.value (called (Op.request_firmware (fw_name fname)) env w).log
      (Op.alloc Memory.tokens num_tokens)

-- How a reading ends: with the array of the tokens and the status 0, or with an error and no memory.
pub data ReadEnds (array : ℕ) (w : World) (ret : ℤ) (v : World) : Type 0 where
  array_kept :
      ret ≡ pos 0
      → (array == 0) ≡ false
      → Moves memory w v (λ a. 0) (block array)
      → ReadEnds array w ret v
  nothing_kept : ne_zero ret ≡ true → Rests memory w v → ReadEnds array w ret v

module _ (lib : JsonLib) (env : Env) where
  -- From an allocated array on.
  read_tokens-Ends :
      (json : List ℕ) (array : ℕ) (tokens : ℕ → Token) (num_tokens : ℕ) (p : PlatformInfo)
      (w v : World)
      → (array == 0) ≡ false
      → Moves memory w v (λ a. 0) (block array)
      → let r = read_tokens lib json array tokens num_tokens p env v in ReadEnds array w r.0.0 r.1
  unfolding read_tokens
  read_tokens-Ends json array tokens num_tokens p w v there took =
      elim (Bool-cases ((num_tokens == 0) || not (is_object (tokens 0).type_of))) [
        | inl bad ↦ rw bad (
            nothing_kept refl (record {
              moves = λ a. omega (arith, took.moves a, (kfree-Moves env array v).moves a);
            }))
        | inr good ↦ rw good (array_kept refl there took)
      ]

  parse_tokens-Ends :
      (json : List ℕ) (num_tokens : ℕ) (p : PlatformInfo) (w : World)
      → let r = parse_tokens lib json num_tokens p env w in
        ReadEnds (env.value w.log (Op.alloc Memory.tokens num_tokens)) w r.0.0 r.1
  unfolding parse_tokens
  parse_tokens-Ends json num_tokens p w =
      let op = Op.alloc Memory.tokens num_tokens in
      let array = env.value w.log op in
      let took = alloc-Moves env Memory.tokens num_tokens w refl in
      let found = lib.jsmn_parse json (length json % 2 ^ 16) num_tokens in
      elim (Bool-cases (num_tokens == 0)) [
        | inl none ↦ rw none (nothing_kept refl (Rests-refl memory w))
        | inr some ↦ rw some (elim (Bool-cases (array == 0)) [
          | inl null ↦ rw null (
              nothing_kept refl
                (record { moves = λ a. omega (arith, took.moves a, block-null array a null) }))
          | inr there ↦ rw there (
              read_tokens-Ends json array found.1 (to_u16 found.0) p w (called op env w) there took)
        ])
      ]

  ReadEnds-between :
      (array : ℕ) (w v u : World) (op : Op) (ret : ℤ)
      → Rests memory w v
      → Rests memory u (called op env u)
      → ReadEnds array v ret u
      → ReadEnds array w ret (called op env u)
  ReadEnds-between array w v u op ret a b (array_kept good there m) =
      array_kept good there (record { moves = λ x. omega (arith, a.moves x, b.moves x, m.moves x) })
  ReadEnds-between array w v u op ret a b (nothing_kept bad m) =
      nothing_kept bad (record { moves = λ x. omega (arith, a.moves x, b.moves x, m.moves x) })

  pub onic_get_platform_info-ReadEnds :
      (fname : List ℕ) (p : PlatformInfo) (w : World)
      → let r = onic_get_platform_info lib fname p env w in
        ReadEnds (tokens_array lib env fname w) w r.0.0 r.1
  unfolding onic_get_platform_info parse_file
  onic_get_platform_info-ReadEnds fname p w =
      let op = Op.request_firmware (fw_name fname) in
      let json = lib.firmware (fw_name fname) in
      let v = called op env w in
      let asked = called-Rests env op w refl in
      let num_tokens = to_u16 (lib.jsmn_count json (length json % 2 ^ 16)) in
      let r = parse_tokens lib json num_tokens p env v in
      elim (Bool-cases (ne_zero (env.status w.log op))) [
        | inl bad ↦ rw bad (nothing_kept bad asked)
        | inr good ↦ rw good (
            ReadEnds-between (tokens_array lib env fname w) w v r.1 Op.release_firmware r.0.0 asked
              (called-Rests env Op.release_firmware r.1 refl)
              (parse_tokens-Ends json num_tokens p v))
      ]
