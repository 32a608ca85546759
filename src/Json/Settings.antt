-- ===== src/Json/Settings.antt =====
-- Settings of the platform file, and the loop over the tokens (onic_json.c:
-- `onic_get_platform_info`).
use onic_driver.Base.{
  ℕ, zero, suc, ◌+◌, ◌<◌, ◌≤◌, ◌≡◌, ◌∙◌, refl, ap, ap₂, Bool, true, false, some, List, [], ◌∷◌,
  length, ltb, lt→ltb, if-true, if-false, le→ltb, arith,
}
use onic_driver.Kernel.{PlatformInfo}
use onic_driver.Json.{
  Token, is_array, JsonLib, parsing_buffer, Key, all_keys, find_key, store_value, store_mac,
  mac_loop, token_step, token_loop,
}
use onic_driver.Json.Texts.{Spells, Reads, parsing_buffer-whole, find_key-key_name}

-- A setting of the file: a key with one value, whose text is given, or the texts of the address.
pub data Setting : Type 0 where
  value : Key → List ℕ → Setting
  address : List (List ℕ) → Setting

abbrev pub is_single : Key → Bool
is_single Key.key_mac_addr = false
is_single k = true

-- The number of tokens that a setting takes.
abbrev pub width : Setting → ℕ
width (value k text) = 2
width (address texts) = 2 + length texts

abbrev pub widths : List Setting → ℕ
widths [] = 0
widths (s ∷ ss) = width s + widths ss

abbrev pub store_bytes : JsonLib → List (List ℕ) → ℕ → List ℕ → List ℕ
store_bytes lib [] j mac = mac
store_bytes lib (text ∷ texts) j mac =
    store_bytes lib texts (j + 1) (store_mac (lib.kstrtou8 text 16) j mac)

abbrev pub store : JsonLib → Setting → PlatformInfo → PlatformInfo
store lib (value k text) p = store_value lib k text p
store lib (address texts) p = record p { mac_addr = store_bytes lib texts 0 p.mac_addr }

-- All settings, the first one first.
abbrev pub store_all : JsonLib → List Setting → PlatformInfo → PlatformInfo
store_all lib [] p = p
store_all lib (s ∷ ss) p = store_all lib ss (store lib s p)

pub width-positive : (s : Setting) → 2 ≤ width s
width-positive (value k text) = omega arith
width-positive (address texts) = omega arith

module _ (json : List ℕ) (tokens : ℕ → Token) where
  -- The tokens from `i` on are those of a setting, and of a list of settings.
  abbrev pub Texts : ℕ → ℕ → List (List ℕ) → Type 0
  Texts i j [] = Unit
  Texts i j (text ∷ texts) = Reads json (tokens (i + j + 2)) text × Texts i (j + 1) texts

  abbrev pub LaysOne : ℕ → Setting → Type 0
  LaysOne i (value k text) =
      Spells json (tokens i) k × (is_single k ≡ true) × Reads json (tokens (i + 1)) text
  LaysOne i (address texts) =
      Spells json (tokens i) Key.key_mac_addr
      × (length texts ≤ 6)
      × (is_array (tokens (i + 1)).type_of ≡ true)
      × ((tokens (i + 1)).size ≡ length texts)
      × Texts i 0 texts

  abbrev pub Lays : ℕ → List Setting → Type 0
  Lays i [] = Unit
  Lays i (s ∷ ss) = LaysOne i s × Lays (i + width s) ss

  module _ (lib : JsonLib) where
    mac_loop-store_bytes :
        (i : ℕ) (texts : List (List ℕ)) (j : ℕ) (mac : List ℕ)
        → Texts i j texts
        → mac_loop lib json tokens i (length texts) j mac ≡ store_bytes lib texts j mac
    unfolding mac_loop
    mac_loop-store_bytes i [] j mac t = refl
    mac_loop-store_bytes i (text ∷ texts) j mac (e, t) =
        ap
          (λ b.
            mac_loop lib json tokens i (length texts) (j + 1) (store_mac (lib.kstrtou8 b 16) j mac))
          (parsing_buffer-whole json (tokens (i + j + 2)) text e)
        ∙ mac_loop-store_bytes i texts (j + 1) (store_mac (lib.kstrtou8 text 16) j mac) t

    token_step-single :
        (i : ℕ) (k : Key) (p : PlatformInfo)
        → is_single k ≡ true
        → token_step lib json tokens i (some k) p
          ≡ (i + 1 + 1, store_value lib k (parsing_buffer json (tokens (i + 1))) p)
    unfolding token_step
    token_step-single i k p s = ground arith

    token_step-store :
        (i : ℕ) (s : Setting) (p : PlatformInfo)
        → LaysOne i s
        → token_step lib json tokens i (find_key json (tokens i) all_keys) p
          ≡ (i + width s, store lib s p)
    unfolding token_step
    token_step-store i (value k text) p (f, s, e) = rw (find_key-key_name json (tokens i) k f) (
        token_step-single i k p s
        ∙ ap₂ (λ n t. (n, store_value lib k t p)) (omega arith)
            (parsing_buffer-whole json (tokens (i + 1)) text e))
    token_step-store i (address texts) p (f, six, a, z, t) =
        rw (find_key-key_name json (tokens i) Key.key_mac_addr f, a, z)
          (ap₂ (λ n mac. (n, record p { mac_addr = mac })) (omega arith)
            (mac_loop-store_bytes i texts 0 p.mac_addr t))

    -- When the tokens from `i` to `num_tokens` are those of a list of settings, the loop stores all the
    -- settings of the file, in their order, within as many rounds as there are settings.
    pub token_loop-store_all :
        (num_tokens fuel i : ℕ) (settings : List Setting) (p : PlatformInfo)
        → Lays i settings
        → i + widths settings ≡ num_tokens
        → length settings < fuel
        → token_loop lib json tokens num_tokens fuel i p ≡ store_all lib settings p
    unfolding token_loop
    token_loop-store_all num_tokens zero i settings p lays e l = absurd (omega arith)
    token_loop-store_all num_tokens (suc fuel) i [] p lays e l =
        if-false (ltb i num_tokens) _ p (le→ltb i num_tokens (omega arith))
    token_loop-store_all num_tokens (suc fuel) i (s ∷ ss) p (one, lays) e l =
        if-true (ltb i num_tokens) _ p (lt→ltb i num_tokens (omega (arith, width-positive s)))
        ∙ ap (λ r. token_loop lib json tokens num_tokens fuel r.0 r.1) (token_step-store i s p one)
        ∙ token_loop-store_all num_tokens fuel (i + width s) ss (store lib s p) lays
            (omega (arith, e)) (omega arith)
