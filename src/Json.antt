-- ===== src/Json.antt =====
-- Reading the platform file, onic_json.c.
--
-- The file, the tokens that jsmn finds in it and the kernel's number parsers are parameters. A byte is
-- a number. The array of tokens is a function, so that a read behind its end is a read of what lies
-- there.
pub mod Texts
pub mod Settings
pub mod Written
pub mod Array
pub mod Steps
pub mod File
use onic_driver.Base.{
  ℕ, zero, suc, ◌+◌, ◌-◌, ◌%◌, ◌^◌, Bool, true, false, ◌&&◌, ◌||◌, not, ltb, ◌==◌, if◌then◌else◌,
  Option, none, some, List, [], ◌∷◌, ◌++◌, length, take, drop,
}
use onic_driver.Base.Int.{ℤ, pos, ne_zero, to_u16, enomem, einval}
use onic_driver.Kernel.{
  PlatformInfo, Memory, Op, Env, World, Io, pure, ◌>>=◌, ◌>>◌, request, fetch, perform,
}

-- `jsmntype_t` and `jsmntok_t`
pub data JsmnType : Type 0 where
  jsmn_undefined jsmn_object jsmn_array jsmn_string jsmn_primitive : JsmnType

pub record Token : Type 0 where
  pub type_of : JsmnType
  pub start : ℕ
  pub stop : ℕ
  pub size : ℕ

-- The code outside: the file that `request_firmware` loads by its name, `jsmn_parse` without and with
-- an array of tokens, and the `kstrto...` functions, which store nothing where they fail.
pub record JsonLib : Type 0 where
  pub firmware : List ℕ → List ℕ
  pub jsmn_count : List ℕ → ℕ → ℤ
  pub jsmn_parse : List ℕ → ℕ → ℕ → ℤ × (ℕ → Token)
  pub kstrtou8 : List ℕ → ℕ → Option ℕ
  pub kstrtou16 : List ℕ → ℕ → Option ℕ
  pub kstrtoint : List ℕ → ℕ → Option ℤ

abbrev pub is_string : JsmnType → Bool
is_string JsmnType.jsmn_string = true
is_string t = false

abbrev pub is_array : JsmnType → Bool
is_array JsmnType.jsmn_array = true
is_array t = false

abbrev pub is_object : JsmnType → Bool
is_object JsmnType.jsmn_object = true
is_object t = false

abbrev pub eq_bytes : List ℕ → List ℕ → Bool
eq_bytes [] [] = true
eq_bytes [] (b ∷ bs) = false
eq_bytes (a ∷ as') [] = false
eq_bytes (a ∷ as') (b ∷ bs) = (a == b) && eq_bytes as' bs

-- The bytes of a token.
abbrev pub slice : List ℕ → Token → List ℕ
slice json tok = take (tok.stop - tok.start) (drop tok.start json)

-- `s` holds no NUL, so that the lengths and `strncmp` agree exactly where the bytes do.
abbrev pub jsoneq : List ℕ → Token → List ℕ → Bool
jsoneq json tok s =
    is_string tok.type_of && (length s == tok.stop - tok.start) && eq_bytes (slice json tok) s

abbrev pub until_nul : List ℕ → List ℕ
until_nul [] = []
until_nul (b ∷ bs) = if b == 0 then [] else b ∷ until_nul bs

-- `snprintf(parsingBuffer, PARSEBUF_LEN, "%.*s", ...)`: the string in the buffer.
abbrev pub parsing_buffer : List ℕ → Token → List ℕ
parsing_buffer json tok = take 31 (until_nul (slice json tok))

-- `(parsingBuffer[0] != '0') && (parsingBuffer[0] != 'f') && (parsingBuffer[0] != 'F')`
abbrev pub flag_byte : ℕ → Bool
flag_byte c = not (c == 48) && not (c == 102) && not (c == 70)

abbrev pub parse_flag : List ℕ → Bool
parse_flag [] = flag_byte 0
parse_flag (c ∷ buf) = flag_byte c

-- What a parser leaves in its target.
abbrev pub or_old {ℓ} : {A : Type ℓ} → Option A → A → A
or_old none old = old
or_old (some new) old = new

-- The keys, in the order of the tests.
pub data Key : Type 0 where
  key_qdma_bar key_user_bar key_queue_base key_queue_max key_used_queues : Key
  key_pci_msix_user_cnt key_pci_master_pf key_poll_mode key_intr_mod_en key_ring_sz : Key
  key_c2h_tmr_cnt key_c2h_cnt_thr key_c2h_buf_sz key_rsfec_en key_port_id key_mac_addr : Key

-- Their names in ASCII.
abbrev pub key_name : Key → List ℕ
key_name Key.key_qdma_bar = 113 ∷ 100 ∷ 109 ∷ 97 ∷ 95 ∷ 98 ∷ 97 ∷ 114 ∷ []
key_name Key.key_user_bar = 117 ∷ 115 ∷ 101 ∷ 114 ∷ 95 ∷ 98 ∷ 97 ∷ 114 ∷ []
key_name Key.key_queue_base = 113 ∷ 117 ∷ 101 ∷ 117 ∷ 101 ∷ 95 ∷ 98 ∷ 97 ∷ 115 ∷ 101 ∷ []
key_name Key.key_queue_max = 113 ∷ 117 ∷ 101 ∷ 117 ∷ 101 ∷ 95 ∷ 109 ∷ 97 ∷ 120 ∷ []
key_name Key.key_used_queues = 117 ∷ 115 ∷ 101 ∷ 100 ∷ 95 ∷ 113 ∷ 117 ∷ 101 ∷ 117 ∷ 101 ∷ 115 ∷ []
key_name Key.key_pci_msix_user_cnt =
    112 ∷ 99 ∷ 105 ∷ 95 ∷ 109 ∷ 115 ∷ 105 ∷ 120 ∷ 95 ∷ 117 ∷ 115 ∷ 101 ∷ 114 ∷ 95 ∷ 99 ∷ 110 ∷ 116
    ∷ []
key_name Key.key_pci_master_pf =
    112 ∷ 99 ∷ 105 ∷ 95 ∷ 109 ∷ 97 ∷ 115 ∷ 116 ∷ 101 ∷ 114 ∷ 95 ∷ 112 ∷ 102 ∷ []
key_name Key.key_poll_mode = 112 ∷ 111 ∷ 108 ∷ 108 ∷ 95 ∷ 109 ∷ 111 ∷ 100 ∷ 101 ∷ []
key_name Key.key_intr_mod_en = 105 ∷ 110 ∷ 116 ∷ 114 ∷ 95 ∷ 109 ∷ 111 ∷ 100 ∷ 95 ∷ 101 ∷ 110 ∷ []
key_name Key.key_ring_sz = 114 ∷ 105 ∷ 110 ∷ 103 ∷ 95 ∷ 115 ∷ 122 ∷ []
key_name Key.key_c2h_tmr_cnt = 99 ∷ 50 ∷ 104 ∷ 95 ∷ 116 ∷ 109 ∷ 114 ∷ 95 ∷ 99 ∷ 110 ∷ 116 ∷ []
key_name Key.key_c2h_cnt_thr = 99 ∷ 50 ∷ 104 ∷ 95 ∷ 99 ∷ 110 ∷ 116 ∷ 95 ∷ 116 ∷ 104 ∷ 114 ∷ []
key_name Key.key_c2h_buf_sz = 99 ∷ 50 ∷ 104 ∷ 95 ∷ 98 ∷ 117 ∷ 102 ∷ 95 ∷ 115 ∷ 122 ∷ []
key_name Key.key_rsfec_en = 114 ∷ 115 ∷ 102 ∷ 101 ∷ 99 ∷ 95 ∷ 101 ∷ 110 ∷ []
key_name Key.key_port_id = 112 ∷ 111 ∷ 114 ∷ 116 ∷ 95 ∷ 105 ∷ 100 ∷ []
key_name Key.key_mac_addr = 109 ∷ 97 ∷ 99 ∷ 95 ∷ 97 ∷ 100 ∷ 100 ∷ 114 ∷ []

abbrev pub all_keys : List Key
all_keys =
    Key.key_qdma_bar ∷ Key.key_user_bar ∷ Key.key_queue_base ∷ Key.key_queue_max
    ∷ Key.key_used_queues ∷ Key.key_pci_msix_user_cnt ∷ Key.key_pci_master_pf ∷ Key.key_poll_mode
    ∷ Key.key_intr_mod_en ∷ Key.key_ring_sz ∷ Key.key_c2h_tmr_cnt ∷ Key.key_c2h_cnt_thr
    ∷ Key.key_c2h_buf_sz ∷ Key.key_rsfec_en ∷ Key.key_port_id ∷ Key.key_mac_addr ∷ []

-- The chain of tests on a token: the first key that it equals.
abbrev pub find_key : List ℕ → Token → List Key → Option Key
find_key json tok [] = none
find_key json tok (k ∷ ks) = if jsoneq json tok (key_name k) then some k else find_key json tok ks

-- What is stored for a key with a single value, whose text is `buf`.
unfoldable pub store_value : JsonLib → Key → List ℕ → PlatformInfo → PlatformInfo
store_value lib Key.key_qdma_bar buf p = record p {
  qdma_bar = or_old (lib.kstrtou8 buf 10) p.qdma_bar;
}
store_value lib Key.key_user_bar buf p = record p {
  user_bar = or_old (lib.kstrtou8 buf 10) p.user_bar;
}
store_value lib Key.key_queue_base buf p = record p {
  queue_base = or_old (lib.kstrtou16 buf 10) p.queue_base;
}
store_value lib Key.key_queue_max buf p = record p {
  queue_max = or_old (lib.kstrtou16 buf 10) p.queue_max;
}
store_value lib Key.key_used_queues buf p = record p {
  used_queues = or_old (lib.kstrtou16 buf 10) p.used_queues;
}
store_value lib Key.key_pci_msix_user_cnt buf p = record p {
  pci_msix_user_cnt = or_old (lib.kstrtou8 buf 10) p.pci_msix_user_cnt;
}
store_value lib Key.key_pci_master_pf buf p = record p { pci_master_pf = parse_flag buf }
store_value lib Key.key_poll_mode buf p = record p { is_poll_mode = parse_flag buf }
store_value lib Key.key_intr_mod_en buf p = record p { intr_mod_en = parse_flag buf }
store_value lib Key.key_ring_sz buf p = record p {
  ring_sz = or_old (lib.kstrtoint buf 10) p.ring_sz;
}
store_value lib Key.key_c2h_tmr_cnt buf p = record p {
  c2h_tmr_cnt = or_old (lib.kstrtoint buf 10) p.c2h_tmr_cnt;
}
store_value lib Key.key_c2h_cnt_thr buf p = record p {
  c2h_cnt_thr = or_old (lib.kstrtoint buf 10) p.c2h_cnt_thr;
}
store_value lib Key.key_c2h_buf_sz buf p = record p {
  c2h_buf_sz = or_old (lib.kstrtoint buf 10) p.c2h_buf_sz;
}
store_value lib Key.key_rsfec_en buf p = record p { rsfec_en = parse_flag buf }
store_value lib Key.key_port_id buf p = record p {
  port_id = or_old (lib.kstrtou8 buf 10) p.port_id;
}
store_value lib Key.key_mac_addr buf p = p

-- One byte of the address; the array has six, and what is behind them is not part of it.
abbrev pub set_elem : List ℕ → ℕ → ℕ → List ℕ
set_elem [] j b = []
set_elem (a ∷ as') zero b = b ∷ as'
set_elem (a ∷ as') (suc j) b = a ∷ set_elem as' j b

abbrev pub store_mac : Option ℕ → ℕ → List ℕ → List ℕ
store_mac none j mac = mac
store_mac (some b) j mac = set_elem mac j b

-- The loop over the `n` elements of the address that are left at `j`, of the key at `i`.
unfoldable pub mac_loop : JsonLib → List ℕ → (ℕ → Token) → ℕ → ℕ → ℕ → List ℕ → List ℕ
mac_loop lib json tokens i zero j mac = mac
mac_loop lib json tokens i (suc n) j mac =
    mac_loop lib json tokens i n (j + 1)
      (store_mac (lib.kstrtou8 (parsing_buffer json (tokens (i + j + 2))) 16) j mac)

-- The body of the loop over the tokens: the next index, and what was read.
unfoldable pub token_step :
    JsonLib → List ℕ → (ℕ → Token) → ℕ → Option Key → PlatformInfo → ℕ × PlatformInfo
unfolding store_value mac_loop
token_step lib json tokens i none p = (i + 1, p)
token_step lib json tokens i (some Key.key_mac_addr) p =
    if not (is_array (tokens (i + 1)).type_of) then (i + 1, p) else (
      i + ((tokens (i + 1)).size + 1) + 1,
      record p { mac_addr = mac_loop lib json tokens i (tokens (i + 1)).size 0 p.mac_addr },
    )
token_step lib json tokens i (some k) p =
    (i + 1 + 1, store_value lib k (parsing_buffer json (tokens (i + 1))) p)

-- The loop over the tokens from `i` to `num_tokens`. Each round takes at least one token, so that as
-- many rounds as there are tokens left are enough.
unfoldable pub token_loop :
    JsonLib → List ℕ → (ℕ → Token) → ℕ → (fuel i : ℕ) → PlatformInfo → PlatformInfo
unfolding token_step
token_loop lib json tokens num_tokens zero i p = p
token_loop lib json tokens num_tokens (suc fuel) i p =
    let (i', p') = token_step lib json tokens i (find_key json (tokens i) all_keys) p in
    let rest = token_loop lib json tokens num_tokens fuel i' p' in
    if ltb i num_tokens then rest else p

-- `"xilinx/%s"`
abbrev pub fw_name : List ℕ → List ℕ
fw_name fname = take 255 ((120 ∷ 105 ∷ 108 ∷ 105 ∷ 110 ∷ 120 ∷ 47 ∷ []) ++ fname)

-- `onic_get_platform_info` behind the second run of jsmn, which found `num_tokens` tokens.
unfoldable pub read_tokens :
    JsonLib
    → List ℕ
    → (array : ℕ) → (ℕ → Token)
    → (num_tokens : ℕ) → PlatformInfo
    → Io (ℤ × PlatformInfo)
unfolding token_loop
read_tokens lib json array tokens num_tokens p =
    if (num_tokens == 0) || not (is_object (tokens 0).type_of)
    then (do perform (Op.kfree array); pure (einval, p))
    else pure (pos 0, token_loop lib json tokens num_tokens num_tokens 1 p)

-- `onic_get_platform_info` behind the first run of jsmn, which counted `num_tokens` tokens.
unfoldable pub parse_tokens :
    JsonLib → List ℕ → (num_tokens : ℕ) → PlatformInfo → Io (ℤ × PlatformInfo)
unfolding read_tokens
parse_tokens lib json num_tokens p = if num_tokens == 0 then pure (einval, p) else do
  array ← fetch (Op.alloc Memory.tokens num_tokens)
  if array == 0 then pure (enomem, p) else do
    let found = lib.jsmn_parse json (length json % 2 ^ 16) num_tokens
    read_tokens lib json array found.1 (to_u16 found.0) p

-- The part of `onic_get_platform_info` between the loading of the file and its release.
unfoldable pub parse_file : JsonLib → List ℕ → PlatformInfo → Io (ℤ × PlatformInfo)
unfolding parse_tokens
parse_file lib json p =
    parse_tokens lib json (to_u16 (lib.jsmn_count json (length json % 2 ^ 16))) p

unfoldable pub onic_get_platform_info : JsonLib → List ℕ → PlatformInfo → Io (ℤ × PlatformInfo)
unfolding parse_file
onic_get_platform_info lib fname p = do
  err ← request (Op.request_firmware (fw_name fname))
  if ne_zero err then pure (err, p) else do
    r ← parse_file lib (lib.firmware (fw_name fname)) p
    perform Op.release_firmware
    pure r
