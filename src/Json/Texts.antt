-- ===== src/Json/Texts.antt =====
-- The texts of a platform file: the names of its keys and what a buffer holds of a value (onic_json.c:
-- `jsoneq` and `onic_get_platform_info`).
use Prim.Native.Char.{code}
use Prim.Native.String.{String}
use onic_driver.Base.{
  ℕ, zero, suc, ◌-◌, ◌≤◌, ◌≡◌, ◌∙◌, refl, ap, ap₂, sym, inl, inr, Bool, Bool-cases, true, false,
  ◌&&◌, ◌||◌, ◌==◌, if◌then◌else◌, take, Option, none, some, List, [], ◌∷◌, length, arith,
}
use onic_driver.Json.{
  Token, parsing_buffer, Key, key_name, all_keys, is_string, slice, until_nul, eq_bytes, jsoneq,
  find_key,
}

-- The names of the keys, as they stand in a platform file.
abbrev pub spelled : Key → String
spelled Key.key_qdma_bar = "qdma_bar"
spelled Key.key_user_bar = "user_bar"
spelled Key.key_queue_base = "queue_base"
spelled Key.key_queue_max = "queue_max"
spelled Key.key_used_queues = "used_queues"
spelled Key.key_pci_msix_user_cnt = "pci_msix_user_cnt"
spelled Key.key_pci_master_pf = "pci_master_pf"
spelled Key.key_poll_mode = "poll_mode"
spelled Key.key_intr_mod_en = "intr_mod_en"
spelled Key.key_ring_sz = "ring_sz"
spelled Key.key_c2h_tmr_cnt = "c2h_tmr_cnt"
spelled Key.key_c2h_cnt_thr = "c2h_cnt_thr"
spelled Key.key_c2h_buf_sz = "c2h_buf_sz"
spelled Key.key_rsfec_en = "rsfec_en"
spelled Key.key_port_id = "port_id"
spelled Key.key_mac_addr = "mac_addr"

-- The bytes of a text.
abbrev pub ascii : String → List ℕ
ascii String.[] = []
ascii (String.◌∷◌ c s) = code c ∷ ascii s

key_name-spelled : (k : Key) → key_name k ≡ ascii (spelled k)
key_name-spelled Key.key_qdma_bar = refl
key_name-spelled Key.key_user_bar = refl
key_name-spelled Key.key_queue_base = refl
key_name-spelled Key.key_queue_max = refl
key_name-spelled Key.key_used_queues = refl
key_name-spelled Key.key_pci_msix_user_cnt = refl
key_name-spelled Key.key_pci_master_pf = refl
key_name-spelled Key.key_poll_mode = refl
key_name-spelled Key.key_intr_mod_en = refl
key_name-spelled Key.key_ring_sz = refl
key_name-spelled Key.key_c2h_tmr_cnt = refl
key_name-spelled Key.key_c2h_cnt_thr = refl
key_name-spelled Key.key_c2h_buf_sz = refl
key_name-spelled Key.key_rsfec_en = refl
key_name-spelled Key.key_port_id = refl
key_name-spelled Key.key_mac_addr = refl

-- The token is a string, and its bytes are the name of a key.
pub record Spells (json : List ℕ) (tok : Token) (k : Key) : Type 0 where
  pub string : is_string tok.type_of ≡ true
  pub long : tok.stop - tok.start ≡ length (ascii (spelled k))
  pub bytes : slice json tok ≡ ascii (spelled k)

abbrev pub has_nul : List ℕ → Bool
has_nul [] = false
has_nul (b ∷ bs) = (b == 0) || has_nul bs

-- The bytes of the token are the text, which is of at most 31 bytes, none of them NUL.
pub record Reads (json : List ℕ) (tok : Token) (text : List ℕ) : Type 0 where
  pub bytes : slice json tok ≡ text
  pub short : length text ≤ 31
  pub whole : has_nul text ≡ false

take-whole : (n : ℕ) (l : List ℕ) → length l ≤ n → take n l ≡ l
take-whole zero [] h = refl
take-whole zero (b ∷ l) h = absurd (omega arith)
take-whole (suc n) [] h = refl
take-whole (suc n) (b ∷ l) h = ap (λ t. b ∷ t) (take-whole n l (omega arith))

until_nul-whole : (text : List ℕ) → has_nul text ≡ false → until_nul text ≡ text
until_nul-whole [] h = refl
until_nul-whole (b ∷ bs) h = elim (Bool-cases (b == 0)) [
  | inl nul ↦ cc (nul, h)
  | inr other ↦
      rw other (ap (λ t. b ∷ t) (until_nul-whole bs (sym (ap (λ t. t || has_nul bs) other) ∙ h)))
]

pub parsing_buffer-whole :
    (json : List ℕ) (tok : Token) (text : List ℕ)
    → Reads json tok text
    → parsing_buffer json tok ≡ text
parsing_buffer-whole json tok text r =
    ap (λ t. take 31 (until_nul t)) r.bytes
    ∙ ap (take 31) (until_nul-whole text r.whole)
    ∙ take-whole 31 text r.short

-- The first key whose name is the given one.
abbrev named : List ℕ → List Key → Option Key
named name [] = none
named name (k ∷ ks) =
    if (length (key_name k) == length name) && eq_bytes name (key_name k)
    then some k
    else named name ks

find_key-named :
    (json : List ℕ) (tok : Token) (name : List ℕ) (ks : List Key)
    → is_string tok.type_of ≡ true
    → tok.stop - tok.start ≡ length name
    → slice json tok ≡ name
    → find_key json tok ks ≡ named name ks
find_key-named json tok name [] s l e = refl
find_key-named json tok name (k ∷ ks) s l e =
    let same : jsoneq json tok (key_name k)
        ≡ ((length (key_name k) == length name) && eq_bytes name (key_name k)) =
      ap
        (λ t.
          t
          && (length (key_name k) == tok.stop - tok.start)
          && eq_bytes (slice json tok) (key_name k))
        s
      ∙ ap₂ (λ n b. (length (key_name k) == n) && eq_bytes b (key_name k)) l e in
    ap₂ (λ t o. if t then some k else o) same (find_key-named json tok name ks s l e)

-- The names tell all keys apart.
named-key_name : (k : Key) → named (key_name k) all_keys ≡ some k
named-key_name Key.key_qdma_bar = refl
named-key_name Key.key_user_bar = refl
named-key_name Key.key_queue_base = refl
named-key_name Key.key_queue_max = refl
named-key_name Key.key_used_queues = refl
named-key_name Key.key_pci_msix_user_cnt = refl
named-key_name Key.key_pci_master_pf = refl
named-key_name Key.key_poll_mode = refl
named-key_name Key.key_intr_mod_en = refl
named-key_name Key.key_ring_sz = refl
named-key_name Key.key_c2h_tmr_cnt = refl
named-key_name Key.key_c2h_cnt_thr = refl
named-key_name Key.key_c2h_buf_sz = refl
named-key_name Key.key_rsfec_en = refl
named-key_name Key.key_port_id = refl
named-key_name Key.key_mac_addr = refl

pub find_key-key_name :
    (json : List ℕ) (tok : Token) (k : Key)
    → Spells json tok k
    → find_key json tok all_keys ≡ some k
find_key-key_name json tok k s =
    let e = key_name-spelled k in
    find_key-named json tok (key_name k) all_keys s.string (s.long ∙ ap length (sym e))
      (s.bytes ∙ sym e)
    ∙ named-key_name k
