-- ===== src/Json/Written.antt =====
-- What the settings of a platform file say about each field of the platform information (onic_json.c:
-- `onic_get_platform_info`): the last value of the field's own key, as the kernel's parser reads it.
use onic_driver.Base.{
  ℕ, suc, ◌+◌, ◌≡◌, ◌∙◌, refl, ap, ap₂, Bool, ◌||◌, not, ◌==◌, if◌then◌else◌, Option, none, some,
  List, [], ◌∷◌, arith,
}
use onic_driver.Kernel.{PlatformInfo}
use onic_driver.Json.{JsonLib, or_old, Key, store_value, parse_flag, store_mac}
use onic_driver.Json.Settings.{Setting, store_bytes, store, store_all}

abbrev pub number : Key → ℕ
number Key.key_qdma_bar = 0
number Key.key_user_bar = 1
number Key.key_queue_base = 2
number Key.key_queue_max = 3
number Key.key_used_queues = 4
number Key.key_pci_msix_user_cnt = 5
number Key.key_pci_master_pf = 6
number Key.key_poll_mode = 7
number Key.key_intr_mod_en = 8
number Key.key_ring_sz = 9
number Key.key_c2h_tmr_cnt = 10
number Key.key_c2h_cnt_thr = 11
number Key.key_c2h_buf_sz = 12
number Key.key_rsfec_en = 13
number Key.key_port_id = 14
number Key.key_mac_addr = 15

-- A flag is off when its text begins with `0`, `f` or `F`.
abbrev pub is_on : List ℕ → Bool
is_on [] = not (0 == 48)
is_on (c ∷ text) = not ((c == 48) || (c == 102) || (c == 70))

-- The value that the last setting of a key leaves whose text can be read, from the value `old`.
abbrev pub last_of {ℓ} : {A : Type ℓ} → (List ℕ → Option A) → Key → List Setting → A → A
last_of read key [] old = old
last_of read key (Setting.value k text ∷ ss) old =
    last_of read key ss (if number k == number key then or_old (read text) old else old)
last_of read key (Setting.address texts ∷ ss) old = last_of read key ss old

-- The bytes of an address, each one over the old one where its text can be read.
abbrev pub overlay : JsonLib → List (List ℕ) → List ℕ → List ℕ
overlay lib [] mac = mac
overlay lib (text ∷ texts) [] = []
overlay lib (text ∷ texts) (b ∷ mac) = or_old (lib.kstrtou8 text 16) b ∷ overlay lib texts mac

abbrev pub addresses : JsonLib → List Setting → List ℕ → List ℕ
addresses lib [] mac = mac
addresses lib (Setting.value k text ∷ ss) mac = addresses lib ss mac
addresses lib (Setting.address texts ∷ ss) mac = addresses lib ss (overlay lib texts mac)

-- The information that a list of settings describes, field by field.
abbrev pub as_written : JsonLib → List Setting → PlatformInfo → PlatformInfo
as_written lib ss p =
    let byte = λ (key : Key) (old : ℕ). last_of (λ t. lib.kstrtou8 t 10) key ss old in
    let short = λ (key : Key) (old : ℕ). last_of (λ t. lib.kstrtou16 t 10) key ss old in
    let flag = λ (key : Key) (old : Bool). last_of (λ t. some (is_on t)) key ss old in
    record {
      qdma_bar = byte Key.key_qdma_bar p.qdma_bar;
      user_bar = byte Key.key_user_bar p.user_bar;
      queue_base = short Key.key_queue_base p.queue_base;
      queue_max = short Key.key_queue_max p.queue_max;
      used_queues = short Key.key_used_queues p.used_queues;
      pci_msix_user_cnt = byte Key.key_pci_msix_user_cnt p.pci_msix_user_cnt;
      pci_master_pf = flag Key.key_pci_master_pf p.pci_master_pf;
      is_poll_mode = flag Key.key_poll_mode p.is_poll_mode;
      intr_mod_en = flag Key.key_intr_mod_en p.intr_mod_en;
      ring_sz = last_of (λ t. lib.kstrtoint t 10) Key.key_ring_sz ss p.ring_sz;
      c2h_tmr_cnt = last_of (λ t. lib.kstrtoint t 10) Key.key_c2h_tmr_cnt ss p.c2h_tmr_cnt;
      c2h_cnt_thr = last_of (λ t. lib.kstrtoint t 10) Key.key_c2h_cnt_thr ss p.c2h_cnt_thr;
      c2h_buf_sz = last_of (λ t. lib.kstrtoint t 10) Key.key_c2h_buf_sz ss p.c2h_buf_sz;
      rsfec_en = flag Key.key_rsfec_en p.rsfec_en;
      port_id = byte Key.key_port_id p.port_id;
      mac_addr = addresses lib ss p.mac_addr;
    }

parse_flag-is_on : (text : List ℕ) → parse_flag text ≡ is_on text
parse_flag-is_on [] = refl
parse_flag-is_on (c ∷ text) = ground arith

module _ (lib : JsonLib) where
  -- A byte behind the first one does not touch it.
  store_mac-behind :
      (o : Option ℕ) (j b : ℕ) (mac : List ℕ)
      → store_mac o (suc j) (b ∷ mac) ≡ b ∷ store_mac o j mac
  store_mac-behind none j b mac = refl
  store_mac-behind (some c) j b mac = refl

  store_bytes-behind :
      (texts : List (List ℕ)) (j b : ℕ) (mac : List ℕ)
      → store_bytes lib texts (suc j) (b ∷ mac) ≡ b ∷ store_bytes lib texts j mac
  store_bytes-behind [] j b mac = refl
  store_bytes-behind (text ∷ texts) j b mac =
      ap₂ (λ n m. store_bytes lib texts n m) (omega arith)
        (store_mac-behind (lib.kstrtou8 text 16) j b mac)
      ∙ store_bytes-behind texts (j + 1) b (store_mac (lib.kstrtou8 text 16) j mac)

  store_mac-first :
      (o : Option ℕ) (b : ℕ) (mac : List ℕ) → store_mac o 0 (b ∷ mac) ≡ or_old o b ∷ mac
  store_mac-first none b mac = refl
  store_mac-first (some c) b mac = refl

  store_mac-none : (o : Option ℕ) (j : ℕ) → store_mac o j [] ≡ []
  store_mac-none none j = refl
  store_mac-none (some c) j = refl

  store_bytes-none : (texts : List (List ℕ)) (j : ℕ) → store_bytes lib texts j [] ≡ []
  store_bytes-none [] j = refl
  store_bytes-none (text ∷ texts) j =
      ap (store_bytes lib texts (j + 1)) (store_mac-none (lib.kstrtou8 text 16) j)
      ∙ store_bytes-none texts (j + 1)

  store_bytes-overlay :
      (texts : List (List ℕ)) (mac : List ℕ) → store_bytes lib texts 0 mac ≡ overlay lib texts mac
  store_bytes-overlay [] mac = refl
  store_bytes-overlay (text ∷ texts) [] = store_bytes-none (text ∷ texts) 0
  store_bytes-overlay (text ∷ texts) (b ∷ mac) =
      ap (store_bytes lib texts 1) (store_mac-first (lib.kstrtou8 text 16) b mac)
      ∙ store_bytes-behind texts 0 (or_old (lib.kstrtou8 text 16) b) mac
      ∙ ap (λ m. or_old (lib.kstrtou8 text 16) b ∷ m) (store_bytes-overlay texts mac)

  -- One setting of a single value changes the field of its key.
  value-as_written :
      (k : Key) (text : List ℕ) (ss : List Setting) (p : PlatformInfo)
      → as_written lib ss (store_value lib k text p) ≡ as_written lib (Setting.value k text ∷ ss) p
  unfolding store_value
  value-as_written Key.key_qdma_bar text ss p = refl
  value-as_written Key.key_user_bar text ss p = refl
  value-as_written Key.key_queue_base text ss p = refl
  value-as_written Key.key_queue_max text ss p = refl
  value-as_written Key.key_used_queues text ss p = refl
  value-as_written Key.key_pci_msix_user_cnt text ss p = refl
  value-as_written Key.key_pci_master_pf text ss p =
      ap (λ b. as_written lib ss (record p { pci_master_pf = b })) (parse_flag-is_on text)
  value-as_written Key.key_poll_mode text ss p =
      ap (λ b. as_written lib ss (record p { is_poll_mode = b })) (parse_flag-is_on text)
  value-as_written Key.key_intr_mod_en text ss p =
      ap (λ b. as_written lib ss (record p { intr_mod_en = b })) (parse_flag-is_on text)
  value-as_written Key.key_ring_sz text ss p = refl
  value-as_written Key.key_c2h_tmr_cnt text ss p = refl
  value-as_written Key.key_c2h_cnt_thr text ss p = refl
  value-as_written Key.key_c2h_buf_sz text ss p = refl
  value-as_written Key.key_rsfec_en text ss p =
      ap (λ b. as_written lib ss (record p { rsfec_en = b })) (parse_flag-is_on text)
  value-as_written Key.key_port_id text ss p = refl
  value-as_written Key.key_mac_addr text ss p = refl

  pub store_all-as_written :
      (ss : List Setting) (p : PlatformInfo) → store_all lib ss p ≡ as_written lib ss p
  store_all-as_written [] p = refl
  store_all-as_written (Setting.value k text ∷ ss) p =
      store_all-as_written ss (store_value lib k text p) ∙ value-as_written k text ss p
  store_all-as_written (Setting.address texts ∷ ss) p =
      store_all-as_written ss (store lib (Setting.address texts) p)
      ∙ ap (λ mac. as_written lib ss (record p { mac_addr = mac }))
          (store_bytes-overlay texts p.mac_addr)
