-- ===== src/Script/Store.antt =====
-- main/src/scripting/local_script_store.c: the sources of the scripts in a flash partition, with an
-- index that is kept in memory. The flash is ESP-IDF's NVS, which the operations of `Nvs` stand for.
pub mod Gap
pub mod Order
pub mod Removal
pub mod Calls
use edge_device_esp.Base.{
  ℕ, zero, suc, ◌+◌, ◌-◌, ◌*◌, ◌/◌, ◌%◌, ◌≤◌, ◌<◌, Bool, true, false, ◌&&◌, ◌||◌, not, ltb, ◌==◌,
  if◌then◌else◌,
}
use edge_device_esp.Base.{
  List, [], ◌∷◌, ◌++◌, length, get_or, set, take, replicate, Option, none, some,
}
use edge_device_esp.Base.Words.{word16, word32, le16_bytes, le32_bytes}

-- The `esp_err_t` values that the store tells apart.
pub data Err : Type 0 where
  ok : Err
  nvs_not_found : Err
  not_found : Err
  invalid_arg : Err
  invalid_size : Err
  no_mem : Err
  other : ℕ → Err

abbrev pub is_ok : Err → Bool
is_ok ok = true
is_ok e = false

abbrev pub is_absent : Err → Bool
is_absent nvs_not_found = true
is_absent e = false

-- `store_meta_t`.
pub record Meta : Type 0 where
  pub id : ℕ
  pub reserved : ℕ
  pub size : ℕ

abbrev pub no_meta : Meta
no_meta = record { id = 0; reserved = 0; size = 0 }

-- The static variables: `table` is the array `s_meta` of 16 slots.
pub record Store : Type 0 where
  pub ready : Bool
  pub loaded : Bool
  pub table : List Meta
  pub count : ℕ

abbrev pub boot : Store
boot = record { ready = false; loaded = false; table = replicate 16 no_meta; count = 0 }

-- `script_store_upsert_t`: a NULL pointer is `none`.
pub record Upsert : Type 0 where
  pub script_id : ℕ
  pub script : Option (List ℕ)
  pub name : Option (List ℕ)
  pub mime_type : Option (List ℕ)
  pub version : Option ℕ
  pub global_buffer_size : Option ℕ

-- The calls of NVS: `open_nvs true` is NVS_READWRITE; `get_blob key cap` gives the bytes that it read,
-- at most `cap`.
pub record Nvs (S : Type 0) : Type 0 where
  pub init_partition : S → Err × S
  pub open_nvs : Bool → S → Err × S
  pub get_blob : List ℕ → ℕ → S → Err × List ℕ × S
  pub set_blob : List ℕ → List ℕ → S → Err × S
  pub set_u32 : List ℕ → ℕ → S → Err × S
  pub erase_key : List ℕ → S → Err × S
  pub commit : S → Err × S
  pub close_nvs : S → S

-- `key_for`: "%c%05u", where a `uint16_t` has five digits at most.
pub key_for : ℕ → ℕ → List ℕ
key_for prefix id =
    prefix
    ∷ (48 + id / 10000 % 10)
    ∷ (48 + id / 1000 % 10)
    ∷ (48 + id / 100 % 10)
    ∷ (48 + id / 10 % 10)
    ∷ (48 + id % 10)
    ∷ []

-- "index".
abbrev pub index_key : List ℕ
index_key = 105 ∷ 110 ∷ 100 ∷ 101 ∷ 120 ∷ []

-- The index in memory and its bytes on the flash.
pub index_bytes : ℕ → List Meta → List ℕ
index_bytes zero ms = []
index_bytes (suc n) [] = []
index_bytes (suc n) (m ∷ ms) =
    le16_bytes m.id ++ le16_bytes m.reserved ++ le32_bytes m.size ++ index_bytes n ms

pub read_index : List ℕ → List Meta → List Meta
read_index (a ∷ b ∷ c ∷ d ∷ e ∷ f ∷ g ∷ h ∷ bs) (m ∷ ms) =
    (record { id = word16 a b; reserved = word16 c d; size = word32 e f g h }) ∷ read_index bs ms
read_index bs ms = ms

-- The search of `find_index`.
pub find : ℕ → ℕ → List Meta → Option ℕ
find id zero ms = none
find id (suc n) [] = none
find id (suc n) (m ∷ ms) =
    let rest = find id n ms in
    if m.id == id then some 0 else elim rest [ none ↦ none | some i ↦ some (suc i) ]

-- The loop of `script_store_upsert` that moves the entries with a greater id up by one: the table
-- then, and the slot that became free.
pub make_gap : ℕ → ℕ → List Meta → List Meta × ℕ
make_gap id zero ms = (ms, 0)
make_gap id (suc n) ms =
    let moved = make_gap id n (set ms (suc n) (get_or ms n no_meta)) in
    if ltb id (get_or ms n no_meta).id then moved else (ms, suc n)

-- The loop of `script_store_delete` from slot `i` on, `n` entries before the last.
pub close_gap : ℕ → ℕ → List Meta → List Meta
close_gap zero i ms = ms
close_gap (suc n) i ms = close_gap n (i + 1) (set ms i (get_or ms (i + 1) no_meta))

-- `script_store_upsert` as far as it changes the index in memory; `none` is ESP_ERR_NO_MEM.
pub put_meta : ℕ → ℕ → Store → Option Store
put_meta id size st = elim (find id st.count st.table) [
  | some i ↦
      let m = get_or st.table i no_meta in
      some (record st { table = set st.table i (record m { size = size }) })
  | none ↦
      if ltb st.count 16
      then some (
          let (ms, at) = make_gap id st.count st.table in
          let m = get_or ms at no_meta in
          record st { table = set ms at (record m { id = id; size = size }); count = st.count + 1 })
      else none
]

-- `script_store_delete` as far as it changes the index in memory.
pub drop_meta : ℕ → Store → Store
drop_meta i st = record st { table = close_gap (st.count - 1 - i) i st.table; count = st.count - 1 }

module _ {S : Type 0} (nvs : Nvs S) where
  abbrev pub and_then : Err × S → (S → Err × S) → Err × S
  and_then (e, s) f = if is_ok e then f s else (e, s)

  pub store_open : Bool → Store → S → Err × Store × S
  store_open write st s =
      let (e, s') = nvs.init_partition s in
      if st.ready
      then (let (e', s'') = nvs.open_nvs write s in (e', st, s''))
      else if is_ok e
      then (let (e', s'') = nvs.open_nvs write s' in (e', record st { ready = true }, s''))
      else (e, st, s')

  pub load_blob : Store → S → Err × Store × S
  load_blob st s =
      let (e, bs, s') = nvs.get_blob index_key (16 * 8) s in
      let s'' = nvs.close_nvs s' in
      if is_absent e
      then (ok, st, s'')
      else if not (is_ok e)
      then (e, record st { count = 0 }, s'')
      else if not (length bs % 8 == 0)
      then (invalid_size, record st { table = read_index bs st.table; count = 0 }, s'')
      else (
        ok,
        record st {
          table = read_index bs st.table;
          count = if ltb 16 (length bs / 8) then 16 else length bs / 8;
        },
        s'',
      )

  pub load_index : Store → S → Err × Store × S
  load_index st s =
      let (e, st', s') = store_open false (record st { loaded = true }) s in
      if st.loaded
      then (ok, st, s)
      else if is_absent e
      then (ok, st', s')
      else if is_ok e
      then load_blob st' s'
      else (e, st', s')

  pub save_index : Store → S → Err × S
  save_index st = nvs.set_blob index_key (index_bytes st.count st.table)

  pub set_optional_blob : ℕ → ℕ → Option (List ℕ) → S → Err × S
  set_optional_blob prefix id none s = (ok, s)
  set_optional_blob prefix id (some []) s = (ok, s)
  set_optional_blob prefix id (some (b ∷ bs)) s = nvs.set_blob (key_for prefix id) (b ∷ bs) s

  pub set_optional_u32 : ℕ → ℕ → Option ℕ → S → Err × S
  set_optional_u32 prefix id none s = (ok, s)
  set_optional_u32 prefix id (some v) s = nvs.set_u32 (key_for prefix id) v s

  -- The writes of `script_store_upsert` behind `store_open`.
  pub write_script : Upsert → List ℕ → Store → S → Err × S
  write_script c script st s =
      let r0 = nvs.set_blob (key_for b's' c.script_id) script s in
      let r1 = and_then r0 (set_optional_blob b'n' c.script_id c.name) in
      let r2 = and_then r1 (set_optional_blob b'm' c.script_id c.mime_type) in
      let r3 = and_then r2 (set_optional_u32 b'v' c.script_id c.version) in
      let r4 = and_then r3 (set_optional_u32 b'b' c.script_id c.global_buffer_size) in
      let r5 = and_then r4 (save_index st) in
      let (e, s') = and_then r5 nvs.commit in (e, nvs.close_nvs s')

  -- The script of a request that passes the checks of `script_store_upsert`.
  abbrev pub checked : Upsert → Option (List ℕ)
  checked c = elim c.script [
    | none ↦ none
    | some bs ↦
        if c.script_id == 0 || length bs == 0 || ltb 65536 (length bs) then none else some bs
  ]

  -- The rest of `script_store_upsert`, once the index in memory has changed.
  pub write_through : Upsert → List ℕ → Store → S → Option Store → Err × Store × S
  write_through c script st s none = (no_mem, st, s)
  write_through c script st s (some st') =
      let (e, st'', s') = store_open true st' s in
      let (e', s'') = write_script c script st'' s' in
      if is_ok e then (e', st'', s'') else (e, st'', s')

  pub upsert_checked : Upsert → Option (List ℕ) → Store → S → Err × Store × S
  upsert_checked c none st s = (invalid_arg, st, s)
  upsert_checked c (some script) st s =
      let (e, st', s') = load_index st s in
      if is_ok e
      then write_through c script st' s' (put_meta c.script_id (length script) st')
      else (e, st', s')

  -- `script_store_upsert`.
  pub upsert : Option Upsert → Store → S → Err × Store × S
  upsert none st s = (invalid_arg, st, s)
  upsert (some c) st s = upsert_checked c (checked c) st s

  pub erase_all : List ℕ → ℕ → S → S
  erase_all [] id s = s
  erase_all (p ∷ ps) id s = erase_all ps id (nvs.erase_key (key_for p id) s).1

  -- `script_store_delete` behind `find_index`.
  pub delete_found : ℕ → Option ℕ → Store → S → Err × Store × S
  delete_found id none st s = (not_found, st, s)
  delete_found id (some i) st s =
      let (e, st', s') = store_open true st s in
      let s'' = erase_all (b's' ∷ b'n' ∷ b'm' ∷ b'v' ∷ b'b' ∷ []) id s' in
      let st'' = drop_meta i st' in
      let (e', s3) = and_then (save_index st'' s'') nvs.commit in
      if is_ok e then (e', st'', nvs.close_nvs s3) else (e, st', s')

  -- `script_store_delete`; `find_index` loads the index and ignores an error of it.
  pub delete : ℕ → Store → S → Err × Store × S
  delete id st s =
      let (e, st', s') = load_index st s in delete_found id (find id st'.count st'.table) st' s'
