-- ===== src/Script/Aggregate.antt =====
-- `script_store_build_aggregate_for_ids` of main/src/scripting/local_script_store.c: the selected
-- scripts one behind the other, without the `local result = {}` that begins all but the first and the
-- `return result` that ends all but the last. Whether `malloc` succeeds is an argument.
pub mod Bounds
use edge_device_esp.Base.{
  ℕ, zero, suc, ◌+◌, ◌-◌, Bool, true, false, ◌&&◌, ◌||◌, not, ltb, leb, ◌==◌, if◌then◌else◌,
}
use edge_device_esp.Base.{
  List, [], ◌∷◌, ◌++◌, length, get_or, take, drop, same_bytes, Option, none, some,
}
use edge_device_esp.Script.Store.{
  Err, ok, no_mem, invalid_arg, is_ok, Meta, Store, Nvs, key_for, load_index, store_open,
}

pub mem : ℕ → List ℕ → Bool
mem id [] = false
mem id (x ∷ xs) = x == id || mem id xs

-- `selected`; a NULL list selects every script.
abbrev pub selected : ℕ → Option (List ℕ) → Bool
selected id none = true
selected id (some ids) = mem id ids

-- `isspace` in the C locale, the blanks and the line ends that the code tests.
abbrev pub is_space : ℕ → Bool
is_space c = c == 32 || (leb 9 c && leb c 13)

abbrev pub is_blank : ℕ → Bool
is_blank c = c == 32 || c == 9

abbrev pub is_line_end : ℕ → Bool
is_line_end c = c == 10 || c == 13

-- `while (len > low && test(s[len - 1])) len--`, with `n` steps to go.
unfoldable pub back_while : (ℕ → Bool) → List ℕ → ℕ → ℕ → ℕ
back_while test s low zero = zero
back_while test s low (suc n) =
    let rest = back_while test s low n in
    if ltb low (suc n) && test (get_or s n 0) then rest else suc n

-- `while (i < high && test(s[i])) i++`, on fuel `high`.
unfoldable pub forward_while : (ℕ → Bool) → List ℕ → ℕ → ℕ → ℕ → ℕ
forward_while test s high zero i = i
forward_while test s high (suc fuel) i =
    let rest = forward_while test s high fuel (i + 1) in
    if ltb i high && test (get_or s i 0) then rest else i

abbrev pub trim_trailing_space : List ℕ → ℕ → ℕ
trim_trailing_space s len = back_while is_space s 0 len

-- "return result" and "local result = {}".
abbrev pub suffix : List ℕ
suffix = b'r' ∷ b'e' ∷ b't' ∷ b'u' ∷ b'r' ∷ b'n' ∷ 32 ∷ b'r' ∷ b'e' ∷ b's' ∷ b'u' ∷ b'l' ∷ b't' ∷ []

abbrev pub local_line : List ℕ
local_line =
    b'l' ∷ b'o' ∷ b'c' ∷ b'a' ∷ b'l' ∷ 32 ∷ b'r' ∷ b'e' ∷ b's' ∷ b'u' ∷ b'l' ∷ b't' ∷ 32 ∷ 61 ∷ 32
    ∷ 123 ∷ 125 ∷ []

unfoldable pub strip_return_result : List ℕ → ℕ → ℕ
strip_return_result script len =
    let last = trim_trailing_space script len in
    let start = back_while (λ c. not (is_line_end c)) script 0 last in
    let begin = forward_while is_blank script last last start in
    let last' = back_while is_blank script begin last in
    if last' - begin == 13 && same_bytes (take 13 (drop begin script)) suffix then start else len

pub skip_local_result : List ℕ → ℕ → ℕ
skip_local_result script len =
    let start = forward_while is_space script len len 0 in
    let last = forward_while (λ c. not (is_line_end c)) script len len start in
    let check_end = back_while is_blank script start last in
    let cr = if ltb last len && get_or script last 0 == 13 then last + 1 else last in
    let lf = if ltb cr len && get_or script cr 0 == 10 then cr + 1 else cr in
    if not (check_end - start == 17) || not (same_bytes (take 17 (drop start script)) local_line)
    then 0
    else lf

-- What is copied of the script at a place among the selected ones.
pub segment : ℕ → ℕ → List ℕ → List ℕ
segment index count script =
    let start = if ltb 0 index then skip_local_result script (length script) else 0 in
    let rest = drop start script in
    let len =
      if ltb (index + 1) count then strip_return_result rest (length rest) else length rest in
    take len rest

-- `selected_count`.
pub count_selected : Option (List ℕ) → List Meta → ℕ
count_selected ids [] = 0
count_selected ids (m ∷ ms) =
    (if selected m.id ids && ltb 0 m.size then 1 else 0) + count_selected ids ms

-- One round of the loop: passed over, ended, or copied.
pub data Step (S : Type 0) : Type 0 where
  skip : Step S
  stop : Err → List ℕ → S → Step S
  next : List ℕ → S → Step S

-- The bytes `out[0 .. used)` with the line end in front of a further segment.
abbrev pub separated : ℕ → List ℕ → List ℕ
separated cap [] = []
separated cap (b ∷ bs) = if ltb (length (b ∷ bs)) cap then (b ∷ bs) ++ (10 ∷ []) else b ∷ bs

pub copy_segment : {S : Type 0} → ℕ → List ℕ → List ℕ → S → Step S
copy_segment cap used seg s =
    if ltb (cap - length used) (length seg) then stop no_mem used s else next (used ++ seg) s

module _ {S : Type 0} (nvs : Nvs S) (alloc : ℕ → Bool) (cap : ℕ) (ids : Option (List ℕ))
    (count : ℕ) where
  pub aggregate_step : Meta → List ℕ → ℕ → S → Step S
  aggregate_step m used index s =
      let (e, script, s') = nvs.get_blob (key_for b's' m.id) m.size s in
      if not (selected m.id ids) || m.size == 0
      then skip
      else if not (alloc (m.size + 1))
      then stop no_mem used s
      else if not (is_ok e)
      then stop e used s'
      else copy_segment cap (separated cap used) (segment index count script) s'

  pub aggregate_loop : List Meta → List ℕ → ℕ → S → Err × List ℕ × S
  aggregate_loop [] used index s = (ok, used, s)
  aggregate_loop (m ∷ ms) used index s = elim (aggregate_step m used index s) [
    | skip ↦ aggregate_loop ms used index s
    | stop e used' s' ↦ (e, used', s')
    | next used' s' ↦ aggregate_loop ms used' (index + 1) s'
  ]

-- `aggregate`: the error, the bytes in front of the final NUL, the store and the flash.
pub aggregate :
    {S : Type 0} → Nvs S → (ℕ → Bool) → ℕ → Option (List ℕ) → Store → S → Err × List ℕ × Store × S
aggregate nvs alloc cap ids st s =
    let (e1, st1, s1) = load_index nvs st s in
    let (e2, st2, s2) = store_open nvs false st1 s1 in
    let ms = take st2.count st2.table in
    let (e, used, s3) = aggregate_loop nvs alloc cap ids (count_selected ids ms) ms [] 0 s2 in
    if cap == 0
    then (invalid_arg, [], st, s)
    else if not (is_ok e1)
    then (e1, [], st1, s1)
    else if not (is_ok e2)
    then (e2, [], st2, s2)
    else (e, used, st2, nvs.close_nvs s3)
