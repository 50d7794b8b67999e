-- ===== src/Script/Store/Calls.antt =====
-- The index of the script store through whole calls of `script_store_upsert` and
-- `script_store_delete`.
use edge_device_esp.Base.{ℕ, ◌≡◌, refl, Bool, true, Bool-cases, Option, none, some, inl, inr}
use edge_device_esp.Base.{length, List, ◌≤◌, arith}
use edge_device_esp.Script.Store.{Store, Nvs, Upsert, ok, is_ok, find, put_meta, store_open}
use edge_device_esp.Script.Store.{
  load_index, upsert, upsert_checked, write_through, delete, delete_found, checked,
}
use edge_device_esp.Script.Store.Order.{IsValid, Put, Found, find_lem, put_meta-IsValid}
use edge_device_esp.Script.Store.Removal.{drop_meta-IsValid}

module _ {S : Type 0} (nvs : Nvs S) where
  store_open-IsValid :
      (w : Bool) (st : Store) (s : S)
      → IsValid st
      → IsValid (store_open nvs w st s).1 × ((store_open nvs w st s).1.count ≡ st.count)
  unfolding store_open
  store_open-IsValid w st s v = elim (Bool-cases st.ready) [
    | inl e ↦ simp e (v, refl)
    | inr e ↦ simp e (elim (Bool-cases (is_ok (nvs.init_partition s).0)) [
      | inl q ↦ rw q (record { slots = v.slots; in_use = v.in_use; sorted = v.sorted }, refl)
      | inr q ↦ rw q (v, refl)
    ])
  ]

  write_through-IsValid :
      (c : Upsert) (script : List ℕ) (st : Store) (s : S) (o : Option Store)
      → IsValid st
      → Put c.script_id (length script) st o
      → IsValid (write_through nvs c script st s o).1
  unfolding write_through
  write_through-IsValid c script st s none v p = v
  write_through-IsValid c script st s (some st') v (w, e) =
      elim (Bool-cases (is_ok (store_open nvs true st' s).0)) [
        | inl q ↦ rw q (store_open-IsValid true st' s w).0
        | inr q ↦ rw q (store_open-IsValid true st' s w).0
      ]

  load_index-loaded : (st : Store) (s : S) → st.loaded ≡ true → load_index nvs st s ≡ (ok, st, s)
  unfolding load_index
  load_index-loaded st s l = simp l refl

  checked-IsValid :
      (c : Upsert) (o : Option (List ℕ)) (st : Store) (s : S)
      → st.loaded ≡ true
      → IsValid st
      → IsValid (upsert_checked nvs c o st s).1
  unfolding upsert_checked
  checked-IsValid c none st s l v = v
  checked-IsValid c (some script) st s l v = rw (load_index-loaded st s l) (
      write_through-IsValid c script st s (put_meta c.script_id (length script) st) v
        (put_meta-IsValid c.script_id (length script) st v))

  -- A store that has read its index keeps it valid through a call of `script_store_upsert`, whatever
  -- the call is given and whatever the flash answers.
  pub upsert-IsValid :
      (c : Option Upsert) (st : Store) (s : S)
      → st.loaded ≡ true
      → IsValid st
      → IsValid (upsert nvs c st s).1
  unfolding upsert
  upsert-IsValid none st s l v = v
  upsert-IsValid (some c) st s l v = checked-IsValid c (checked nvs c) st s l v

  Found-IsValid :
      (id : ℕ) (o : Option ℕ) (st : Store) (s : S)
      → IsValid st
      → Found id st.count st.table o
      → IsValid (delete_found nvs id o st s).1
  unfolding delete_found
  Found-IsValid id none st s v f = v
  Found-IsValid id (some i) st s v (l, e) =
      let (v', n) = store_open-IsValid true st s v in
      elim (Bool-cases (is_ok (store_open nvs true st s).0)) [
        | inl q ↦ rw q (drop_meta-IsValid i (store_open nvs true st s).1 v' (rw n l)).0
        | inr q ↦ rw q v'
      ]

  -- A store that has read its index keeps it valid through a call of `script_store_delete`, whatever
  -- the flash answers.
  pub delete-IsValid :
      (id : ℕ) (st : Store) (s : S) → st.loaded ≡ true → IsValid st → IsValid (delete nvs id st s).1
  unfolding delete
  delete-IsValid id st s l v =
      rw (load_index-loaded st s l) (
        Found-IsValid id (find id st.count st.table) st s v (find_lem id st.count st.table (fit v)))
    where
      le : {a b c : ℕ} → a ≡ b → c ≤ b → c ≤ a
      le p q = omega arith

      fit : IsValid st → st.count ≤ length st.table
      fit v = le v.slots v.in_use
