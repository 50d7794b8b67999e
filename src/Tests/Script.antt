-- ===== src/Tests/Script.antt =====
-- The script store and the interface table on concrete calls.
use edge_device_esp.Base.{ℕ, ◌≡◌, refl, arith, true, List, [], ◌∷◌, length, replicate}
use edge_device_esp.Base.{none, some}
use edge_device_esp.Base.Int.{pos, negsuc}
use edge_device_esp.Script.Store.{Meta, Store, Upsert, Nvs, Err, ok, no_meta, upsert}
use edge_device_esp.Script.Store.Order.{Put, put_meta-IsValid}
use edge_device_esp.Script.Store.Order as Order
use edge_device_esp.Script.Store.Calls.{upsert-IsValid}
use edge_device_esp.Script.Interface.{State, Runtime, unused}
use edge_device_esp.Base.{◌++◌, ◌≤◌}
use edge_device_esp.Script.Aggregate.{
  suffix, back_while, forward_while, strip_return_result, aggregate,
}
use edge_device_esp.Script.Aggregate.Bounds.{aggregate_fits}

-- A flash that takes every write and holds nothing.
abbrev flash : Nvs (List ℕ)
flash = record {
  init_partition = λ s. (ok, s);
  open_nvs = λ w s. (ok, s);
  get_blob = λ k n s. (Err.nvs_not_found, [], s);
  set_blob = λ k bs s. (ok, bs);
  set_u32 = λ k v s. (ok, s);
  erase_key = λ k s. (ok, s);
  commit = λ s. (ok, s);
  close_nvs = λ s. s;
}

abbrev entry : Meta
entry = record { id = 7; reserved = 0; size = 40 }

-- A store that has read an index of one script.
abbrev store : Store
store = record { ready = true; loaded = true; table = entry ∷ replicate 15 no_meta; count = 1 }

store-IsValid : Order.IsValid store
store-IsValid = record {
  slots = refl;
  in_use = omega arith;
  sorted = λ i j l k. absurd (omega arith);
}

abbrev script : Upsert
script = record {
  script_id = 3;
  script = some (1 ∷ 2 ∷ []);
  name = none;
  mime_type = none;
  version = some 1;
  global_buffer_size = none;
}

upsert-IsValid_example : Order.IsValid (upsert flash (some script) store []).1
upsert-IsValid_example = upsert-IsValid flash (some script) store [] refl store-IsValid

abbrev runtime : Runtime
runtime = record {
  address_or_baud = 9600;
  unit_id = 0;
  tx_pin = pos 17;
  rx_pin = negsuc 0;
  rx_buffer_size = pos 512;
}

abbrev defaults : Runtime
defaults = record {
  address_or_baud = 1;
  unit_id = 2;
  tx_pin = pos 3;
  rx_pin = pos 4;
  rx_buffer_size = pos 5;
}

abbrev table : List State
table = replicate 4 unused

-- "return result" behind a line end.
abbrev two_lines : List ℕ
two_lines = 65 ∷ 10 ∷ (suffix ++ (32 ∷ []))

strip_test : strip_return_result two_lines 16 ≡ 2
unfolding strip_return_result back_while forward_while
strip_test = refl

aggregate_fits_example : length (aggregate flash (λ n. true) 100 none store []).1 ≤ 100
aggregate_fits_example = aggregate_fits flash (λ n. true) 100 none store []
