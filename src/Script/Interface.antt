-- ===== src/Script/Interface.antt =====
-- main/src/scripting/local_interface.c: the table of four instances behind each of the I2C, RS485 and
-- UART objects that scripts drive. The handlers that the device registers (`interface_tx_handler_t`
-- and its like) belong to another component: they are functions on that component's state `W`.
pub mod Laws
use edge_device_esp.Base.{
  ℕ, ◌+◌, ◌≤◌, ◌<◌, Bool, true, false, ◌&&◌, ◌||◌, not, ltb, leb, ◌==◌, if◌then◌else◌,
}
use edge_device_esp.Base.{List, [], ◌∷◌, length, get_or, set, replicate, Option, none, some}
use edge_device_esp.Base.Int.{ℤ, pos, negsuc}

-- `local_interface_state_t`.
pub record State : Type 0 where
  pub used : Bool
  pub enabled : Bool
  pub address_or_baud : ℕ
  pub unit_id : ℕ
  pub tx_pin : ℤ
  pub rx_pin : ℤ
  pub rx_buffer_size : ℤ

-- A slot that `memset` clears, and one that `local_state` creates.
abbrev pub unused : State
unused = record {
  used = false;
  enabled = false;
  address_or_baud = 0;
  unit_id = 0;
  tx_pin = pos 0;
  rx_pin = pos 0;
  rx_buffer_size = pos 0;
}

abbrev pub created : State
created = record unused { used = true; enabled = true; rx_buffer_size = pos 4096 }

-- `ssize_t` results of the handlers, and the error codes of this file.
pub data Err : Type 0 where
  ok : Err
  invalid_arg : Err
  invalid_state : Err
  other : ℕ → Err

abbrev pub is_ok : Err → Bool
is_ok ok = true
is_ok e = false

abbrev pub is_positive : ℤ → Bool
is_positive (pos n) = ltb 0 n
is_positive (negsuc n) = false

-- The handlers of `local_interface_t`; a NULL handler is `none`. `rx` gives its result, the bytes
-- that it put into the buffer and how far it advanced.
pub record Handlers (W : Type 0) : Type 0 where
  pub tx : Option (ℕ → List ℕ → W → ℤ × W)
  pub rx : Option (ℕ → ℤ → ℕ → W → (ℤ × List ℕ × ℤ) × W)
  pub open_handler : Option (ℕ → Bool → W → Err × W)

-- `local_state` with `create` set, as every caller has it: the table then, and whether there is such
-- an instance.
pub local_state : ℕ → List State → List State × Bool
local_state id table =
    if leb 4 id
    then (table, false)
    else if (get_or table id unused).used
    then (table, true)
    else (set table id created, true)

pub local_open : {W : Type 0} → Handlers W → ℕ → Bool → List State → W → Err × List State × W
local_open h id open? table w =
    let (table', found) = local_state id table in
    if not found then (invalid_state, table', w) else elim h.open_handler [
      | none ↦ (invalid_state, table', w)
      | some f ↦
          let (e, w') = f id open? w in
          let st = get_or table' id unused in
          (e, if is_ok e then set table' id (record st { enabled = true }) else table', w')
    ]

-- `local_tx`; -1 is `negsuc 0`.
pub local_tx : {W : Type 0} → Handlers W → ℕ → List ℕ → List State → W → ℤ × List State × W
local_tx h id data_bytes table w =
    let (table', found) = local_state id table in
    if not found then (negsuc 0, table', w) else elim h.tx [
      | none ↦ (negsuc 0, table', w)
      | some f ↦ (let (n, w') = f id data_bytes w in (n, table', w'))
    ]

pub local_rx :
    {W : Type 0} → Handlers W → ℕ → ℤ → ℕ → List State → W → (ℤ × List ℕ × ℤ) × List State × W
local_rx h id at maxlen table w =
    let (table', found) = local_state id table in
    if not found then ((negsuc 0, [], pos 0), table', w) else elim h.rx [
      | none ↦ ((negsuc 0, [], pos 0), table', w)
      | some f ↦ (let (r, w') = f id at maxlen w in (r, table', w'))
    ]

-- `local_enabled`: the error, and what `*enabled` is set to.
pub local_enabled : ℕ → List State → (Err × Option Bool) × List State
local_enabled id table =
    let (table', found) = local_state id table in
    if found
    then ((ok, some (get_or table' id unused).enabled), table')
    else ((invalid_arg, none), table')

pub local_cursor : ℕ → List State → Err × List State
local_cursor id table =
    let (table', found) = local_state id table in (if found then ok else invalid_arg, table')

pub local_rx_size : ℕ → ℤ → List State → Err × List State
local_rx_size id size table =
    let (table', found) = local_state id table in
    let st = get_or table' id unused in
    if not (is_positive size)
    then (invalid_arg, table)
    else if not found
    then (invalid_arg, table')
    else (ok, set table' id (record st { rx_buffer_size = size }))

-- `rs485_instance_cfg_t`, of which `i2c_instance_cfg_t` and `uart_instance_cfg_t` lack `unit_id`.
pub record Config : Type 0 where
  pub enabled : Bool
  pub address_or_baud : ℕ
  pub unit_id : ℕ
  pub tx_pin : ℤ
  pub rx_pin : ℤ
  pub rx_buffer_size : ℤ

-- `rs485_object_set_instance`; a NULL configuration is `none`.
pub set_instance_with_unit : ℕ → Option Config → List State → Err × List State
set_instance_with_unit id none table = (invalid_arg, table)
set_instance_with_unit id (some cfg) table =
    let (table', found) = local_state id table in
    let st = get_or table' id unused in
    if not found then (invalid_arg, table') else (
      ok,
      set table' id (record {
        used = st.used;
        enabled = cfg.enabled;
        address_or_baud = cfg.address_or_baud;
        unit_id = cfg.unit_id;
        tx_pin = cfg.tx_pin;
        rx_pin = cfg.rx_pin;
        rx_buffer_size = cfg.rx_buffer_size;
      }),
    )

-- `i2c_object_set_instance` and `uart_object_set_instance`, which leave `unit_id`.
pub set_instance : ℕ → Option Config → List State → Err × List State
set_instance id none table = (invalid_arg, table)
set_instance id (some cfg) table =
    let (table', found) = local_state id table in
    let st = get_or table' id unused in
    if not found then (invalid_arg, table') else (
      ok,
      set table' id (record st {
        enabled = cfg.enabled;
        address_or_baud = cfg.address_or_baud;
        tx_pin = cfg.tx_pin;
        rx_pin = cfg.rx_pin;
        rx_buffer_size = cfg.rx_buffer_size;
      }),
    )

-- The variables that the `get_runtime` functions write through their pointers.
pub record Runtime : Type 0 where
  pub address_or_baud : ℕ
  pub unit_id : ℕ
  pub tx_pin : ℤ
  pub rx_pin : ℤ
  pub rx_buffer_size : ℤ

abbrev pub keep_zero : ℕ → ℕ → ℕ
keep_zero old new = if new == 0 then old else new

abbrev pub keep_nonpositive : ℤ → ℤ → ℤ
keep_nonpositive old new = if is_positive new then new else old

-- `rs485_object_get_runtime` with no NULL pointer.
pub get_runtime_with_unit : ℕ → Runtime → List State → Err × Runtime × List State
get_runtime_with_unit id out table =
    let (table', found) = local_state id table in
    let st = get_or table' id unused in
    if not found then (invalid_arg, out, table') else (
      ok,
      record {
        address_or_baud = keep_zero out.address_or_baud st.address_or_baud;
        unit_id = keep_zero out.unit_id st.unit_id;
        tx_pin = keep_nonpositive out.tx_pin st.tx_pin;
        rx_pin = keep_nonpositive out.rx_pin st.rx_pin;
        rx_buffer_size = keep_nonpositive out.rx_buffer_size st.rx_buffer_size;
      },
      table',
    )

-- `i2c_object_get_runtime` and `uart_object_get_runtime`, which have no unit.
pub get_runtime : ℕ → Runtime → List State → Err × Runtime × List State
unfolding get_runtime_with_unit
get_runtime id out table =
    let (e, r, table') = get_runtime_with_unit id out table in
    (e, record r { unit_id = out.unit_id }, table')

-- `rs485_object_update_runtime`, and `i2c_object_update_runtime`, which give no unit.
pub update_runtime_with_unit : ℕ → Runtime → List State → Err × List State
update_runtime_with_unit id r = set_instance_with_unit id (
    some (record {
      enabled = true;
      address_or_baud = r.address_or_baud;
      unit_id = r.unit_id;
      tx_pin = r.tx_pin;
      rx_pin = r.rx_pin;
      rx_buffer_size = r.rx_buffer_size;
    }))

pub update_runtime : ℕ → Runtime → List State → Err × List State
update_runtime id r = set_instance id (
    some (record {
      enabled = true;
      address_or_baud = r.address_or_baud;
      unit_id = 0;
      tx_pin = r.tx_pin;
      rx_pin = r.rx_pin;
      rx_buffer_size = r.rx_buffer_size;
    }))
