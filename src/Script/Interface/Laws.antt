-- ===== src/Script/Interface/Laws.antt =====
-- Setting and reading the instances of local_interface.c.
use edge_device_esp.Base.{ℕ, ◌<◌, ◌≡◌, ◌≢◌, refl, ◌∙◌, ap, arith, true, false, leb, if◌then◌else◌}
use edge_device_esp.Base.{
  Bool-cases, inl, inr, List, length, get_or, set, length-set, get_or-set_self, get_or-set_ne,
}
use edge_device_esp.Script.Interface.{State, unused, created, ok, local_state, Runtime}
use edge_device_esp.Script.Interface.{
  get_runtime_with_unit, update_runtime_with_unit, keep_zero, keep_nonpositive,
  set_instance_with_unit,
}

-- What there is to read in an instance: an instance that was not used yet reads as a created one.
abbrev pub view : List State → ℕ → State
view table id = if (get_or table id unused).used then get_or table id unused else created

local_state_lem :
    (id : ℕ) (table : List State)
    → length table ≡ 4
    → id < 4
    → ((local_state id table).1 ≡ true)
      × (get_or (local_state id table).0 id unused ≡ view table id)
      × (length (local_state id table).0 ≡ 4)
unfolding local_state
local_state_lem id table h l =
    let k : leb 4 id ≡ false = ground arith in
    elim (Bool-cases (get_or table id unused).used) [
      | inl e ↦ rw (k, e) (refl, refl, h)
      | inr e ↦
          rw (k, e)
            (
              refl,
              get_or-set_self table id created unused (omega arith),
              length-set table id created ∙ h,
            )
    ]

local_state-other :
    (id other : ℕ) (table : List State)
    → id ≢ other
    → get_or (local_state id table).0 other unused ≡ get_or table other unused
unfolding local_state
local_state-other id other table ne = elim (Bool-cases (leb 4 id)) [
  | inl k ↦ rw k refl
  | inr k ↦ rw k (elim (Bool-cases (get_or table id unused).used) [
    | inl e ↦ rw e refl
    | inr e ↦ rw e (get_or-set_ne table id other created unused ne)
  ])
]

view-used : (table : List State) (id : ℕ) → (view table id).used ≡ true
view-used table id = elim (Bool-cases (get_or table id unused).used) [
  | inl e ↦ rw (e, e) refl
  | inr e ↦ rw e refl
]

-- The instance after a call of `rs485_object_update_runtime`.
abbrev pub configured : Runtime → State
configured r = record {
  used = true;
  enabled = true;
  address_or_baud = r.address_or_baud;
  unit_id = r.unit_id;
  tx_pin = r.tx_pin;
  rx_pin = r.rx_pin;
  rx_buffer_size = r.rx_buffer_size;
}

update_runtime_lem :
    (id : ℕ) (r : Runtime) (table : List State)
    → length table ≡ 4
    → id < 4
    → update_runtime_with_unit id r table ≡ (ok, set (local_state id table).0 id (configured r))
unfolding update_runtime_with_unit set_instance_with_unit
update_runtime_lem id r table h l =
    let (found, at, n) = local_state_lem id table h l in
    let used : (get_or (local_state id table).0 id unused).used ≡ true =
      ap (λ (x : State). x.used) at ∙ view-used table id in
    rw (found, used) refl

get_runtime_lem :
    (id : ℕ) (out : Runtime) (t : List State) (v : State)
    → id < 4
    → v.used ≡ true
    → get_or t id unused ≡ v
    → (get_runtime_with_unit id out t).1 ≡ record {
      address_or_baud = keep_zero out.address_or_baud v.address_or_baud;
      unit_id = keep_zero out.unit_id v.unit_id;
      tx_pin = keep_nonpositive out.tx_pin v.tx_pin;
      rx_pin = keep_nonpositive out.rx_pin v.rx_pin;
      rx_buffer_size = keep_nonpositive out.rx_buffer_size v.rx_buffer_size;
    }
unfolding get_runtime_with_unit local_state
get_runtime_lem id out t v l u e =
    let k : leb 4 id ≡ false = ground arith in
    let u' : (get_or t id unused).used ≡ true = ap (λ (x : State). x.used) e ∙ u in
    rw (k, u', e) refl

-- What is set on one of the four RS485 instances is read back: a zero address or unit, and a
-- pin or a size that is not positive, leave the caller's value.
pub get_runtime-update_runtime :
    (id : ℕ) (r out : Runtime) (table : List State)
    → length table ≡ 4
    → id < 4
    → (get_runtime_with_unit id out (update_runtime_with_unit id r table).1).1 ≡ record {
      address_or_baud = keep_zero out.address_or_baud r.address_or_baud;
      unit_id = keep_zero out.unit_id r.unit_id;
      tx_pin = keep_nonpositive out.tx_pin r.tx_pin;
      rx_pin = keep_nonpositive out.rx_pin r.rx_pin;
      rx_buffer_size = keep_nonpositive out.rx_buffer_size r.rx_buffer_size;
    }
get_runtime-update_runtime id r out table h l =
    let (found, at, n) = local_state_lem id table h l in
    let t = (local_state id table).0 in
    rw (update_runtime_lem id r table h l) (
      get_runtime_lem id out (set t id (configured r)) (configured r) l refl
        (get_or-set_self t id (configured r) unused (omega arith)))

-- Setting one of the four RS485 instances leaves what there is to read in every other
-- instance, and the number of slots.
pub update_runtime-view :
    (id other : ℕ) (r : Runtime) (table : List State)
    → length table ≡ 4
    → id < 4
    → id ≢ other
    → (view (update_runtime_with_unit id r table).1 other ≡ view table other)
      × (length (update_runtime_with_unit id r table).1 ≡ 4)
update_runtime-view id other r table h l ne =
    let (found, at, n) = local_state_lem id table h l in
    let t = (local_state id table).0 in
    let s : get_or (set t id (configured r)) other unused ≡ get_or table other unused =
      get_or-set_ne t id other (configured r) unused ne ∙ local_state-other id other table ne in
    rw (update_runtime_lem id r table h l)
      (ap (λ x. if x.used then x else created) s, length-set t id (configured r) ∙ n)
