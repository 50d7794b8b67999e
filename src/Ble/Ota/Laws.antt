-- ===== src/Ble/Ota/Laws.antt =====
-- What the update partition holds when `ble_control_process_ota_write` of ble_control.c boots it.
use edge_device_esp.Base.{ℕ, ◌+◌, ◌^◌, ◌<◌, ◌≤◌, ◌≡◌, refl, arith, Bool-cases, inl, inr, ◌⊎◌}
use edge_device_esp.Base.{Bool, true, false, ◌&&◌, ◌||◌, not, ltb, leb, ◌==◌, length}
use edge_device_esp.Base.{List, [], ◌∷◌, ◌++◌, drop, get_or, Option, none, some}
use edge_device_esp.Base.Words.{word32, sub32}
use edge_device_esp.Ble.Ota.{Ota, Answers, Call, begin, write, abort, set_boot, notify, restart}
use edge_device_esp.Ble.Ota.{
  begin_update, begin_in, begin_with, data_update, end_update, process, run, reset, send_status,
  call, fail,
}

-- What the update partition holds after a trace: the size that it was begun with and how many bytes
-- were written since, in order, as `esp_ota_write` appends. `good_boots` says that the partition
-- was selected for booting only when it held as many bytes as were announced, and one at least.
pub record Image : Type 0 where
  pub size : ℕ
  pub written : ℕ
  pub good_boots : Bool

abbrev pub observe : Image → Call → Image
observe im (begin n) = record im { size = n; written = 0 }
observe im (write bs) = record im { written = im.written + length bs }
observe im abort = record im { size = 0; written = 0 }
observe im set_boot = record im {
  good_boots = im.good_boots && (im.written == im.size && ltb 0 im.size);
}
observe im (notify s v) = im
observe im restart = im

abbrev pub replay : Image → List Call → Image
replay im [] = im
replay im (c ∷ cs) = replay (observe im c) cs

replay-append :
    (im : Image) (cs : List Call) (c : Call) → replay im (cs ++ (c ∷ [])) ≡ observe (replay im cs) c
replay-append im [] c = refl
replay-append im (d ∷ cs) c = replay-append (observe im d) cs c

pub seen : List Call → Image
seen cs = replay (record { size = 0; written = 0; good_boots = true }) cs

seen-append : (cs : List Call) (c : Call) → seen (cs ++ (c ∷ [])) ≡ observe (seen cs) c
unfolding seen
seen-append cs c = replay-append _ cs c

-- The variables say what the partition holds, and every boot so far was good.
pub record IsValid (o : Ota) : Type 0 where
  pub size : (o.opened ≡ false) ⊎ (o.expected ≡ (seen o.trace).size)
  pub written : (o.opened ≡ false) ⊎ (o.received ≡ (seen o.trace).written)
  pub positive : (o.opened ≡ false) ⊎ (0 < o.expected)
  pub room : o.received ≤ o.expected
  pub small : o.expected < 2 ^ 32
  pub good : (seen o.trace).good_boots ≡ true

reset-IsValid : (b : Bool) {o : Ota} → IsValid o → IsValid (reset b o)
reset-IsValid b {o} v = ground (arith, seen-append o.trace abort)

send_status-IsValid : (s n : ℕ) {o : Ota} → IsValid o → IsValid (send_status s n o)
send_status-IsValid s n {o} v = ground (arith, seen-append o.trace (notify s n))

fail-IsValid : (err : ℕ) {o : Ota} → IsValid o → IsValid (fail err o).0
fail-IsValid err v = reset-IsValid true (send_status-IsValid 2 err v)

-- Partitions are smaller than 4 GiB (`esp_partition_t.size` is a `uint32_t`).
abbrev pub IsSmall : Option ℕ → Type 0
IsSmall none = Unit
IsSmall (some capacity) = capacity < 2 ^ 32

begun-IsValid :
    (size : ℕ) {o : Ota}
    → IsValid o
    → 0 < size
    → size < 2 ^ 32
    → IsValid (record (call (begin size) o) { opened = true; expected = size; received = 0 })
begun-IsValid size {o} v p h = ground (arith, seen-append o.trace (begin size))

begin_in-IsValid :
    (a : Answers) (size capacity : ℕ) {o : Ota}
    → capacity < 2 ^ 32
    → IsValid o
    → IsValid (begin_in a size capacity o).0
unfolding begin_in
begin_in-IsValid a size capacity {o} h v = elim (Bool-cases (size == 0 || ltb capacity size)) [
  | inl e ↦ rw e (fail-IsValid 0x104 v)
  | inr e ↦ rw e (elim (Bool-cases (a.begin_err == 0)) [
    | inl f ↦ simp f (
        send_status-IsValid 1 size
          (begun-IsValid size (reset-IsValid true v) (ground arith) (ground arith)))
    | inr f ↦ simp f (fail-IsValid a.begin_err (reset-IsValid true v))
  ])
]

begin_with-IsValid :
    (a : Answers) (size : ℕ) (p : Option ℕ) {o : Ota}
    → IsSmall p
    → IsValid o
    → IsValid (begin_with a size p o).0
unfolding begin_with
begin_with-IsValid a size none h v = fail-IsValid 0x104 v
begin_with-IsValid a size (some c) h v = begin_in-IsValid a size c h v

begin_update-IsValid :
    (a : Answers) (packet : List ℕ) {o : Ota}
    → IsSmall a.partition
    → IsValid o
    → IsValid (begin_update a packet o).0
unfolding begin_update
begin_update-IsValid a packet {o} small v = elim (Bool-cases (length packet == 5)) [
  | inr e ↦ rw e (fail-IsValid 0x102 v)
  | inl e ↦ rw e (begin_with-IsValid a _ a.partition small v)
]

written-IsValid :
    (block : List ℕ) {o : Ota}
    → IsValid o
    → length block ≤ sub32 o.expected o.received
    → o.opened ≡ true
    → IsValid (record (call (write block) o) { received = o.received + length block })
written-IsValid block {o} v h p = ground (arith, seen-append o.trace (write block))

data_update-IsValid :
    (a : Answers) (packet : List ℕ) {o : Ota} → IsValid o → IsValid (data_update a packet o).0
unfolding data_update
data_update-IsValid a packet {o} v = elim (Bool-cases (leb (length packet) 5 || not o.opened)) [
  | inl e ↦ simp e (fail-IsValid 0x103 v)
  | inr e ↦
      simp e
        (elim (Bool-cases (
          not (
            word32 (get_or packet 1 0) (get_or packet 2 0) (get_or packet 3 0) (get_or packet 4 0)
            == o.received)
          || ltb (sub32 o.expected o.received) (length (drop 5 packet)))) [
            | inl f ↦ simp f (fail-IsValid 0x102 v)
            | inr f ↦ simp f (elim (Bool-cases (a.write_err == 0)) [
              | inl g ↦ simp g (written-IsValid (drop 5 packet) v (ground arith) (ground arith))
              | inr g ↦ simp g (fail-IsValid a.write_err v)
            ])
          ])
]

-- The image of the variables is booted only in this state.
booted-IsValid :
    {o : Ota} → IsValid o → o.opened ≡ true → o.received ≡ o.expected → IsValid (call set_boot o)
booted-IsValid {o} v p e = ground (arith, seen-append o.trace set_boot)

restart-IsValid : {o : Ota} → IsValid o → IsValid (call restart o)
restart-IsValid {o} v = ground (arith, seen-append o.trace restart)

end_update-IsValid :
    (a : Answers) (packet : List ℕ) {o : Ota} → IsValid o → IsValid (end_update a packet o).0
unfolding end_update
end_update-IsValid a packet {o} v =
    elim (Bool-cases (not (length packet == 1) || not o.opened || not (o.received == o.expected))) [
      | inl e ↦ simp e (fail-IsValid 0x103 v)
      | inr e ↦ simp e (elim (Bool-cases (a.end_err == 0)) [
        | inr f ↦ simp f (fail-IsValid a.end_err v)
        | inl f ↦ simp f (elim (Bool-cases (a.boot_err == 0)) [
          | inr g ↦ simp g (fail-IsValid a.boot_err v)
          | inl g ↦ simp g (
              restart-IsValid (
                send_status-IsValid 3 o.received
                  (reset-IsValid false (booted-IsValid v (ground arith) (ground arith)))))
        ])
      ])
    ]

pub process-IsValid :
    (a : Answers) (packet : Option (List ℕ)) {o : Ota}
    → IsSmall a.partition
    → IsValid o
    → IsValid (process a packet o).0
unfolding process
process-IsValid a none small v = send_status-IsValid 2 0x102 v
process-IsValid a (some []) small v = send_status-IsValid 2 0x102 v
process-IsValid a (some (c ∷ rest)) small v = elim (Bool-cases (c == 1)) [
  | inl e ↦ rw e (begin_update-IsValid a (c ∷ rest) small v)
  | inr e ↦ rw e (elim (Bool-cases (c == 2)) [
    | inl f ↦ rw f (data_update-IsValid a (c ∷ rest) v)
    | inr f ↦ rw f (elim (Bool-cases (c == 3)) [
      | inl g ↦ rw g (end_update-IsValid a (c ∷ rest) v)
      | inr g ↦ rw g (elim (Bool-cases (c == 4)) [
        | inl h ↦ rw h (send_status-IsValid 4 0 (reset-IsValid true v))
        | inr h ↦ rw h (fail-IsValid 0x106 v)
      ])
    ])
  ])
]

abbrev pub AllSmall : List (Answers × Option (List ℕ)) → Type 0
AllSmall [] = Unit
AllSmall ((a, p) ∷ rest) = IsSmall a.partition × AllSmall rest

pub run-IsValid :
    (packets : List (Answers × Option (List ℕ))) {o : Ota}
    → AllSmall packets
    → IsValid o
    → IsValid (run packets o)
unfolding run
run-IsValid [] h v = v
run-IsValid ((a, p) ∷ rest) (h, hs) v = run-IsValid rest hs (process-IsValid a p h v)

abbrev pub fresh : Bool → Ota
fresh n = record { opened = false; expected = 0; received = 0; can_notify = n; trace = [] }

-- Whatever packets a client sends from the start and whatever the OTA library answers, with
-- update partitions smaller than 4 GiB: the boot partition was only ever switched when the
-- partition held exactly as many bytes as the update had announced, one at least; the bytes
-- counted as received are never more than announced.
pub run-good_boots :
    (packets : List (Answers × Option (List ℕ))) (notify : Bool)
    → AllSmall packets
    → let o = run packets (fresh notify) in
      ((seen o.trace).good_boots ≡ true) × (o.received ≤ o.expected)
run-good_boots packets n h =
    let start : IsValid (fresh n) = unfold seen in ground arith in
    let v = run-IsValid packets h start in (v.good, v.room)
