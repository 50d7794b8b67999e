-- ===== src/Mesh/Dedupe/Laws.antt =====
-- What `delivery_dedupe_check_and_add` answers and remembers.
use edge_device_esp.Base.{
  ℕ, zero, suc, ◌+◌, ◌<◌, ◌≤◌, ◌≡◌, ◌≢◌, refl, ◌∙◌, sym, ap, arith, Bool-cases, inl, inr,
}
use edge_device_esp.Base.{
  Bool, true, false, ◌&&◌, ◌||◌, not, ltb, ◌==◌, if◌then◌else◌, length, length-set,
}
use edge_device_esp.Base.{List, [], ◌∷◌, Option, none, some, set}
use edge_device_esp.Base.Words.{sub32}
use mathlib.Core.Bool.{or-true}
use mathlib.Core.List.{append_assoc}
use edge_device_esp.Base.{◌++◌, length-append}
use edge_device_esp.Mesh.Dedupe.{Entry, is_fresh, touch, first, pick_slot, check_and_add}

-- A delivery with this checksum was seen in the last 5 seconds, and is remembered.
pub recorded : ℕ → ℕ → List Entry → Bool
recorded c now [] = false
recorded c now (e ∷ es) = (is_fresh now e && e.checksum == c) || recorded c now es

abbrev pub Touched : ℕ → ℕ → List Entry → Option (List Entry) → Type 0
Touched c now es none = recorded c now es ≡ false
Touched c now es (some t) =
    (recorded c now es ≡ true)
    × (length t ≡ length es)
    × ((later : ℕ) → sub32 later now ≤ 5000 → recorded c later t ≡ true)
    × ((j later : ℕ) → j ≢ c → recorded j later t ≡ recorded j later es)

touch_lem : (c now : ℕ) (es : List Entry) → Touched c now es (touch c now es)
unfolding touch recorded
touch_lem c now [] = refl
touch_lem c now (e ∷ es) = elim (Bool-cases (is_fresh now e && e.checksum == c)) [
  | inl m ↦ rw m (rw m refl, refl, λ later l. ground arith, λ j later n. ground arith)
  | inr m ↦ rw m (go m (touch c now es) (touch_lem c now es))
]
  where
    go :
        (is_fresh now e && e.checksum == c) ≡ false
        → (r : Option (List Entry)) → Touched c now es r
        → Touched c now (e ∷ es) (elim r [ none ↦ none | some es' ↦ some (e ∷ es') ])
    go m none h = rw m h
    go m (some t) (a, b, d, f) = (
      rw (m, a) refl,
      ap suc b,
      λ later l. rw (d later l) (or-true (is_fresh later e && e.checksum == c)),
      λ j later n. ap (λ r. (is_fresh later e && e.checksum == j) || r) (f j later n),
    )

-- A table with a free or an expired slot.
unfoldable pub has_room : ℕ → List Entry → Bool
has_room now [] = false
has_room now (e ∷ es) = not (is_fresh now e) || has_room now es

recorded-set :
    (c now i : ℕ) (es : List Entry)
    → i < length es
    → (later : ℕ) → sub32 later now ≤ 5000
    → recorded c later (set es i (record { valid = true; checksum = c; last_seen_ms = now })) ≡ true
unfolding recorded
recorded-set c now i [] h later l = ground arith
recorded-set c now zero (e ∷ es) h later l = ground arith
recorded-set c now (suc i) (e ∷ es) h later l =
    rw (recorded-set c now i es (omega arith) later l)
      (or-true (is_fresh later e && e.checksum == c))

-- A slot whose entry is not fresh at this time, or out of range.
pub stale_at : ℕ → ℕ → List Entry → Bool
stale_at now i [] = true
stale_at now zero (e ∷ es) = not (is_fresh now e)
stale_at now (suc i) (e ∷ es) = stale_at now i es

kept-set :
    (c now i : ℕ) (es : List Entry) (j : ℕ)
    → j ≢ c
    → stale_at now i es ≡ true
    → recorded j now (set es i (record { valid = true; checksum = c; last_seen_ms = now }))
      ≡ recorded j now es
unfolding recorded stale_at
kept-set c now i [] j n s = refl
kept-set c now zero (e ∷ es) j n s = ground arith
kept-set c now (suc i) (e ∷ es) j n s =
    ap (λ r. (is_fresh now e && e.checksum == j) || r) (kept-set c now i es j n s)

abbrev pub Holds : (ℕ → Type 0) → Option ℕ → Type 0
Holds P none = Unit
Holds P (some j) = P j

-- From the `i`-th entry on, `P` holds of the slots that are not fresh.
abbrev pub AtStale : (ℕ → Type 0) → ℕ → ℕ → List Entry → Type 0
AtStale P now i [] = Unit
AtStale P now i (e ∷ es) = (is_fresh now e ≡ false → P i) × AtStale P now (i + 1) es

first-Holds :
    (P : ℕ → Type 0) (t : Bool) (i : ℕ) (o : Option ℕ)
    → Holds P o
    → (t ≡ true → P i)
    → Holds P (first t i o)
first-Holds P t i (some j) h f = h
first-Holds P t i none h f = elim (Bool-cases t) [ inl e ↦ rw e (f e) | inr e ↦ rw e tt ]

pub is_some : Option ℕ → Bool
is_some none = false
is_some (some j) = true

abbrev pub found : Option ℕ → Option ℕ → ℕ → List Entry → Bool
found free expired now es = is_some free || is_some expired || has_room now es

found-step :
    (e : Entry) (es : List Entry) (now i : ℕ) (free expired : Option ℕ)
    → found free expired now (e ∷ es) ≡ true
    → found (first (not e.valid) i free) (first (e.valid && not (is_fresh now e)) i expired) now es
      ≡ true
unfolding is_some has_room
found-step e es now i none none h = ground arith
found-step e es now i none (some x) h = ground arith
found-step e es now i (some y) expired h = refl

pick_slot-Holds :
    (P : ℕ → Type 0) (now : ℕ) (es : List Entry) (i : ℕ) (free expired : Option ℕ)
    (oldest_ms oldest : ℕ)
    → AtStale P now i es
    → Holds P free
    → Holds P expired
    → found free expired now es ≡ true
    → P (pick_slot now es i free expired oldest_ms oldest)
unfolding pick_slot is_some has_room
pick_slot-Holds P now [] i none none om o a f x h = cc
pick_slot-Holds P now [] i (some j) none om o a f x h = f
pick_slot-Holds P now [] i none (some k) om o a f x h = x
pick_slot-Holds P now [] i (some j) (some k) om o a f x h = x
pick_slot-Holds P now (e ∷ es) i free expired om o (a, more) f x h =
    let older = e.valid && ltb e.last_seen_ms om in
    pick_slot-Holds P now es (i + 1) (first (not e.valid) i free)
      (first (e.valid && not (is_fresh now e)) i expired) (if older then e.last_seen_ms else om)
      (if older then i else o) more (first-Holds P (not e.valid) i free f (λ t. a (ground arith)))
      (first-Holds P (e.valid && not (is_fresh now e)) i expired x (λ t. a (ground arith)))
      (found-step e es now i free expired h)

pick_slot-lt :
    (n now : ℕ) (es : List Entry) (i : ℕ) (free expired : Option ℕ) (oldest_ms oldest : ℕ)
    → i + length es ≡ n
    → Holds (λ j. j < n) free
    → Holds (λ j. j < n) expired
    → oldest < n
    → pick_slot now es i free expired oldest_ms oldest < n
unfolding pick_slot
pick_slot-lt n now [] i none none om o a f x h = h
pick_slot-lt n now [] i (some j) none om o a f x h = f
pick_slot-lt n now [] i none (some k) om o a f x h = x
pick_slot-lt n now [] i (some j) (some k) om o a f x h = x
pick_slot-lt n now (e ∷ es) i free expired om o a f x h =
    let older = e.valid && ltb e.last_seen_ms om in
    pick_slot-lt n now es (i + 1) (first (not e.valid) i free)
      (first (e.valid && not (is_fresh now e)) i expired) (if older then e.last_seen_ms else om)
      (if older then i else o) (omega arith)
      (first-Holds (λ j. j < n) (not e.valid) i free f (λ t. omega arith))
      (first-Holds (λ j. j < n) (e.valid && not (is_fresh now e)) i expired x (λ t. omega arith))
      (ground arith)

stale_at-append :
    (now : ℕ) (pre : List Entry) (e : Entry) (es : List Entry)
    → stale_at now (length pre) (pre ++ e ∷ es) ≡ not (is_fresh now e)
unfolding stale_at
stale_at-append now [] e es = refl
stale_at-append now (p ∷ pre) e es = stale_at-append now pre e es

AtStale-table :
    (now i : ℕ) (pre es : List Entry)
    → i ≡ length pre
    → AtStale (λ j. stale_at now j (pre ++ es) ≡ true) now i es
AtStale-table now i pre [] h = tt
AtStale-table now i pre (e ∷ es) h = (
  λ f. rw (h, stale_at-append now pre e es, f) refl,
  rw (append_assoc pre (e ∷ []) es) at
      (AtStale-table now (i + 1) (pre ++ e ∷ []) es (rw (h, length-append pre (e ∷ [])) refl)),
)

check_and_add_lem :
    (c now : ℕ) (table : List Entry)
    → ((check_and_add c now table).1 ≡ recorded c now table)
      × (length (check_and_add c now table).0 ≡ length table)
unfolding check_and_add
check_and_add_lem c now table = go (touch c now table) (touch_lem c now table)
  where
    i : ℕ
    i = pick_slot now table 0 none none 0xffffffff 0

    new : Entry
    new = record { valid = true; checksum = c; last_seen_ms = now }

    after : Option (List Entry) → List Entry × Bool
    after r = elim r [ some t ↦ (t, true) | none ↦ (set table i new, false) ]

    go :
        (r : Option (List Entry))
        → Touched c now table r
        → ((after r).1 ≡ recorded c now table) × (length (after r).0 ≡ length table)
    go none h = (sym h, length-set table i new)
    go (some t) (a, b, d, f) = (sym a, b)

later_recorded :
    (c now later : ℕ) (table : List Entry)
    → 0 < length table
    → sub32 later now ≤ 5000
    → recorded c later (check_and_add c now table).0 ≡ true
unfolding check_and_add
later_recorded c now later table h l = go (touch c now table) (touch_lem c now table)
  where
    i : ℕ
    i = pick_slot now table 0 none none 0xffffffff 0

    new : Entry
    new = record { valid = true; checksum = c; last_seen_ms = now }

    after : Option (List Entry) → List Entry × Bool
    after r = elim r [ some t ↦ (t, true) | none ↦ (set table i new, false) ]

    go : (r : Option (List Entry)) → Touched c now table r → recorded c later ((after r).0) ≡ true
    go none m =
        recorded-set c now i table
          (pick_slot-lt (length table) now table 0 none none 0xffffffff 0 (omega arith) tt tt h)
          later l
    go (some t) (a, b, d, f) = d later l

-- A delivery is called a duplicate exactly if the table has an entry with its checksum of the last 5
-- seconds; duplicate or not, a table that has slots keeps their number, and calls the delivery a
-- duplicate if it comes again within 5 seconds.
pub check_and_add-recorded :
    (c now later : ℕ) (table : List Entry)
    → 0 < length table
    → sub32 later now ≤ 5000
    → ((check_and_add c now table).1 ≡ recorded c now table)
      × (length (check_and_add c now table).0 ≡ length table)
      × ((check_and_add c later (check_and_add c now table).0).1 ≡ true)
check_and_add-recorded c now later table h l =
    let (answer, size) = check_and_add_lem c now table in
    let table' = (check_and_add c now table).0 in
    (answer, size, (check_and_add_lem c later table').0 ∙ later_recorded c now later table h l)

-- While a slot is free or expired, adding a delivery forgets no other delivery of the last 5 seconds.
pub check_and_add-keeps :
    (c now j : ℕ) (table : List Entry)
    → j ≢ c
    → has_room now table ≡ true
    → recorded j now (check_and_add c now table).0 ≡ recorded j now table
unfolding check_and_add
check_and_add-keeps c now j table n h = go (touch c now table) (touch_lem c now table)
  where
    i : ℕ
    i = pick_slot now table 0 none none 0xffffffff 0

    new : Entry
    new = record { valid = true; checksum = c; last_seen_ms = now }

    after : Option (List Entry) → List Entry × Bool
    after r = elim r [ some t ↦ (t, true) | none ↦ (set table i new, false) ]

    go :
        (r : Option (List Entry))
        → Touched c now table r
        → recorded j now ((after r).0) ≡ recorded j now table
    go none m = kept-set c now i table j n (
        pick_slot-Holds (λ k. stale_at now k table ≡ true) now table 0 none none 0xffffffff 0
          (AtStale-table now 0 [] table refl) tt tt (unfold is_some in h))
    go (some t) (a, b, d, f) = f j now n
