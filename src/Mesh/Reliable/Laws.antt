-- ===== src/Mesh/Reliable/Laws.antt =====
-- Storing and acknowledging packets.
use edge_device_esp.Base.{
  ℕ, zero, suc, ◌+◌, ◌<◌, ◌≤◌, ◌≡◌, refl, ◌∙◌, ap, arith, Bool-cases, inl, inr,
}
use edge_device_esp.Base.{Bool, true, false, ◌&&◌, ◌||◌, not, ltb, ◌==◌, if◌then◌else◌, length}
use edge_device_esp.Base.{List, [], ◌∷◌, Option, none, some, set}
use edge_device_esp.Mesh.Seen.{Key}
use edge_device_esp.Mesh.Reliable.{Pending, matches, choose_slot, store, acked, ack, is_active}
use edge_device_esp.Mesh.Reliable.{resend, finish_retry}

-- The acknowledgement `k` names the packet `j`.
abbrev pub names : Key → Key → Bool
names k j = j.high == k.high && j.low == k.low && (j.sequence == k.sequence || k.sequence == 0)

entry_acked :
    (k j : Key) (e : Pending) → acked k e ≡ true → (matches j e && not (names k j)) ≡ false
entry_acked k j e h = ground arith

entry_other :
    (k j : Key) (e : Pending) → acked k e ≡ false → (matches j e && not (names k j)) ≡ matches j e
entry_other k j e h = ground arith

or_and : (a b n : Bool) → ((a || b) && n) ≡ ((a && n) || (b && n))
or_and true true true = refl
or_and true true false = refl
or_and true false true = refl
or_and true false false = refl
or_and false b n = refl

-- After an acknowledgement the packets that it names no longer wait, and every other packet waits
-- exactly if it did before.
pub is_active-ack :
    (k j : Key) (table : List Pending)
    → is_active j (ack k table).0 ≡ (is_active j table && not (names k j))
unfolding is_active ack
is_active-ack k j [] = refl
is_active-ack k j (e ∷ es) = elim (Bool-cases (acked k e)) [
  | inl a ↦ rw (a, or_and, entry_acked k j e a) (is_active-ack k j es)
  | inr a ↦ rw (a, or_and, entry_other k j e a) (ap (λ b. matches j e || b) (is_active-ack k j es))
]

-- A free place, if one is known, is one of the table's.
abbrev pub Below : Option ℕ → ℕ → Type 0
Below none n = Unit
Below (some f) n = f < n

choose_slot_bound :
    (k : Key) (es : List Pending) (i : ℕ) (free : Option ℕ) (oldest replace n : ℕ)
    → i + length es ≡ n
    → replace < n
    → Below free n
    → choose_slot k es i free oldest replace < n
unfolding choose_slot
choose_slot_bound k [] i none oldest replace n e r f = r
choose_slot_bound k [] i (some x) oldest replace n e r f = f
choose_slot_bound k (x ∷ es) i free oldest replace n e r f = elim (Bool-cases (matches k x)) [
  | inl m ↦ rw m (omega arith)
  | inr m ↦
      rw m (choose_slot_bound k es (i + 1) _ _ _ n (omega arith) (ground arith) (free_below free f))
]
  where
    free_below :
        (o : Option ℕ)
        → Below o n
        → Below (elim o [ none ↦ if x.valid then none else some i | some y ↦ some y ]) n
    free_below none u = ground arith
    free_below (some y) u = u

is_active-set :
    (k : Key) (es : List Pending) (i : ℕ) (e : Pending)
    → i < length es
    → matches k e ≡ true
    → is_active k (set es i e) ≡ true
unfolding is_active
is_active-set k [] i e h m = absurd (omega arith)
is_active-set k (x ∷ es) zero e h m = rw m refl
is_active-set k (x ∷ es) (suc i) e h m =
    rw (is_active-set k es i e (omega arith) m) (or_true (matches k x))
  where
    or_true : (b : Bool) → (b || true) ≡ true
    or_true true = refl
    or_true false = refl

pub store-is_active :
    (limit now hops : ℕ) (route : Option ℕ) (key : Key) (source target next_hop : ℕ)
    (payload : List ℕ) (table : List Pending)
    → 0 < length payload
    → length payload ≤ limit
    → 0 < length table
    → is_active key (store limit now hops route key source target next_hop payload table) ≡ true
unfolding store
store-is_active limit now hops route key source target next_hop payload table h l t =
    let fits : (length payload == 0 || ltb limit (length payload)) ≡ false = ground arith in
    let slot = choose_slot_bound key table 0 none 0xffffffff 0 (length table) (omega arith) t tt in
    rw fits (is_active-set key table _ _ slot (ground arith))

-- A packet of 1 byte or more that fits waits once it is stored in a table that has slots, and
-- an acknowledgement ends that exactly if it names the packet.
pub store-ack :
    (limit now hops : ℕ) (route : Option ℕ) (key : Key) (source target next_hop : ℕ)
    (payload : List ℕ) (table : List Pending) (k : Key)
    → 0 < length payload
    → length payload ≤ limit
    → 0 < length table
    → let table' = store limit now hops route key source target next_hop payload table in
      (is_active key table' ≡ true) × (is_active key (ack k table').0 ≡ not (names k key))
store-ack limit now hops route key source target next_hop payload table k h l t =
    let table' = store limit now hops route key source target next_hop payload table in
    let a = store-is_active limit now hops route key source target next_hop payload table h l t in
    (a, is_active-ack k key table' ∙ ap (λ b. b && not (names k key)) a)

-- A retry that was copied before an acknowledgement came in is not sent if the acknowledgement
-- names its packet. Otherwise the acknowledgement changes nothing about what is sent.
pub finish_retry-ack :
    (table : List Pending) (route : Option ℕ) (k : Key) (e : Pending)
    → finish_retry (ack k table).0 route (resend e)
      ≡ (if names k e.key then none else finish_retry table route (resend e))
unfolding finish_retry
finish_retry-ack table route k e = elim (Bool-cases (names k e.key)) [
  | inl n ↦ rw (is_active-ack, n) (ground arith)
  | inr n ↦ rw (is_active-ack, n) (ground arith)
]
