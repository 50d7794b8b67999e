-- ===== src/Mesh/Seen/Laws.antt =====
-- What `seen_message_drop_higher_hop` decides and remembers.
use edge_device_esp.Base.{
  ℕ, zero, suc, ◌<◌, ◌≡◌, ◌≢◌, refl, ◌∙◌, ap, arith, min, Bool-cases, inl, inr,
}
use edge_device_esp.Base.{
  Bool, true, false, ◌&&◌, ◌||◌, not, ltb, ◌==◌, if◌then◌else◌, length, length-set,
}
use edge_device_esp.Base.{List, [], ◌∷◌, Option, none, some, set}
use edge_device_esp.Mesh.Seen.{
  Key, Entry, State, same_key, matches, improve, visit, settle, drop_higher_hop, copies,
}

-- The fewest hops on record for a message.
unfoldable pub lookup : Key → List Entry → Option ℕ
lookup k [] = none
lookup k (e ∷ es) = if matches k e then some e.best_hop else lookup k es

-- A copy is dropped if a copy with fewer hops is on record; 0 on record means that none is known.
abbrev pub worse : Option ℕ → ℕ → Bool
worse none hop = false
worse (some b) hop = not (b == 0) && ltb b hop

abbrev pub better : Option ℕ → ℕ → ℕ
better none hop = hop
better (some b) hop = if b == 0 then hop else min b hop

-- `visit` finds nothing exactly if nothing is on record. Otherwise it updates the record of this
-- message only.
abbrev pub Visited : Key → ℕ → List Entry → Option (List Entry × Bool × ℕ) → Type 0
Visited k hop es none = lookup k es ≡ none
Visited k hop es (some (t, drop, best)) =
    (lookup k es ≢ none)
    × (drop ≡ worse (lookup k es) hop)
    × (best ≡ better (lookup k es) hop)
    × (lookup k t ≡ some best)
    × ((j : Key) → same_key j k ≡ false → lookup j t ≡ lookup j es)
    × (length t ≡ length es)

improve_drop : (hop : ℕ) (e : Entry) → (improve hop e).1 ≡ worse (some e.best_hop) hop
unfolding improve
improve_drop hop e = ground arith

improve_best : (hop : ℕ) (e : Entry) → (improve hop e).2 ≡ better (some e.best_hop) hop
unfolding improve
improve_best hop e = ground arith

improve_stores : (hop : ℕ) (e : Entry) → (improve hop e).0.best_hop ≡ (improve hop e).2
unfolding improve
improve_stores hop e = ground arith

matches-improve : (j : Key) (hop : ℕ) (e : Entry) → matches j (improve hop e).0 ≡ matches j e
unfolding improve
matches-improve j hop e = ground arith

matches_other :
    (j k : Key) (e : Entry) → matches k e ≡ true → same_key j k ≡ false → matches j e ≡ false
matches_other j k e m n = ground arith

visit_lem : (k : Key) (hop : ℕ) (es : List Entry) → Visited k hop es (visit k hop es)
unfolding visit lookup
visit_lem k hop [] = refl
visit_lem k hop (e ∷ es) = elim (Bool-cases (matches k e)) [
  | inl m ↦ rw m (
    here m,
    rw (m, improve_drop) refl,
    rw (m, improve_best) refl,
    rw (matches-improve, m, improve_stores) refl,
    λ j n. rw (matches-improve, matches_other j k e m n) refl,
    refl,
  )
  | inr m ↦ rw m (there m (visit k hop es) (visit_lem k hop es))
]
  where
    here : matches k e ≡ true → lookup k (e ∷ es) ≢ none
    here m = rw m (λ p. cc)

    there :
        matches k e ≡ false
        → (r : Option (List Entry × Bool × ℕ)) → Visited k hop es r
        → Visited k hop
            (e ∷ es)
            (elim r [ none ↦ none | some (es', drop, best) ↦ some (e ∷ es', drop, best) ])
    there m none v = rw m v
    there m (some (t, drop, best)) (a, b, c, d, f, g) = (
      rw m a,
      rw m b,
      rw m c,
      rw m d,
      λ j n. ap (λ r. if matches j e then some e.best_hop else r) (f j n),
      ap suc g,
    )

lookup-set :
    (k : Key) (es : List Entry) (i : ℕ) (hop : ℕ)
    → i < length es
    → lookup k es ≡ none
    → lookup k (set es i (record { valid = true; key = k; best_hop = hop })) ≡ some hop
unfolding lookup
lookup-set k [] i hop h e = absurd (omega arith)
lookup-set k (x ∷ es) zero hop h e = ground arith
lookup-set k (x ∷ es) (suc i) hop h e = elim (Bool-cases (matches k x)) [
  | inl m ↦ cc (rw m at e)
  | inr m ↦ rw m (lookup-set k es i hop (omega arith) (rw m at e))
]

-- The table has its 32 entries, and the ring's index lies in it.
pub record IsValid (s : State) : Type 0 where
  pub size : length s.table ≡ 32
  pub index : s.replace_index < 32

abbrev pub HasId : Key → Type 0
HasId k = (k.high == 0 && k.low == 0) ≡ false

settle-IsValid :
    (k : Key) (hop : ℕ) (s : State) (r : Option (List Entry × Bool × ℕ))
    → IsValid s
    → Visited k hop s.table r
    → IsValid (settle k hop s r).0
unfolding settle
settle-IsValid k hop s none v r = omega (arith, length-set {0} s.table s.replace_index)
settle-IsValid k hop s (some (t, drop, best)) v (a, b, c, d, f, g) = omega arith

-- `seen_message_drop_higher_hop` keeps the table at 32 entries and the ring's index inside.
pub drop_higher_hop-IsValid :
    (k : Key) (hop : ℕ) {s : State} → IsValid s → IsValid (drop_higher_hop k hop s).0
unfolding drop_higher_hop
drop_higher_hop-IsValid k hop {s} v = elim (Bool-cases (k.high == 0 && k.low == 0)) [
  | inl e ↦ rw e v
  | inr e ↦ rw e (settle-IsValid k hop s (visit k hop s.table) v (visit_lem k hop s.table))
]

settle_lem :
    (k : Key) (hop : ℕ) (s : State) (r : Option (List Entry × Bool × ℕ))
    → IsValid s
    → Visited k hop s.table r
    → ((settle k hop s r).1 ≡ worse (lookup k s.table) hop)
      × ((settle k hop s r).2 ≡ some (better (lookup k s.table) hop))
      × (lookup k (settle k hop s r).0.table ≡ some (better (lookup k s.table) hop))
unfolding settle
settle_lem k hop s none v e =
    rw e (refl, refl, lookup-set k s.table s.replace_index hop (omega arith) e)
settle_lem k hop s (some (t, drop, best)) v (a, b, c, d, f, g) = (b, ap some c, d ∙ ap some c)

-- A message with an id, on a table of 32 entries: the copy is dropped exactly if a copy with
-- fewer hops is on record, where 0 on record counts as unknown. Afterwards the fewer of the
-- two hop counts is on record, and that is what the caller is told.
pub drop_higher_hop_lem :
    (k : Key) (hop : ℕ) {s : State}
    → IsValid s
    → HasId k
    → let (s', drop, told) = drop_higher_hop k hop s in
      (drop ≡ worse (lookup k s.table) hop)
      × (told ≡ some (better (lookup k s.table) hop))
      × (lookup k s'.table ≡ some (better (lookup k s.table) hop))
unfolding drop_higher_hop
drop_higher_hop_lem k hop {s} v id =
    rw id (settle_lem k hop s (visit k hop s.table) v (visit_lem k hop s.table))

-- The copies that count: all that came since the last one with 0 hops.
abbrev pub note : (hop : ℕ) → (earlier : List ℕ) → List ℕ
note hop earlier = if hop == 0 then [] else hop ∷ earlier

-- Whether one of them came by fewer hops.
abbrev pub any_fewer : (hop : ℕ) → (earlier : List ℕ) → Bool
any_fewer hop [] = false
any_fewer hop (e ∷ earlier) = ltb e hop || any_fewer hop earlier

-- Which copies a forwarder drops that remembers all copies.
abbrev pub dropped : (earlier hops : List ℕ) → List Bool
dropped earlier [] = []
dropped earlier (hop ∷ hops) = any_fewer hop earlier ∷ dropped (note hop earlier) hops

-- What is on record before.
abbrev pub on_record : Option ℕ → List ℕ
on_record none = []
on_record (some b) = note b []

worse-on_record : (best : Option ℕ) (hop : ℕ) → worse best hop ≡ any_fewer hop (on_record best)
worse-on_record none hop = refl
worse-on_record (some b) hop = ground arith

worse-note :
    (best : Option ℕ) (hop h : ℕ) (earlier : List ℕ)
    → worse best h ≡ any_fewer h earlier
    → worse (some (better best hop)) h ≡ any_fewer h (note hop earlier)
worse-note none hop h earlier e = ground arith
worse-note (some b) hop h earlier e = ground arith

copies_lem :
    (k : Key) (hops earlier : List ℕ) (s : State)
    → IsValid s
    → HasId k
    → ((h : ℕ) → worse (lookup k s.table) h ≡ any_fewer h earlier)
    → copies k hops s ≡ dropped earlier hops
unfolding copies
copies_lem k [] earlier s v id h = refl
copies_lem k (hop ∷ hops) earlier s v id h =
    let (a, b, c) = drop_higher_hop_lem k hop v id in
    let later =
      copies_lem k hops (note hop earlier) (drop_higher_hop k hop s).0
        (drop_higher_hop-IsValid k hop v) id
        (λ m. ap (λ r. worse r m) c ∙ worse-note (lookup k s.table) hop m earlier (h m)) in
    rw (a, h hop) (ap (λ ds. any_fewer hop earlier ∷ ds) later)

-- A run of copies of one message with an id, with no other message in between, on a table of 32
-- entries: each is dropped exactly if a copy with fewer hops came since the last copy with 0 hops, the
-- one on record before counted in. A copy with 0 hops is never dropped, and it erases the record.
pub copies-dropped :
    (k : Key) (hops : List ℕ) {s : State}
    → IsValid s
    → HasId k
    → copies k hops s ≡ dropped (on_record (lookup k s.table)) hops
copies-dropped k hops {s} v id =
    copies_lem k hops (on_record (lookup k s.table)) s v id (worse-on_record (lookup k s.table))

-- A copy of a message on record changes the record of no other message.
pub drop_higher_hop-frame :
    (k j : Key) (hop : ℕ) (s : State)
    → lookup k s.table ≢ none
    → same_key j k ≡ false
    → lookup j (drop_higher_hop k hop s).0.table ≡ lookup j s.table
unfolding drop_higher_hop
drop_higher_hop-frame k j hop s h n = elim (Bool-cases (k.high == 0 && k.low == 0)) [
  | inl e ↦ rw e refl
  | inr e ↦ rw e (go (visit k hop s.table) (visit_lem k hop s.table))
]
  where
    go :
        (r : Option (List Entry × Bool × ℕ))
        → Visited k hop s.table r
        → lookup j (settle k hop s r).0.table ≡ lookup j s.table
    go none e = absurd (h e)
    go (some (t, drop, best)) (a, b, c, d, f, g) = unfold settle in f j n
