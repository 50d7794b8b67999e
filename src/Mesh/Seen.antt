-- ===== src/Mesh/Seen.antt =====
-- `seen_message_drop_higher_hop` of main/src/mesh/halow_sync_bridge.c: a ring of 32 message keys,
-- each with the fewest hops by which a copy of the message came.
pub mod Laws
use edge_device_esp.Base.{ℕ, ◌+◌, ◌%◌, Bool, true, false, ◌&&◌, ◌||◌, not, ltb, ◌==◌, if◌then◌else◌}
use edge_device_esp.Base.{List, [], ◌∷◌, Option, none, some, set}

-- What identifies a message: the two halves of its id, and its sequence number.
pub record Key : Type 0 where
  pub high : ℕ
  pub low : ℕ
  pub sequence : ℕ

-- `edgez_seen_message_t`.
pub record Entry : Type 0 where
  pub valid : Bool
  pub key : Key
  pub best_hop : ℕ

-- `s_seen_messages` and `s_seen_message_replace_index`.
pub record State : Type 0 where
  pub table : List Entry
  pub replace_index : ℕ

abbrev pub same_key : Key → Key → Bool
same_key a b = a.high == b.high && a.low == b.low && a.sequence == b.sequence

abbrev pub matches : Key → Entry → Bool
matches k e = e.valid && same_key e.key k

-- An entry that matches: the entry afterwards, whether to drop, and `*best_hop_out`.
pub improve : ℕ → Entry → Entry × Bool × ℕ
improve hop e =
    if e.best_hop == 0
    then (record e { best_hop = hop }, false, hop)
    else if ltb e.best_hop hop
    then (e, true, e.best_hop)
    else if ltb hop e.best_hop
    then (record e { best_hop = hop }, false, hop)
    else (e, false, e.best_hop)

-- The loop over the table, which returns at the first match.
pub visit : Key → ℕ → List Entry → Option (List Entry × Bool × ℕ)
visit k hop [] = none
visit k hop (e ∷ es) =
    let rest = visit k hop es in
    if matches k e
    then (let (e', drop, best) = improve hop e in some (e' ∷ es, drop, best))
    else elim rest [ none ↦ none | some (es', drop, best) ↦ some (e ∷ es', drop, best) ]

-- What follows the loop: a new message takes the next place of the ring.
pub settle : Key → ℕ → State → Option (List Entry × Bool × ℕ) → State × Bool × Option ℕ
settle k hop s (some (t, drop, best)) = (record s { table = t }, drop, some best)
settle k hop s none = (
  record {
    table = set s.table s.replace_index (record { valid = true; key = k; best_hop = hop });
    replace_index = (s.replace_index + 1) % 32;
  },
  false,
  some hop,
)

-- The whole function: the state afterwards, the result, and what is stored through `best_hop_out`
-- (nothing for a message without an id).
pub drop_higher_hop : Key → ℕ → State → State × Bool × Option ℕ
drop_higher_hop k hop s =
    if k.high == 0 && k.low == 0 then (s, false, none) else settle k hop s (visit k hop s.table)

-- Copies of one message that come one after the other: which of them are dropped.
pub copies : Key → List ℕ → State → List Bool
copies k [] s = []
copies k (hop ∷ hops) s = let (s', drop, told) = drop_higher_hop k hop s in drop ∷ copies k hops s'
