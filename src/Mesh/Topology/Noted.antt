-- ===== src/Mesh/Topology/Noted.antt =====
-- A peer that is noted is in the reports made soon afterwards.
use edge_device_esp.Base.{
  ℕ, zero, suc, ◌+◌, ◌%◌, ◌^◌, ◌<◌, ◌≤◌, ◌≡◌, refl, ap, ◌⊎◌, inl, inr, Bool, true, false, ◌&&◌,
  ◌||◌, not, ltb, leb, ==_refl, if◌then◌else◌, List, [], ◌∷◌, Option, none, some, length, arith,
}
use edge_device_esp.Base.Int.{ℤ}
use edge_device_esp.Base.Words.{sub32, IsU32, sub32-add}
use mathlib.Core.Bool.{or-true}
use edge_device_esp.Mesh.Routes.{mac_bits, mac_is_zero, mac_is_broadcast}
use edge_device_esp.Mesh.Dedupe.{first}
use edge_device_esp.Mesh.Topology.{
  Peer, no_peer, is_peer, connected_is_fresh, beacon_is_fresh, report_peers, find_slot, noted,
  modify, note_peer,
}
use edge_device_esp.Mesh.Topology.Report.{reported, observed, report_peers-reported}

-- The clock `d` milliseconds later; it goes round at 2^32.
abbrev pub later : ℕ → ℕ → ℕ
later now d = (now + d) % 2 ^ 32

length-modify : (f : Peer → Peer) (i : ℕ) (ps : List Peer) → length (modify f i ps) ≡ length ps
length-modify f i [] = refl
length-modify f zero (p ∷ ps) = refl
length-modify f (suc i) (p ∷ ps) = ap suc (length-modify f i ps)

-- A slot found so far is below a bound.
Below : ℕ → Option ℕ → Type 0
Below n none = Unit
Below n (some i) = i < n

first-Below :
    (n i : ℕ) (test : Bool) (slot : Option ℕ) → i < n → Below n slot → Below n (first test i slot)
unfolding Below
first-Below n i test (some j) l b = b
first-Below n i true none l b = l
first-Below n i false none l b = b

find_slot-bounded :
    (id : ℕ) (ps : List Peer) (i n : ℕ) (slot : Option ℕ) (seen oldest : ℕ)
    → i + length ps ≤ n
    → Below n slot
    → oldest < n
    → find_slot id ps i slot seen oldest < n
unfolding find_slot Below
find_slot-bounded id [] i n none seen oldest l b o = o
find_slot-bounded id [] i n (some slot) seen oldest l b o = b
find_slot-bounded id (p ∷ ps) i n none seen oldest l b o =
    let further =
      find_slot-bounded id ps (i + 1) n (first (not p.valid) i none)
        (if ltb p.last_seen_ms seen then p.last_seen_ms else seen)
        (if ltb p.last_seen_ms seen then i else oldest) (omega arith)
        (first-Below n i (not p.valid) none (omega arith) b) (ground arith) in
    ground arith
find_slot-bounded id (p ∷ ps) i n (some slot) seen oldest l b o =
    let further =
      find_slot-bounded id ps (i + 1) n (some slot)
        (if ltb p.last_seen_ms seen then p.last_seen_ms else seen)
        (if ltb p.last_seen_ms seen then i else oldest) (omega arith) b (ground arith) in
    ground arith

observed-modify :
    (now id : ℕ) (f : Peer → Peer) (i : ℕ) (ps : List Peer)
    → i < length ps
    → ((p : Peer)
        → (is_peer id (f p) && (connected_is_fresh now (f p) || beacon_is_fresh now (f p))) ≡ true)
    → observed now id (modify f i ps) ≡ true
unfolding observed
observed-modify now id f i [] l h = ground arith
observed-modify now id f zero (p ∷ ps) l h = rw (h p) refl
observed-modify now id f (suc i) (p ∷ ps) l h =
    rw (observed-modify now id f i ps (omega arith) h)
      (or-true (is_peer id p && (connected_is_fresh now p || beacon_is_fresh now p)))

-- How long a note keeps a peer in the reports: 90 s for a connection, 300 s for a beacon.
unfoldable pub Kept : (heard_beacon connected : Bool) → (age : ℕ) → Type 0
Kept heard_beacon connected d =
    ((connected ≡ true) × (d ≤ 90000)) ⊎ ((heard_beacon ≡ true) × (d ≤ 300000))

noted-fresh :
    (now d id : ℕ) (rssi : ℤ) (heard connected : Bool) (p : Peer)
    → IsU32 now
    → Kept heard connected d
    → (is_peer id (noted now id rssi heard connected p)
        && (connected_is_fresh (later now d) (noted now id rssi heard connected p)
            || beacon_is_fresh (later now d) (noted now id rssi heard connected p)))
      ≡ true
unfolding Kept
noted-fresh now d id rssi heard connected p u (inl (c, l)) =
    let age : leb (sub32 (later now d) now) 90000 ≡ true =
      rw (sub32-add now d u (omega arith)) (ground arith) in
    rw (c, age, ==_refl id, or-true (if is_peer id p then p else no_peer).connected) refl
noted-fresh now d id rssi heard connected p u (inr (b, l)) =
    let age : leb (sub32 (later now d) now) 300000 ≡ true =
      rw (sub32-add now d u (omega arith)) (ground arith) in
    rw (b, age, ==_refl id, or-true (if is_peer id p then p else no_peer).heard_beacon)
      (or-true (connected_is_fresh (later now d) (noted now id rssi true connected p)))

-- A peer whose beacon was heard is in every report of the next 300 s in which no other note comes,
-- and one that was connected in those of the next 90 s, whatever the table of 6 entries held before;
-- the clock may wrap in between. The peer's address is not 0 and not the broadcast address.
pub note_peer-reported :
    (now d peer_id : ℕ) (rssi : ℤ) (heard connected : Bool) (table : List Peer)
    → IsU32 now
    → length table ≡ 6
    → (mac_is_zero (mac_bits peer_id) || mac_is_broadcast (mac_bits peer_id)) ≡ false
    → Kept heard connected d
    → reported
        (mac_bits peer_id)
        (report_peers (later now d) (note_peer now peer_id rssi heard connected table))
      ≡ true
unfolding note_peer Below
note_peer-reported now d peer_id rssi heard connected table u l n k =
    let id = mac_bits peer_id in
    let f = noted now id rssi heard connected in
    let slot = find_slot id table 0 none 0xffffffff 0 in
    rw
      (
        n,
        report_peers-reported (later now d) id (modify f slot table)
            (rw (length-modify f slot table) (omega arith)),
      )
      (observed-modify (later now d) id f slot table
        (find_slot-bounded id table 0 (length table) none 0xffffffff 0 (omega arith) tt
          (omega arith))
        (λ p. noted-fresh now d id rssi heard connected p u k))
