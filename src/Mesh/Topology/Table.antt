-- ===== src/Mesh/Topology/Table.antt =====
-- The table of topology peers: `topology_note_peer` keeps one entry a peer.
use edge_device_esp.Base.{
  ℕ, zero, suc, ◌+◌, ◌≤◌, ◌≡◌, ◌≢◌, refl, sym, ◌∙◌, ◌⊎◌, inl, inr, Bool, true, false, ◌||◌, ◌==◌,
  if◌then◌else◌, List, [], ◌∷◌, Option, none, some, Bool-cases, arith,
}
use edge_device_esp.Base.Int.{ℤ}
use edge_device_esp.Mesh.Routes.{mac_bits, mac_is_zero, mac_is_broadcast}
use edge_device_esp.Mesh.Topology.{Peer, is_peer, find_slot, noted, modify, note_peer}

-- The number of entries of a peer.
unfoldable pub entries : ℕ → List Peer → ℕ
entries id [] = 0
entries id (p ∷ ps) = (if is_peer id p then 1 else 0) + entries id ps

-- Every peer has at most one entry.
unfoldable pub IsTopology : List Peer → Type 0
IsTopology table = (id : ℕ) → entries id table ≤ 1

-- The entry at a position.
pub AtSlot : (Peer → Type 0) → ℕ → List Peer → Type 0
AtSlot P i [] = Unit
AtSlot P zero (p ∷ ps) = P p
AtSlot P (suc i) (p ∷ ps) = AtSlot P i ps

-- What the search ends with: the peer's entry, at `i` and further, or no entry of the peer.
IsFound : ℕ → List Peer → (i result : ℕ) → Type 0
IsFound id ps i r =
    ((j : ℕ) × (r ≡ i + j) × AtSlot (λ p. is_peer id p ≡ true) j ps) ⊎ (entries id ps ≡ 0)

next-IsFound :
    (id : ℕ) (p : Peer) (ps : List Peer) (i r : ℕ)
    → is_peer id p ≡ false
    → IsFound id ps (i + 1) r
    → IsFound id (p ∷ ps) i r
unfolding IsFound AtSlot entries
next-IsFound id p ps i r h (inl (j, e, a)) = inl (suc j, e ∙ omega arith, a)
next-IsFound id p ps i r h (inr e) = inr (rw h (omega arith))

here-IsFound :
    (id : ℕ) (p : Peer) (ps : List Peer) (i : ℕ) → is_peer id p ≡ true → IsFound id (p ∷ ps) i i
unfolding IsFound AtSlot
here-IsFound id p ps i h = inl (0, omega arith, h)

none-IsFound : (id i r : ℕ) → IsFound id [] i r
unfolding IsFound entries
none-IsFound id i r = inr refl

find_slot-IsFound :
    (id : ℕ) (ps : List Peer) (i : ℕ) (free : Option ℕ) (seen oldest : ℕ)
    → IsFound id ps i (find_slot id ps i free seen oldest)
unfolding find_slot
find_slot-IsFound id [] i free seen oldest = none-IsFound id i _
find_slot-IsFound id (p ∷ ps) i none seen oldest = elim (Bool-cases (is_peer id p)) [
  | inl e ↦ rw e (here-IsFound id p ps i e)
  | inr e ↦ rw e (next-IsFound id p ps i _ e (find_slot-IsFound id ps (i + 1) _ _ _))
]
find_slot-IsFound id (p ∷ ps) i (some free) seen oldest = elim (Bool-cases (is_peer id p)) [
  | inl e ↦ rw e (here-IsFound id p ps i e)
  | inr e ↦ rw e (next-IsFound id p ps i _ e (find_slot-IsFound id ps (i + 1) _ _ _))
]

pub entries-modify :
    (id : ℕ) (f : Peer → Peer) (j : ℕ) (ps : List Peer)
    → entries id (modify f j ps) ≤ 1 + entries id ps
unfolding entries
entries-modify id f j [] = omega arith
entries-modify id f zero (p ∷ ps) = ground arith
entries-modify id f (suc j) (p ∷ ps) = let ih = entries-modify id f j ps in omega arith

entries-modify_fewer :
    (id : ℕ) (f : Peer → Peer) (j : ℕ) (ps : List Peer)
    → AtSlot (λ p. is_peer id (f p) ≡ false) j ps
    → entries id (modify f j ps) ≤ entries id ps
unfolding entries AtSlot
entries-modify_fewer id f j [] h = omega arith
entries-modify_fewer id f zero (p ∷ ps) h = rw h (omega arith)
entries-modify_fewer id f (suc j) (p ∷ ps) h =
    let ih = entries-modify_fewer id f j ps h in omega arith

entries-modify_same :
    (id : ℕ) (f : Peer → Peer) (j : ℕ) (ps : List Peer)
    → AtSlot (λ p. is_peer id p ≡ true) j ps
    → entries id (modify f j ps) ≤ entries id ps
unfolding entries AtSlot
entries-modify_same id f j [] h = omega arith
entries-modify_same id f zero (p ∷ ps) h = rw h (ground arith)
entries-modify_same id f (suc j) (p ∷ ps) h =
    let ih = entries-modify_same id f j ps h in omega arith

pub all_slots : (P : Peer → Type 0) → ((p : Peer) → P p) → (j : ℕ) (ps : List Peer) → AtSlot P j ps
unfolding AtSlot
all_slots P h j [] = tt
all_slots P h zero (p ∷ ps) = h p
all_slots P h (suc j) (p ∷ ps) = all_slots P h j ps

==_ne : (a b : ℕ) → a ≢ b → (a == b) ≡ false
==_ne a b n = ground arith

noted_other :
    (now id other : ℕ) (rssi : ℤ) (heard connected : Bool) (p : Peer)
    → id ≢ other
    → is_peer other (noted now id rssi heard connected p) ≡ false
noted_other now id other rssi heard connected p n = ==_ne id other n

modify-IsTopology :
    (now id : ℕ) (rssi : ℤ) (heard connected : Bool) (ps : List Peer) (r : ℕ)
    → IsFound id ps 0 r
    → IsTopology ps
    → IsTopology (modify (noted now id rssi heard connected) r ps)
unfolding IsTopology IsFound
modify-IsTopology now id rssi heard connected ps r found valid other =
    let f = noted now id rssi heard connected in
    let bound = valid other in
    elim (Bool-cases (id == other)) [
      | inr ne ↦
          let fewer = entries-modify_fewer other f r ps (
            all_slots _ (λ p. noted_other now id other rssi heard connected p (ground arith)) r
              ps) in
          omega arith
      | inl e ↦
          let same : id ≡ other = ground arith in
          elim found [
            | inl (j, e', a) ↦
                let fewer = entries-modify_same id f j ps a in
                let at : r ≡ j = omega arith in
                let bound_id = valid id in rw (at, sym same) (omega arith)
            | inr none_of ↦ let more = entries-modify id f r ps in rw (sym same) (omega arith)
          ]
    ]

-- When every peer has at most one entry in the table, `topology_note_peer` keeps it so, for every
-- peer, signal and time.
pub note_peer-IsTopology :
    (now peer_id : ℕ) (rssi : ℤ) (heard connected : Bool) (table : List Peer)
    → IsTopology table
    → IsTopology (note_peer now peer_id rssi heard connected table)
unfolding note_peer
note_peer-IsTopology now peer_id rssi heard connected table valid =
    elim (Bool-cases (mac_is_zero (mac_bits peer_id) || mac_is_broadcast (mac_bits peer_id))) [
      | inl e ↦ rw e valid
      | inr e ↦ rw e (
          modify-IsTopology now (mac_bits peer_id) rssi heard connected table _
            (find_slot-IsFound (mac_bits peer_id) table 0 none 0xffffffff 0) valid)
    ]
