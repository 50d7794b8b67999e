-- ===== src/Mesh/Topology/Report.antt =====
-- The peers of a report: the connected ones, then the others heard lately.
use edge_device_esp.Base.{
  ℕ, ◌+◌, ◌≤◌, ◌≡◌, refl, sym, ◌∙◌, inl, inr, Bool, true, false, ◌&&◌, ◌||◌, not, ltb, ◌==◌,
  if◌then◌else◌, List, [], ◌∷◌, ◌++◌, length, length-append, Bool-cases, arith,
}
use mathlib.Core.List.{append-nil, append_assoc}
use edge_device_esp.Mesh.Topology.{
  Peer, ReportPeer, report_peer, is_peer, connected_is_fresh, beacon_is_fresh, add_connected,
  add_heard, report_peers,
}

abbrev pub is_connected : ℕ → Peer → Bool
is_connected now p = p.valid && connected_is_fresh now p

abbrev pub is_heard : ℕ → Peer → Bool
is_heard now p = p.valid && not (connected_is_fresh now p) && beacon_is_fresh now p

-- The entries that pass a test, as peers of a report.
unfoldable pub select : (Peer → Bool) → List Peer → List ReportPeer
select test [] = []
select test (p ∷ ps) = if test p then report_peer p ∷ select test ps else select test ps

length-select :
    (now : ℕ) (ps : List Peer)
    → length (select (is_connected now) ps) + length (select (is_heard now) ps) ≤ length ps
unfolding select
length-select now [] = omega arith
length-select now (p ∷ ps) =
    let ih = length-select now ps in
    elim (Bool-cases p.valid) [
      | inr v ↦ rw v (omega arith)
      | inl v ↦ elim (Bool-cases (connected_is_fresh now p)) [
        | inl c ↦ rw (v, c) (omega arith)
        | inr c ↦ elim (Bool-cases (beacon_is_fresh now p)) [
          | inl b ↦ rw (v, c, b) (omega arith)
          | inr b ↦ rw (v, c, b) (omega arith)
        ]
      ]
    ]

add_connected_lem :
    (now : ℕ) (ps : List Peer) (peers : List ReportPeer)
    → length peers + length ps ≤ 6
    → add_connected now ps peers ≡ peers ++ select (is_connected now) ps
unfolding add_connected select
add_connected_lem now [] peers h = sym (append-nil peers)
add_connected_lem now (p ∷ ps) peers h =
    let room : ltb (length peers) 6 ≡ true = ground arith in
    elim (Bool-cases (is_connected now p)) [
      | inl e ↦
          rw (room, e)
            (add_connected_lem now ps (peers ++ (report_peer p ∷ []))
                (rw (length-append peers (report_peer p ∷ [])) (omega arith))
              ∙ append_assoc peers (report_peer p ∷ []) (select (is_connected now) ps))
      | inr e ↦ rw (room, e) (add_connected_lem now ps peers (omega arith))
    ]

select_yes :
    (test : Peer → Bool) (p : Peer) (ps : List Peer)
    → test p ≡ true
    → select test (p ∷ ps) ≡ report_peer p ∷ select test ps
unfolding select
select_yes test p ps h = rw h refl

select_no :
    (test : Peer → Bool) (p : Peer) (ps : List Peer)
    → test p ≡ false
    → select test (p ∷ ps) ≡ select test ps
unfolding select
select_no test p ps h = rw h refl

no_length : (xs : List ReportPeer) → length xs ≤ 0 → xs ≡ []
no_length [] h = refl
no_length (x ∷ xs) h = ground arith

-- The test of the second loop, as the code writes it.
heard_test :
    (now : ℕ) (p : Peer)
    → (not p.valid || connected_is_fresh now p || not (beacon_is_fresh now p))
      ≡ not (is_heard now p)
heard_test now p = elim (Bool-cases p.valid) [
  | inr v ↦ rw v refl
  | inl v ↦ elim (Bool-cases (connected_is_fresh now p)) [
    | inl c ↦ rw (v, c) refl
    | inr c ↦ rw (v, c) refl
  ]
]

add_heard_lem :
    (now : ℕ) (ps : List Peer) (peers : List ReportPeer)
    → length peers + length (select (is_heard now) ps) ≤ 6
    → add_heard now ps peers ≡ peers ++ select (is_heard now) ps
unfolding add_heard select
add_heard_lem now [] peers h = sym (append-nil peers)
add_heard_lem now (p ∷ ps) peers h = elim (Bool-cases (ltb (length peers) 6)) [
  | inr full ↦
      let nothing = no_length (select (is_heard now) (p ∷ ps)) (ground arith) in
      rw (full, nothing) (sym (append-nil peers))
  | inl room ↦
      rw (room, heard_test now p)
        (elim (Bool-cases (is_heard now p)) [
          | inl e ↦
              let left = rw (select_yes (is_heard now) p ps e) at h in
              rw (select_yes (is_heard now) p ps e, e)
                (add_heard_lem now ps (peers ++ (report_peer p ∷ []))
                    (rw (length-append peers (report_peer p ∷ [])) (omega arith))
                  ∙ append_assoc peers (report_peer p ∷ []) (select (is_heard now) ps))
          | inr e ↦
              rw (select_no (is_heard now) p ps e, e)
                (add_heard_lem now ps peers (rw (select_no (is_heard now) p ps e) at h))
        ])
]

-- For a table of at most 6 entries, the peers of a report are the connected ones (their last sign at
-- most 90 s ago) followed by the others whose beacon was heard in the last 300 s, each in the table's
-- order: the bound of the report cuts nothing off.
pub report_peers_lem :
    (now : ℕ) (table : List Peer)
    → length table ≤ 6
    → report_peers now table ≡ select (is_connected now) table ++ select (is_heard now) table
unfolding report_peers
report_peers_lem now table h = rw (add_connected_lem now table [] (omega arith)) (
    add_heard_lem now table (select (is_connected now) table)
      (omega (arith, length-select now table)))

-- A report names a peer.
pub reported : ℕ → List ReportPeer → Bool
reported id [] = false
reported id (p ∷ ps) = (p.id == id) || reported id ps

-- The table has a fresh entry of a peer.
unfoldable pub observed : ℕ → ℕ → List Peer → Bool
observed now id [] = false
observed now id (p ∷ ps) =
    (is_peer id p && (connected_is_fresh now p || beacon_is_fresh now p)) || observed now id ps

reported-append :
    (id : ℕ) (xs ys : List ReportPeer) → reported id (xs ++ ys) ≡ (reported id xs || reported id ys)
unfolding reported
reported-append id [] ys = refl
reported-append id (x ∷ xs) ys = rw (reported-append id xs ys) (ground arith)

select-observed :
    (now id : ℕ) (ps : List Peer)
    → (reported id (select (is_connected now) ps) || reported id (select (is_heard now) ps))
      ≡ observed now id ps
unfolding select reported observed
select-observed now id [] = refl
select-observed now id (p ∷ ps) = rw (sym (select-observed now id ps)) (elim (Bool-cases p.valid) [
  | inr v ↦ rw v refl
  | inl v ↦ elim (Bool-cases (connected_is_fresh now p)) [
    | inl c ↦ rw (v, c) (ground arith)
    | inr c ↦ elim (Bool-cases (beacon_is_fresh now p)) [
      | inl b ↦ rw (v, c, b) (ground arith)
      | inr b ↦ rw (v, c, b) (ground arith)
    ]
  ]
])

pub report_peers-reported :
    (now id : ℕ) (table : List Peer)
    → length table ≤ 6
    → reported id (report_peers now table) ≡ observed now id table
report_peers-reported now id table h = rw (report_peers_lem now table h) (
    reported-append id (select (is_connected now) table) (select (is_heard now) table)
    ∙ select-observed now id table)
