-- ===== src/Tests/Topology.antt =====
-- Concrete runs of the topology peers.
use edge_device_esp.Base.{◌≡◌, refl, true, false, ◌++◌, List, [], ◌∷◌, inr, arith}
use edge_device_esp.Base.Int.{pos, negsuc}
use edge_device_esp.Mesh.Topology.{
  Peer, no_peer, note_peer, report_peers, find_slot, location_is_valid,
}
use edge_device_esp.Mesh.Topology.Table.{IsTopology, entries, note_peer-IsTopology}
use edge_device_esp.Mesh.Topology.Report.{
  is_connected, is_heard, select, report_peers_lem, reported,
}
use edge_device_esp.Mesh.Topology.Noted.{Kept, later, note_peer-reported}

abbrev no_peers : List Peer
no_peers = no_peer ∷ no_peer ∷ no_peer ∷ no_peer ∷ no_peer ∷ no_peer ∷ []

no_peers-IsTopology : IsTopology no_peers
unfolding IsTopology entries
no_peers-IsTopology id = omega arith

-- Peer 17 was heard at 1000 ms and connected at 2000 ms.
abbrev one_peer : List Peer
one_peer = note_peer 2000 17 (pos 0) false true (note_peer 1000 17 (negsuc 59) true false no_peers)

note_peer-IsTopology_example :
    IsTopology
      (note_peer 2000 17 (pos 0) false true (note_peer 1000 17 (negsuc 59) true false no_peers))
note_peer-IsTopology_example =
    note_peer-IsTopology 2000 17 (pos 0) false true
      (note_peer 1000 17 (negsuc 59) true false no_peers)
      (note_peer-IsTopology 1000 17 (negsuc 59) true false no_peers no_peers-IsTopology)

report_peers_lem_example :
    report_peers 100000 one_peer
    ≡ select (is_connected 100000) one_peer ++ select (is_heard 100000) one_peer
unfolding note_peer find_slot
report_peers_lem_example = report_peers_lem 100000 one_peer (omega arith)

note_peer-reported_example :
    reported 17 (
      report_peers
        (later 4294967000 1000)
        (note_peer 4294967000 17 (negsuc 59) true false no_peers))
    ≡ true
unfolding Kept
note_peer-reported_example =
    note_peer-reported 4294967000 1000 17 (negsuc 59) true false no_peers (omega arith) refl refl
      (inr (refl, omega arith))

-- 52.5 degrees north, 13.4 degrees east; 91 degrees are no latitude.
some_location : location_is_valid 0x42520000 0x41566666 ≡ true
unfolding location_is_valid
some_location = refl

no_location : location_is_valid 0x42b60000 0x41566666 ≡ false
unfolding location_is_valid
no_location = refl
