-- ===== src/Mesh/Receive/Relaying.antt =====
-- What the relay passes on: never the way a frame came, and no copy that took more hops.
use edge_device_esp.Base.{
  ℕ, ◌<◌, ◌≡◌, ◌≢◌, refl, ap, ◌∙◌, ◌⊎◌, inl, inr, true, false, ◌&&◌, ◌||◌, not, leb, ◌==◌, List, [],
  ◌∷◌, Option, none, some, Bool-cases, ◌+◌, if◌then◌else◌, arith,
}
use mathlib.Core.List.{map}
use edge_device_esp.Mesh.Seen.{drop_higher_hop}
use edge_device_esp.Mesh.Seen.Laws.{
  IsValid, HasId, lookup, worse, better, drop_higher_hop_lem, drop_higher_hop-IsValid,
}
use edge_device_esp.Mesh.Routes.{mac_bits, batman_route_lookup, next_hop_or}
use edge_device_esp.Mesh.Realtime.{Realtime, is_speed_frame, enqueue}
use edge_device_esp.Mesh.Wire.{Prefix, packet_size}
use edge_device_esp.Mesh.Receive.{
  Bridge, Env, Act, Outcome, done, goes_back, key_of, speed_relayable, pass_on, relay,
}

abbrev pub hop_of : Env → Prefix → ℕ
hop_of env p = next_hop_or env.platform.lookup p.to p.to

-- The bridge after the table of seen messages took note of a frame.
abbrev pub noted : Prefix → Bridge → Bridge
noted p s = record s { seen = (drop_higher_hop (key_of p) p.hop s.seen).0 }

-- What is sent on of a frame: at once, or by the transmit queue if it is a speed frame.
abbrev pub sent_on : Env → Prefix → List ℕ → List Act
sent_on env p body =
    if is_speed_frame body
    then []
    else Act.forwards (record p { hop = p.hop + 1 }) (hop_of env p) body ∷ []

abbrev pub queued : Env → Prefix → List ℕ → Realtime → Realtime
queued env p body q =
    if is_speed_frame body
    then (enqueue packet_size env.platform.lookup env.now_ms
        (record {
          payload = body;
          from = p.from;
          to = p.to;
          next_hop = hop_of env p;
          message_id_high = p.id_high;
          message_id_low = p.id_low;
          max_hop = p.max_hop;
          sequence = p.sequence;
          forward_from_mobile = true;
          mobile_initial_hop = p.hop + 1;
        })
        q).1
    else q

-- The frame is dropped, and at most noted; or it is passed on to another station than the one it
-- came from, with one hop more.
unfoldable pub IsRelayed : Env → (ingress : ℕ) → Prefix → List ℕ → Bridge → Outcome → Type 0
IsRelayed env ingress p body s r =
    (r ≡ done s [])
    ⊎ (r ≡ done (noted p s) [])
    ⊎ ((mac_bits (hop_of env p) ≢ ingress)
        × (0xffffffff < mac_bits p.to)
        × (r
            ≡ done (record (noted p s) { realtime = queued env p body s.realtime })
                (sent_on env p body)))

onwards :
    (env : Env) (ingress : ℕ) (p : Prefix)
    → goes_back env ingress p ≡ false
    → (mac_bits (hop_of env p) ≢ ingress) × (0xffffffff < mac_bits p.to)
onwards env ingress p h = go (batman_route_lookup env.platform.lookup p.to) h
  where
    go :
        (route : Option ℕ)
        → (leb (mac_bits p.to) 0xffffffff
            || mac_bits p.to == ingress
            || elim route [ none ↦ false | some hop ↦ mac_bits hop == ingress ])
          ≡ false
        → (mac_bits (elim route [ none ↦ p.to | some hop ↦ hop ]) ≢ ingress)
          × (0xffffffff < mac_bits p.to)
    go none e = ground arith
    go (some hop) e = ground arith

pass_on_lem :
    (env : Env) (p : Prefix) (body : List ℕ) (s : Bridge)
    → pass_on env (hop_of env p) p body (noted p s)
      ≡ done (record (noted p s) { realtime = queued env p body s.realtime }) (sent_on env p body)
pass_on_lem env p body s = elim (Bool-cases (is_speed_frame body)) [
  | inl e ↦ rw e refl
  | inr e ↦ rw e refl
]

pub relay-IsRelayed :
    (env : Env) (ingress : ℕ) (p : Prefix) (body : List ℕ) (s : Bridge)
    → IsRelayed env ingress p body s (relay env ingress p body s)
unfolding relay IsRelayed
relay-IsRelayed env ingress p body s =
    elim (Bool-cases (is_speed_frame body && not (speed_relayable p body))) [
      | inl e ↦ rw e (inl refl)
      | inr e ↦ rw e (elim (Bool-cases (goes_back env ingress p)) [
        | inl g ↦ rw g (inl refl)
        | inr g ↦ rw g (elim (Bool-cases (drop_higher_hop (key_of p) p.hop s.seen).1) [
          | inl d ↦ rw d (inr (inl refl))
          | inr d ↦
              let (away, far) = onwards env ingress p g in
              rw d (inr (inr (away, far, pass_on_lem env p body s)))
        ])
      ])
    ]

-- The frame passes the checks that come before the table of seen messages.
unfoldable pub IsRelayable : Env → (ingress : ℕ) → Prefix → List ℕ → Type 0
IsRelayable env ingress p body =
    ((is_speed_frame body && not (speed_relayable p body)) ≡ false)
    × (goes_back env ingress p ≡ false)

relay-seen :
    (env : Env) (ingress : ℕ) (p : Prefix) (body : List ℕ) (s : Bridge)
    → IsRelayable env ingress p body
    → (relay env ingress p body s).1.seen ≡ (drop_higher_hop (key_of p) p.hop s.seen).0
unfolding relay IsRelayable
relay-seen env ingress p body s (e, g) =
    rw (e, g)
      (elim (Bool-cases (drop_higher_hop (key_of p) p.hop s.seen).1) [
        | inl d ↦ rw d refl
        | inr d ↦
            rw d (elim (Bool-cases (is_speed_frame body)) [ inl f ↦ rw f refl | inr f ↦ rw f refl ])
      ])

dropped_copy :
    (env : Env) (ingress : ℕ) (p : Prefix) (body : List ℕ) (s : Bridge)
    → (drop_higher_hop (key_of p) p.hop s.seen).1 ≡ true
    → ((relay env ingress p body s).2 ≡ []) × ((relay env ingress p body s).1.realtime ≡ s.realtime)
unfolding relay
dropped_copy env ingress p body s d =
    elim (Bool-cases (is_speed_frame body && not (speed_relayable p body))) [
      | inl e ↦ rw e (refl, refl)
      | inr e ↦ rw e (elim (Bool-cases (goes_back env ingress p)) [
        | inl g ↦ rw g (refl, refl)
        | inr g ↦ rw (g, d) (refl, refl)
      ])
    ]

worse-better :
    (best : Option ℕ) (hop more : ℕ)
    → 0 < hop
    → hop < more
    → worse (some (better best hop)) more ≡ true
worse-better none hop more h l = ground arith
worse-better (some b) hop more h l = ground arith

-- After a frame with a message id and at least one hop was looked at for relaying, a copy of it that
-- took more hops and is the next frame that is looked at is dropped: nothing is sent for it and
-- nothing is queued, from whichever station it comes and whatever its payload.
pub relay-higher_copy :
    (env env' : Env) (ingress ingress' more : ℕ) (p : Prefix) (body body' : List ℕ) (s : Bridge)
    → IsValid s.seen
    → HasId (key_of p)
    → IsRelayable env ingress p body
    → 0 < p.hop
    → p.hop < more
    → let first = (relay env ingress p body s).1 in
      let second = relay env' ingress' (record p { hop = more }) body' first in
      (second.2 ≡ []) × (second.1.realtime ≡ first.realtime)
relay-higher_copy env env' ingress ingress' more p body body' s v id ok h l =
    let first = (relay env ingress p body s).1 in
    let seen = relay-seen env ingress p body s ok in
    let (a, b, on_record) = drop_higher_hop_lem (key_of p) p.hop v id in
    let valid : IsValid first.seen = rw seen (drop_higher_hop-IsValid (key_of p) p.hop v) in
    let (drop, c, d) = drop_higher_hop_lem (key_of p) more valid id in
    let known : lookup (key_of p) first.seen.table
        ≡ some (better (lookup (key_of p) s.seen.table) p.hop) =
      rw seen on_record in
    dropped_copy env' ingress' (record p { hop = more }) body' first
      (drop
        ∙ ap (λ r. worse r more) known
        ∙ worse-better (lookup (key_of p) s.seen.table) p.hop more h l)

-- A frame that is the same but for the limit of hops in its prefix.
abbrev pub limited : (max_hop : ℕ) → Act → Act
limited m (Act.forwards p hop bytes) = Act.forwards (record p { max_hop = m }) hop bytes
limited m act = act

-- The limit of hops that the prefix carries plays no part for a frame that is no speed frame: the relay
-- does with it what it does with the same frame under any other limit, only that the frame is sent on
-- with its own limit. So no frame is dropped for having more hops behind it than its limit.
pub relay-max_hop :
    (env : Env) (ingress max_hop : ℕ) (p : Prefix) (body : List ℕ) (s : Bridge)
    → is_speed_frame body ≡ false
    → let r = relay env ingress p body s in
      relay env ingress (record p { max_hop = max_hop }) body s
      ≡ (r.0, r.1, map (limited max_hop) r.2)
unfolding relay
relay-max_hop env ingress max_hop p body s sp = rw sp (elim (Bool-cases (goes_back env ingress p)) [
  | inl g ↦ rw g refl
  | inr g ↦ rw g (elim (Bool-cases (drop_higher_hop (key_of p) p.hop s.seen).1) [
    | inl d ↦ rw d refl
    | inr d ↦ rw d refl
  ])
])
