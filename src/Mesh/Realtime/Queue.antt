-- ===== src/Mesh/Realtime/Queue.antt =====
-- The queue of `voice_tx_enqueue` and `voice_tx_task`: its bound, which voice frame a new one takes
-- the place of, and the order of the frames.
use edge_device_esp.Base.{
  ℕ, zero, suc, ◌+◌, ◌-◌, ◌%◌, ◌^◌, ◌≤◌, ◌<◌, ◌≡◌, refl, ◌⊎◌, inl, inr, true, false, ◌||◌, not, ltb,
  ◌==◌, List, [], ◌∷◌, ◌++◌, Option, none, some, length, length-append, set, All, Option-cases,
  arith,
}
use edge_device_esp.Base.EspErr.{EspErr}
use edge_device_esp.Mesh.Routes.{Route}
use edge_device_esp.Mesh.Realtime.{
  Item, CachedPath, Realtime, queue_depth, route_limit, cached_limit, path_limit, drop_oldest,
  is_speed, enqueue_voice, enqueue,
}

-- A limit lets at least four frames wait, and never more than the queue holds.
abbrev pub IsLimit : ℕ → Type 0
IsLimit limit = (4 ≤ limit) × (limit ≤ queue_depth)

pub record IsValid (s : Realtime) : Type 0 where
  pub depth : length s.queue ≤ queue_depth
  pub limits : All (λ path. IsLimit path.limit) s.paths

pub route_limit-IsLimit : (r : Option Route) → IsLimit (route_limit r)
unfolding route_limit
route_limit-IsLimit none = ground arith
route_limit-IsLimit (some r) = ground arith

cached_limit-IsLimit :
    (now target : ℕ) (paths : List CachedPath) (limit : ℕ)
    → All (λ path. IsLimit path.limit) paths
    → cached_limit now target paths ≡ some limit
    → IsLimit limit
unfolding cached_limit
cached_limit-IsLimit now target [] limit v e = absurd (ground arith)
cached_limit-IsLimit now target (path ∷ paths) limit (v, vs) e =
    ground (arith, cached_limit-IsLimit now target paths limit vs)

All-set :
    (paths : List CachedPath) (i : ℕ) (path : CachedPath)
    → All (λ path. IsLimit path.limit) paths
    → IsLimit path.limit
    → All (λ path. IsLimit path.limit) (set paths i path)
All-set [] i path v h = tt
All-set (p ∷ paths) zero path (v, vs) h = (h, vs)
All-set (p ∷ paths) (suc i) path (v, vs) h = (v, All-set paths i path vs h)

pub path_limit_lem :
    (lookup : ℕ → Option Route) (now target : ℕ) (s : Realtime)
    → IsValid s
    → IsLimit (path_limit lookup now target s).0
      × IsValid (path_limit lookup now target s).1
      × ((path_limit lookup now target s).1.queue ≡ s.queue)
      × ((path_limit lookup now target s).1.drops ≡ s.drops)
unfolding path_limit
path_limit_lem lookup now target s v = elim (Option-cases (cached_limit now target s.paths)) [
  | inl e ↦
      rw (path_limit, e)
        (
          route_limit-IsLimit _,
          record {
            depth = v.depth;
            limits = All-set s.paths s.replace_index _ v.limits (route_limit-IsLimit _);
          },
          refl,
          refl,
        )
  | inr (limit, e) ↦
      rw (path_limit, e) (cached_limit-IsLimit now target s.paths limit v.limits e, v, refl, refl)
]

-- What a voice frame does to a queue: it stands at the end, and takes the place of the oldest frame
-- exactly when as many wait as the limit allows, which is then counted.
pub IsQueued : (limit : ℕ) → Item → (before after : Realtime) → Type 0
IsQueued limit item s s' =
    ((length s.queue < limit) × (s'.queue ≡ s.queue ++ (item ∷ [])) × (s'.drops ≡ s.drops))
    ⊎ ((limit ≤ length s.queue)
        × (s'.queue ≡ drop_oldest s.queue ++ (item ∷ []))
        × (s'.drops ≡ (s.drops + 1) % 2 ^ 32))

pub length-drop_oldest : (items : List Item) → length (drop_oldest items) ≡ length items - 1
length-drop_oldest [] = omega arith
length-drop_oldest (item ∷ items) = omega arith

enqueue_voice_lem :
    (limit : ℕ) (item : Item) (s : Realtime)
    → IsLimit limit
    → IsValid s
    → ((enqueue_voice limit item s).0 ≡ EspErr.ok)
      × IsValid (enqueue_voice limit item s).1
      × IsQueued limit item s (enqueue_voice limit item s).1
unfolding IsQueued
enqueue_voice_lem limit item s l v = ground (
  arith,
  length-append s.queue (item ∷ []),
  length-append (drop_oldest s.queue) (item ∷ []),
  length-drop_oldest s.queue,
)

IsQueued-from :
    (limit : ℕ) (item : Item) (s s1 s' : Realtime)
    → s1.queue ≡ s.queue
    → s1.drops ≡ s.drops
    → IsQueued limit item s1 s'
    → IsQueued limit item s s'
unfolding IsQueued
IsQueued-from limit item s s1 s' same counted h = ground arith

-- A voice frame is always taken while the queue is in order: it stands at the end, the frames before
-- it keep their order, and the oldest one is given up, and counted, exactly when as many wait as the
-- path's limit, which lies between 4 and 32.
pub enqueue-voice :
    (size_limit : ℕ) (lookup : ℕ → Option Route) (now : ℕ) (item : Item) (s : Realtime)
    → IsValid s
    → s.created ≡ true
    → 0 < length item.payload
    → length item.payload ≤ size_limit
    → is_speed item.payload ≡ false
    → ((enqueue size_limit lookup now item s).0 ≡ EspErr.ok)
      × IsLimit (path_limit lookup now item.to s).0
      × IsQueued (path_limit lookup now item.to s).0 item s (enqueue size_limit lookup now item s).1
unfolding enqueue
enqueue-voice size_limit lookup now item s v c l h voice =
    let guard : (not s.created || length item.payload == 0 || ltb size_limit (length item.payload))
        ≡ false =
      ground arith in
    let (limit, v', same, counted) = path_limit_lem lookup now item.to s v in
    let (ok, valid, queued) = enqueue_voice_lem _ item _ limit v' in
    rw (guard, voice) (ok, limit, IsQueued-from _ item s _ _ same counted queued)

pub enqueue-IsValid :
    (size_limit : ℕ) (lookup : ℕ → Option Route) (now : ℕ) (item : Item) (s : Realtime)
    → IsValid s
    → IsValid (enqueue size_limit lookup now item s).1
unfolding enqueue
enqueue-IsValid size_limit lookup now item s v =
    let (limit, v', same, counted) = path_limit_lem lookup now item.to s v in
    let (ok, valid, queued) = enqueue_voice_lem _ item _ limit v' in
    ground (arith, length-append s.queue (item ∷ []))
