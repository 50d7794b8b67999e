-- ===== src/Script/Store/Order.antt =====
-- The order of the index of the script store, and what `script_store_upsert` does to it in memory.
use edge_device_esp.Base.{
  ℕ, zero, suc, ◌+◌, ◌-◌, ◌<◌, ◌≤◌, ◌≡◌, ◌≢◌, refl, sym, ap, ◌∙◌, ◌⊎◌, inl, inr, arith, Bool-cases,
  ltb→lt,
}
use edge_device_esp.Base.{true, false, ltb, ◌==◌, if◌then◌else◌, List, [], ◌∷◌, Option, none, some}
use edge_device_esp.Base.{length, get_or, set, length-set, get_or-set_self, get_or-set_ne}
use edge_device_esp.Script.Store.{Meta, no_meta, Store, find, make_gap, put_meta}
use edge_device_esp.Script.Store.Gap.{Gap, id_at, set_below, make_gap_lem, IsSorted}

abbrev pub Found : ℕ → ℕ → List Meta → Option ℕ → Type 0
Found id n ms none = (i : ℕ) → i < n → id_at ms i ≢ id
Found id n ms (some i) = (i < n) × (id_at ms i ≡ id)

pub find_lem : (id n : ℕ) (ms : List Meta) → n ≤ length ms → Found id n ms (find id n ms)
unfolding find
find_lem id zero ms h = λ i l. absurd (omega arith)
find_lem id (suc n) [] h = absurd (omega arith)
find_lem id (suc n) (m ∷ ms) h = elim (Bool-cases (m.id == id)) [
  | inl e ↦ rw e (omega arith, ground arith)
  | inr e ↦ rw e (go e (find id n ms) (find_lem id n ms (omega arith)))
]
  where
    slot :
        (i : ℕ)
        → ((i : ℕ) → i < n → id_at ms i ≢ id)
        → (m.id == id) ≡ false
        → i < suc n
        → id_at (m ∷ ms) i ≢ id
    slot zero f e l = ground arith
    slot (suc i) f e l = f i (omega arith)

    go :
        (m.id == id) ≡ false
        → (o : Option ℕ) → Found id n ms o
        → Found id (suc n) (m ∷ ms) (elim o [ none ↦ none | some i ↦ some (suc i) ])
    go e none f = λ i. slot i f e
    go e (some i) (l, q) = (omega arith, q)

before_le :
    (id n : ℕ) (ms : List Meta) (r : List Meta × ℕ)
    → Gap id n ms r
    → IsSorted n ms
    → (x : ℕ) → x < r.1
    → id_at ms x ≤ id
before_le id n ms r g sorted x a = go g.before (edge (r.1) x a)
  where
    edge : (p x : ℕ) → x < p → (x < p - 1) ⊎ (x ≡ p - 1)
    edge p x a = omega arith

    in_range : r.1 ≤ n → r.1 - 1 < n
    in_range b = omega arith

    le : {a b c : ℕ} → a < b → b ≤ c → a ≤ c
    le p q = omega arith

    go :
        (r.1 ≡ 0) ⊎ ((0 < r.1) × (id_at ms (r.1 - 1) ≤ id))
        → (x < r.1 - 1) ⊎ (x ≡ r.1 - 1)
        → id_at ms x ≤ id
    go (inl z) y = absurd (omega arith)
    go (inr (p, q)) (inl y) = le (sorted x (r.1 - 1) y (in_range g.at_most)) q
    go (inr (p, q)) (inr y) = rw y q

-- The table with the new entry in its place.
insert-IsSorted :
    (id n : ℕ) (ms : List Meta) (r : List Meta × ℕ) (m : Meta)
    → n < length ms
    → Gap id n ms r
    → ((i : ℕ) → i < n → id_at ms i ≢ id)
    → m.id ≡ id
    → IsSorted n ms
    → IsSorted (n + 1) (set r.0 r.1 m)
insert-IsSorted id n ms r m h g new e sorted i j l k = go (spot j) (spot i)
  where
    spot : (x : ℕ) → (x < r.1) ⊎ ((x ≡ r.1) ⊎ (r.1 < x))
    spot x = omega arith

    low : (x : ℕ) → x < r.1 → id_at (set r.0 r.1 m) x ≡ id_at ms x
    low x a = ap (λ (y : Meta). y.id) (set_below r.0 r.1 x m a ∙ g.below x a)

    here : id_at (set r.0 r.1 m) r.1 ≡ id
    here = ap (λ (y : Meta). y.id) (get_or-set_self r.0 r.1 m no_meta (inside g.size g.at_most)) ∙ e
      where
        inside : length r.0 ≡ length ms → r.1 ≤ n → r.1 < length r.0
        inside a b = omega arith

    high : (x : ℕ) → r.1 ≤ x → x < n → id_at (set r.0 r.1 m) (suc x) ≡ id_at ms x
    high x a b =
        ap (λ (y : Meta). y.id)
          (get_or-set_ne r.0 r.1 (suc x) m no_meta (omega arith) ∙ g.moved x a b)

    up : (x : ℕ) → r.1 < x → x < n + 1 → id_at (set r.0 r.1 m) x ≡ id_at ms (x - 1)
    up zero a b = absurd (omega arith)
    up (suc x) a b =
        let p : suc x - 1 ≡ x = omega arith in rw p (high x (omega arith) (omega arith))

    inside : (x : ℕ) → x < r.1 → r.1 ≤ n → x < n
    inside x a b = omega arith

    smaller : (x : ℕ) → x < r.1 → id_at ms x < id
    smaller x a =
        let y = inside x a g.at_most in strict (before_le id n ms r g sorted x a) (new x y)
      where
        strict : {x y : ℕ} → x ≤ y → x ≢ y → x < y
        strict l n = ground arith

    go :
        (j < r.1) ⊎ ((j ≡ r.1) ⊎ (r.1 < j))
        → (i < r.1) ⊎ ((i ≡ r.1) ⊎ (r.1 < i))
        → id_at (set r.0 r.1 m) i < id_at (set r.0 r.1 m) j
    go (inl a) b = rw (low j a, low i (omega arith)) (sorted i j l (inside j a g.at_most))
    go (inr (inl a)) b = rw (a, here, low i (omega arith)) (smaller i (omega arith))
    go (inr (inr a)) (inl b) = rw (up j a k, low i b) (sorted i (j - 1) (omega arith) (omega arith))
    go (inr (inr a)) (inr (inl b)) =
        rw (up j a k, b, here) (g.greater (j - 1) (omega arith) (omega arith))
    go (inr (inr a)) (inr (inr b)) =
        rw (up j a k, up i b (omega arith)) (sorted (i - 1) (j - 1) (omega arith) (omega arith))

-- The array has its 16 slots, of which those in use have increasing ids.
pub record IsValid (st : Store) : Type 0 where
  pub slots : length st.table ≡ 16
  pub in_use : st.count ≤ 16
  pub sorted : IsSorted st.count st.table

resize-IsSorted :
    (n i : ℕ) (ms : List Meta) (v : Meta)
    → i < length ms
    → v.id ≡ id_at ms i
    → IsSorted n ms
    → IsSorted n (set ms i v)
resize-IsSorted n i ms v h e s a b l k = rw (same a, same b) (s a b l k)
  where
    split : (a : ℕ) → (i ≡ a) ⊎ (i ≢ a)
    split a = ground arith

    same : (a : ℕ) → id_at (set ms i v) a ≡ id_at ms a
    same a = elim (split a) [
      | inl q ↦ rw (sym q) (ap (λ (y : Meta). y.id) (get_or-set_self ms i v no_meta h) ∙ e)
      | inr q ↦ ap (λ (y : Meta). y.id) (get_or-set_ne ms i a v no_meta q)
    ]

abbrev pub Entry : Store → ℕ → ℕ → Type 0
Entry st id size =
    (i : ℕ) × (i < st.count) × (id_at st.table i ≡ id) × ((get_or st.table i no_meta).size ≡ size)

abbrev pub Put : ℕ → ℕ → Store → Option Store → Type 0
Put id size st none = st.count ≡ 16
Put id size st (some st') = IsValid st' × Entry st' id size

-- A valid index takes any script: it stays valid and then has the script with its new size; the one
-- case that is refused is a full index.
pub put_meta-IsValid :
    (id size : ℕ) (st : Store) → IsValid st → Put id size st (put_meta id size st)
unfolding put_meta
put_meta-IsValid id size st v =
    go (find id st.count st.table) (find_lem id st.count st.table (rw v.slots v.in_use))
  where
    ms : List Meta
    ms = st.table

    r : List Meta × ℕ
    r = make_gap id st.count st.table

    room : st.count ≤ 16 → ltb st.count 16 ≡ true → st.count < length ms
    room a b = rw v.slots (ltb→lt st.count 16 b)

    full : st.count ≤ 16 → ltb st.count 16 ≡ false → st.count ≡ 16
    full a b = ground arith

    under : {i n : ℕ} → i < n → n ≤ 16 → i < 16
    under a b = omega arith

    gap_in : {p n k : ℕ} → p ≤ n → n < k → {k' : ℕ} → k' ≡ k → p < k'
    gap_in a b c = omega arith

    added :
        ((i : ℕ) → i < st.count → id_at ms i ≢ id)
        → Gap id st.count ms r
        → st.count < length ms
        → st.count < 16
        → Put id size st (
            some (record st {
              table =
                  set r.0 r.1
                    (record { id = id; reserved = (get_or r.0 r.1 no_meta).reserved; size = size });
              count = st.count + 1;
            }))
    added f g h k =
        let m' : Meta = record {
          id = id;
          reserved = (get_or r.0 r.1 no_meta).reserved;
          size = size;
        } in
        let self = get_or-set_self r.0 r.1 m' no_meta (gap_in g.at_most h g.size) in
        (
          record {
            slots = length-set r.0 r.1 m' ∙ g.size ∙ v.slots;
            in_use = omega arith;
            sorted = insert-IsSorted id st.count ms r m' h g f refl v.sorted;
          },
          (
            r.1,
            gap_in g.at_most (omega arith) refl,
            ap (λ (y : Meta). y.id) self,
            ap (λ (y : Meta). y.size) self,
          ),
        )

    go :
        (o : Option ℕ)
        → Found id st.count ms o
        → Put id size st (elim o [
          | some i ↦
              let m = get_or st.table i no_meta in
              some (record st { table = set st.table i (record m { size = size }) })
          | none ↦
              if ltb st.count 16
              then some (
                  let (ms, at) = make_gap id st.count st.table in
                  let m = get_or ms at no_meta in
                  record st {
                    table = set ms at (record m { id = id; size = size });
                    count = st.count + 1;
                  })
              else none
        ])
    go (some i) (l, q) =
        let within : i < length ms = rw v.slots (under l v.in_use) in
        let m' : Meta = record {
          id = id_at ms i;
          reserved = (get_or ms i no_meta).reserved;
          size = size;
        } in
        let self = get_or-set_self ms i m' no_meta within in
        (
          record {
            slots = length-set ms i m' ∙ v.slots;
            in_use = v.in_use;
            sorted = resize-IsSorted st.count i ms m' within refl v.sorted;
          },
          (i, l, ap (λ (y : Meta). y.id) self ∙ q, ap (λ (y : Meta). y.size) self),
        )
    go none f = elim (Bool-cases (ltb st.count 16)) [
      | inl e ↦ rw e (
          added f (make_gap_lem id st.count ms (room v.in_use e)) (room v.in_use e)
            (ltb→lt st.count 16 e))
      | inr e ↦ rw e (full v.in_use e)
    ]
