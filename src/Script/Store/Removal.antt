-- ===== src/Script/Store/Removal.antt =====
-- What `script_store_delete` does to the index in memory.
use edge_device_esp.Base.{
  ℕ, zero, suc, ◌+◌, ◌-◌, ◌<◌, ◌≤◌, ◌≡◌, refl, sym, ap, ◌∙◌, ◌⊎◌, inl, inr, arith,
}
use edge_device_esp.Base.{List}
use edge_device_esp.Base.{length, get_or, set, length-set, get_or-set_self, get_or-set_ne}
use edge_device_esp.Script.Store.{Meta, no_meta, Store, close_gap, drop_meta}
use edge_device_esp.Script.Store.Gap.{id_at}
use edge_device_esp.Script.Store.Order.{IsValid}

-- What `close_gap` does: the `n` entries behind slot `i` move down by one.
record Closed (n i : ℕ) (ms ms' : List Meta) : Type 0 where
  size : length ms' ≡ length ms
  below : (k : ℕ) → k < i → get_or ms' k no_meta ≡ get_or ms k no_meta
  moved : (k : ℕ) → i ≤ k → k < i + n → get_or ms' k no_meta ≡ get_or ms (suc k) no_meta

close_gap_lem : (n i : ℕ) (ms : List Meta) → i + n < length ms → Closed n i ms (close_gap n i ms)
unfolding close_gap
close_gap_lem zero i ms h = record {
  size = refl;
  below = λ k l. refl;
  moved = λ k a b. absurd (omega arith);
}
close_gap_lem (suc n) i ms h =
    let v = get_or ms (i + 1) no_meta in
    let c = close_gap_lem n (i + 1) (set ms i v) (rw (length-set ms i v) (omega arith)) in
    record {
      size = c.size ∙ length-set ms i v;
      below = λ k l. c.below k (omega arith) ∙ get_or-set_ne ms i k v no_meta (omega arith);
      moved = λ k a b. moved_at k (first_or_later k a) b c;
    }
  where
    first_or_later : (k : ℕ) → i ≤ k → (i ≡ k) ⊎ (i + 1 ≤ k)
    first_or_later k a = omega arith

    moved_at :
        (k : ℕ)
        → (i ≡ k) ⊎ (i + 1 ≤ k)
        → k < i + suc n
        → Closed n
            (i + 1)
            (set ms i (get_or ms (i + 1) no_meta))
            (close_gap n (i + 1) (set ms i (get_or ms (i + 1) no_meta)))
        → get_or (close_gap n (i + 1) (set ms i (get_or ms (i + 1) no_meta))) k no_meta
          ≡ get_or ms (suc k) no_meta
    moved_at k (inl q) b c =
        let p : i + 1 ≡ suc i = omega arith in
        rw (sym q) (
          c.below i (omega arith)
          ∙ get_or-set_self ms i (get_or ms (i + 1) no_meta) no_meta (omega arith)
          ∙ ap (λ x. get_or ms x no_meta) p)
    moved_at k (inr q) b c =
        c.moved k q (omega arith)
        ∙ get_or-set_ne ms i (suc k) (get_or ms (i + 1) no_meta) no_meta (omega arith)

-- Deleting a script from a valid index leaves a valid index of one entry less.
pub drop_meta-IsValid :
    (i : ℕ) (st : Store)
    → IsValid st
    → i < st.count
    → IsValid (drop_meta i st) × ((drop_meta i st).count + 1 ≡ st.count)
unfolding drop_meta
drop_meta-IsValid i st v l =
    let c = close_gap_lem (st.count - 1 - i) i st.table (rw v.slots (inside l v.in_use)) in
    (
      record {
        slots = c.size ∙ v.slots;
        in_use = less v.in_use;
        sorted = λ a b ab bn. go c a b ab bn (side a) (side b);
      },
      positive l,
    )
  where
    inside : {i n : ℕ} → i < n → n ≤ 16 → i + (n - 1 - i) < 16
    inside a b = omega arith

    less : {n : ℕ} → n ≤ 16 → n - 1 ≤ 16
    less a = omega arith

    positive : {n : ℕ} → i < n → n - 1 + 1 ≡ n
    positive a = omega arith

    side : (a : ℕ) → (a < i) ⊎ (i ≤ a)
    side a = omega arith

    ms' : List Meta
    ms' = close_gap (st.count - 1 - i) i st.table

    go :
        Closed (st.count - 1 - i) i st.table ms'
        → (a b : ℕ) → a < b
        → b < st.count - 1
        → (a < i) ⊎ (i ≤ a)
        → (b < i) ⊎ (i ≤ b)
        → id_at ms' a < id_at ms' b
    go c a b ab bn (inl p) (inl q) =
        rw (id_at, c.below a p, c.below b q) (v.sorted a b ab (omega arith))
    go c a b ab bn (inl p) (inr q) =
        rw (id_at, c.below a p, c.moved b q (omega arith))
          (v.sorted a (suc b) (omega arith) (omega arith))
    go c a b ab bn (inr p) (inl q) = absurd (omega arith)
    go c a b ab bn (inr p) (inr q) =
        rw (id_at, c.moved a p (omega arith), c.moved b q (omega arith))
          (v.sorted (suc a) (suc b) (omega arith) (omega arith))
