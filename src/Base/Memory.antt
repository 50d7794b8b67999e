-- ===== src/Base/Memory.antt =====
-- Writes into a block of memory (`memcpy`, `memset`), as lists of bytes.
use Prim.Native.Nat.{ℕ, zero, suc, ◌+◌, ◌-◌, ◌≤◌}
use mathlib.Core.Path.{◌≡◌, refl, sym, ap, ◌∙◌}
use mathlib.Core.List.{List, [], ◌∷◌, ◌++◌, append-nil}
use native.Mathlib.Omega.{arith}
use edge_device_esp.Base.Lists.{length, take, drop, length-append, length-take, length-drop}

-- The block after `bytes` is copied to it at `position`.
abbrev pub copy_at : ℕ → List ℕ → List ℕ → List ℕ
copy_at position bytes block =
    take position block ++ (bytes ++ drop (position + length bytes) block)

pub length-copy_at :
    (p : ℕ) (d m : List ℕ) → p + length d ≤ length m → length (copy_at p d m) ≡ length m
length-copy_at p d m h = grind (
  arith,
  length-append (take p m) (d ++ drop (p + length d) m),
  length-append d (drop (p + length d) m),
  length-take p m,
  length-drop (p + length d) m,
)

pub take-append_past :
    (n : ℕ) (xs ys : List ℕ) → length xs ≤ n → take n (xs ++ ys) ≡ xs ++ take (n - length xs) ys
take-append_past n [] ys h = ap (λ k. take k ys) (omega arith)
take-append_past zero (x ∷ xs) ys h = absurd (omega arith)
take-append_past (suc n) (x ∷ xs) ys h =
    rw (take-append_past n xs ys (omega arith)) (ap (λ k. x ∷ (xs ++ take k ys)) (omega arith))

pub take_nil : (n : ℕ) → take {A = ℕ} n [] ≡ []
take_nil zero = refl
take_nil (suc n) = refl

pub take-drop : (n k : ℕ) (xs : List ℕ) → take n (drop k xs) ≡ drop k (take (k + n) xs)
take-drop n zero xs = ap (λ r. take r xs) (omega arith)
take-drop n (suc k) [] = rw (take_nil n, take_nil (suc k + n)) refl
take-drop n (suc k) (x ∷ xs) =
    take-drop n k xs ∙ ap (λ r. drop (suc k) (take r (x ∷ xs))) {x = suc (k + n)} (omega arith)

-- A prefix that reaches past the copied bytes.
pub take-copy_at :
    (n p : ℕ) (d m : List ℕ)
    → p + length d ≤ n
    → n ≤ length m
    → take n (copy_at p d m) ≡ take p m ++ (d ++ drop (p + length d) (take n m))
take-copy_at n p d m h k =
    let len : length (take p m) ≡ p = omega (arith, length-take p m) in
    let inner : take (n - p) (d ++ drop (p + length d) m) ≡ d ++ drop (p + length d) (take n m) =
      take-append_past (n - p) d (drop (p + length d) m) (omega arith)
      ∙ ap (λ r. d ++ r)
          (take-drop (n - p - length d) (p + length d) m
            ∙ ap (λ r. drop (p + length d) (take r m)) (omega arith)) in
    take-append_past n (take p m) (d ++ drop (p + length d) m) (omega arith)
    ∙ ap (λ r. take p m ++ take (n - r) (d ++ drop (p + length d) m)) len
    ∙ ap (λ r. take p m ++ r) inner

pub drop_all : (n : ℕ) (xs : List ℕ) → length xs ≤ n → drop n xs ≡ []
drop_all zero [] h = refl
drop_all zero (x ∷ xs) h = absurd (omega arith)
drop_all (suc n) [] h = refl
drop_all (suc n) (x ∷ xs) h = drop_all n xs (omega arith)

-- The prefix that ends with the copied bytes.
pub take-copy_at_end :
    (p : ℕ) (d m : List ℕ)
    → p + length d ≤ length m
    → take (p + length d) (copy_at p d m) ≡ take p m ++ d
take-copy_at_end p d m h =
    take-copy_at (p + length d) p d m (omega arith) h
    ∙ ap (λ r. take p m ++ (d ++ r))
        (drop_all (p + length d) (take (p + length d) m)
          (omega (arith, length-take (p + length d) m)))
    ∙ ap (λ r. take p m ++ r) (append-nil d)

pub take-take : (n k : ℕ) (xs : List ℕ) → n ≤ k → take n (take k xs) ≡ take n xs
take-take zero k xs h = refl
take-take (suc n) zero xs h = absurd (omega arith)
take-take (suc n) (suc k) [] h = refl
take-take (suc n) (suc k) (x ∷ xs) h = ap (λ r. x ∷ r) (take-take n k xs (omega arith))

pub take_all : (n : ℕ) (xs : List ℕ) → length xs ≤ n → take n xs ≡ xs
take_all n [] h = take_nil n
take_all zero (x ∷ xs) h = absurd (omega arith)
take_all (suc n) (x ∷ xs) h = ap (λ r. x ∷ r) (take_all n xs (omega arith))

pub drop-drop : (a b : ℕ) (xs : List ℕ) → drop a (drop b xs) ≡ drop (b + a) xs
drop-drop a zero xs = ap (λ r. drop r xs) (omega arith)
drop-drop a (suc b) [] = drop_all a [] (omega arith) ∙ sym (drop_all (suc b + a) [] (omega arith))
drop-drop a (suc b) (x ∷ xs) =
    drop-drop a b xs ∙ ap (λ r. drop r (x ∷ xs)) {x = suc (b + a)} (omega arith)
