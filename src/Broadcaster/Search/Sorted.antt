-- ===== src/Broadcaster/Search/Sorted.antt =====
-- pkg/broadcaster/search.go: what the sorts by exchange do.
use mathlib.Core.Path.{subst}
use railgun_go.Common.{
  ℕ, zero, suc, ◌≡◌, refl, sym, true, false, Bool, Bool-cases, inl, inr, List, [], ◌∷◌, All, arith,
}
use railgun_go.Common.Int.{ℤ, pos, negsuc, ltb_ℤ}
use railgun_go.Broadcaster.Search.{settle, exchange}

module _ {ℓ} {A : Type ℓ} (P : A → Type 0) (less : A → A → Bool) where
  pub settle-All :
      (x : A) (xs : List A) → P x → All P xs → P (settle less x xs).0 × All P (settle less x xs).1
  unfolding settle
  settle-All x [] p h = (p, tt)
  settle-All x (y ∷ ys) p h = elim (Bool-cases (less y x)) [
    | inl swapped ↦ let (first, rest) = settle-All y ys h.0 h.1 in rw swapped (first, (p, rest))
    | inr kept ↦ let (first, rest) = settle-All x ys p h.1 in rw kept (first, (h.0, rest))
  ]

  pub exchange-All : (n : ℕ) (xs : List A) → All P xs → All P (exchange less n xs)
  unfolding exchange
  exchange-All zero xs h = h
  exchange-All (suc n) [] h = tt
  exchange-All (suc n) (x ∷ xs) h =
      let (first, rest) = settle-All x xs h.0 h.1 in
      (first, exchange-All n (settle less x xs).1 rest)

-- `a.Cmp(b) <= 0`
abbrev pub IsAtMost : ℤ → ℤ → Type 0
IsAtMost a b = ltb_ℤ b a ≡ false

pub IsAtMost-trans : (a b c : ℤ) → IsAtMost a b → IsAtMost b c → IsAtMost a c
IsAtMost-trans (pos a) (pos b) (pos c) h k = ground (arith, h, k)
IsAtMost-trans (pos a) (pos b) (negsuc c) h k = cc
IsAtMost-trans (pos a) (negsuc b) (pos c) h k = cc
IsAtMost-trans (pos a) (negsuc b) (negsuc c) h k = cc
IsAtMost-trans (negsuc a) (pos b) (pos c) h k = refl
IsAtMost-trans (negsuc a) (pos b) (negsuc c) h k = cc
IsAtMost-trans (negsuc a) (negsuc b) (pos c) h k = refl
IsAtMost-trans (negsuc a) (negsuc b) (negsuc c) h k = ground (arith, h, k)

pub IsAtMost-refl : (a : ℤ) → IsAtMost a a
IsAtMost-refl (pos a) = ground arith
IsAtMost-refl (negsuc a) = ground arith

-- The order does not go against a key.
abbrev pub Respects {ℓ} : {A : Type ℓ} → (A → ℤ) → (A → A → Bool) → Type ℓ
Respects {A} key less =
    (a b : A)
    → (less a b ≡ true → IsAtMost (key a) (key b)) × (less a b ≡ false → IsAtMost (key b) (key a))

module _ {ℓ} {A : Type ℓ} (key : A → ℤ) (less : A → A → Bool) (law : Respects key less) where
  -- The key is at most those of an element and of a list.
  abbrev pub IsLeast : A → A → List A → Type 0
  IsLeast m x xs = IsAtMost (key m) (key x) × All (λ y. IsAtMost (key m) (key y)) xs

  -- The first after a round has the lowest key.
  pub settle-IsLeast : (x : A) (xs : List A) → IsLeast (settle less x xs).0 x xs
  unfolding settle
  settle-IsLeast x [] = (IsAtMost-refl (key x), tt)
  settle-IsLeast x (y ∷ ys) = elim (Bool-cases (less y x)) [
    | inl swapped ↦
        let same : (settle less x (y ∷ ys)).0 ≡ (settle less y ys).0 = rw swapped refl in
        let (at_most, rest) = settle-IsLeast y ys in
        subst (λ m. IsLeast m x (y ∷ ys)) (sym same)
          (IsAtMost-trans _ (key y) _ at_most ((law y x).0 swapped), (at_most, rest))
    | inr kept ↦
        let same : (settle less x (y ∷ ys)).0 ≡ (settle less x ys).0 = rw kept refl in
        let (at_most, rest) = settle-IsLeast x ys in
        subst (λ m. IsLeast m x (y ∷ ys)) (sym same)
          (at_most, (IsAtMost-trans _ (key x) _ at_most ((law y x).1 kept), rest))
  ]
