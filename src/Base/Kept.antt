-- ===== src/Base/Kept.antt =====
-- Membership in a list from which the numbers that fail a test are left out.
use baa.Base.{ℕ, ◌≡◌, refl, sym, inl, inr, Bool, true, false, ◌&&◌, ◌||◌, ◌==◌, ==_iff, Bool-cases}

module _ (keep : ℕ → Bool) where
  and_false : (a : Bool) → false ≡ (a && false)
  and_false true = refl
  and_false false = refl

  pub skip_lem :
      (x r : ℕ) (rest : Bool) → keep x ≡ false → (rest && keep r) ≡ ((x == r || rest) && keep r)
  skip_lem x r rest dropped = elim (Bool-cases (x == r)) [
    | inr other ↦ rw other refl
    | inl here ↦
        let none : keep r ≡ false = rw ((==_iff x r).0 here) at dropped in
        rw (here, none) (sym (and_false rest))
  ]

  pub take_lem :
      (x r : ℕ) (rest : Bool)
      → keep x ≡ true
      → (x == r || (rest && keep r)) ≡ ((x == r || rest) && keep r)
  take_lem x r rest kept = elim (Bool-cases (x == r)) [
    | inr other ↦ rw other refl
    | inl here ↦
        let there : keep r ≡ true = rw ((==_iff x r).0 here) at kept in rw (here, there) refl
  ]
