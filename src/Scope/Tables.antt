-- ===== src/Scope/Tables.antt =====
-- carbonc/scope.cc: what the scopes rely on of hash tables and of vectors.
use carbonlang.Prelude.{
  ℕ, zero, suc, ◌≡◌, refl, ap, inl, inr, false, some, List, [], ◌∷◌, ◌++◌, length, get_elem?, ◌==◌,
  ==_refl, ==_iff, if◌then◌else◌, arith, Bool-cases,
}
use carbonlang.Scope.{Table, lookup, insert, update_at}

module _ {A : Type 0} where
  pub lookup-insert : (t : Table A) (k : ℕ) (a : A) → lookup (insert t k a) k ≡ some a
  lookup-insert [] k a = rw (==_refl k) refl
  lookup-insert ((j, b) ∷ t) k a = elim (Bool-cases (j == k)) [
    | inl e ↦ rw (e, ==_refl k) refl
    | inr e ↦ rw (e, e) (lookup-insert t k a)
  ]

  pub lookup-insert_other :
      (t : Table A) (k h : ℕ) (a : A) → (k == h) ≡ false → lookup (insert t k a) h ≡ lookup t h
  lookup-insert_other [] k h a e = rw e refl
  lookup-insert_other ((j, b) ∷ t) k h a e = elim (Bool-cases (j == k)) [
    | inl same ↦ rw (same, e, (==_iff j k).0 same, e) refl
    | inr differ ↦
        rw differ (ap (λ x. if j == h then some b else x) (lookup-insert_other t k h a e))
  ]

  pub get_elem?-update_at :
      (xs : List A) (i : ℕ) (f : A → A) (x : A)
      → get_elem? xs i ≡ some x
      → get_elem? (update_at xs i f) i ≡ some (f x)
  get_elem?-update_at [] i f x h = ground arith
  get_elem?-update_at (y ∷ xs) zero f x h = cc
  get_elem?-update_at (y ∷ xs) (suc i) f x h = get_elem?-update_at xs i f x h

  pub get_elem?-last : (xs : List A) (x : A) → get_elem? (xs ++ x ∷ []) (length xs) ≡ some x
  get_elem?-last [] x = refl
  get_elem?-last (y ∷ xs) x = get_elem?-last xs x
