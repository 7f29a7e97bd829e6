-- ===== src/Sort.antt =====
-- `slice::sort_by` on a key, as a stable insertion sort. Where the keys are distinct every correct
-- sort returns the same list, so which sorting algorithm the standard library uses does not matter.
use mathlib.Core.List.{Perm, Permᴰ, Nodup, Nodup-cons}
use mathlib.Core.List.Perm
use mathlib.Core.Logic.{∥∥₁_elim}
use mathlib.Core.List.{mem-cons_self}
use kotatsu_backend.Prelude.{
  ◌≡◌, refl, ◌∙◌, ◌≢◌, true, List, [], ◌∷◌, map, arith, ap, suc, length, if◌then◌else◌, All,
}
use kotatsu_backend.Prelude.Order.{Order}

module _ {K A : Type 0} ⦃o : Order K⦄ (key : A → K) where
  unfoldable pub insert : A → List A → List A
  insert a [] = a ∷ []
  insert a (x ∷ xs) = if o.le (key a) (key x) then a ∷ x ∷ xs else x ∷ insert a xs

  unfoldable pub sort_by : List A → List A
  unfolding insert
  sort_by [] = []
  sort_by (x ∷ xs) = insert x (sort_by xs)

  -- Each element is at most every later one.
  abbrev pub IsSorted : List A → Type 0
  IsSorted [] = Unit
  IsSorted (x ∷ xs) = All (λ y. o.le (key x) (key y) ≡ true) xs × IsSorted xs

  All-insert {ℓ} : (P : A → Type ℓ) (a : A) (xs : List A) → P a → All P xs → All P (insert a xs)
  unfolding insert
  All-insert P a [] p h = (p, tt)
  All-insert P a (x ∷ xs) p h = ground (arith, All-insert P a xs p h.1)

  le-All :
      (a x : A) (xs : List A)
      → o.le (key a) (key x) ≡ true
      → All (λ y. o.le (key x) (key y) ≡ true) xs
      → All (λ y. o.le (key a) (key y) ≡ true) xs
  le-All a x [] h t = tt
  le-All a x (y ∷ ys) h t = (o.trans (key a) (key x) (key y) h t.0, le-All a x ys h t.1)

  insert-IsSorted : (a : A) (xs : List A) → IsSorted xs → IsSorted (insert a xs)
  unfolding insert
  insert-IsSorted a [] h = (tt, tt)
  insert-IsSorted a (x ∷ xs) h = ground (
    arith,
    le-All a x xs,
    o.total (key a) (key x),
    insert-IsSorted a xs h.1,
    All-insert (λ y. o.le (key x) (key y) ≡ true) a xs,
  )

  pub sort_by-IsSorted : (xs : List A) → IsSorted (sort_by xs)
  unfolding sort_by
  sort_by-IsSorted [] = tt
  sort_by-IsSorted (x ∷ xs) = insert-IsSorted x (sort_by xs) (sort_by-IsSorted xs)

  pub All-sort_by {ℓ} : (P : A → Type ℓ) (xs : List A) → All P xs → All P (sort_by xs)
  unfolding sort_by
  All-sort_by P [] h = tt
  All-sort_by P (x ∷ xs) h = All-insert P x (sort_by xs) h.0 (All-sort_by P xs h.1)

  insert-perm : (a : A) (xs : List A) → Perm (insert a xs) (a ∷ xs)
  unfolding insert
  insert-perm a [] = Perm.refl (a ∷ [])
  insert-perm a (x ∷ xs) = ground (
    arith,
    Perm.refl (a ∷ x ∷ xs),
    Perm.trans (Perm.cons x (insert-perm a xs)) (Perm.swap a x xs),
  )

  pub sort_by-perm : (xs : List A) → Perm (sort_by xs) xs
  unfolding sort_by
  sort_by-perm [] = Perm.refl []
  sort_by-perm (x ∷ xs) = Perm.trans (insert-perm x (sort_by xs)) (Perm.cons x (sort_by-perm xs))

  insert_comm :
      (a b : A) (xs : List A) → key a ≢ key b → insert a (insert b xs) ≡ insert b (insert a xs)
  unfolding insert
  insert_comm a b [] h = ground (arith, o.total (key a) (key b), o.antisymm (key a) (key b))
  insert_comm a b (x ∷ xs) h = ground (
    arith,
    o.total (key a) (key b),
    o.antisymm (key a) (key b),
    o.total (key a) (key x),
    o.total (key b) (key x),
    o.trans (key a) (key x) (key b),
    o.trans (key b) (key x) (key a),
    o.trans (key a) (key b) (key x),
    o.trans (key b) (key a) (key x),
    insert_comm a b xs h,
  )

  swap_distinct : (a b : A) (xs : List A) → Nodup (map key (a ∷ b ∷ xs)) → key a ≢ key b
  swap_distinct a b xs d e = (Nodup-cons.0 d).0 (rw e mem-cons_self)

  sort_by-Permᴰ : (xs ys : List A) → Permᴰ xs ys → Nodup (map key xs) → sort_by xs ≡ sort_by ys
  unfolding sort_by
  sort_by-Permᴰ _ _ Permᴰ.nil d = refl
  sort_by-Permᴰ _ _ (Permᴰ.cons {a = a} {b = b} {l₁ = xs} {l₂ = ys} e p) d =
      rw (e, sort_by-Permᴰ xs ys p (Nodup-cons.0 d).1)
  sort_by-Permᴰ _ _ (Permᴰ.swap {a = a} {b = b} {a' = a'} {b' = b'} {l = xs} e f) d =
      insert_comm a b (sort_by xs) (swap_distinct a b xs d) ∙ rw (e, f)
  sort_by-Permᴰ _ _ (Permᴰ.trans {l₁ = xs} {l₂ = ys} {l₃ = zs} p q) d =
      sort_by-Permᴰ xs ys p d ∙ sort_by-Permᴰ ys zs q (Perm.nodup (Perm.map key ∣ p ∣₁) d)

  -- With distinct keys the sorted list does not depend on the order of the input.
  pub sort_by-eq_of_perm :
      IsSet (List A) → (xs ys : List A) → Perm xs ys → Nodup (map key xs) → sort_by xs ≡ sort_by ys
  sort_by-eq_of_perm set xs ys p d =
      ∥∥₁_elim p (set (sort_by xs) (sort_by ys)) (λ q. sort_by-Permᴰ xs ys q d)

  length-insert : (a : A) (xs : List A) → length (insert a xs) ≡ suc (length xs)
  unfolding insert
  length-insert a [] = refl
  length-insert a (x ∷ xs) = ground (arith, length-insert a xs)

  pub length-sort_by : (xs : List A) → length (sort_by xs) ≡ length xs
  unfolding sort_by
  length-sort_by [] = refl
  length-sort_by (x ∷ xs) = length-insert x (sort_by xs) ∙ ap suc (length-sort_by xs)
