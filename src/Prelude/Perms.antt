-- ===== src/Prelude/Perms.antt =====
-- Permutations and lists without repetition, over the native numbers.
use mathlib.Core.Path.{◌≡◌, refl, sym, subst, ap, ◌∙◌}
use mathlib.Core.Logic.{∥∥₁_elim, ∥∥₁_map, inl, inr}
use mathlib.Core.Bool.{Bool}
use kotatsu_backend.Prelude.Tests.{Bool-cases}
use mathlib.Core.Option.{some}
use mathlib.Core.List.{
  List, [], ◌∷◌, Mem, Nodup, Nodup-nil, Nodup-cons, Perm, Permᴰ, mem-cons, mem-cons_self,
  mem-cons_of_mem, not-mem-nil,
}
use mathlib.Core.List.{Mem-prop}
use mathlib.Core.List.Permᴰ
use mathlib.Core.Logic.Or
use native.Mathlib.Nat.{ℕ_set}
use native.Mathlib.Omega.{arith}
use Prim.Native.Nat.{ℕ, zero, suc, ◌<◌, min}
use kotatsu_backend.Prelude.Lists.{length, filter, get_elem?, take, All}

module _ {A : Type 0} where
  length-Permᴰ : (xs ys : List A) → Permᴰ xs ys → length xs ≡ length ys
  length-Permᴰ _ _ Permᴰ.nil = refl
  length-Permᴰ _ _ (Permᴰ.cons {l₁ = xs} {l₂ = ys} e p) = ap suc (length-Permᴰ xs ys p)
  length-Permᴰ _ _ (Permᴰ.swap e f) = refl
  length-Permᴰ _ _ (Permᴰ.trans {l₁ = xs} {l₂ = ys} {l₃ = zs} p q) =
      length-Permᴰ xs ys p ∙ length-Permᴰ ys zs q

  pub length-perm : (xs ys : List A) → Perm xs ys → length xs ≡ length ys
  length-perm xs ys p = ∥∥₁_elim p (ℕ_set _ _) (length-Permᴰ xs ys)

  pub get_elem?-Mem : (xs : List A) (i : ℕ) (a : A) → get_elem? xs i ≡ some a → Mem a xs
  get_elem?-Mem [] i a h = absurd (ground arith)
  get_elem?-Mem (x ∷ xs) zero a h = let e : a ≡ x = ground arith in rw e mem-cons_self
  get_elem?-Mem (x ∷ xs) (suc i) a h = mem-cons_of_mem x (get_elem?-Mem xs i a h)

  pub get_elem?_inj :
      (xs : List A) (i j : ℕ) (a : A)
      → Nodup xs
      → get_elem? xs i ≡ some a
      → get_elem? xs j ≡ some a
      → i ≡ j
  get_elem?_inj [] i j a d h k = absurd (ground arith)
  get_elem?_inj (x ∷ xs) zero zero a d h k = refl
  get_elem?_inj (x ∷ xs) zero (suc j) a d h k =
      let e : x ≡ a = ground arith in absurd ((Nodup-cons.0 d).0 (rw e (get_elem?-Mem xs j a k)))
  get_elem?_inj (x ∷ xs) (suc i) zero a d h k =
      let e : x ≡ a = ground arith in absurd ((Nodup-cons.0 d).0 (rw e (get_elem?-Mem xs i a h)))
  get_elem?_inj (x ∷ xs) (suc i) (suc j) a d h k =
      ap suc (get_elem?_inj xs i j a (Nodup-cons.0 d).1 h k)

  pub get_elem?_total : (xs : List A) (i : ℕ) → i < length xs → (a : A) × (get_elem? xs i ≡ some a)
  get_elem?_total [] i h = elim h [ ]
  get_elem?_total (x ∷ xs) zero h = (x, refl)
  get_elem?_total (x ∷ xs) (suc i) h = get_elem?_total xs i (omega arith)

  pub take-Mem : (n : ℕ) (xs : List A) (a : A) → Mem a (take n xs) → Mem a xs
  take-Mem zero xs a h = absurd (not-mem-nil h)
  take-Mem (suc n) [] a h = h
  take-Mem (suc n) (x ∷ xs) a h =
      Or.elim Mem-prop (mem-cons.0 h) (λ e. mem-cons.1 (Or.inl e))
        (λ m. mem-cons_of_mem x (take-Mem n xs a m))

  pub take-Nodup : (n : ℕ) (xs : List A) → Nodup xs → Nodup (take n xs)
  take-Nodup zero xs d = Nodup-nil
  take-Nodup (suc n) [] d = d
  take-Nodup (suc n) (x ∷ xs) d =
      let (p, q) = Nodup-cons.0 d in Nodup-cons.1 (λ m. p (take-Mem n xs x m), take-Nodup n xs q)

  pub length-take : (n : ℕ) (xs : List A) → length (take n xs) ≡ min n (length xs)
  length-take zero xs = omega arith
  length-take (suc n) [] = omega arith
  length-take (suc n) (x ∷ xs) = omega (arith, length-take n xs)

  -- What holds of a whole list holds of its elements.
  pub All-Mem {κ} :
      (P : A → Type κ)
      → ((a : A) → IsProp (P a))
      → (xs : List A) (a : A) → All P xs
      → Mem a xs
      → P a
  All-Mem P prop [] a h m = absurd (not-mem-nil m)
  All-Mem P prop (x ∷ xs) a h m =
      Or.elim (prop a) (mem-cons.0 m) (λ e. subst P (sym e) h.0) (All-Mem P prop xs a h.1)

  pub All-of_Mem {κ} : (P : A → Type κ) (xs : List A) → ((a : A) → Mem a xs → P a) → All P xs
  All-of_Mem P [] h = tt
  All-of_Mem P (x ∷ xs) h = (h x mem-cons_self, All-of_Mem P xs (λ a m. h a (mem-cons_of_mem x m)))

  pub get_elem?-lt : (xs : List A) (i : ℕ) (a : A) → get_elem? xs i ≡ some a → i < length xs
  get_elem?-lt [] i a h = absurd (ground arith)
  get_elem?-lt (x ∷ xs) zero a h = omega arith
  get_elem?-lt (x ∷ xs) (suc i) a h = omega (arith, get_elem?-lt xs i a h)

module _ {A : Type 0} (p : A → Bool) where
  filter-swap : (a b : A) (xs : List A) → Permᴰ (filter p (a ∷ b ∷ xs)) (filter p (b ∷ a ∷ xs))
  filter-swap a b xs = elim (Bool-cases (p a)) [
    | inl s ↦ elim (Bool-cases (p b)) [
      | inl t ↦ rw (s, t) (Permᴰ.swap refl refl)
      | inr t ↦ rw (s, t) (Permᴰ.refl (a ∷ filter p xs))
    ]
    | inr s ↦ elim (Bool-cases (p b)) [
      | inl t ↦ rw (s, t) (Permᴰ.refl (b ∷ filter p xs))
      | inr t ↦ rw (s, t) (Permᴰ.refl (filter p xs))
    ]
  ]

  filter-Permᴰ : (xs ys : List A) → Permᴰ xs ys → Permᴰ (filter p xs) (filter p ys)
  filter-Permᴰ _ _ Permᴰ.nil = Permᴰ.nil
  filter-Permᴰ _ _ (Permᴰ.cons {a = a} {b = b} {l₁ = xs} {l₂ = ys} e q) =
      rw e (elim (Bool-cases (p b)) [
        | inl t ↦ rw t (Permᴰ.cons refl (filter-Permᴰ xs ys q))
        | inr t ↦ rw t (filter-Permᴰ xs ys q)
      ])
  filter-Permᴰ _ _ (Permᴰ.swap {a = a} {b = b} {a' = a'} {b' = b'} {l = xs} e f) =
      rw (e, f) (filter-swap b' a' xs)
  filter-Permᴰ _ _ (Permᴰ.trans {l₁ = xs} {l₂ = ys} {l₃ = zs} q r) =
      Permᴰ.trans (filter-Permᴰ xs ys q) (filter-Permᴰ ys zs r)

  pub filter-perm : (xs ys : List A) → Perm xs ys → Perm (filter p xs) (filter p ys)
  filter-perm xs ys q = ∥∥₁_map q (filter-Permᴰ xs ys)
