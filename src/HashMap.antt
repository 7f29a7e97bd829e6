-- ===== src/HashMap.antt =====
-- `std::collections::HashMap` as an association list: what a lookup, an insertion, a removal and a
-- `retain` do, and that the keys stay distinct. The order of the list stands for the unspecified
-- order of iteration.
use mathlib.Core.List.{Mem, Nodup, Nodup-nil, Nodup-cons, mem-cons, mem-cons_of_mem, not-mem-nil}
use mathlib.Core.Logic.Or
use mathlib.Core.HLevel.{⊥_prop}
use kotatsu_backend.Prelude.{
  ◌+◌, ◌≤◌, ◌≡◌, refl, ◌≢◌, Bool, true, false, List, [], ◌∷◌, Option, none, some, arith,
  if◌then◌else◌, Eq, ◌==◌, ==_refl, length, map, subst, sym, eq_of_==, inl, inr, Bool-cases,
}

abbrev pub HashMap : Type 0 → Type 0 → Type 0
HashMap K V = List (K × V)

module _ {K : Type 0} ⦃e : Eq K⦄ {V : Type 0} where
  unfoldable pub lookup : K → HashMap K V → Option V
  lookup key [] = none
  lookup key ((key', value) ∷ rest) = if key' == key then some value else lookup key rest

  unfoldable pub contains_key : K → HashMap K V → Bool
  unfolding lookup
  contains_key key m = elim (lookup key m) [ none ↦ false | some _ ↦ true ]

  -- A present key has its value replaced where it stands.
  unfoldable pub insert : K → V → HashMap K V → HashMap K V
  insert key value [] = (key, value) ∷ []
  insert key value ((key', old) ∷ rest) =
      if key' == key then (key, value) ∷ rest else (key', old) ∷ insert key value rest

  unfoldable pub remove : K → HashMap K V → HashMap K V
  remove key [] = []
  remove key ((key', old) ∷ rest) =
      if key' == key then remove key rest else (key', old) ∷ remove key rest

  -- `retain` with a test on the value.
  unfoldable pub retain : (V → Bool) → HashMap K V → HashMap K V
  retain keep [] = []
  retain keep ((key, value) ∷ rest) =
      if keep value then (key, value) ∷ retain keep rest else retain keep rest

  pub lookup-insert :
      (written read : K) (value : V) (m : HashMap K V)
      → lookup read (insert written value m)
        ≡ (if written == read then some value else lookup read m)
  unfolding lookup insert
  lookup-insert written read value [] = refl
  lookup-insert written read value ((key, old) ∷ rest) = ground (
    arith,
    lookup-insert written read value rest,
    e.beq_iff key written,
    e.beq_iff key read,
    e.beq_iff written read,
  )

  pub lookup-insert_self :
      (key : K) (value : V) (m : HashMap K V) → lookup key (insert key value m) ≡ some value
  lookup-insert_self key value m = rw (lookup-insert, ==_refl key)

  pub lookup-insert_ne :
      (k j : K) (v : V) (m : HashMap K V) → k ≢ j → lookup j (insert k v m) ≡ lookup j m
  lookup-insert_ne k j v m h = ground (arith, lookup-insert k j v m, e.beq_iff k j)

  pub lookup-remove :
      (k j : K) (m : HashMap K V) → lookup j (remove k m) ≡ (if k == j then none else lookup j m)
  unfolding lookup remove
  lookup-remove k j [] = ground arith
  lookup-remove k j ((i, w) ∷ m) =
      ground (arith, e.beq_iff k j, e.beq_iff i k, e.beq_iff i j, lookup-remove k j m)

  pub lookup-remove_self : (k : K) (m : HashMap K V) → lookup k (remove k m) ≡ none
  lookup-remove_self k m = rw (lookup-remove, ==_refl k)

  -- No key is listed twice.
  abbrev pub IsMap : HashMap K V → Type 0
  IsMap [] = Unit
  IsMap ((k, v) ∷ m) = (lookup k m ≡ none) × IsMap m

  pub insert-IsMap : (k : K) (v : V) (m : HashMap K V) → IsMap m → IsMap (insert k v m)
  unfolding lookup insert
  insert-IsMap k v [] h = (refl, tt)
  insert-IsMap k v ((i, w) ∷ m) h =
      ground (arith, e.beq_iff i k, e.beq_iff k i, lookup-insert k i v m, insert-IsMap k v m h.1)

  pub remove-IsMap : (k : K) (m : HashMap K V) → IsMap m → IsMap (remove k m)
  unfolding lookup remove
  remove-IsMap k [] h = tt
  remove-IsMap k ((i, w) ∷ m) h =
      ground (arith, e.beq_iff k i, lookup-remove k i m, remove-IsMap k m h.1)

  pub lookup-retain-none :
      (p : V → Bool) (k : K) (m : HashMap K V) → lookup k m ≡ none → lookup k (retain p m) ≡ none
  unfolding lookup retain
  lookup-retain-none p k [] h = refl
  lookup-retain-none p k ((i, w) ∷ m) h = ground (arith, lookup-retain-none p k m)

  pub retain-IsMap : (p : V → Bool) (m : HashMap K V) → IsMap m → IsMap (retain p m)
  unfolding lookup retain
  retain-IsMap p [] h = tt
  retain-IsMap p ((i, w) ∷ m) h = ground (arith, retain-IsMap p m h.1, lookup-retain-none p i m h.0)

  pub lookup-retain :
      (p : V → Bool) (k : K) (m : HashMap K V)
      → IsMap m
      → lookup k (retain p m)
        ≡ elim (lookup k m) [ none ↦ none | some v ↦ if p v then some v else none ]
  unfolding lookup retain
  lookup-retain p k [] h = refl
  lookup-retain p k ((i, w) ∷ m) h =
      ground (arith, e.beq_iff i k, lookup-retain p k m h.1, lookup-retain-none p i m h.0)

  pub length-insert :
      (k : K) (v : V) (m : HashMap K V)
      → length (insert k v m) ≡ (if contains_key k m then length m else length m + 1)
  unfolding insert contains_key
  length-insert k v [] = omega arith
  length-insert k v ((i, w) ∷ m) = ground (arith, length-insert k v m)

  pub length-remove-le : (k : K) (m : HashMap K V) → length (remove k m) ≤ length m
  unfolding remove
  length-remove-le k [] = omega arith
  length-remove-le k ((i, w) ∷ m) = ground (arith, length-remove-le k m)

  -- Every value satisfies the predicate.
  abbrev pub AllValues : (V → Type 0) → HashMap K V → Type 0
  AllValues P [] = Unit
  AllValues P ((k, v) ∷ m) = P v × AllValues P m

  module _ (P : V → Type 0) where
    pub insert-AllValues :
        (k : K) (v : V) (m : HashMap K V) → AllValues P m → P v → AllValues P (insert k v m)
    unfolding insert
    insert-AllValues k v [] h p = (p, tt)
    insert-AllValues k v ((i, w) ∷ m) h p = ground (arith, insert-AllValues k v m h.1 p)

    pub remove-AllValues : (k : K) (m : HashMap K V) → AllValues P m → AllValues P (remove k m)
    unfolding remove
    remove-AllValues k [] h = tt
    remove-AllValues k ((i, w) ∷ m) h = ground (arith, remove-AllValues k m h.1)

    pub retain-AllValues :
        (p : V → Bool) (m : HashMap K V) → AllValues P m → AllValues P (retain p m)
    unfolding retain
    retain-AllValues p [] h = tt
    retain-AllValues p ((i, w) ∷ m) h = ground (arith, retain-AllValues p m h.1)

    pub lookup-AllValues :
        (k : K) (v : V) (m : HashMap K V) → AllValues P m → lookup k m ≡ some v → P v
    unfolding lookup
    lookup-AllValues k v [] h q = cc
    lookup-AllValues k v ((i, w) ∷ m) h q = elim (Bool-cases (i == k)) [
      | inl hit ↦ subst P (ground arith) h.0
      | inr miss ↦ lookup-AllValues k v m h.1 (rw miss at q)
    ]

  pub lookup-none_not-mem :
      (k : K) (m : HashMap K V) → lookup k m ≡ none → ¬ Mem k (map (λ e. e.0) m)
  unfolding lookup
  lookup-none_not-mem k [] h q = not-mem-nil q
  lookup-none_not-mem k ((i, w) ∷ m) h q =
      Or.elim ⊥_prop (mem-cons.0 q) (λ hit. ground (arith, e.beq_iff i k))
        (lookup-none_not-mem k m (ground arith))

  -- The keys of a map are distinct as a list.
  pub IsMap-Nodup : (m : HashMap K V) → IsMap m → Nodup (map (λ e. e.0) m)
  IsMap-Nodup [] h = Nodup-nil
  IsMap-Nodup ((i, w) ∷ m) h = Nodup-cons.1 (lookup-none_not-mem i m h.0, IsMap-Nodup m h.1)

  pub contains_key-insert :
      (k j : K) (v : V) (m : HashMap K V)
      → contains_key j m ≡ true
      → contains_key j (insert k v m) ≡ true
  unfolding contains_key
  contains_key-insert k j v m h = ground (arith, lookup-insert k j v m)

  pub length-insert_old :
      (k : K) (v w : V) (m : HashMap K V) → lookup k m ≡ some w → length (insert k v m) ≡ length m
  unfolding contains_key
  length-insert_old k v w m h = ground (arith, length-insert k v m)

  -- Writing back what was read changes nothing.
  pub insert_same : (k : K) (v : V) (m : HashMap K V) → lookup k m ≡ some v → insert k v m ≡ m
  unfolding lookup insert
  insert_same k v [] h = cc
  insert_same k v ((i, w) ∷ m) h = ground (arith, e.beq_iff i k, insert_same k v m)

  pub AllValues-imp :
      (P Q : V → Type 0) (m : HashMap K V) → ((v : V) → P v → Q v) → AllValues P m → AllValues Q m
  AllValues-imp P Q [] f h = tt
  AllValues-imp P Q ((i, w) ∷ m) f h = (f w h.0, AllValues-imp P Q m f h.1)

  pub lookup-some_mem :
      (k : K) (v : V) (m : HashMap K V) → lookup k m ≡ some v → Mem k (map (λ e. e.0) m)
  unfolding lookup
  lookup-some_mem k v [] h = absurd (ground arith)
  lookup-some_mem k v ((i, w) ∷ m) h = elim (Bool-cases (i == k)) [
    | inl hit ↦ mem-cons.1 (Or.inl (sym (eq_of_== i k hit)))
    | inr miss ↦ mem-cons_of_mem i (lookup-some_mem k v m (rw miss at h))
  ]
