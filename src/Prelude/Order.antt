-- ===== src/Prelude/Order.antt =====
-- `Ord` as an interface, and the order of texts. Rust compares the bytes of UTF-8, which order as
-- the code points do.
use Prim.Native.Nat.{Ordering}
use Prim.Native.String.{String, compare, ◌∷◌, []}
use Prim.Native.String.compare
use mathlib.Core.Path.{◌≡◌, refl}
use mathlib.Core.Logic.{◌⊎◌, inl, inr}
use mathlib.Core.Bool.{Bool, true}
use native.Mathlib.Omega.{arith}
use text.Mathlib.Text.{is_le}
use text.Mathlib.TextEquality.{path_by_compare}

pub record Order (A : Type 0) : Type 0 where
  pub le : A → A → Bool
  pub total : (a b : A) → (le a b ≡ true) ⊎ (le b a ≡ true)
  pub trans : (a b c : A) → le a b ≡ true → le b c ≡ true → le a c ≡ true
  pub antisymm : (a b : A) → le a b ≡ true → le b a ≡ true → a ≡ b

abbrev pub str_le : String → String → Bool
str_le s t = is_le (compare s t)

pub str_le_total : (s t : String) → (str_le s t ≡ true) ⊎ (str_le t s ≡ true)
str_le_total [] [] = inl refl
str_le_total [] (d ∷ t) = inl (rw compare.nil-cons)
str_le_total (c ∷ s) [] = inr (rw compare.nil-cons)
str_le_total (c ∷ s) (d ∷ t) =
    ground (arith, compare.cons-cons c d s t, compare.cons-cons d c t s, str_le_total s t)

pub str_le_trans : (s t u : String) → str_le s t ≡ true → str_le t u ≡ true → str_le s u ≡ true
str_le_trans [] [] u p q = q
str_le_trans [] (d ∷ t) [] p q = ground (arith, compare.cons-nil d t)
str_le_trans [] (d ∷ t) (b ∷ u) p q = rw compare.nil-cons
str_le_trans (c ∷ s) [] u p q = ground (arith, compare.cons-nil c s)
str_le_trans (c ∷ s) (d ∷ t) [] p q = ground (arith, compare.cons-nil d t)
str_le_trans (c ∷ s) (d ∷ t) (b ∷ u) p q = ground (
  arith,
  compare.cons-cons c d s t,
  compare.cons-cons d b t u,
  compare.cons-cons c b s u,
  str_le_trans s t u,
)

-- Two texts that stand in both orders compare as equal.
compare-eq_of_le :
    (s t : String) → str_le s t ≡ true → str_le t s ≡ true → compare s t ≡ Ordering.eq
compare-eq_of_le [] [] p q = refl
compare-eq_of_le [] (d ∷ t) p q = ground (arith, compare.cons-nil d t)
compare-eq_of_le (c ∷ s) [] p q = ground (arith, compare.cons-nil c s)
compare-eq_of_le (c ∷ s) (d ∷ t) p q =
    ground (arith, compare.cons-cons c d s t, compare.cons-cons d c t s, compare-eq_of_le s t)

pub str_le_antisymm : (s t : String) → str_le s t ≡ true → str_le t s ≡ true → s ≡ t
str_le_antisymm s t p q = path_by_compare s t (compare-eq_of_le s t p q)

instance abbrev pub String_order : Order String
String_order = record {
  le = str_le;
  total = str_le_total;
  trans = str_le_trans;
  antisymm = str_le_antisymm;
}
