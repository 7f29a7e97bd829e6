-- ===== src/RemoteRtt/Summary.antt =====
-- The report of remote-rtt: `summarize`, and the end of `main`, which calls it. Floating point
-- arithmetic is an interface; `none` is the panic of an index out of range.
use kotatsu_backend.Prelude.{ℕ, ◌+◌, ◌-◌, ◌/◌, List, [], ◌∷◌, Option, none, some, length, get_elem?}
use kotatsu_backend.Prelude.Order.{Order}
use kotatsu_backend.Realtime.Layout.{unwrap_or}
use kotatsu_backend.RemoteRtt.Measure.{SampleStats}
use kotatsu_backend.Sort.{sort_by}

-- `f64`: its sum of a slice, its division by a count, and
-- `(n as f64 * 0.95).round() as usize`. The order is that of `f64::total_cmp`.
pub record Float (F64 : Type 0) : Type 0 where
  pub zero : F64
  pub sum : List F64 → F64
  pub div_by_count : F64 → ℕ → F64
  pub round_95_percent : ℕ → ℕ

pub record Report (F64 : Type 0) : Type 0 where
  pub received : ℕ
  pub total : ℕ
  pub lost : ℕ
  pub min : F64
  pub mean : F64
  pub median : F64
  pub p95 : F64
  pub max : F64

-- What is printed at the end.
pub data Printed (F64 : Type 0) : Type 0 where
  no_samples : ℕ → ℕ → Printed F64
  summary : Report F64 → Printed F64

abbrev pub last : {A : Type 0} → List A → Option A
last xs = get_elem? xs (length xs - 1)

abbrev pub sorted_values : {F64 : Type 0} ⦃total_cmp : Order F64⦄ → List F64 → List F64
sorted_values values = sort_by (λ v. v) values

module _ {F64 : Type 0} ⦃total_cmp : Order F64⦄ (float : Float F64) where
  unfoldable pub summarize : List F64 → ℕ → Option (Report F64)
  summarize values lost =
      let sorted = sorted_values values in
      let n = length sorted in
      elim (get_elem? sorted (n / 2)) [
        | none ↦ none
        | some median ↦ elim (get_elem? sorted (float.round_95_percent (n - 1))) [
          | none ↦ none
          | some p95 ↦ some record {
            received = length values;
            total = length values + lost;
            lost = lost;
            min = unwrap_or (get_elem? sorted 0) float.zero;
            mean = float.div_by_count (float.sum sorted) n;
            median = median;
            p95 = p95;
            max = unwrap_or (last sorted) float.zero;
          }
        ]
      ]

  unfoldable pub print_summary : ℕ → SampleStats F64 → Option (Printed F64)
  print_summary samples stats = elim stats.delivered [
    | [] ↦ some (Printed.no_samples samples stats.lost)
    | value ∷ rest ↦ elim (summarize (value ∷ rest) stats.lost) [
      | none ↦ none
      | some report ↦ some (Printed.summary report)
    ]
  ]
