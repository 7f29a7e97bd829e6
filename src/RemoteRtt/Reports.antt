-- ===== src/RemoteRtt/Reports.antt =====
-- What remote-rtt prints at the end, over any floating point arithmetic whose 95 percent of a count,
-- rounded, is at most the count.
use mathlib.Core.Bool.{Bool-set}
use mathlib.Core.List.{Mem}
use mathlib.Core.List.Perm
use kotatsu_backend.Prelude.{
  ℕ, suc, ◌+◌, ◌-◌, ◌/◌, ◌≤◌, ◌<◌, ◌≡◌, refl, subst, Bool, true, List, [], ◌∷◌, some, length,
  get_elem?, arith, All, inl, inr,
}
use kotatsu_backend.Prelude.Perms.{All-of_Mem, All-Mem, get_elem?-Mem, get_elem?_total}
use kotatsu_backend.Prelude.Order.{Order}
use kotatsu_backend.RemoteRtt.Measure.{SampleStats}
use kotatsu_backend.RemoteRtt.Summary.{
  Float, Report, Printed, last, sorted_values, summarize, print_summary,
}
use kotatsu_backend.Sort.{IsSorted, sort_by-IsSorted, sort_by-perm, length-sort_by}

module _ {F64 : Type 0} ⦃total_cmp : Order F64⦄ where
  le_refl : (v : F64) → total_cmp.le v v ≡ true
  le_refl v = elim (total_cmp.total v v) [ inl h ↦ h | inr h ↦ h ]

  first-le :
      (values : List F64) (m : F64)
      → IsSorted (λ v. v) values
      → get_elem? values 0 ≡ some m
      → All (λ v. total_cmp.le m v ≡ true) values
  first-le [] m h e = tt
  first-le (v ∷ values) m h e =
      let same : v ≡ m = ground arith in
      subst (λ x. All (λ w. total_cmp.le x w ≡ true) (v ∷ values)) same (le_refl v, h.0)

  le-last :
      (values : List F64) (m : F64)
      → IsSorted (λ v. v) values
      → last values ≡ some m
      → All (λ v. total_cmp.le v m ≡ true) values
  le-last [] m h e = tt
  le-last (v ∷ []) m h e = let same : v ≡ m = ground arith in rw same (le_refl m, tt)
  le-last (v ∷ w ∷ values) m h e =
      let index : length (v ∷ w ∷ values) - 1 ≡ suc (length (w ∷ values) - 1) = omega arith in
      let behind = le-last (w ∷ values) m h.1 (rw index at e) in
      (total_cmp.trans v w m h.0.0 behind.0, behind)

  -- What holds of the sorted values holds of the values.
  All-of_sorted :
      (test : F64 → Bool) (values : List F64)
      → All (λ v. test v ≡ true) (sorted_values values)
      → All (λ v. test v ≡ true) values
  All-of_sorted test values h =
      All-of_Mem (λ v. test v ≡ true) values
        (λ v m.
          All-Mem (λ w. test w ≡ true) (λ w. Bool-set (test w) true) (sorted_values values) v h
            ((Perm.mem_iff (sort_by-perm (λ w. w) values)).1 m))

  -- The report counts what it is given, its least and greatest value bound the values, and its
  -- median and its 95 percent value are among them.
  abbrev pub IsReportOf : List F64 → ℕ → Report F64 → Type 0
  IsReportOf values lost report =
      (report.received ≡ length values)
      × (report.lost ≡ lost)
      × (report.total ≡ length values + lost)
      × All (λ v. total_cmp.le report.min v ≡ true) values
      × All (λ v. total_cmp.le v report.max ≡ true) values
      × Mem report.median values
      × Mem report.p95 values

  -- What is printed of the statistics.
  abbrev pub IsPrintedOf : ℕ → SampleStats F64 → Printed F64 → Type 0
  IsPrintedOf samples stats (Printed.no_samples n lost) =
      (stats.delivered ≡ []) × (n ≡ samples) × (lost ≡ stats.lost)
  IsPrintedOf samples stats (Printed.summary report) = IsReportOf stats.delivered stats.lost report

  module _ (float : Float F64) (round_le : (n : ℕ) → float.round_95_percent n ≤ n) where
    summarize-IsReportOf :
        (values : List F64) (lost : ℕ)
        → 0 < length values
        → (report : Report F64) × (summarize float values lost ≡ some report)
          × IsReportOf values lost report
    unfolding summarize
    summarize-IsReportOf values lost h =
        let sorted = sorted_values values in
        let n = length sorted in
        let positive : 0 < n = rw (length-sort_by (λ (v : F64). v) values) h in
        let (least, first_is) = get_elem?_total sorted 0 positive in
        let (greatest, last_is) = get_elem?_total sorted (n - 1) (omega arith) in
        let (median, median_is) = get_elem?_total sorted (n / 2) (omega arith) in
        let (p95, p95_is) =
          get_elem?_total sorted (float.round_95_percent (n - 1))
            (omega (arith, round_le (n - 1))) in
        let ordered = sort_by-IsSorted (λ (v : F64). v) values in
        let in_values = λ (v : F64) (m : Mem v sorted).
          (Perm.mem_iff (sort_by-perm (λ (w : F64). w) values)).0 m in
        (
          record {
            received = length values;
            total = length values + lost;
            lost = lost;
            min = least;
            mean = float.div_by_count (float.sum sorted) n;
            median = median;
            p95 = p95;
            max = greatest;
          },
          rw (median_is, p95_is, first_is, last_is, summarize) refl,
          (
            refl,
            refl,
            refl,
            All-of_sorted (λ v. total_cmp.le least v) values
                (first-le sorted least ordered first_is),
            All-of_sorted (λ v. total_cmp.le v greatest) values
                (le-last sorted greatest ordered last_is),
            in_values median (get_elem?-Mem sorted _ median median_is),
            in_values p95 (get_elem?-Mem sorted _ p95 p95_is),
          ),
        )

    -- If 95 percent of a count, rounded, is at most the count, the end of the tool never panics: with
    -- no sample delivered it prints that, and else a report that counts the samples delivered and
    -- lost, whose least and greatest time bound every time delivered, and whose median and 95
    -- percent time are times delivered.
    pub print_summary_lem :
        (samples : ℕ) (stats : SampleStats F64)
        → (printed : Printed F64) × (print_summary float samples stats ≡ some printed)
          × IsPrintedOf samples stats printed
    unfolding print_summary
    print_summary_lem samples stats = by_delivered stats.delivered refl
      where
        by_delivered :
            (delivered : List F64)
            → stats.delivered ≡ delivered
            → (printed : Printed F64) × (print_summary float samples stats ≡ some printed)
              × IsPrintedOf samples stats printed
        by_delivered [] e =
            (Printed.no_samples samples stats.lost, rw (e, print_summary) refl, (e, refl, refl))
        by_delivered (value ∷ rest) e =
            let (report, made, fair) =
              summarize-IsReportOf (value ∷ rest) stats.lost (omega arith) in
            (Printed.summary report, rw (e, made, print_summary) refl, rw e fair)
