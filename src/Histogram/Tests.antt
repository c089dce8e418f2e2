-- ===== src/Histogram/Tests.antt =====
-- Histograms over a list of the values.
use mathlib.Core.List.{flatten}
use smf.Prelude.{ℕ, zero, suc, ◌≡◌, refl, List, [], ◌∷◌, ◌++◌, map, length, take, arith}
use smf.Histogram.Merge.{record_all, add_all, core, cores-merge}
use smf.Histogram.{
  make, Hdr, Histogram, record_multiple_times, repeatedly, record_multiple_times-repeatedly,
  seastar_histogram_logform, Ascends, logform-buckets,
}

repeat : ℕ → ℕ → List ℕ → List ℕ
repeat v zero xs = xs
repeat v (suc n) xs = repeat v n (v ∷ xs)

repeat-zero : (v : ℕ) (xs : List ℕ) → repeat v 0 xs ≡ xs
unfolding repeat
repeat-zero v xs = refl

repeat-suc : (v n : ℕ) (xs : List ℕ) → repeat v (suc n) xs ≡ repeat v n (repeat v 1 xs)
unfolding repeat
repeat-suc v n xs = refl

append-init : (xs : List ℕ) → [] ++ xs ≡ xs
append-init xs = refl

append-repeat : (v n : ℕ) (xs ys : List ℕ) → repeat v n ys ++ xs ≡ repeat v n (ys ++ xs)
unfolding repeat
append-repeat v zero xs ys = refl
append-repeat v (suc n) xs ys = append-repeat v n xs (v ∷ ys)

-- Two buckets, whatever was recorded.
abbrev two_buckets : Hdr (List ℕ)
two_buckets = record {
  record_values = repeat;
  add = λ xs ys. ys ++ xs;
  iteration = λ xs. (1, 10) ∷ (3, 20) ∷ [];
  record_values-zero = repeat-zero;
  record_values-suc = repeat-suc;
  init = [];
  record_corrected_value = λ v interval xs. v ∷ xs;
  add-init = append-init;
  add-record_values = append-repeat;
}

abbrev three_samples : Histogram (List ℕ)
three_samples = record { hist = 12 ∷ 7 ∷ 13 ∷ []; sample_count = 3; sample_sum = 32 }

record_multiple_times-repeatedly_example :
    record_multiple_times two_buckets 9 4 three_samples ≡ repeatedly two_buckets 9 4 three_samples
record_multiple_times-repeatedly_example =
    record_multiple_times-repeatedly two_buckets 9 4 three_samples (omega arith) (omega arith)

logform-buckets_example :
    let buckets = seastar_histogram_logform two_buckets three_samples in
    (length buckets ≡ 26) × (take 2 buckets ≡ (1, 10) ∷ (3, 20) ∷ []) × Ascends 0 5 buckets
logform-buckets_example =
    logform-buckets two_buckets three_samples
      (omega arith, omega arith, (omega arith, omega arith, tt))

abbrev of_cores : List (List ℕ)
of_cores = (12 ∷ 7 ∷ []) ∷ [] ∷ (30 ∷ []) ∷ []

cores-merge_example :
    let merged = add_all two_buckets (map (core two_buckets) of_cores) (make two_buckets) in
    (merged.hist ≡ (record_all two_buckets (flatten of_cores) (make two_buckets)).hist)
    × (merged.sample_count ≡ 0)
cores-merge_example = cores-merge two_buckets of_cores
