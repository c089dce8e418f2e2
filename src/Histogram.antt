-- ===== src/Histogram.antt =====
-- src/core/histogram.cc and src/include/smf/histogram.h, over the HDR histogram of a library.
pub mod Merge
mod Tests
use native.Mathlib.Nat.{mul-suc}
use smf.Prelude.{
  ℕ, zero, suc, ◌+◌, ◌*◌, ◌%◌, ◌^◌, ◌<◌, ◌≤◌, ◌≡◌, refl, ap, sym, ◌∙◌, List, [], ◌∷◌, arith, length,
  take,
}

-- `hdr_init`, `hdr_record_values`, `hdr_record_corrected_value`, `hdr_add`, for histograms of one
-- range and precision, and what `hdr_iter_next` brings for the first value 10 and the
-- base 2: pairs of `cumulative_count` and `value_iterated_to`.
pub record Hdr (H : Type 0) : Type 0 where
  pub init : H
  pub record_corrected_value : (value interval : ℕ) → H → H
  pub record_values : (value times : ℕ) → H → H
  pub add : H → H → H
  pub iteration : H → List (ℕ × ℕ)
  -- A value can be recorded one by one.
  pub record_values-zero : (v : ℕ) (h : H) → record_values v 0 h ≡ h
  pub record_values-suc :
      (v n : ℕ) (h : H) → record_values v (suc n) h ≡ record_values v n (record_values v 1 h)
  -- Adding is adding the counts of each value.
  pub add-init : (h : H) → add h init ≡ h
  pub add-record_values :
      (v n : ℕ) (g h : H) → add g (record_values v n h) ≡ record_values v n (add g h)

pub record Histogram (H : Type 0) : Type 0 where
  pub hist : H
  pub sample_count : ℕ
  pub sample_sum : ℕ

module _ {H : Type 0} (hdr : Hdr H) where
  unfoldable pub record_once : ℕ → Histogram H → Histogram H
  record_once v h = record {
    hist = hdr.record_values v 1 h.hist;
    sample_count = (h.sample_count + 1) % 2 ^ 64;
    sample_sum = (h.sample_sum + v) % 2 ^ 64;
  }

  unfoldable pub record_multiple_times : (v times : ℕ) → Histogram H → Histogram H
  record_multiple_times v times h = record {
    hist = hdr.record_values v times h.hist;
    sample_count = (h.sample_count + times) % 2 ^ 64;
    sample_sum = (h.sample_sum + v * times % 2 ^ 64) % 2 ^ 64;
  }

  unfoldable pub record_corrected : (v interval : ℕ) → Histogram H → Histogram H
  record_corrected v interval h = record {
    hist = hdr.record_corrected_value v interval h.hist;
    sample_count = (h.sample_count + 1) % 2 ^ 64;
    sample_sum = (h.sample_sum + v) % 2 ^ 64;
  }

  -- `make_unique` and `make_lw_shared`, of the default range.
  unfoldable pub make : Histogram H
  make = record { hist = hdr.init; sample_count = 0; sample_sum = 0 }

  -- `operator+=`: the samples are not added.
  unfoldable pub merge : Histogram H → Histogram H → Histogram H
  merge o h = record h { hist = hdr.add h.hist o.hist }

-- The loop that pads: the count stays, the bound doubles.
padded : (slots count bound : ℕ) → List (ℕ × ℕ)
padded zero count bound = []
padded (suc n) count bound = (count, bound) ∷ padded n count (bound * 2)

-- The loop that fills `slots` buckets from the iteration, then the other one; `count` and `bound`
-- are what the padding starts with if the iteration ends here.
unfoldable pub filled : (slots count bound : ℕ) → List (ℕ × ℕ) → List (ℕ × ℕ)
unfolding padded
filled zero count bound its = []
filled (suc n) count bound [] = padded (suc n) count bound
filled (suc n) count bound ((c, b) ∷ its) = (c, b) ∷ filled n c (b * 2) its

abbrev num_buckets : ℕ
num_buckets = 26

-- The buckets, with their counts and upper bounds. A padded bound is at most 10 * 2 ^ 26.
unfoldable pub seastar_histogram_logform : {H : Type 0} → Hdr H → Histogram H → List (ℕ × ℕ)
unfolding filled
seastar_histogram_logform hdr h = filled num_buckets 0 10 (hdr.iteration h.hist)

module _ {H : Type 0} (hdr : Hdr H) where
  unfoldable pub repeatedly : (v n : ℕ) → Histogram H → Histogram H
  unfolding record_once
  repeatedly v zero h = h
  repeatedly v (suc n) h = repeatedly v n (record_once hdr v h)

  times_suc :
      (v n : ℕ) (h : Histogram H)
      → record_multiple_times hdr v (suc n) h ≡ record_multiple_times hdr v n (record_once hdr v h)
  unfolding record_multiple_times record_once
  times_suc v n h =
      let product : v * suc n ≡ v + v * n = omega (arith, mul-suc v n) in
      ground (arith, hdr.record_values-suc v n h.hist, product)

  -- Recording a value a number of times at once is recording it that often one by one, the wrapping
  -- count and sum included, where count and sum fit 64 bits before.
  pub record_multiple_times-repeatedly :
      (v n : ℕ) (h : Histogram H)
      → h.sample_count < 2 ^ 64
      → h.sample_sum < 2 ^ 64
      → record_multiple_times hdr v n h ≡ repeatedly v n h
  unfolding record_multiple_times repeatedly record_once
  record_multiple_times-repeatedly v zero h a b = ground (arith, hdr.record_values-zero v h.hist)
  record_multiple_times-repeatedly v (suc n) h a b =
      times_suc v n h
      ∙ record_multiple_times-repeatedly v n (record_once hdr v h) (omega arith) (omega arith)

-- Counts that do not fall and bounds that grow, from a first pair on.
abbrev pub Ascends : (count bound : ℕ) → List (ℕ × ℕ) → Type 0
Ascends count bound [] = Unit {0}
Ascends count bound ((c, b) ∷ xs) = (count ≤ c) × (bound < b) × Ascends c b xs

length-padded : (n count bound : ℕ) → length (padded n count bound) ≡ n
unfolding padded
length-padded zero count bound = refl
length-padded (suc n) count bound = ground (arith, length-padded n count (bound * 2))

length-filled : (n c b : ℕ) (its : List (ℕ × ℕ)) → length (filled n c b its) ≡ n
unfolding filled
length-filled zero c b its = refl
length-filled (suc n) c b [] = length-padded (suc n) c b
length-filled (suc n) c b ((d, e) ∷ its) = ground (arith, length-filled n d (e * 2) its)

take-filled : (n c b : ℕ) (its : List (ℕ × ℕ)) → take (length its) (filled n c b its) ≡ take n its
unfolding filled
take-filled zero c b [] = refl
take-filled zero c b (x ∷ its) = refl
take-filled (suc n) c b [] = refl
take-filled (suc n) c b ((d, e) ∷ its) = ap (λ xs. (d, e) ∷ xs) (take-filled n d (e * 2) its)

padded-Ascends : (n c b : ℕ) → 0 < b → Ascends c b (padded n c (b * 2))
unfolding padded
padded-Ascends zero c b h = tt
padded-Ascends (suc n) c b h = (omega arith, omega arith, padded-Ascends n c (b * 2) (omega arith))

filled-Ascends :
    (n c b : ℕ) (its : List (ℕ × ℕ))
    → 0 < b
    → Ascends c b its
    → Ascends c b (filled n c (b * 2) its)
unfolding filled
filled-Ascends zero c b its h a = tt
filled-Ascends (suc n) c b [] h a = padded-Ascends (suc n) c b h
filled-Ascends (suc n) c b ((d, e) ∷ its) h a =
    (a.0, a.1, filled-Ascends n d e its (omega (arith, a.1)) a.2)

-- Where the iteration of the HDR histogram has counts that do not fall and bounds that grow from 5
-- on, the log form has 26 buckets, starts with the buckets of the iteration, up to 26 of them, and
-- goes on with counts that do not fall and bounds that grow.
pub logform-buckets :
    {H : Type 0} (hdr : Hdr H) (h : Histogram H)
    → Ascends 0 5 (hdr.iteration h.hist)
    → let buckets = seastar_histogram_logform hdr h in
      (length buckets ≡ 26)
      × (take (length (hdr.iteration h.hist)) buckets ≡ take 26 (hdr.iteration h.hist))
      × Ascends 0 5 buckets
unfolding seastar_histogram_logform
logform-buckets hdr h a = (
  length-filled 26 0 10 (hdr.iteration h.hist),
  take-filled 26 0 10 (hdr.iteration h.hist),
  filled-Ascends 26 0 5 (hdr.iteration h.hist) (omega arith) a,
)
