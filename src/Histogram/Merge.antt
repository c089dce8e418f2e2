-- ===== src/Histogram/Merge.antt =====
-- src/include/smf/unique_histogram_adder.h, `rpc_server::copy_histogram` of src/core/rpc_server.cc
-- and the measures of src/include/smf/histogram.h: how the latencies of all cores come together.
use mathlib.Core.List.{flatten}
use smf.Prelude.{
  ℕ, ◌-◌, ◌/◌, ◌%◌, ◌^◌, ◌≡◌, refl, ap, sym, ◌∙◌, Bool, true, List, [], ◌∷◌, ◌++◌, map, Option,
  none, some, ltb, if◌then◌else◌,
}
use smf.Histogram.{Hdr, Histogram, record_once, make, merge}

-- A measure in ticks of the clock, which are nanoseconds.
pub record Measure : Type 0 where
  pub trace : Bool
  pub begin_t : ℕ

unfoldable pub auto_measure : (now : ℕ) → Measure
auto_measure now = record { trace = true; begin_t = now }

unfoldable pub set_trace : Bool → Measure → Measure
set_trace b m = record m { trace = b }

-- The clock may be set back: a negative duration is converted to uint64_t.
unfoldable pub microseconds : (now begin_t : ℕ) → ℕ
microseconds now begin_t =
    if ltb now begin_t
    then (2 ^ 64 - (begin_t - now) / 1000) % 2 ^ 64
    else (now - begin_t) / 1000 % 2 ^ 64

module _ {H : Type 0} (hdr : Hdr H) where
  -- The destructor of a measure.
  unfoldable pub end_measure : (now : ℕ) → Measure → Histogram H → Histogram H
  unfolding record_once microseconds
  end_measure now m h = if m.trace then record_once hdr (microseconds now m.begin_t) h else h

  unfoldable pub copy_histogram : Histogram H → Histogram H
  unfolding make merge
  copy_histogram h = merge hdr h (make hdr)

  -- `operator()`, on a pointer that may be null.
  unfoldable pub add_value : Option (Histogram H) → Histogram H → Histogram H
  unfolding merge
  add_value none result = result
  add_value (some value) result = merge hdr value result

  -- What `map_reduce` does with the values of the cores, in the order in which they come.
  unfoldable pub add_all : List (Option (Histogram H)) → Histogram H → Histogram H
  unfolding add_value
  add_all [] result = result
  add_all (v ∷ vs) result = add_all vs (add_value v result)

  unfoldable pub record_all : List ℕ → Histogram H → Histogram H
  unfolding record_once
  record_all [] h = h
  record_all (v ∷ vs) h = record_all vs (record_once hdr v h)

  -- The copy of a core that has recorded the values.
  abbrev pub core : List ℕ → Option (Histogram H)
  core vs = some (copy_histogram (record_all vs (make hdr)))

  -- The values in the order recorded, without the samples.
  recorded : List ℕ → H → H
  recorded [] h = h
  recorded (v ∷ vs) h = recorded vs (hdr.record_values v 1 h)

  record_all-recorded :
      (vs : List ℕ) (h : Histogram H) → (record_all vs h).hist ≡ recorded vs h.hist
  unfolding record_all recorded
  record_all-recorded [] h = refl
  record_all-recorded (v ∷ vs) h = record_all-recorded vs (record_once hdr v h)

  recorded-append : (us vs : List ℕ) (h : H) → recorded (us ++ vs) h ≡ recorded vs (recorded us h)
  unfolding recorded
  recorded-append [] vs h = refl
  recorded-append (u ∷ us) vs h = recorded-append us vs (hdr.record_values u 1 h)

  add-recorded : (vs : List ℕ) (g h : H) → hdr.add g (recorded vs h) ≡ recorded vs (hdr.add g h)
  unfolding recorded
  add-recorded [] g h = refl
  add-recorded (v ∷ vs) g h =
      add-recorded vs g (hdr.record_values v 1 h) ∙ ap (recorded vs) (hdr.add-record_values v 1 g h)

  -- Adding a histogram that has recorded the values is recording them.
  add-recorded-init : (vs : List ℕ) (g : H) → hdr.add g (recorded vs hdr.init) ≡ recorded vs g
  add-recorded-init vs g = add-recorded vs g hdr.init ∙ ap (recorded vs) (hdr.add-init g)

  copied : (vs : List ℕ) → (copy_histogram (record_all vs (make hdr))).hist ≡ recorded vs hdr.init
  unfolding copy_histogram
  copied vs =
      ap (hdr.add hdr.init) (record_all-recorded vs (make hdr)) ∙ add-recorded-init vs hdr.init

  added :
      (vss : List (List ℕ)) (result : Histogram H)
      → ((add_all (map core vss) result).hist ≡ recorded (flatten vss) result.hist)
        × ((add_all (map core vss) result).sample_count ≡ result.sample_count)
  unfolding add_all recorded flatten
  added [] result = (refl, refl)
  added (vs ∷ vss) result =
      let next : Histogram H = add_value (core vs) result in
      let (hists, counts) = added vss next in
      (
        hists
            ∙ ap (recorded (flatten vss))
                (ap (hdr.add result.hist) (copied vs) ∙ add-recorded-init vs result.hist)
            ∙ sym (recorded-append vs (flatten vss) result.hist),
        counts,
      )

  -- When each core has recorded its values from a new histogram on, the copies of the cores that
  -- are added to a new histogram give the distribution of one histogram that has recorded all the
  -- values, in the order of the cores; the sample count of the result stays 0.
  pub cores-merge :
      (vss : List (List ℕ))
      → ((add_all (map core vss) (make hdr)).hist ≡ (record_all (flatten vss) (make hdr)).hist)
        × ((add_all (map core vss) (make hdr)).sample_count ≡ 0)
  unfolding make
  cores-merge vss =
      let (hists, counts) = added vss (make hdr) in
      (hists ∙ sym (record_all-recorded (flatten vss) (make hdr)), counts)
