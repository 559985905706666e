-- ===== src/Metrics/Tests.antt =====
-- Two keys of two units, with samples of 12 bits.
use ykb_firmware.Base.{ℕ, ◌≡◌, refl, true, false, none, some, List, [], ◌∷◌, get_or, arith}
use ykb_firmware.Metrics.{Metrics, KscanUnit, find_unit, is_free, is_unit, kscan_unit_get}
use ykb_firmware.Metrics.Keys.{
  Sample, run_samples, samples_of, no_key, Summary, clips_of, run_samples-Summary,
}
use ykb_firmware.Metrics.Units.{IsDistinct, kscan_unit_get_lem}

abbrev no_unit : KscanUnit
no_unit = record {
  dev = 0;
  unit_idx = 0;
  registered = false;
  samples = 0;
  scans = 0;
  read_errors = 0;
  samples_per_scan_max = 0;
  scan_us_total = 0;
  scan_us_max = 0;
}

abbrev metrics : Metrics
metrics = record {
  kscan_units = no_unit ∷ no_unit ∷ [];
  keys = no_key ∷ no_key ∷ [];
  kb_msgq = record { puts = []; drops = []; max_depth = 0; press_events = 0; release_events = 0 };
  sent = [];
}

abbrev sample : ℕ → ℕ → Sample
sample key_idx value = record {
  sample_dev = 1;
  sample_unit = key_idx;
  key_idx = key_idx;
  value = value;
  resolution = 12;
}

abbrev samples : List Sample
samples = sample 1 700 ∷ sample 0 40 ∷ sample 1 4095 ∷ sample 1 20 ∷ []

samples_of_one : samples_of 1 samples ≡ sample 1 700 ∷ sample 1 4095 ∷ sample 1 20 ∷ []
unfolding samples_of
samples_of_one = refl

run_samples-Summary_example :
    Summary
      (sample 1 4095 ∷ sample 1 20 ∷ [])
      700
      700
      700
      (clips_of (sample 1 700 ∷ []))
      (get_or (run_samples samples metrics).keys 1 no_key)
run_samples-Summary_example =
    run_samples-Summary metrics samples 1 (sample 1 700) (sample 1 4095 ∷ sample 1 20 ∷ [])
      (omega arith) refl samples_of_one (omega arith)

abbrev one_unit : List KscanUnit
one_unit = record no_unit { dev = 1; registered = true } ∷ no_unit ∷ []

abbrev no_units : List KscanUnit
no_units = no_unit ∷ no_unit ∷ []

one_unit-IsDistinct : IsDistinct one_unit
unfolding find_unit is_unit
one_unit-IsDistinct = (λ e. refl, (λ e. refl, tt))

none_before :
    (i : ℕ) → find_unit (is_unit 1 3) no_units ≡ some i → find_unit (is_unit 1 3) one_unit ≡ some i
unfolding find_unit is_unit
none_before i e = cc

kscan_unit_get_lem_example :
    let (found, units') = kscan_unit_get 1 3 no_units one_unit in
    IsDistinct units'
    × (find_unit (is_unit 1 3) units' ≡ found)
    × ((dev' idx' j : ℕ)
        → find_unit (is_unit dev' idx') one_unit ≡ some j
        → find_unit (is_unit dev' idx') units' ≡ some j)
    × (found ≡ none → find_unit is_free one_unit ≡ none)
kscan_unit_get_lem_example =
    kscan_unit_get_lem 1 3 no_units one_unit one_unit-IsDistinct none_before
