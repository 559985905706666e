-- ===== src/Metrics/Keys.antt =====
-- What the counters of a key say of its samples.
use ykb_firmware.Base.{
  ℕ, suc, ◌+◌, ◌%◌, ◌^◌, ◌<◌, ◌≡◌, ◌∙◌, refl, ap, min, max, true, false, List, [], ◌∷◌, leb, ◌==◌,
  if◌then◌else◌, length, get_or, arith, inl, inr, Bool-cases, ℕ_discrete, ==_refl, ==_ne,
}
use ykb_firmware.Metrics.{
  Metrics, KeyMetrics, KscanUnit, inc, update, with_unit, adc_max_for_resolution, note_value,
  note_sample, kscan_sample,
}
use ykb_firmware.Metrics.Update.{
  length-update, get_or-update_self, get_or-update_ne, atomic_max-max, atomic_min-min,
}

-- The arguments of one call of ykb_metrics_kscan_sample.
pub record Sample : Type 0 where
  pub sample_dev : ℕ
  pub sample_unit : ℕ
  pub key_idx : ℕ
  pub value : ℕ
  pub resolution : ℕ

unfoldable pub run_samples : List Sample → Metrics → Metrics
run_samples [] m = m
run_samples (s ∷ samples) m =
    run_samples samples (kscan_sample s.sample_dev s.sample_unit s.key_idx s.value s.resolution m)

unfoldable pub samples_of : ℕ → List Sample → List Sample
samples_of key [] = []
samples_of key (s ∷ samples) =
    let rest = samples_of key samples in if s.key_idx == key then s ∷ rest else rest

abbrev pub no_key : KeyMetrics
no_key = record { seen = false; current = 0; least = 0; most = 0; clip_count = 0 }

-- What a key's samples come to: the last value, the least, the greatest, and how many reach the top.
abbrev pub last_of : ℕ → List Sample → ℕ
last_of d [] = d
last_of d (s ∷ samples) = last_of s.value samples

abbrev pub least_of : ℕ → List Sample → ℕ
least_of d [] = d
least_of d (s ∷ samples) = least_of (min d s.value) samples

abbrev pub most_of : ℕ → List Sample → ℕ
most_of d [] = d
most_of d (s ∷ samples) = most_of (max d s.value) samples

abbrev pub clips_of : List Sample → ℕ
clips_of [] = 0
clips_of (s ∷ samples) =
    let rest = clips_of samples in
    if leb (adc_max_for_resolution s.resolution) s.value then suc rest else rest

abbrev pub AreWords : List Sample → Type 0
AreWords [] = Unit
AreWords (s ∷ samples) = (s.value < 2 ^ 16) × AreWords samples

note_samples : List Sample → KeyMetrics → KeyMetrics
note_samples [] k = k
note_samples (s ∷ samples) k = note_samples samples (note_sample s.value s.resolution k)

with_unit-keys :
    (dev unit_idx : ℕ) (f : KscanUnit → KscanUnit) (m : Metrics)
    → (with_unit dev unit_idx f m).keys ≡ m.keys
unfolding with_unit
with_unit-keys dev unit_idx f m = refl

keys_after :
    (s : Sample) (m : Metrics)
    → (kscan_sample s.sample_dev s.sample_unit s.key_idx s.value s.resolution m).keys ≡ (
        if leb (length m.keys) s.key_idx
        then m.keys
        else update m.keys s.key_idx (note_sample s.value s.resolution))
unfolding kscan_sample with_unit
keys_after s m = elim (Bool-cases (leb (length m.keys) s.key_idx)) [
  | inl out ↦ simp (kscan_sample, out) refl
  | inr within ↦ simp (kscan_sample, within) refl
]

sample-keys :
    (s : Sample) (m : Metrics) (key : ℕ)
    → key < length m.keys
    → get_or
        (kscan_sample s.sample_dev s.sample_unit s.key_idx s.value s.resolution m).keys
        key
        no_key
      ≡ (if s.key_idx == key
          then note_sample s.value s.resolution (get_or m.keys key no_key)
          else get_or m.keys key no_key)
sample-keys s m key h = rw (keys_after s m) (elim (ℕ_discrete s.key_idx key) [
  | yes e ↦
      let within : leb (length m.keys) key ≡ false = ground (arith, h) in
      simp (within, e, ==_refl key)
        (get_or-update_self m.keys key (note_sample s.value s.resolution) no_key h)
  | no ne ↦ elim (Bool-cases (leb (length m.keys) s.key_idx)) [
    | inl out ↦ simp (out, ==_ne s.key_idx key ne) refl
    | inr within ↦
        simp (within, ==_ne s.key_idx key ne)
          (get_or-update_ne m.keys s.key_idx key (note_sample s.value s.resolution) no_key ne)
  ]
])

sample-length :
    (s : Sample) (m : Metrics)
    → length (kscan_sample s.sample_dev s.sample_unit s.key_idx s.value s.resolution m).keys
      ≡ length m.keys
sample-length s m = rw (keys_after s m) (elim (Bool-cases (leb (length m.keys) s.key_idx)) [
  | inl out ↦ simp out refl
  | inr within ↦ simp within (length-update m.keys s.key_idx (note_sample s.value s.resolution))
])

run_samples-keys :
    (samples : List Sample) (m : Metrics) (key : ℕ)
    → key < length m.keys
    → get_or (run_samples samples m).keys key no_key
      ≡ note_samples (samples_of key samples) (get_or m.keys key no_key)
unfolding run_samples samples_of note_samples
run_samples-keys [] m key h = refl
run_samples-keys (s ∷ samples) m key h =
    let rest =
      run_samples-keys samples
        (kscan_sample s.sample_dev s.sample_unit s.key_idx s.value s.resolution m) key
        (omega (arith, h, sample-length s m)) in
    rest
    ∙ rw (sample-keys s m key h)
        (elim (Bool-cases (s.key_idx == key)) [ inl e ↦ simp e refl | inr e ↦ simp e refl ])

-- The metrics of a key that has samples.
pub record Summary (samples : List Sample) (d l u c : ℕ) (k : KeyMetrics) : Type 0 where
  is_seen : k.seen ≡ true
  is_current : k.current ≡ last_of d samples
  is_least : k.least ≡ least_of l samples
  is_most : k.most ≡ most_of u samples
  is_clips : k.clip_count ≡ (c + clips_of samples) % 2 ^ 32

record Noted (s : Sample) (k k' : KeyMetrics) : Type 0 where
  still_seen : k'.seen ≡ true
  now_current : k'.current ≡ s.value
  now_least : k'.least ≡ min k.least s.value
  now_most : k'.most ≡ max k.most s.value
  now_clips : k'.clip_count ≡ (
      if leb (adc_max_for_resolution s.resolution) s.value then inc k.clip_count else k.clip_count)

note_sample-Noted :
    (s : Sample) (k : KeyMetrics)
    → k.seen ≡ true
    → k.least < 2 ^ 16
    → k.most < 2 ^ 16
    → s.value < 2 ^ 16
    → Noted s k (note_sample s.value s.resolution k)
unfolding note_sample note_value
note_sample-Noted s k e l u v =
    elim (Bool-cases (leb (adc_max_for_resolution s.resolution) s.value)) [
      | inl top ↦
          simp (note_sample, note_value, top, e)
            (record {
              still_seen = refl;
              now_current = refl;
              now_least = atomic_min-min k.least s.value (omega arith) (omega arith);
              now_most = atomic_max-max k.most s.value (omega arith) (omega arith);
              now_clips = simp top refl;
            })
      | inr below ↦
          simp (note_sample, note_value, below, e)
            (record {
              still_seen = refl;
              now_current = refl;
              now_least = atomic_min-min k.least s.value (omega arith) (omega arith);
              now_most = atomic_max-max k.most s.value (omega arith) (omega arith);
              now_clips = simp below refl;
            })
    ]

clips_step :
    (s : Sample) (samples : List Sample) (c : ℕ)
    → ((if leb (adc_max_for_resolution s.resolution) s.value then inc c else c) + clips_of samples)
        % 2 ^ 32
      ≡ (c + clips_of (s ∷ samples)) % 2 ^ 32
unfolding inc
clips_step s samples c = elim (Bool-cases (leb (adc_max_for_resolution s.resolution) s.value)) [
  | inl top ↦ simp top (omega arith)
  | inr below ↦ simp below refl
]

clips_small :
    (s : Sample) (c : ℕ)
    → c < 2 ^ 32
    → (if leb (adc_max_for_resolution s.resolution) s.value then inc c else c) < 2 ^ 32
unfolding inc
clips_small s c h = elim (Bool-cases (leb (adc_max_for_resolution s.resolution) s.value)) [
  | inl top ↦ simp top (omega arith)
  | inr below ↦ simp below h
]

note_samples-Summary :
    (samples : List Sample) (k : KeyMetrics)
    → k.seen ≡ true
    → k.least < 2 ^ 16
    → k.most < 2 ^ 16
    → k.clip_count < 2 ^ 32
    → AreWords samples
    → Summary samples k.current k.least k.most k.clip_count (note_samples samples k)
unfolding note_samples note_sample note_value inc
note_samples-Summary [] k e l u c w = record {
  is_seen = e;
  is_current = refl;
  is_least = refl;
  is_most = refl;
  is_clips = omega (arith, c);
}
note_samples-Summary (s ∷ samples) k e l u c w =
    let n = note_sample-Noted s k e l u w.0 in
    let small : (if leb (adc_max_for_resolution s.resolution) s.value
          then inc k.clip_count
          else k.clip_count)
        < 2 ^ 32 =
      clips_small s k.clip_count c in
    let i =
      note_samples-Summary samples (note_sample s.value s.resolution k) n.still_seen
        (omega (arith, n.now_least, l)) (omega (arith, n.now_most, u, w.0)) (rw n.now_clips small)
        w.1 in
    record {
      is_seen = i.is_seen;
      is_current = i.is_current ∙ ap (λ x. last_of x samples) n.now_current;
      is_least = i.is_least ∙ ap (λ x. least_of x samples) n.now_least;
      is_most = i.is_most ∙ ap (λ x. most_of x samples) n.now_most;
      is_clips =
          i.is_clips
          ∙ ap (λ x. (x + clips_of samples) % 2 ^ 32) n.now_clips
          ∙ clips_step s samples k.clip_count;
    }

first_sample :
    (s : Sample)
    → note_sample s.value s.resolution no_key ≡ record {
      seen = true;
      current = s.value;
      least = s.value;
      most = s.value;
      clip_count = clips_of (s ∷ []);
    }
unfolding note_sample note_value inc
first_sample s = elim (Bool-cases (leb (adc_max_for_resolution s.resolution) s.value)) [
  | inl top ↦ simp top refl
  | inr below ↦ simp below refl
]

clips_one : (s : Sample) → clips_of (s ∷ []) < 2 ^ 32
clips_one s = elim (Bool-cases (leb (adc_max_for_resolution s.resolution) s.value)) [
  | inl top ↦ simp top (omega arith)
  | inr below ↦ simp below (omega arith)
]

-- A key of a table that has not been sampled yet and has samples, of 16 bits, among those of any keys and units: its current, least and greatest value are those of its samples, and it counts those that reach the top of their resolution, modulo 2 ^ 32.
pub run_samples-Summary :
    (m : Metrics) (samples : List Sample) (key : ℕ) (s : Sample) (rest : List Sample)
    → key < length m.keys
    → get_or m.keys key no_key ≡ no_key
    → samples_of key samples ≡ s ∷ rest
    → AreWords (s ∷ rest)
    → Summary rest s.value s.value s.value
        (clips_of (s ∷ []))
        (get_or (run_samples samples m).keys key no_key)
unfolding note_samples adc_max_for_resolution
run_samples-Summary m samples key s rest h fresh e w =
    rw (run_samples-keys samples m key h, e, fresh, first_sample s)
      (note_samples-Summary rest
        (record {
          seen = true;
          current = s.value;
          least = s.value;
          most = s.value;
          clip_count = clips_of (s ∷ []);
        })
        refl w.0 w.0 (clips_one s) w.1)
