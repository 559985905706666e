-- ===== src/Metrics/Log.antt =====
-- What metrics_log_work_handler of ykb_metrics.c logs in every interval, as records of numbers.
use ykb_firmware.Base.{
  ℕ, ◌+◌, ◌-◌, ◌*◌, ◌/◌, ◌%◌, ◌^◌, ◌≤◌, ◌<◌, ◌≡◌, ◌∙◌, refl, max, not, List, [], ◌∷◌, ltb,
  if◌then◌else◌, get_or, arith, inl, inr, Bool-cases,
}
use ykb_firmware.Metrics.{KscanUnit, KeyMetrics, Metrics, less, add}
use ykb_firmware.Metrics.Update.{less-ltb}

-- The difference, and the value to compare with the next time.
unfoldable pub diff_counter : ℕ → ℕ → ℕ × ℕ
diff_counter current previous = ((current + 2 ^ 32 - previous) % 2 ^ 32, current)

-- `/` of two signed numbers of which the second is positive.
unfoldable pub signed_div : ℕ → ℕ → ℕ
signed_div a b = if less a 0 then (2 ^ 32 - (2 ^ 32 - a) / b) % 2 ^ 32 else a / b

-- A rate for each second, over an interval of `interval_ms`.
unfoldable pub rate : ℕ → ℕ → ℕ
rate interval_ms diff = (diff * 1000) % 2 ^ 32 / interval_ms

pub record Previous : Type 0 where
  pub prev_samples : ℕ
  pub prev_scans : ℕ
  pub prev_errors : ℕ
  pub prev_scan_us : ℕ

pub record UnitLine : Type 0 where
  pub samples_rate : ℕ
  pub scans_rate : ℕ
  pub avg_scan_us : ℕ
  pub max_scan_us : ℕ
  pub errors_rate : ℕ

unfoldable pub log_unit : ℕ → KscanUnit → Previous → UnitLine × Previous
log_unit interval_ms u p =
    let (samples, prev_samples) = diff_counter u.samples p.prev_samples in
    let (scans, prev_scans) = diff_counter u.scans p.prev_scans in
    let (errors, prev_errors) = diff_counter u.read_errors p.prev_errors in
    let (scan_us, prev_scan_us) = diff_counter u.scan_us_total p.prev_scan_us in
    (
      record {
        samples_rate = rate interval_ms samples;
        scans_rate = rate interval_ms scans;
        avg_scan_us = if less 0 scans then signed_div scan_us scans else 0;
        max_scan_us = u.scan_us_max;
        errors_rate = rate interval_ms errors;
      },
      record {
        prev_samples = prev_samples;
        prev_scans = prev_scans;
        prev_errors = prev_errors;
        prev_scan_us = prev_scan_us;
      },
    )

-- metrics_log_kscan: the lines, and what the static arrays hold afterwards.
unfoldable pub log_kscan : ℕ → List KscanUnit → List Previous → List UnitLine × List Previous
log_kscan interval_ms [] ps = ([], ps)
log_kscan interval_ms (u ∷ units) [] = ([], [])
log_kscan interval_ms (u ∷ units) (p ∷ ps) =
    let (lines, rest) = log_kscan interval_ms units ps in
    let (line, p') = log_unit interval_ms u p in
    if not u.registered then (lines, p ∷ rest) else (line ∷ lines, p' ∷ rest)

pub record KeysLine : Type 0 where
  pub clip_total : ℕ
  pub noisiest_key : ℕ
  pub noisiest_span : ℕ

unfoldable pub span : KeyMetrics → ℕ
span k = (k.most + 2 ^ 32 - k.least) % 2 ^ 32

unfoldable pub log_key : ℕ → KeyMetrics → KeysLine → KeysLine
log_key i k line =
    if not k.seen
    then line
    else (let counted = record line { clip_total = add line.clip_total k.clip_count } in
        if less line.noisiest_span (span k)
        then record counted { noisiest_key = i % 2 ^ 16; noisiest_span = span k }
        else counted)

-- The loop of metrics_log_keys from key `i` on.
unfoldable pub log_keys_from : ℕ → List KeyMetrics → KeysLine → KeysLine
log_keys_from i [] line = line
log_keys_from i (k ∷ keys) line = log_keys_from (i + 1) keys (log_key i k line)

unfoldable pub log_keys : List KeyMetrics → KeysLine
log_keys keys =
    log_keys_from 0 keys (record { clip_total = 0; noisiest_key = 0; noisiest_span = 0 })

-- The parts of metrics_log_kb_handler that are differences, for the messages of one type.
unfoldable pub log_messages : ℕ → Metrics → ℕ → ℕ × ℕ → (ℕ × ℕ) × (ℕ × ℕ)
log_messages interval_ms m msg_type (prev_puts, prev_drops) =
    let (puts, prev_puts') = diff_counter (get_or m.kb_msgq.puts msg_type 0) prev_puts in
    let (drops, prev_drops') = diff_counter (get_or m.kb_msgq.drops msg_type 0) prev_drops in
    ((rate interval_ms puts, drops), (prev_puts', prev_drops'))

-- The differences logged while a counter takes these values, one after the other.
unfoldable pub diffs : ℕ → List ℕ → List ℕ
diffs previous [] = []
diffs previous (current ∷ counters) =
    let (diff, previous') = diff_counter current previous in diff ∷ diffs previous' counters

abbrev pub sum : List ℕ → ℕ
sum [] = 0
sum (x ∷ xs) = x + sum xs

abbrev pub last_of : ℕ → List ℕ → ℕ
last_of d [] = d
last_of d (x ∷ xs) = last_of x xs

abbrev pub AreCounters : List ℕ → Type 0
AreCounters [] = Unit
AreCounters (x ∷ xs) = (x < 2 ^ 32) × AreCounters xs

-- The differences that are logged add up to what the counter has gained, even when it wraps.
diffs-sum :
    (previous : ℕ) (counters : List ℕ)
    → previous < 2 ^ 32
    → AreCounters counters
    → (previous + sum (diffs previous counters)) % 2 ^ 32 ≡ last_of previous counters
unfolding diffs diff_counter
diffs-sum previous [] h w = omega arith
diffs-sum previous (current ∷ counters) h w = omega (arith, diffs-sum current counters w.0 w.1, w.0)

-- The least and the greatest value of a key that was seen.
abbrev pub HasRange : KeyMetrics → Type 0
HasRange k = (k.least ≤ k.most) × (k.most < 2 ^ 16)

abbrev pub HaveRanges : List KeyMetrics → Type 0
HaveRanges [] = Unit
HaveRanges (k ∷ keys) = HasRange k × HaveRanges keys

-- The widest range of the keys that were seen.
abbrev pub widest : List KeyMetrics → ℕ
widest [] = 0
widest (k ∷ keys) = let rest = widest keys in if k.seen then max (k.most - k.least) rest else rest

span_range : (k : KeyMetrics) → HasRange k → span k ≡ k.most - k.least
unfolding span
span_range k h = omega (arith, h.0, h.1)

wider :
    (n w : ℕ) (line line' : KeysLine)
    → n < 2 ^ 31
    → w < 2 ^ 31
    → line.noisiest_span ≡ n
    → line'.noisiest_span ≡ w
    → (if less n w then line' else line).noisiest_span ≡ max n w
wider n w line line' hn hw en ew = rw (less-ltb n w hn hw) (elim (Bool-cases (ltb n w)) [
  | inl e ↦ simp e (ground (arith, e, ew))
  | inr e ↦ simp e (ground (arith, e, en))
])

log_key-span :
    (i : ℕ) (k : KeyMetrics) (line : KeysLine)
    → HasRange k
    → line.noisiest_span < 2 ^ 16
    → (log_key i k line).noisiest_span
      ≡ (if k.seen then max line.noisiest_span (k.most - k.least) else line.noisiest_span)
unfolding log_key
log_key-span i k line h n = elim (Bool-cases k.seen) [
  | inl e ↦
      simp (log_key, e, span_range k h)
        (wider line.noisiest_span (k.most - k.least) _ _ (omega (arith, n)) (omega (arith, h.1))
          refl refl)
  | inr e ↦ simp (log_key, e) refl
]

log_keys_from-span :
    (i : ℕ) (keys : List KeyMetrics) (line : KeysLine)
    → HaveRanges keys
    → line.noisiest_span < 2 ^ 16
    → (log_keys_from i keys line).noisiest_span ≡ max line.noisiest_span (widest keys)
unfolding log_keys_from
log_keys_from-span i [] line h n = omega arith
log_keys_from-span i (k ∷ keys) line h n = elim (Bool-cases k.seen) [
  | inl e ↦
      let now : (log_key i k line).noisiest_span ≡ max line.noisiest_span (k.most - k.least) =
        log_key-span i k line h.0 n ∙ simp e refl in
      let rest =
        log_keys_from-span (i + 1) keys (log_key i k line) h.1 (omega (arith, now, h.0.1, n)) in
      rest ∙ simp e (omega (arith, now))
  | inr e ↦
      let now : (log_key i k line).noisiest_span ≡ line.noisiest_span =
        log_key-span i k line h.0 n ∙ simp e refl in
      let rest = log_keys_from-span (i + 1) keys (log_key i k line) h.1 (omega (arith, now, n)) in
      rest ∙ simp e (omega (arith, now))
]

-- The span that is logged is that of the key with the widest range.
log_keys-widest :
    (keys : List KeyMetrics) → HaveRanges keys → (log_keys keys).noisiest_span ≡ widest keys
unfolding log_keys
log_keys-widest keys h =
    let line : KeysLine = record { clip_total = 0; noisiest_key = 0; noisiest_span = 0 } in
    log_keys_from-span 0 keys line h (omega arith) ∙ omega arith
