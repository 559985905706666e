-- ===== src/Metrics.antt =====
-- The counters of a keyboard: subsys/ykb_metrics/src/ykb_metrics.c, on a processor whose atomic_val_t has 32
-- bits. A counter is the number that its bits give, from 0 to 2 ^ 32 - 1, and comparisons read it as signed.
pub mod Log
pub mod Update
pub mod Keys
pub mod Units
mod Tests
use ykb_firmware.Base.{
  ℕ, zero, suc, ◌+◌, ◌-◌, ◌*◌, ◌/◌, ◌%◌, ◌^◌, Bool, true, false, not, ◌&&◌, Option, none, some,
  List, [], ◌∷◌, ltb, leb, ◌==◌, if◌then◌else◌, length, get_or,
}

-- `struct kscan_unit_metrics`; a device is a number.
pub record KscanUnit : Type 0 where
  pub dev : ℕ
  pub unit_idx : ℕ
  pub registered : Bool
  pub samples : ℕ
  pub scans : ℕ
  pub read_errors : ℕ
  pub samples_per_scan_max : ℕ
  pub scan_us_total : ℕ
  pub scan_us_max : ℕ

-- `struct key_metrics`
pub record KeyMetrics : Type 0 where
  pub seen : Bool
  pub current : ℕ
  pub least : ℕ
  pub most : ℕ
  pub clip_count : ℕ

-- `struct kb_msgq_metrics` and `struct report_metrics`
pub record MsgqMetrics : Type 0 where
  pub puts : List ℕ
  pub drops : List ℕ
  pub max_depth : ℕ
  pub press_events : ℕ
  pub release_events : ℕ

pub record Metrics : Type 0 where
  pub kscan_units : List KscanUnit
  pub keys : List KeyMetrics
  pub kb_msgq : MsgqMetrics
  pub sent : List ℕ

-- Signed `<` of 32 bits.
unfoldable pub less : ℕ → ℕ → Bool
less a b = ltb ((a + 2 ^ 31) % 2 ^ 32) ((b + 2 ^ 31) % 2 ^ 32)

unfoldable pub inc : ℕ → ℕ
inc n = (n + 1) % 2 ^ 32

unfoldable pub add : ℕ → ℕ → ℕ
add n m = (n + m) % 2 ^ 32

-- atomic_max from the value `old` that it read. Other contexts write too: `others` are the values of the
-- target at each attempt to write, and at the reading after it. Without any left, nobody interferes.
unfoldable pub atomic_max : ℕ → ℕ → List (ℕ × ℕ) → ℕ
atomic_max old value [] = if less old value then value else old
atomic_max old value ((held, reread) ∷ others) =
    let again = atomic_max reread value others in
    if less old value then (if held == old then value else again) else old

unfoldable pub atomic_min : ℕ → ℕ → List (ℕ × ℕ) → ℕ
atomic_min old value [] = if less value old then value else old
atomic_min old value ((held, reread) ∷ others) =
    let again = atomic_min reread value others in
    if less value old then (if held == old then value else again) else old

unfoldable pub update {ℓ} : {A : Type ℓ} → List A → ℕ → (A → A) → List A
update [] i f = []
update (x ∷ xs) zero f = f x ∷ xs
update (x ∷ xs) (suc i) f = x ∷ update xs i f

unfoldable pub is_unit : ℕ → ℕ → KscanUnit → Bool
is_unit dev unit_idx u = u.registered && (u.dev == dev && u.unit_idx == unit_idx)

abbrev pub is_free : KscanUnit → Bool
is_free u = not u.registered

abbrev pub shift : Option ℕ → Option ℕ
shift none = none
shift (some i) = some (suc i)

-- The index of the first unit that passes the test.
unfoldable pub find_unit : (KscanUnit → Bool) → List KscanUnit → Option ℕ
find_unit test [] = none
find_unit test (u ∷ units) =
    let rest = find_unit test units in if test u then some zero else shift rest

unfoldable pub register : ℕ → ℕ → KscanUnit → KscanUnit
register dev unit_idx u = record u { dev = dev; unit_idx = unit_idx; registered = true }

-- kscan_unit_get: `before` is the table while it is read without the lock, and `units` the table once the
-- lock is held, which others may have added to. The index of the unit, if there is one, and the table.
unfoldable pub kscan_unit_get : ℕ → ℕ → List KscanUnit → List KscanUnit → Option ℕ × List KscanUnit
kscan_unit_get dev unit_idx before units = elim (find_unit (is_unit dev unit_idx) before) [
  | some i ↦ (some i, units)
  | none ↦ elim (find_unit (is_unit dev unit_idx) units) [
    | some i ↦ (some i, units)
    | none ↦ elim (find_unit is_free units) [
      | some i ↦ (some i, update units i (register dev unit_idx))
      | none ↦ (none, units)
    ]
  ]
]

unfoldable pub adc_max_for_resolution : ℕ → ℕ
adc_max_for_resolution resolution =
    if leb 16 resolution then 0xFFFF else (2 ^ resolution - 1) % 2 ^ 16

-- A change of the unit that kscan_unit_get gives, if it gives one.
unfoldable pub with_unit : ℕ → ℕ → (KscanUnit → KscanUnit) → Metrics → Metrics
with_unit dev unit_idx f m =
    let (found, units) = kscan_unit_get dev unit_idx m.kscan_units m.kscan_units in
    record m { kscan_units = elim found [ none ↦ units | some i ↦ update units i f ] }

unfoldable pub note_value : ℕ → KeyMetrics → KeyMetrics
note_value value k =
    if not k.seen
    then record k { seen = true; current = value; least = value; most = value }
    else record k {
      current = value;
      least = atomic_min k.least value [];
      most = atomic_max k.most value [];
    }

unfoldable pub note_sample : ℕ → ℕ → KeyMetrics → KeyMetrics
note_sample value resolution k =
    let noted = note_value value k in
    if leb (adc_max_for_resolution resolution) value
    then record noted { clip_count = inc noted.clip_count }
    else noted

unfoldable pub kscan_sample : ℕ → ℕ → ℕ → ℕ → ℕ → Metrics → Metrics
kscan_sample dev unit_idx key_idx value resolution m =
    let counted = with_unit dev unit_idx (λ u. record u { samples = inc u.samples }) m in
    if leb (length counted.keys) key_idx
    then counted
    else record counted { keys = update counted.keys key_idx (note_sample value resolution) }

unfoldable pub kscan_read_error : ℕ → ℕ → Metrics → Metrics
kscan_read_error dev unit_idx m =
    with_unit dev unit_idx (λ u. record u { read_errors = inc u.read_errors }) m

unfoldable pub kb_transition : Bool → Metrics → Metrics
kb_transition pressed m = record m {
  kb_msgq =
      if pressed
      then record m.kb_msgq { press_events = inc m.kb_msgq.press_events }
      else record m.kb_msgq { release_events = inc m.kb_msgq.release_events };
}

-- `elapsed_us` is what k_cyc_to_us_floor32 makes of the cycles.
unfoldable pub note_scan : ℕ → ℕ → KscanUnit → KscanUnit
note_scan per_scan elapsed_us u = record u {
  scans = inc u.scans;
  samples_per_scan_max = atomic_max u.samples_per_scan_max per_scan [];
  scan_us_total = add u.scan_us_total elapsed_us;
  scan_us_max = atomic_max u.scan_us_max elapsed_us [];
}

unfoldable pub kscan_scan_done : ℕ → ℕ → ℕ → ℕ → Metrics → Metrics
kscan_scan_done dev unit_idx per_scan elapsed_us m =
    with_unit dev unit_idx (note_scan per_scan elapsed_us) m

unfoldable pub kb_msgq_put : ℕ → Bool → ℕ → Metrics → Metrics
kb_msgq_put msg_type err used m = if leb (length m.kb_msgq.puts) msg_type then m else record m {
  kb_msgq = record m.kb_msgq {
    puts = update m.kb_msgq.puts msg_type inc;
    drops = if err then update m.kb_msgq.drops msg_type inc else m.kb_msgq.drops;
    max_depth = atomic_max m.kb_msgq.max_depth used [];
  };
}

unfoldable pub report_sent : ℕ → Metrics → Metrics
report_sent report_type m =
    if leb (length m.sent) report_type then m else record m { sent = update m.sent report_type inc }
