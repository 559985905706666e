-- ===== src/Scanner/Kscan.antt =====
-- A scan of the keys behind several multiplexers: drivers/kscan/src/kscan_muxes.c, in both its builds, one
-- multiplexer after the other or one sample of all at a time, with CONFIG_KSCAN_MUXES_MUX_TOGGLE or without.
-- The answers of the multiplexers and of the converter are inputs of a scan; the counters of ykb_metrics and
-- the wait for the lines to settle are left out.
pub mod Stable
pub mod Rounds
pub mod Parallel
pub mod Toggle
pub mod Start
pub mod Started
use ykb_firmware.Base.{
  ℕ, zero, suc, ◌+◌, ◌%◌, ◌^◌, Bool, true, false, not, Option, none, some, List, [], ◌∷◌,
  if◌then◌else◌, set, leb, max, get_or,
}
use ykb_firmware.Base.Int.{ℤ, pos, negsuc}

-- The two options of the build.
pub record KscanBuild : Type 0 where
  pub toggle : Bool
  pub parallel : Bool

-- What the devices answer to one scan: whether multiplexer `j` can be enabled and disabled, for its channel
-- `i` whether it can be selected and what is then read alone, and what is read of all multiplexers at once in
-- round `i`, the contents of `read_buf`; `none` for an error.
pub record Inputs : Type 0 where
  pub enables : ℕ → Bool
  pub disables : ℕ → Bool
  pub selects : ℕ → ℕ → Bool
  pub reads : ℕ → ℕ → Option ℕ
  pub reads_all : ℕ → Option (List ℕ)

-- A multiplexer of the scanner: what mux_get_channel_amount answers, and whether it is enabled.
pub record Line : Type 0 where
  pub answer : ℤ
  pub enabled : Bool

-- How the first loop of a scan ends: with the channel amounts, at a negative amount, or where a multiplexer
-- cannot be enabled.
pub data Prepared : Type 0 where
  prepared : List ℕ → Prepared
  negative_amount enable_failed : Prepared

unfoldable pub add_amount : ℕ → Prepared → Prepared
add_amount amount (prepared amounts) = prepared (amount ∷ amounts)
add_amount amount negative_amount = negative_amount
add_amount amount enable_failed = enable_failed

-- The value of `ret` is 0, -EINVAL or an error of a device.
pub data ScanResult : Type 0 where
  scan_ok scan_invalid device_error : ScanResult

unfoldable pub is_scan_ok : ScanResult → Bool
is_scan_ok scan_ok = true
is_scan_ok _ = false

-- The samples of round `i`, from multiplexer `j` on, whose keys start at `offset`.
unfoldable pub store_round : ℕ → ℕ → ℕ → List ℕ → List ℕ → List ℕ → List ℕ
store_round i j offset [] buf values = values
store_round i j offset (amount ∷ amounts) buf values =
    store_round i (suc j) ((offset + amount) % 2 ^ 16) amounts buf
      (if leb amount i then values else set values ((offset + i) % 2 ^ 16) (get_or buf j 0))

module _ (inp : Inputs) where
  -- The inner loop: `left` channels of multiplexer `j` from channel `i` on.
  unfoldable pub scan_mux : ℕ → ℕ → ℕ → ℕ → List ℕ → ScanResult × List ℕ
  scan_mux j offset i zero values = (scan_ok, values)
  scan_mux j offset i (suc left) values = elim (inp.reads j i) [
    | none ↦ (device_error, values)
    | some value ↦
        let rest = scan_mux j offset (suc i) left (set values ((offset + i) % 2 ^ 16) value) in
        if inp.selects j i then rest else (device_error, values)
  ]

  -- kscan_muxes_stable_scan from multiplexer `j` on, for the channel amounts of the ones from there, with
  -- the offset of the first.
  unfoldable pub stable_scan : ℕ → ℕ → List ℕ → List ℕ → ScanResult × List ℕ
  stable_scan j offset [] values = (scan_ok, values)
  stable_scan j offset (amount ∷ amounts) values =
      let (res, values') = scan_mux j offset 0 amount values in
      let rest = stable_scan (suc j) ((offset + amount) % 2 ^ 16) amounts values' in
      if is_scan_ok res then rest else (res, values')

  -- The multiplexers of round `i` are set to channel `i`, those that have one: whether all could be.
  unfoldable pub select_round : ℕ → ℕ → List ℕ → Bool
  select_round i j [] = true
  select_round i j (amount ∷ amounts) =
      let rest = select_round i (suc j) amounts in
      if leb amount i then rest else if inp.selects j i then rest else false

  -- kscan_muxes_parallel_scan: `left` rounds from round `i` on.
  unfoldable pub parallel_scan : ℕ → ℕ → List ℕ → List ℕ → ScanResult × List ℕ
  parallel_scan i zero amounts values = (scan_ok, values)
  parallel_scan i (suc left) amounts values = elim (inp.reads_all i) [
    | none ↦ (device_error, values)
    | some buf ↦
        let rest = parallel_scan (suc i) left amounts (store_round i 0 0 amounts buf values) in
        if select_round i 0 amounts then rest else (device_error, values)
  ]

  -- The first loop of kscan_muxes_scan, from multiplexer `j` on, which enables them if the build toggles.
  unfoldable pub prepare_muxes : Bool → ℕ → List Line → Prepared × List Line
  unfolding add_amount
  prepare_muxes toggle j [] = (prepared [], [])
  prepare_muxes toggle j (line ∷ lines) =
      let (rest, lines') = prepare_muxes toggle (suc j) lines in
      elim line.answer [
        | negsuc e ↦ (negative_amount, line ∷ lines)
        | pos amount ↦
            if not toggle
            then (add_amount amount rest, line ∷ lines')
            else if inp.enables j
            then (add_amount amount rest, record line { enabled = true } ∷ lines')
            else (enable_failed, line ∷ lines)
      ]

  -- The loop at the label `cleanup`; an error of mux_disable is only logged.
  unfoldable pub cleanup : ℕ → List Line → List Line
  cleanup j [] = []
  cleanup j (line ∷ lines) =
      (if inp.disables j then record line { enabled = false } else line) ∷ cleanup (suc j) lines

unfoldable pub max_amount : List ℕ → ℕ
max_amount [] = 0
max_amount (amount ∷ amounts) = max amount (max_amount amounts)

-- The scan proper, by the build.
unfoldable pub scan_amounts : KscanBuild → Inputs → List ℕ → List ℕ → ScanResult × List ℕ
scan_amounts build inp amounts values =
    if build.parallel
    then parallel_scan inp 0 (max_amount amounts) amounts values
    else stable_scan inp 0 0 amounts values

unfoldable pub cleanup_if : Bool → Inputs → List Line → List Line
cleanup_if toggle inp lines = if toggle then cleanup inp 0 lines else lines

-- What kscan_muxes_scan returns and leaves, `values` being the array it is given.
pub record ScanEnd : Type 0 where
  pub ret : ScanResult
  pub values : Option (List ℕ)
  pub lines : List Line

-- kscan_muxes_scan once its first loop has ended.
unfoldable pub scan_prepared : KscanBuild → Inputs → List ℕ → Prepared → List Line → ScanEnd
scan_prepared build inp values (prepared amounts) lines =
    let (res, values') = scan_amounts build inp amounts values in
    record { ret = res; values = some values'; lines = cleanup_if build.toggle inp lines }
scan_prepared build inp values negative_amount lines = record {
  ret = scan_invalid;
  values = some values;
  lines = lines;
}
scan_prepared build inp values enable_failed lines = record {
  ret = device_error;
  values = some values;
  lines = cleanup_if build.toggle inp lines;
}

unfoldable pub scan : KscanBuild → Inputs → Option (List ℕ) → List Line → ScanEnd
scan build inp none lines = record { ret = scan_invalid; values = none; lines = lines }
scan build inp (some values) lines =
    let (first, lines') = prepare_muxes inp build.toggle 0 lines in
    scan_prepared build inp values first lines'
