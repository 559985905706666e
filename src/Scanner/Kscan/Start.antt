-- ===== src/Scanner/Kscan/Start.antt =====
-- kscan_muxes_init: the checks of the multiplexers and of the converter's channels. The
-- constants of adc_seq_opts are left out.
use ykb_firmware.Base.{
  ℕ, suc, ◌+◌, ◌^◌, Bool, true, false, not, ◌&&◌, ◌||◌, Option, none, some, List, [], ◌∷◌, ◌*◌,
  length, if◌then◌else◌, leb, ◌==◌, bit_or,
}
use ykb_firmware.Base.Int.{pos, negsuc}
use ykb_firmware.Scanner.Kscan.{KscanBuild, Line}

-- `struct adc_dt_spec`, a converter being a number.
pub record AdcSpec : Type 0 where
  pub dev : ℕ
  pub channel_id : ℕ
  pub resolution : ℕ
  pub oversampling : ℕ

-- What the devices answer at start: whether multiplexer `j` is ready and can be enabled, and whether channel
-- `i` of the converter is ready and can be set up.
pub record StartInputs : Type 0 where
  pub mux_ready : ℕ → Bool
  pub mux_enables : ℕ → Bool
  pub adc_ready : ℕ → Bool
  pub sets_up : ℕ → Bool

-- The fields of `struct adc_sequence` that prepare_sequence fills from a channel, and the size of its buffer.
pub record Sequence : Type 0 where
  pub buffer_size : ℕ
  pub resolution : ℕ
  pub oversampling : ℕ
  pub channels : ℕ

unfoldable pub prepare_sequence : AdcSpec → ℕ → Sequence
prepare_sequence spec buffer_size = record {
  buffer_size = buffer_size;
  resolution = spec.resolution;
  oversampling = spec.oversampling;
  channels = 2 ^ spec.channel_id;
}

unfoldable pub channel_mask : ℕ → List AdcSpec → ℕ
channel_mask mask [] = mask
channel_mask mask (spec ∷ specs) = channel_mask (bit_or mask (2 ^ spec.channel_id)) specs

unfoldable pub same_converter : AdcSpec → AdcSpec → Bool
same_converter first spec =
    spec.dev == first.dev
    && (spec.resolution == first.resolution && spec.oversampling == first.oversampling)

-- The channel does not come after the one before it, if there is one.
unfoldable pub out_of_order : Option AdcSpec → AdcSpec → Bool
out_of_order none spec = false
out_of_order (some previous) spec = leb spec.channel_id previous.channel_id

-- What kscan_muxes_init leaves: whether it returns 0, its errors being all -ENODEV, the multiplexers, the
-- channels set up and the sequence.
pub record StartEnd : Type 0 where
  pub is_started : Bool
  pub lines : List Line
  pub ids : List ℕ
  pub adc_seq : Option Sequence

-- A multiplexer with an amount, which is ready or not, in a build that toggles or not, and can be enabled or
-- not; `rest` is what the loop makes of the ones after it, `lines`.
unfoldable pub after_mux :
    Bool → Bool → Bool → Line → List Line → Option ℕ × List Line → Option ℕ × List Line
after_mux ready toggle enables line lines rest =
    if not ready
    then (none, line ∷ lines)
    else if toggle
    then (rest.0, line ∷ rest.1)
    else if enables
    then (rest.0, record line { enabled = true } ∷ rest.1)
    else (none, line ∷ lines)

module _ (build : KscanBuild) (inp : StartInputs) where
  -- The loop over the multiplexers from `j` on: the total amount, none where it returns an error. A total
  -- stays far below 2 ^ 31.
  unfoldable pub start_muxes : ℕ → ℕ → List Line → Option ℕ × List Line
  unfolding after_mux
  start_muxes j total_amount [] = (some total_amount, [])
  start_muxes j total_amount (line ∷ lines) = elim line.answer [
    | negsuc e ↦ (none, line ∷ lines)
    | pos amount ↦
        after_mux (inp.mux_ready j) build.toggle (inp.mux_enables j) line lines
          (start_muxes (suc j) (total_amount + amount) lines)
  ]

  -- The loop over the channels from `i` on: whether it goes through, and the channels set up.
  unfoldable pub start_channels : AdcSpec → Option AdcSpec → ℕ → List AdcSpec → Bool × List ℕ
  unfolding same_converter out_of_order
  start_channels first previous i [] = (true, [])
  start_channels first previous i (spec ∷ specs) =
      let (ok, ids) = start_channels first (some spec) (suc i) specs in
      if build.parallel && (not (same_converter first spec) || out_of_order previous spec)
      then (false, [])
      else if not (inp.adc_ready i)
      then (false, [])
      else if inp.sets_up i
      then (ok, spec.channel_id ∷ ids)
      else (false, [])

  -- The sequence of the parallel build, made once, for `count` channels.
  unfoldable pub start_sequence : AdcSpec → List AdcSpec → Sequence
  unfolding prepare_sequence channel_mask
  start_sequence first specs =
      let made = record (prepare_sequence first (2 * length specs)) {
        channels = channel_mask 0 specs;
      } in
      if leb 2 (length specs) && leb 1 made.oversampling
      then record made { oversampling = 0 }
      else made

  -- kscan_muxes_init for the channels `first ∷ specs`, of which there is one at least.
  unfoldable pub kscan_init : ℕ → AdcSpec → List AdcSpec → List Line → StartEnd
  kscan_init key_amount first specs lines =
      let (total, lines') = start_muxes 0 0 lines in
      let (ok, ids) = start_channels first none 0 (first ∷ specs) in
      elim total [
        | none ↦ record { is_started = false; lines = lines'; ids = []; adc_seq = none }
        | some total_amount ↦
            if not (total_amount == key_amount)
            then record { is_started = false; lines = lines'; ids = []; adc_seq = none }
            else if not ok
            then record { is_started = false; lines = lines'; ids = ids; adc_seq = none }
            else record {
              is_started = true;
              lines = lines';
              ids = ids;
              adc_seq =
                  if build.parallel then some (start_sequence first (first ∷ specs)) else none;
            }
      ]
