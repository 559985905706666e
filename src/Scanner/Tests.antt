-- ===== src/Scanner/Tests.antt =====
-- A multiplexer of eight channels, and a scan of two multiplexers of two and three channels.
use ykb_firmware.Base.{
  ℕ, zero, suc, ◌+◌, ◌*◌, ◌<◌, ◌≡◌, refl, true, false, none, some, List, [], ◌∷◌, arith, replicate,
  copy_into, length, get_or, ◌==◌,
}
use ykb_firmware.Base.Int.{pos}
use ykb_firmware.Scanner.Mux.{MuxConfig, Mux, Pins}
use ykb_firmware.Scanner.Kscan.{KscanBuild, Inputs, Line, scan_ok, scan}
use ykb_firmware.Scanner.Kscan.Stable.{IsGood, rows}
use ykb_firmware.Scanner.Kscan.Parallel.{IsSampled}
use ykb_firmware.Scanner.Kscan.Toggle.{HasAmounts, AreOff, scan-AreOff}
use ykb_firmware.Scanner.Kscan.Start.{
  AdcSpec, StartInputs, kscan_init, start_muxes, after_mux, start_channels, same_converter,
  out_of_order, start_sequence, prepare_sequence, channel_mask,
}
use ykb_firmware.Scanner.Kscan.Started.{scan-kscan_init}

abbrev eight : MuxConfig
eight = record { sel_cnt = 3; has_en = true; idle_chan = some 0; channels = 8; channel_map = none }

abbrev mux : Mux
mux = record { current = 0; enabled = true; lines = 0 ∷ 0 ∷ 0 ∷ []; en_line = 1 }

abbrev pins : Pins
pins = record { sel_ok = λ i. true; en_ok = true }

abbrev reading : ℕ → ℕ → ℕ
reading j i = 100 * j + i

-- The converter is read in rounds for both multiplexers.
abbrev inputs : Inputs
inputs = record {
  enables = λ j. true;
  disables = λ j. true;
  selects = λ j i. true;
  reads = λ j i. some (reading j i);
  reads_all = λ i. some (reading 0 i ∷ reading 1 i ∷ []);
}

inputs-IsGood : IsGood inputs reading
inputs-IsGood = record {
  enabled = λ j. refl;
  disabled = λ j. refl;
  selected = λ j i. refl;
  value = λ j i. refl;
}

inputs-IsSampled : IsSampled inputs reading 2
inputs-IsSampled = record {
  buf = λ i. reading 0 i ∷ reading 1 i ∷ [];
  answered = λ i. refl;
  sample = both;
}
  where
    both : (i j : ℕ) → j < 2 → get_or (reading 0 i ∷ reading 1 i ∷ []) j 0 ≡ reading j i
    both i zero h = refl
    both i (suc zero) h = refl
    both i (suc (suc j)) h = absurd (omega arith)

abbrev toggled : KscanBuild
toggled = record { toggle = true; parallel = true }

abbrev mux_lines : List Line
mux_lines =
    record { answer = pos 2; enabled = false } ∷ record { answer = pos 3; enabled = false } ∷ []

abbrev spec_of : ℕ → AdcSpec
spec_of id = record { dev = 1; channel_id = id; resolution = 12; oversampling = 4 }

abbrev start_inputs : StartInputs
start_inputs = record {
  mux_ready = λ j. true;
  mux_enables = λ j. true;
  adc_ready = λ i. true;
  sets_up = λ i. true;
}

started :
    (kscan_init toggled start_inputs 5 (spec_of 2) (spec_of 7 ∷ []) mux_lines).is_started ≡ true
unfolding kscan_init start_muxes after_mux start_channels same_converter out_of_order
started = refl

-- The mask of channels 2 and 7, without oversampling.
started_sequence :
    (kscan_init toggled start_inputs 5 (spec_of 2) (spec_of 7 ∷ []) mux_lines).adc_seq
    ≡ some (record { buffer_size = 4; resolution = 12; oversampling = 0; channels = 132 })
unfolding kscan_init start_muxes after_mux start_channels same_converter out_of_order start_sequence
    prepare_sequence channel_mask
started_sequence = refl

scan-kscan_init_example :
    (length (rows reading 0 (2 ∷ 3 ∷ [])) ≡ 5)
    × ((scan toggled inputs
          (some (replicate 6 9))
          (kscan_init toggled start_inputs 5 (spec_of 2) (spec_of 7 ∷ []) mux_lines).lines).ret
        ≡ scan_ok)
    × ((scan toggled inputs
          (some (replicate 6 9))
          (kscan_init toggled start_inputs 5 (spec_of 2) (spec_of 7 ∷ []) mux_lines).lines).values
        ≡ some (copy_into (replicate 6 9) 0 (rows reading 0 (2 ∷ 3 ∷ []))))
scan-kscan_init_example =
    scan-kscan_init toggled start_inputs 5 (spec_of 2) (spec_of 7 ∷ []) mux_lines (2 ∷ 3 ∷ [])
      (refl, (refl, tt)) (omega arith) started inputs reading inputs-IsGood inputs-IsSampled
      (replicate 6 9) (omega arith)

-- The second multiplexer can not be enabled.
abbrev stuck_inputs : Inputs
stuck_inputs = record inputs { enables = λ j. j == 0 }

scan-AreOff_example :
    HasAmounts (scan toggled stuck_inputs (some (replicate 6 9)) mux_lines).lines (2 ∷ 3 ∷ [])
    × AreOff stuck_inputs 0 (scan toggled stuck_inputs (some (replicate 6 9)) mux_lines).lines
scan-AreOff_example =
    scan-AreOff toggled stuck_inputs refl mux_lines (2 ∷ 3 ∷ []) (replicate 6 9) (refl, (refl, tt))
