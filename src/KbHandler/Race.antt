-- ===== src/KbHandler/Race.antt =====
-- The race mode of kb_handler_core.c: of the keys that are down, the one pressed furthest past its
-- threshold is reported alone.
use ykb_firmware.Base.{
  ℕ, zero, suc, ◌+◌, ◌≤◌, ◌<◌, Bool, true, false, List, leb, if◌then◌else◌, get_or, set, replicate,
  Option, none, some, arith, ◌≡◌, Bool-cases, inl, inr,
}
use ykb_firmware.Base.Int.{pos, sub_ℕ}
use ykb_firmware.Settings.Arithmetic.{Floats}
use ykb_firmware.KbHandler.Report.{build_kb_report}
use ykb_firmware.KbHandler.Handler.{
  Build, State, emit, kb_report_sent, kb_report_counted, reports_equal,
}

module _ (fl : Floats) where
  -- How far past its threshold a key is, for one that counts.
  unfoldable pub race_share : State fl → ℕ → Option fl.Double
  race_share st i =
      let threshold = get_or st.settings.thresholds i 0 in
      let maximum = get_or st.settings.maximums i 0 in
      if get_or st.pressed_keys i false
      then (if leb maximum threshold
          then none
          else some (
              fl.quotient (sub_ℕ (get_or st.current_values i 0) threshold)
                (sub_ℕ maximum threshold)))
      else none

  unfoldable pub furthest : ℕ → Option fl.Double → fl.Double × Option ℕ → fl.Double × Option ℕ
  furthest i none best = best
  furthest i (some share) best = if fl.double_lt best.0 share then (share, some i) else best

  -- The loop over `left` keys from `i` on, with the greatest share and its key.
  unfoldable pub race_loop : State fl → ℕ → ℕ → fl.Double × Option ℕ → fl.Double × Option ℕ
  race_loop st i zero best = best
  race_loop st i (suc left) best = race_loop st (i + 1) left (furthest i (race_share st i) best)

  unfoldable pub race_key : Build → State fl → Option ℕ
  race_key b st = (race_loop st 0 b.total_key_count (fl.double (pos 0), none)).1

  unfoldable pub race_pressed_keys : Build → Option ℕ → List Bool
  race_pressed_keys b none = replicate b.total_key_count false
  race_pressed_keys b (some i) = set (replicate b.total_key_count false) i true

  unfoldable pub send_race_report_if_changed : Build → State fl → State fl
  unfolding emit
  send_race_report_if_changed b st =
      let report =
        build_kb_report fl b.rollover st.settings (race_pressed_keys b (race_key b st))
          b.total_key_count st.second_layer_active st.third_layer_active in
      let built = record st { kb_report = report } in
      if reports_equal report st.prev_kb_report
      then built
      else record (emit fl kb_report_counted
          (emit fl (kb_report_sent report st.settings.kbh_prio) built)) { prev_kb_report = report }

  -- A key that may win: in range, down, and with a maximum above its threshold.
  pub data Winner (b : Build) (st : State fl) : Option ℕ → Type 0 where
    nobody : Winner b st none
    winner :
        (i : ℕ)
        → i < b.total_key_count
        → get_or st.pressed_keys i false ≡ true
        → get_or st.settings.thresholds i 0 < get_or st.settings.maximums i 0
        → Winner b st (some i)

  furthest-Winner :
      (b : Build) (st : State fl) (i : ℕ) (best : fl.Double × Option ℕ)
      → i < b.total_key_count
      → Winner b st best.1
      → Winner b st (furthest i (race_share st i) best).1
  unfolding furthest race_share
  furthest-Winner b st i best h w = elim (Bool-cases (get_or st.pressed_keys i false)) [
    | inr up ↦ simp up w
    | inl down ↦
        elim (Bool-cases
          (leb (get_or st.settings.maximums i 0) (get_or st.settings.thresholds i 0))) [
            | inl flat ↦ simp (down, flat) w
            | inr e ↦ simp (down, e) (chosen _ down (above _ _ e))
          ]
  ]
    where
      above : (m t : ℕ) → leb m t ≡ false → t < m
      above m t e = ground arith

      chosen :
          (share : fl.Double)
          → get_or st.pressed_keys i false ≡ true
          → get_or st.settings.thresholds i 0 < get_or st.settings.maximums i 0
          → Winner b st (if fl.double_lt best.0 share then (share, some i) else best).1
      chosen share down e = elim (Bool-cases (fl.double_lt best.0 share)) [
        | inl more ↦ simp more (winner i h down e)
        | inr less ↦ simp less w
      ]

  race_loop-Winner :
      (b : Build) (st : State fl) (i left : ℕ) (best : fl.Double × Option ℕ)
      → i + left ≤ b.total_key_count
      → Winner b st best.1
      → Winner b st (race_loop st i left best).1
  unfolding race_loop
  race_loop-Winner b st i zero best h w = w
  race_loop-Winner b st i (suc left) best h w =
      race_loop-Winner b st (i + 1) left (furthest i (race_share st i) best) (omega arith)
        (furthest-Winner b st i best (omega arith) w)

  -- The race mode picks a key that is in range, is down and has its maximum above its threshold, or none.
  race_key-Winner : (b : Build) (st : State fl) → Winner b st (race_key b st)
  unfolding race_key
  race_key-Winner b st =
      race_loop-Winner b st 0 b.total_key_count (fl.double (pos 0), none) (omega arith) nobody
