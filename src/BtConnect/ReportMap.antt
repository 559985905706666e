-- ===== src/BtConnect/ReportMap.antt =====
-- The HID report map and the initialisation of bt_connect.c.
use ykb_firmware.Base.{
  ℕ, ◌+◌, ◌≤◌, ◌≡◌, ◌∙◌, refl, sym, ap, Bool, true, false, not, ◌||◌, Option, none, some, List, [],
  ◌∷◌, ◌++◌, ltb, ◌==◌, if◌then◌else◌, length, length-append, arith, inl, inr, Bool-cases,
}
use mathlib.Core.List.{append-nil, append_assoc}
use ykb_firmware.BtConnect.{Bt, BatteryService, AdvAnswer, advertising_start, set_battery_level}

-- A contributor of `struct bt_connect_hid_report`: its report map, and whether its append_init fails; `none`
-- is a pointer that is NULL.
pub record HidReport : Type 0 where
  pub report_map : Option (List ℕ)
  pub append_fails : Option Bool

abbrev pub bytes_of : Option (List ℕ) → List ℕ
bytes_of none = []
bytes_of (some bytes) = bytes

-- The loop of assemble_report_map: whether there was room, and the bytes so far.
unfoldable pub assemble : ℕ → List HidReport → List ℕ → Bool × List ℕ
assemble capacity [] assembled = (true, assembled)
assemble capacity (r ∷ reports) assembled =
    let bytes = bytes_of r.report_map in
    let rest = assemble capacity reports (assembled ++ bytes) in
    let skipped = assemble capacity reports assembled in
    if length bytes == 0
    then skipped
    else if ltb capacity (length assembled + length bytes)
    then (false, assembled)
    else rest

unfoldable pub assemble_report_map : ℕ → List HidReport → Bool × List ℕ
assemble_report_map capacity reports = assemble capacity reports []

unfoldable pub append_inits : List HidReport → Bool
append_inits [] = true
append_inits (r ∷ reports) =
    let rest = append_inits reports in
    elim r.append_fails [ none ↦ rest | some err ↦ (if err then false else rest) ]

-- bt_connect_hid_init: whether it succeeds; `hids_fails` is the answer of bt_hids_init.
unfoldable pub hid_init : ℕ → List HidReport → Bool → Bool
hid_init capacity reports hids_fails =
    let (room, bytes) = assemble_report_map capacity reports in
    if not room then false else if not (append_inits reports) then false else not hids_fails

-- The answers of the calls that bt_connect_init makes, `true` for an error, and what
-- ykb_battsense_get_state and splitlink_bt_start answer.
pub record InitAnswers : Type 0 where
  pub auth_err : Bool
  pub auth_info_err : Bool
  pub hids_err : Bool
  pub primary_err : Bool
  pub secondary_err : Bool
  pub enable_err : Bool
  pub level : Option ℕ
  pub adv : AdvAnswer
  pub start_err : Bool

unfoldable pub reset_battery : BatteryService → BatteryService
reset_battery b = record b {
  primary_level = 0;
  secondary_level = 0;
  secondary_ready = false;
  notifications_ready = false;
}

unfoldable pub first_level : Option ℕ → Bt → Bt
first_level none s = s
first_level (some percentage) s = set_battery_level percentage s

-- bt_connect_init: whether it succeeds.
unfoldable pub bt_connect_init : ℕ → List HidReport → InitAnswers → Bt → Bool × Bt
bt_connect_init capacity reports a s =
    if a.auth_err || a.auth_info_err || not (hid_init capacity reports a.hids_err)
    then (false, s)
    else if a.primary_err || a.secondary_err
    then (false, s)
    else (let reset = record s { battery = reset_battery s.battery } in
        if a.enable_err
        then (false, reset)
        else (not a.start_err, advertising_start a.adv (first_level a.level reset)))

-- The bytes of all maps, one after the other.
abbrev pub all_maps : List HidReport → List ℕ
all_maps [] = []
all_maps (r ∷ reports) = bytes_of r.report_map ++ all_maps reports

record IsAssembled (capacity : ℕ) (reports : List HidReport) (so_far : List ℕ) (out : Bool × List ℕ)
    : Type 0 where
  whole :
      length so_far + length (all_maps reports) ≤ capacity
      → out ≡ (true, so_far ++ all_maps reports)
  fits : out.0 ≡ true → length so_far + length (all_maps reports) ≤ capacity
  within : length out.1 ≤ capacity

no_bytes : (bytes : List ℕ) → length bytes ≡ 0 → bytes ≡ []
no_bytes [] e = refl
no_bytes (x ∷ bytes) e = absurd (omega (arith, e))

over : (s b m capacity : ℕ) → ltb capacity (s + b) ≡ true → s + (b + m) ≤ capacity → ⊥
over s b m capacity e h = ground arith

assemble-IsAssembled :
    (capacity : ℕ) (reports : List HidReport) (so_far : List ℕ)
    → length so_far ≤ capacity
    → IsAssembled capacity reports so_far (assemble capacity reports so_far)
unfolding assemble
assemble-IsAssembled capacity [] so_far h = record {
  whole = λ e. ap (λ bs. (true, bs)) (sym (append-nil so_far));
  fits = λ e. omega (arith, h);
  within = h;
}
assemble-IsAssembled capacity (r ∷ reports) so_far h =
    let bytes = bytes_of r.report_map in
    let total = length-append bytes (all_maps reports) in
    elim (Bool-cases (length bytes == 0)) [
      | inl empty ↦
          let i = assemble-IsAssembled capacity reports so_far h in
          let no_bytes_here : bytes ≡ [] = no_bytes bytes (ground (arith, empty)) in
          simp (empty) (record {
            whole = λ e.
                i.whole (omega (arith, e, total))
                ∙ ap (λ bs. (true, so_far ++ (bs ++ all_maps reports))) (sym no_bytes_here);
            fits = λ e. omega (arith, i.fits e, total, ap length no_bytes_here);
            within = i.within;
          })
      | inr some_bytes ↦ elim (Bool-cases (ltb capacity (length so_far + length bytes))) [
        | inl full ↦
            simp (some_bytes, full)
              (record {
                whole = λ e. absurd (
                    over (length so_far) (length bytes) (length (all_maps reports)) capacity full
                      (omega (arith, e, total)));
                fits = λ e. cc;
                within = h;
              })
        | inr room ↦
            let joined = length-append so_far bytes in
            let i =
              assemble-IsAssembled capacity reports (so_far ++ bytes)
                (ground (arith, room, joined)) in
            simp (some_bytes, room)
              (record {
                whole = λ e.
                    i.whole (omega (arith, e, total, joined))
                    ∙ ap (λ bs. (true, bs)) (append_assoc so_far bytes (all_maps reports));
                fits = λ e. omega (arith, i.fits e, total, joined);
                within = i.within;
              })
      ]
    ]

-- The report maps of all contributors are joined in order if they fit into the array together, and otherwise the assembly fails; what is written fits in both cases.
pub assemble_report_map_lem :
    (capacity : ℕ) (reports : List HidReport)
    → (length (all_maps reports) ≤ capacity
        → assemble_report_map capacity reports ≡ (true, all_maps reports))
      × ((assemble_report_map capacity reports).0 ≡ true → length (all_maps reports) ≤ capacity)
      × (length (assemble_report_map capacity reports).1 ≤ capacity)
unfolding assemble_report_map
assemble_report_map_lem capacity reports =
    let i = assemble-IsAssembled capacity reports [] (omega arith) in
    (λ h. i.whole (omega (arith, h)), λ e. omega (arith, i.fits e), i.within)
