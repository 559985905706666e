-- ===== src/KbHandler/Handler/Thresholds.antt =====
-- The invariant of the flags in `pressed_keys`.
use ykb_firmware.Base.{
  ℕ, ◌+◌, ◌<◌, Bool, true, false, List, [], ◌∷◌, leb, get_or, set, length, ◌≡◌, sym, ap, ap₂, ◌∙◌,
  arith, Bool-cases, inl, inr, length-set, get_or-set_self, get_or-set_ne, ℕ_discrete,
}
use ykb_firmware.Settings.Arithmetic.{Floats}
use ykb_firmware.KbHandler.Calibration.{key_press_percent}
use ykb_firmware.KbHandler.Actions.{ScriptSlot}
use ykb_firmware.KbHandler.Handler.{
  Build, State, note_transition, notify_value_if_changed, store_value, same_bool, process_key_value,
  process_values, emit,
}
use ykb_firmware.KbHandler.Handler.Tracking.{Agree, process_key_transition-Agree, notify-Agree}

lt_leb : (a c : ℕ) → a < c → leb c a ≡ false
lt_leb a c h = ground arith

module _ (fl : Floats) where
  -- A key is down exactly when its last value is at or above its threshold.
  pub record Tracks (b : Build) (st : State fl) : Type 0 where
    pub pressed_width : length st.pressed_keys ≡ b.total_key_count
    pub current_width : length st.current_values ≡ b.total_key_count
    pub tracks :
        (k : ℕ)
        → k < b.total_key_count
        → get_or st.pressed_keys k false
          ≡ leb (get_or st.settings.thresholds k 0) (get_or st.current_values k 0)

  -- What one value makes of the state.
  record Sampled (key value : ℕ) (st after : State fl) : Type 0 where
    pressed_set :
        (k : ℕ)
        → key < length st.pressed_keys
        → get_or after.pressed_keys k false
          ≡ get_or
              (set st.pressed_keys key (leb (get_or st.settings.thresholds key 0) value))
              k
              false
    pressed_kept : length after.pressed_keys ≡ length st.pressed_keys
    current_set : after.current_values ≡ set st.current_values key value
    thresholds_kept : after.settings.thresholds ≡ st.settings.thresholds

  set_same :
      (xs : List Bool) (key k : ℕ) (v : Bool)
      → key < length xs
      → get_or xs key false ≡ v
      → get_or xs k false ≡ get_or (set xs key v) k false
  set_same xs key k v h e = elim (ℕ_discrete k key) [
    | yes p ↦ rw p (e ∙ sym (get_or-set_self xs key v false h))
    | no p ↦ sym (get_or-set_ne xs key k v false (λ q. p (sym q)))
  ]

  kept :
      (key value : ℕ) (st noted : State fl)
      → Agree fl (store_value fl key value st) noted
      → get_or st.pressed_keys key false ≡ leb (get_or st.settings.thresholds key 0) value
      → Sampled key value st noted
  unfolding store_value
  kept key value st noted p e = record {
    pressed_set = λ k h.
        ap (λ (xs : List Bool). get_or xs k false) (sym p.same_pressed)
        ∙ set_same st.pressed_keys key k _ h e;
    pressed_kept = ap length (sym p.same_pressed);
    current_set = sym p.same_current;
    thresholds_kept = sym p.same_thresholds;
  }

  changed :
      (key value : ℕ) (st noted after : State fl)
      → Agree fl (store_value fl key value st) noted
      → Agree fl
          (note_transition fl key (leb (get_or st.settings.thresholds key 0) value) noted)
          after
      → Sampled key value st after
  unfolding store_value note_transition emit
  changed key value st noted after p q =
      let is_down = leb (get_or st.settings.thresholds key 0) value in
      let pressed : after.pressed_keys ≡ set st.pressed_keys key is_down =
        sym q.same_pressed ∙ ap (λ (xs : List Bool). set xs key is_down) (sym p.same_pressed) in
      record {
        pressed_set = λ k h. ap (λ (xs : List Bool). get_or xs k false) pressed;
        pressed_kept = ap length pressed ∙ length-set st.pressed_keys key is_down;
        current_set = sym q.same_current ∙ sym p.same_current;
        thresholds_kept = sym q.same_thresholds ∙ sym p.same_thresholds;
      }

  same_bool-true : (a c : Bool) → same_bool a c ≡ true → a ≡ c
  unfolding same_bool
  same_bool-true true c h = sym h
  same_bool-true false c h = ground arith

  sampled :
      (b : Build) (slots : List ScriptSlot) (key value : ℕ) (st : State fl)
      → key < b.total_key_count
      → Sampled key value st (process_key_value fl b slots key value st).1
  unfolding process_key_value
  sampled b slots key value st h =
      let is_down = leb (get_or st.settings.thresholds key 0) value in
      let percent = key_press_percent fl b.total_key_count st.settings key value in
      let noted = notify_value_if_changed fl b key percent (store_value fl key value st) in
      let p = notify-Agree fl b key percent (store_value fl key value st) in
      simp (lt_leb _ _ h)
        (elim (Bool-cases (same_bool (get_or st.pressed_keys key false) is_down)) [
          | inl e ↦ simp e (kept key value st noted p (same_bool-true _ _ e))
          | inr e ↦ simp e (
              changed key value st noted _ p
                (process_key_transition-Agree fl b slots key is_down noted h))
        ])

  Sampled-Tracks :
      (b : Build) (key value : ℕ) (st after : State fl)
      → key < b.total_key_count
      → Sampled key value st after
      → Tracks b st
      → Tracks b after
  Sampled-Tracks b key value st after h s t = record {
    pressed_width = s.pressed_kept ∙ t.pressed_width;
    current_width =
        ap length s.current_set ∙ (length-set st.current_values key value ∙ t.current_width);
    tracks = λ k below.
        s.pressed_set k (omega (arith, t.pressed_width))
        ∙ (at k below (ℕ_discrete k key)
            ∙ sym (
                ap₂ (λ (ts vs : List ℕ). leb (get_or ts k 0) (get_or vs k 0)) s.thresholds_kept
                  s.current_set));
  }
    where
      at :
          (k : ℕ)
          → k < b.total_key_count
          → Dec (k ≡ key)
          → get_or
              (set st.pressed_keys key (leb (get_or st.settings.thresholds key 0) value))
              k
              false
            ≡ leb (get_or st.settings.thresholds k 0) (get_or (set st.current_values key value) k 0)
      at k below (yes p) = rw p (
          get_or-set_self st.pressed_keys key _ false (omega (arith, t.pressed_width))
          ∙ ap (leb (get_or st.settings.thresholds key 0)) (
              sym (get_or-set_self st.current_values key value 0 (omega (arith, t.current_width)))))
      at k below (no p) =
          get_or-set_ne st.pressed_keys key k _ false (λ q. p (sym q))
          ∙ (t.tracks k below
              ∙ ap (leb (get_or st.settings.thresholds k 0))
                  (sym (get_or-set_ne st.current_values key k value 0 (λ q. p (sym q)))))

  -- One value of any key, in range or not, in any mode and with any shortcuts, keeps every flag in step with the last value of its key and its threshold.
  pub process_key_value-Tracks :
      (b : Build) (slots : List ScriptSlot) (key value : ℕ) (st : State fl)
      → Tracks b st
      → Tracks b (process_key_value fl b slots key value st).1
  unfolding process_key_value
  process_key_value-Tracks b slots key value st t = elim (Bool-cases (leb b.total_key_count key)) [
    | inl e ↦ simp e t
    | inr e ↦
        Sampled-Tracks b key value st _ (leb_no _ _ e) (sampled b slots key value st (leb_no _ _ e))
          t
  ]
    where
      leb_no : (a c : ℕ) → leb a c ≡ false → c < a
      leb_no a c h = ground arith

  -- So does a whole frame of values.
  pub process_values-Tracks :
      (b : Build) (slots : List ScriptSlot) (key : ℕ) (frame : List ℕ) (st : State fl)
      → Tracks b st
      → Tracks b (process_values fl b slots key frame st)
  unfolding process_values
  process_values-Tracks b slots key [] st t = t
  process_values-Tracks b slots key (value ∷ frame) st t =
      process_values-Tracks b slots (key + 1) frame _
        (process_key_value-Tracks b slots key value st t)
