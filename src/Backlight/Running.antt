-- ===== src/Backlight/Running.antt =====
-- Which script the backlight runs, and where its colors go.
use ykb_firmware.Base.{
  ℕ, zero, suc, ◌+◌, ◌≤◌, ◌<◌, ◌≡◌, ◌≢◌, ◌∙◌, refl, sym, subst, Bool, true, false, not, ◌||◌,
  Option, none, some, List, [], ◌∷◌, ltb, leb, ◌==◌, if◌then◌else◌, length, get_or, set, arith, inl,
  inr, Bool-cases, Option-cases, ℕ_discrete,
}
use ykb_firmware.Splitlink.Scripts.{Script}
use ykb_firmware.Backlight.{
  LoadAnswers, Layout, Machine, LightSettings, Light, lumiscript_load, lumiscript_run, runnable,
  swap_and_show, clear_state, take_settings, load_script, on_settings_update, set_script_slot,
  kb_handler_on_event, kb_handler_on_value_changed, local_index, color_of, render_keys,
  thread_round, layout_ok, init_checks,
}

module _ (F A : Type 0) where
  -- What changes the backlight once it was initialised, with what the rest answers.
  pub data Change : Type 0 where
    settings_updated : LoadAnswers → Bool → LightSettings F → Change
    slot_set : LoadAnswers → Bool → Option (LightSettings F) → ℕ → Script A → Change
    key_event : ℕ → Bool → Change
    value_changed : ℕ → ℕ → Change
    round : ℕ → Bool → List (Option ℕ) → Change

  -- The build: CONFIG_YKB_BL_SCRIPT_SLOT_SIZE, the length of the strip, whether this is the slave and how many
  -- keys a half has, the layout, and the brightness.
  pub record Board : Type 0 where
    pub slot_size : ℕ
    pub led_count : ℕ
    pub slave : Bool
    pub keys_of_half : ℕ
    pub layout : Layout
    pub scale : F → ℕ → ℕ

  unfoldable pub change : Board → Change → Light F A → Light F A
  change b (settings_updated a init_ok s) l = on_settings_update F A b.led_count a init_ok s l
  change b (slot_set a init_ok current slot script) l =
      (set_script_slot F A b.slot_size b.led_count a init_ok current slot script l).1
  change b (key_event index value) l =
      kb_handler_on_event F A b.slave b.keys_of_half b.layout index value l
  change b (value_changed index value) l =
      kb_handler_on_value_changed F A b.slave b.keys_of_half b.layout index value l
  change b (round uptime update_ok colors) l =
      thread_round F A b.scale b.layout uptime update_ok colors l

  unfoldable pub changes : Board → List Change → Light F A → Light F A
  changes b [] l = l
  changes b (c ∷ cs) l = changes b cs (change b c l)

  -- The machine holds a whole program, of an occupied slot that is not empty.
  pub record IsWhole (m : Machine A) : Type 0 where
    pub loaded : m.machine_loaded ≡ true
    pub whole : (s : Script A) × (m.program ≡ some s) × (s.occupied ≡ true) × (s.size ≢ 0)

  abbrev pub IsRunning : Light F A → Type 0
  IsRunning l = l.script_loaded ≡ true → IsWhole l.machine

  -- A change that leaves the script as it is.
  record Kept (l l' : Light F A) : Type 0 where
    kept_loaded : l'.script_loaded ≡ l.script_loaded
    kept_machine : l'.machine ≡ l.machine

  Kept-IsRunning : (l l' : Light F A) → Kept l l' → IsRunning l → IsRunning l'
  Kept-IsRunning l l' k i = λ e. rw k.kept_machine (i (sym k.kept_loaded ∙ e))

  in_use_parts : (o : Bool) (n : ℕ) → (not o || n == 0) ≡ false → (o ≡ true) × (n ≢ 0)
  in_use_parts true n e = (refl, λ z. ground (arith, e, z))
  in_use_parts false n e = cc

  empty_slot :
      (t : Script A)
      → (not t.occupied || t.size == 0) ≡ true
      → (s : Script A) → runnable (some t) ≢ some s
  unfolding runnable
  empty_slot t out s = simp out (λ e. cc)

  filled_slot :
      (t : Script A)
      → (not t.occupied || t.size == 0) ≡ false
      → (s : Script A) → runnable (some t) ≡ some s
      → t ≡ s
  unfolding runnable
  filled_slot t in_use s = simp in_use (λ e. cc)

  runnable-some :
      (o : Option (Script A)) (s : Script A)
      → runnable o ≡ some s
      → (s.occupied ≡ true) × (s.size ≢ 0)
  unfolding runnable
  runnable-some none s e = cc
  runnable-some (some t) s e = elim (Bool-cases (not t.occupied || t.size == 0)) [
    | inl out ↦ absurd (empty_slot t out s e)
    | inr in_use ↦
        let same : t ≡ s = filled_slot t in_use s e in
        subst (λ x. (x.occupied ≡ true) × (x.size ≢ 0)) same (in_use_parts t.occupied t.size in_use)
  ]

  load_script-IsRunning :
      (a : LoadAnswers) (init_ok : Bool) (o : Option (Script A)) (l : Light F A)
      → l.script_loaded ≡ false
      → ((s : Script A) → o ≡ some s → (s.occupied ≡ true) × (s.size ≢ 0))
      → IsRunning (load_script F A a init_ok o l)
  unfolding load_script lumiscript_load lumiscript_run
  load_script-IsRunning a init_ok none l off usable = λ e. cc
  load_script-IsRunning a init_ok (some script) l off usable = elim (Bool-cases a.accepted) [
    | inr e ↦ simp e (λ r. cc)
    | inl e ↦ elim (Bool-cases a.program_ok) [
      | inr f ↦ simp (e, f) (λ r. cc)
      | inl f ↦ elim (Bool-cases a.state_ok) [
        | inr g ↦ simp (e, f, g) (λ r. cc)
        | inl g ↦ elim (Bool-cases init_ok) [
          | inr h ↦ simp (e, f, g, h) (λ r. cc)
          | inl h ↦
              let parts = usable script refl in
              simp (e, f, g, h)
                (λ r. record { loaded = refl; whole = (script, refl, parts.0, parts.1) })
        ]
      ]
    ]
  ]

  update-IsRunning :
      (b : Board) (a : LoadAnswers) (init_ok : Bool) (s : LightSettings F) (l : Light F A)
      → IsRunning l
      → IsRunning (on_settings_update F A b.led_count a init_ok s l)
  unfolding on_settings_update take_settings clear_state swap_and_show
  update-IsRunning b a init_ok s l i = elim (Bool-cases (not l.init_success)) [
    | inl e ↦ simp e i
    | inr e ↦ simp e (load_script-IsRunning a init_ok _ _ refl (runnable-some _))
  ]

  render-Kept :
      (scale : F → ℕ → ℕ) (layout : Layout) (i : ℕ) (colors : List (Option ℕ)) (l : Light F A)
      → Kept l (render_keys F A scale layout i colors l).1
  unfolding render_keys
  render-Kept scale layout i [] l = record { kept_loaded = refl; kept_machine = refl }
  render-Kept scale layout i (none ∷ colors) l = record { kept_loaded = refl; kept_machine = refl }
  render-Kept scale layout i (some color ∷ colors) l =
      let rest = render-Kept scale layout (i + 1) colors (record l {
        buf_back =
            set l.buf_back (get_or layout.led_map i 0) (color_of scale l.cur_brightness color);
      }) in
      record { kept_loaded = rest.kept_loaded; kept_machine = rest.kept_machine }

  round-Kept :
      (b : Board) (uptime : ℕ) (update_ok : Bool) (colors : List (Option ℕ)) (l : Light F A)
      → Kept l (thread_round F A b.scale b.layout uptime update_ok colors l)
  unfolding thread_round swap_and_show
  round-Kept b uptime update_ok colors l = elim (Bool-cases (not l.script_loaded)) [
    | inl e ↦ simp (thread_round, e) (record { kept_loaded = refl; kept_machine = refl })
    | inr e ↦ elim (Bool-cases (not l.on)) [
      | inl f ↦ simp (thread_round, e, f) (record { kept_loaded = refl; kept_machine = refl })
      | inr f ↦ elim (Bool-cases (not (lumiscript_run update_ok l.machine))) [
        | inl g ↦ simp (thread_round, e, f, g) (record { kept_loaded = refl; kept_machine = refl })
        | inr g ↦
            let k = render-Kept b.scale b.layout 0 colors (record l { prev_update = uptime }) in
            elim (Bool-cases
              (render_keys F A b.scale b.layout 0 colors (record l { prev_update = uptime })).0) [
                | inl all ↦
                    simp (thread_round, e, f, g, all)
                      (record { kept_loaded = k.kept_loaded; kept_machine = k.kept_machine })
                | inr some_left ↦
                    simp (thread_round, e, f, g, some_left)
                      (record { kept_loaded = k.kept_loaded; kept_machine = k.kept_machine })
              ]
      ]
    ]
  ]

  event-Kept :
      (b : Board) (index : ℕ) (value : Bool) (l : Light F A)
      → Kept l (kb_handler_on_event F A b.slave b.keys_of_half b.layout index value l)
  unfolding kb_handler_on_event
  event-Kept b index value l =
      elim (Option-cases (local_index b.slave b.keys_of_half b.layout index)) [
        | inl none_here ↦
            simp (kb_handler_on_event, none_here)
              (record { kept_loaded = refl; kept_machine = refl })
        | inr (i, here) ↦
            simp (kb_handler_on_event, here) (record { kept_loaded = refl; kept_machine = refl })
      ]

  value-Kept :
      (b : Board) (index value : ℕ) (l : Light F A)
      → Kept l (kb_handler_on_value_changed F A b.slave b.keys_of_half b.layout index value l)
  unfolding kb_handler_on_value_changed
  value-Kept b index value l =
      elim (Option-cases (local_index b.slave b.keys_of_half b.layout index)) [
        | inl none_here ↦
            simp (kb_handler_on_value_changed, none_here)
              (record { kept_loaded = refl; kept_machine = refl })
        | inr (i, here) ↦
            simp (kb_handler_on_value_changed, here)
              (record { kept_loaded = refl; kept_machine = refl })
      ]

  set-IsRunning :
      (b : Board) (a : LoadAnswers) (init_ok : Bool) (current : Option (LightSettings F)) (slot : ℕ)
      (script : Script A) (l : Light F A)
      → IsRunning l
      → IsRunning (set_script_slot F A b.slot_size b.led_count a init_ok current slot script l).1
  unfolding set_script_slot
  set-IsRunning b a init_ok current slot script l i =
      elim (Bool-cases (leb (length l.script_slots) slot)) [
        | inl e ↦ simp (set_script_slot, e) i
        | inr e ↦ elim (Bool-cases (ltb b.slot_size script.size)) [
          | inl f ↦ simp (set_script_slot, e, f) i
          | inr f ↦ simp (set_script_slot, e, f) (reloaded current)
        ]
      ]
    where
      stored : Light F A
      stored = record l { script_slots = set l.script_slots slot script }

      reloaded :
          (current : Option (LightSettings F))
          → IsRunning (elim current [
            | none ↦ stored
            | some s ↦
                (if s.active_script_index == slot
                  then on_settings_update F A b.led_count a init_ok s stored
                  else stored)
          ])
      reloaded none = i
      reloaded (some s) = elim (Bool-cases (s.active_script_index == slot)) [
        | inl g ↦ simp g (update-IsRunning b a init_ok s stored i)
        | inr g ↦ simp g i
      ]

  change-IsRunning :
      (b : Board) (c : Change) (l : Light F A) → IsRunning l → IsRunning (change b c l)
  unfolding change
  change-IsRunning b (settings_updated a init_ok s) l i = update-IsRunning b a init_ok s l i
  change-IsRunning b (slot_set a init_ok current slot script) l i =
      set-IsRunning b a init_ok current slot script l i
  change-IsRunning b (key_event index value) l i = Kept-IsRunning l _ (event-Kept b index value l) i
  change-IsRunning b (value_changed index value) l i =
      Kept-IsRunning l _ (value-Kept b index value l) i
  change-IsRunning b (round uptime update_ok colors) l i =
      Kept-IsRunning l _ (round-Kept b uptime update_ok colors l) i

  -- Whatever changes and fails, and whatever is stored in the slots: while the backlight has a script, the machine holds the whole program of an occupied slot that is not empty, if that was so before.
  pub changes-IsRunning :
      (b : Board) (cs : List Change) (l : Light F A) → IsRunning l → IsRunning (changes b cs l)
  unfolding changes
  changes-IsRunning b [] l i = i
  changes-IsRunning b (c ∷ cs) l i =
      changes-IsRunning b cs (change b c l) (change-IsRunning b c l i)

all_pass :
    (x y z rest : Bool)
    → (if x then false else if y then false else if z then false else rest) ≡ true
    → (z ≡ false) × (rest ≡ true)
all_pass true y z rest e = cc
all_pass false true z rest e = cc
all_pass false false true rest e = cc
all_pass false false false rest e = (refl, e)

both_pass :
    (x y rest : Bool)
    → (if not x then false else if not y then false else rest) ≡ true
    → (y ≡ true) × (rest ≡ true)
both_pass true true rest e = (refl, e)
both_pass true false rest e = cc
both_pass false y rest e = cc

layout_ok-below :
    (led_count : ℕ) (layout : Layout) (i left k : ℕ)
    → layout_ok led_count layout i left ≡ true
    → i ≤ k
    → k < i + left
    → get_or layout.led_map k 0 < led_count
unfolding layout_ok
layout_ok-below led_count layout i zero k e lo hi = absurd (omega (arith, lo, hi))
layout_ok-below led_count layout i (suc left) k e lo hi =
    let x = ltb 1000 (get_or layout.x_coordinates i 0) in
    let y = ltb 1000 (get_or layout.y_coordinates i 0) in
    let parts =
      all_pass x y (leb led_count (get_or layout.led_map i 0))
        (layout_ok led_count layout (i + 1) left) e in
    elim (ℕ_discrete i k) [
      | yes here ↦
          subst (λ (n : ℕ). get_or layout.led_map n 0 < led_count) here (ground (arith, parts.0))
      | no ne ↦
          layout_ok-below led_count layout (i + 1) left k parts.1 (omega (arith, lo, ne))
            (omega (arith, hi))
    ]

-- A layout that the initialisation accepts gives every key an entry of the strip's buffer.
init_checks-below :
    (led_count key_capacity : ℕ) (strip_ready : Bool) (layout : Layout) (k : ℕ)
    → init_checks led_count key_capacity strip_ready layout ≡ true
    → k < key_capacity
    → get_or layout.led_map k 0 < led_count
unfolding init_checks
init_checks-below led_count key_capacity strip_ready layout k e h =
    let parts = both_pass strip_ready (layout.key_count == key_capacity) _ e in
    layout_ok-below led_count layout 0 layout.key_count k parts.1 (omega arith)
      (ground (arith, parts.0, h))
