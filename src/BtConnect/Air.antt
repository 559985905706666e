-- ===== src/BtConnect/Air.antt =====
-- Whether the radio really advertises: a connection to this side ends advertising in the Bluetooth host, and
-- a call of bt_le_adv_start that succeeds begins it again.
use ykb_firmware.Base.{
  ℕ, ◌≤◌, ◌≡◌, refl, sym, ◌∙◌, ap, Bool, true, false, not, ◌&&◌, List, [], ◌∷◌, if◌then◌else◌,
  length, arith, ◌⊎◌, inl, inr, Bool-cases,
}
use ykb_firmware.BtConnect.{
  Bt, ConnState, AdvAnswer, emit_bt, started, any_held, any_connected, is_conn, is_held, is_vacant,
  at_first, hold_conn, drop_conn, connected, disconnected, not_ready, cancel_publish,
  advertising_start, maybe_restart_advertising, hids_pm_evt_handler, set_battery_level,
  primary_battery_ccc_cfg_changed, secondary_battery_ccc_cfg_changed,
}
use ykb_firmware.BtConnect.Events.{
  Happening, link_up, link_down, secured, mode_changed, level_set, level_subscribed,
  other_level_set, other_level_subscribed, publish_ran, happen, at_first-hold, length-at_first,
}
use ykb_firmware.BtConnect.Reachable.{disconnected-cases}
use ykb_firmware.BtConnect.Same.{
  Same, Same-refl, battery-Same, secured-Same, mode-Same, level-Same, publish-Same, secondary-Same,
}

-- A connection of a host to the keyboard that comes about.
abbrev pub ends_advertising : Happening → Bool
ends_advertising (link_up err manages hids_err conn) = not err && manages
ends_advertising _ = false

-- The state, and whether the radio advertises. The flag only rises by a successful start.
unfoldable pub happen_air : Happening → Bt × Bool → Bt × Bool
happen_air h (s, air) =
    let s' = happen h s in
    (
      s',
      if ends_advertising h
          then false
          else if not s.is_advertising && s'.is_advertising
          then true
          else air,
    )

unfoldable pub run_air : List Happening → Bt × Bool → Bt × Bool
run_air [] sa = sa
run_air (h ∷ hs) sa = run_air hs (happen_air h sa)

-- The calls of the Bluetooth host that the callbacks make succeed.
abbrev pub IsServed : Happening → Type 0
IsServed (link_up err manages hids_err conn) = hids_err ≡ false
IsServed (link_down manages adv conn) = started adv ≡ true
IsServed _ = Unit

abbrev pub AreServed : List Happening → Type 0
AreServed [] = Unit
AreServed (h ∷ hs) = IsServed h × AreServed hs

pub record IsFound (sa : Bt × Bool) : Type 0 where
  pub has_slot : 1 ≤ length sa.0.conn_states
  pub flag_up : sa.0.is_advertising ≡ not (any_connected sa.0)
  pub on_air : sa.1 ≡ sa.0.is_advertising

found_first :
    (test : ConnState → Bool) (f : ConnState → ConnState) (st : ConnState) (states : List ConnState)
    → test st ≡ true
    → (at_first test f (st ∷ states)).0 ≡ true
unfolding at_first
found_first test f st states e = simp (at_first, e) refl

all_held :
    (c : ℕ) (states : List ConnState)
    → 1 ≤ length states
    → (at_first is_vacant (hold_conn c) states).0 ≡ false
    → any_held states ≡ true
unfolding at_first any_held is_vacant
all_held c [] h e = absurd (omega (arith, h))
all_held c (st ∷ states) h e = elim (Bool-cases (is_held st)) [
  | inl held ↦ simp held refl
  | inr free ↦ cc (found_first is_vacant (hold_conn c) st states (ap not free), e)
]

connected-Used :
    (c : ℕ) (s : Bt)
    → 1 ≤ length s.conn_states
    → s.is_advertising ≡ not (any_connected s)
    → (any_connected (connected false true false c s) ≡ true)
      × ((connected false true false c s).is_advertising ≡ false)
      × (length (connected false true false c s).conn_states ≡ length s.conn_states)
unfolding connected any_connected emit_bt not_ready
connected-Used c s size flag =
    elim (Bool-cases (at_first is_vacant (hold_conn c) s.conn_states).0) [
      | inr f ↦
          let held = all_held c s.conn_states size f in
          simp (connected, f) (held, flag ∙ ap not held, refl)
      | inl f ↦
          simp (connected, f)
            (
              (at_first-hold 0 c s.conn_states f).0,
              refl,
              length-at_first is_vacant (hold_conn c) s.conn_states,
            )
    ]

restart-size :
    (adv : AdvAnswer) (s : Bt) → (maybe_restart_advertising adv s).conn_states ≡ s.conn_states
unfolding maybe_restart_advertising advertising_start emit_bt
restart-size adv s = elim (Bool-cases (not (any_connected s) && not s.is_advertising)) [
  | inr e ↦ simp (maybe_restart_advertising, e) refl
  | inl e ↦ elim (Bool-cases (started adv)) [
    | inl f ↦ simp (maybe_restart_advertising, advertising_start, e, f) refl
    | inr f ↦ simp (maybe_restart_advertising, advertising_start, e, f) refl
  ]
]

disconnected-size :
    (manages : Bool) (adv : AdvAnswer) (c : ℕ) (s : Bt)
    → length (disconnected manages adv c s).conn_states ≡ length s.conn_states
unfolding disconnected emit_bt not_ready cancel_publish
disconnected-size manages adv c s =
    elim (Bool-cases (at_first (is_conn c) drop_conn s.conn_states).0) [
      | inl f ↦ elim (Bool-cases manages) [
        | inl g ↦
            simp (disconnected, f, g)
              (ap length (restart-size adv _) ∙ length-at_first (is_conn c) drop_conn s.conn_states)
        | inr g ↦
            simp (disconnected, f, g)
              (ap length (restart-size adv _) ∙ length-at_first (is_conn c) drop_conn s.conn_states)
      ]
      | inr f ↦ elim (Bool-cases manages) [
        | inl g ↦ simp (disconnected, f, g) (ap length (restart-size adv _))
        | inr g ↦ simp (disconnected, f, g) refl
      ]
    ]

-- A step that keeps the flag and the connections keeps what the radio does.
Same-IsFound :
    (s s' : Bt) (air air' : Bool)
    → Same 0 s s'
    → air' ≡ (if not s.is_advertising && s'.is_advertising then true else air)
    → IsFound (s, air)
    → IsFound (s', air')
Same-IsFound s s' air air' e a i = record {
  has_slot = omega (arith, e.same_size, i.has_slot);
  flag_up = e.same_flag ∙ i.flag_up ∙ ap not (sym e.same_any);
  on_air = still s.is_advertising s'.is_advertising air air' e.same_flag a i.on_air;
}
  where
    still :
        (flag flag' air air' : Bool)
        → flag' ≡ flag
        → air' ≡ (if not flag && flag' then true else air)
        → air ≡ flag
        → air' ≡ flag'
    still flag flag' air air' e a i = ground (arith, e, a, i)

happen-IsFound :
    (h : Happening) (s : Bt) (air : Bool)
    → IsServed h
    → IsFound (s, air)
    → IsFound (happen_air h (s, air))
unfolding happen_air happen primary_battery_ccc_cfg_changed secondary_battery_ccc_cfg_changed
    hids_pm_evt_handler set_battery_level any_connected connected
happen-IsFound (link_up true manages hids_err c) s air ok i =
    Same-IsFound s _ air _ (Same-refl 0 s) refl i
happen-IsFound (link_up false false hids_err c) s air ok i =
    Same-IsFound s _ air _ (Same-refl 0 s) refl i
happen-IsFound (link_up false true true c) s air ok i = cc
happen-IsFound (link_up false true false c) s air ok i =
    let used = connected-Used c s i.has_slot i.flag_up in
    record {
      has_slot = omega (arith, used.2, i.has_slot);
      flag_up = used.1 ∙ sym (ap not used.0);
      on_air = sym used.1;
    }
happen-IsFound (link_down manages adv c) s air ok i =
    let size = disconnected-size manages adv c s in
    elim (disconnected-cases 0 manages adv c s) [
      | inl e ↦ Same-IsFound s _ air _ e refl i
      | inr d ↦ record {
        has_slot = omega (arith, size, i.has_slot);
        flag_up = down_flag_up _ _ _ _ (started adv) ok d.down_any d.down_flag i.flag_up;
        on_air = down_air _ _ _ _ (started adv) air ok d.down_any d.down_flag i.flag_up i.on_air;
      }
    ]
  where
    down_flag_up :
        (any any' flag flag' on : Bool)
        → on ≡ true
        → (any' ≡ any) ⊎ (any ≡ true)
        → flag' ≡ (if not any' && not flag then on else flag)
        → flag ≡ not any
        → flag' ≡ not any'
    down_flag_up any any' flag flag' on ok a f n = ground (arith, ok, a, f, n)

    down_air :
        (any any' flag flag' on air : Bool)
        → on ≡ true
        → (any' ≡ any) ⊎ (any ≡ true)
        → flag' ≡ (if not any' && not flag then on else flag)
        → flag ≡ not any
        → air ≡ flag
        → (if not flag && flag' then true else air) ≡ flag'
    down_air any any' flag flag' on air ok a f n i = ground (arith, ok, a, f, n, i)
happen-IsFound (secured manages err level) s air ok i =
    Same-IsFound s _ air _ (secured-Same 0 manages err level s) refl i
happen-IsFound (mode_changed evt c) s air ok i = Same-IsFound s _ air _ (mode-Same 0 evt c s) refl i
happen-IsFound (level_set percentage) s air ok i =
    Same-IsFound s _ air _ (level-Same 0 percentage s) refl i
happen-IsFound (level_subscribed value) s air ok i =
    Same-IsFound s _ air _ (battery-Same 0 s _) refl i
happen-IsFound (other_level_set percentage) s air ok i =
    Same-IsFound s _ air _ (secondary-Same 0 percentage s) refl i
happen-IsFound (other_level_subscribed value) s air ok i =
    Same-IsFound s _ air _ (battery-Same 0 s _) refl i
happen-IsFound (publish_ran err) s air ok i = Same-IsFound s _ air _ (publish-Same 0 err s) refl i

-- With a slot for a host at least, and where the Bluetooth host serves each call: from a state in which the flag and the radio agree that it advertises exactly while nothing is connected, they do after whatever happens. So a keyboard without a host can always be found.
pub run_air-IsFound :
    (hs : List Happening) (sa : Bt × Bool) → AreServed hs → IsFound sa → IsFound (run_air hs sa)
unfolding run_air
run_air-IsFound [] sa ok i = i
run_air-IsFound (h ∷ hs) (s, air) ok i =
    run_air-IsFound hs (happen_air h (s, air)) ok.1 (happen-IsFound h s air ok.0 i)

connected_failed :
    (c : ℕ) (s : Bt)
    → (any_connected (connected false true true c s) ≡ any_connected s)
      × ((connected false true true c s).is_advertising ≡ s.is_advertising)
unfolding connected any_connected emit_bt
connected_failed c s = elim (Bool-cases (at_first is_vacant (hold_conn c) s.conn_states).0) [
  | inl f ↦ simp (connected, f) (refl, refl)
  | inr f ↦ simp (connected, f) (refl, refl)
]

-- Where bt_hids_connected fails for a host that connects while the radio advertises, nothing is connected and nothing advertises after that host has left, and the flag stays up: no call of the file begins advertising again.
pub run_air-lost :
    (conn : ℕ) (manages : Bool) (adv : AdvAnswer) (s : Bt)
    → any_connected s ≡ false
    → s.is_advertising ≡ true
    → let (s', air) =
        run_air (link_up false true true conn ∷ link_down manages adv conn ∷ []) (s, true) in
      (any_connected s' ≡ false) × (air ≡ false) × (s'.is_advertising ≡ true)
unfolding run_air happen_air happen
run_air-lost conn manages adv s free flag =
    let s' = connected false true true conn s in
    let failed = connected_failed conn s in
    let free' : any_connected s' ≡ false = failed.0 ∙ free in
    let flag' : s'.is_advertising ≡ true = failed.1 ∙ flag in
    elim (disconnected-cases 0 manages adv conn s') [
      | inl e ↦ (e.same_any ∙ free', simp flag' refl, e.same_flag ∙ flag')
      | inr d ↦
          let free'' : any_connected (disconnected manages adv conn s') ≡ false =
            none_left _ _ d.down_any free' in
          (free'', simp flag' refl, d.down_flag ∙ simp (free'', flag') refl)
    ]
  where
    none_left : (any any' : Bool) → (any' ≡ any) ⊎ (any ≡ true) → any ≡ false → any' ≡ false
    none_left any any' a e = ground (arith, a, e)
