-- ===== src/BtConnect/Reachable.antt =====
-- Whether a host can find the keyboard, and what it does with its connections.
use ykb_firmware.Base.{
  ℕ, suc, ◌+◌, ◌≡◌, refl, ◌∙◌, ap, Bool, true, false, not, ◌||◌, ◌&&◌, List, [], ◌∷◌, ◌==◌,
  if◌then◌else◌, arith, ◌⊎◌, inl, inr, Bool-cases,
}
use ykb_firmware.BtConnect.{
  Bt, AdvAnswer, emit_bt, started, any_held, any_connected, is_conn, is_vacant, at_first, hold_conn,
  drop_conn, connected, disconnected, not_ready, cancel_publish, advertising_start,
  maybe_restart_advertising, primary_battery_ccc_cfg_changed, secondary_battery_ccc_cfg_changed,
}
use ykb_firmware.BtConnect.Events.{
  Happening, link_up, link_down, secured, mode_changed, level_set, level_subscribed,
  other_level_set, other_level_subscribed, publish_ran, happen, run, taken, given_back, holding,
  count_if, at_first-hold, at_first-drop,
}
use ykb_firmware.BtConnect.Same.{
  Same, Same-refl, refused-Same, secured-Same, mode-Same, level-Same, publish-Same, secondary-Same,
}

pub record Inv (conn : ℕ) (s : Bt) : Type 0 where
  pub never_both : (any_connected s && s.is_advertising) ≡ false
  pub balanced : taken conn s.events ≡ given_back conn s.events + holding conn s.conn_states

Same-Inv : (conn : ℕ) (s s' : Bt) → Same conn s s' → Inv conn s → Inv conn s'
Same-Inv conn s s' e i = record {
  never_both = rw (e.same_any, e.same_flag) i.never_both;
  balanced = rw (e.same_taken, e.same_back, e.same_holding) i.balanced;
}

-- A connection that is taken.
record Up (conn c : ℕ) (s s' : Bt) : Type 0 where
  up_any : any_connected s' ≡ true
  up_flag : s'.is_advertising ≡ false
  up_taken : taken conn s'.events ≡ count_if (c == conn) + taken conn s.events
  up_back : given_back conn s'.events ≡ given_back conn s.events
  up_holding : holding conn s'.conn_states ≡ count_if (c == conn) + holding conn s.conn_states

count_one : (b : Bool) (n : ℕ) → (if b then suc n else n) ≡ count_if b + n
count_one true n = omega arith
count_one false n = omega arith

connected-cases :
    (conn : ℕ) (err manages hids_err : Bool) (c : ℕ) (s : Bt)
    → Same conn s (connected err manages hids_err c s)
      ⊎ Up conn c s (connected err manages hids_err c s)
unfolding connected any_connected emit_bt not_ready
connected-cases conn err manages hids_err c s = elim (Bool-cases (err || not manages)) [
  | inl e ↦ simp (connected, e) (inl (Same-refl conn s))
  | inr e ↦ elim (Bool-cases (at_first is_vacant (hold_conn c) s.conn_states).0) [
    | inr f ↦ simp (connected, e, f) (inl (refused-Same conn s c))
    | inl f ↦ elim (Bool-cases hids_err) [
      | inl g ↦ simp (connected, e, f, g) (inl (Same-refl conn s))
      | inr g ↦
          let found = at_first-hold conn c s.conn_states f in
          simp (connected, e, f, g)
            (inr (record {
              up_any = found.0;
              up_flag = refl;
              up_taken = count_one (c == conn) (taken conn s.events);
              up_back = refl;
              up_holding = found.1;
            }))
    ]
  ]
]

-- A connection that has ended: advertising begins where nothing is connected and the flag is down.
pub record Down (conn : ℕ) (adv : AdvAnswer) (s s' : Bt) : Type 0 where
  pub down_any : (any_connected s' ≡ any_connected s) ⊎ (any_connected s ≡ true)
  pub down_flag :
      s'.is_advertising
      ≡ (if not (any_connected s') && not s.is_advertising then started adv else s.is_advertising)
  pub down_balance :
      taken conn s'.events + (given_back conn s.events + holding conn s.conn_states)
      ≡ taken conn s.events + (given_back conn s'.events + holding conn s'.conn_states)

record Restarted (conn : ℕ) (adv : AdvAnswer) (s s' : Bt) : Type 0 where
  re_states : s'.conn_states ≡ s.conn_states
  re_flag :
      s'.is_advertising
      ≡ (if not (any_connected s) && not s.is_advertising then started adv else s.is_advertising)
  re_taken : taken conn s'.events ≡ taken conn s.events
  re_back : given_back conn s'.events ≡ given_back conn s.events

flag_down : (a b : Bool) → (not a && not b) ≡ true → b ≡ false
flag_down a b e = ground arith

restart-Restarted :
    (conn : ℕ) (adv : AdvAnswer) (s : Bt) → Restarted conn adv s (maybe_restart_advertising adv s)
unfolding maybe_restart_advertising advertising_start emit_bt
restart-Restarted conn adv s = elim (Bool-cases (not (any_connected s) && not s.is_advertising)) [
  | inr e ↦
      simp (maybe_restart_advertising, e)
        (record { re_states = refl; re_flag = simp e refl; re_taken = refl; re_back = refl })
  | inl e ↦ elim (Bool-cases (started adv)) [
    | inl f ↦
        simp (maybe_restart_advertising, advertising_start, e, f)
          (record { re_states = refl; re_flag = simp (e, f) refl; re_taken = refl; re_back = refl })
    | inr f ↦
        simp (maybe_restart_advertising, advertising_start, e, f)
          (record {
            re_states = refl;
            re_flag = simp (e, f) (flag_down (any_connected s) s.is_advertising e);
            re_taken = refl;
            re_back = refl;
          })
  ]
]

Restarted-Down :
    (conn : ℕ) (adv : AdvAnswer) (s m s' : Bt)
    → Restarted conn adv m s'
    → m.is_advertising ≡ s.is_advertising
    → (any_connected m ≡ any_connected s) ⊎ (any_connected s ≡ true)
    → taken conn m.events + (given_back conn s.events + holding conn s.conn_states)
      ≡ taken conn s.events + (given_back conn m.events + holding conn m.conn_states)
    → Down conn adv s s'
unfolding any_connected
Restarted-Down conn adv s m s' r flag any balance =
    let same : any_connected s' ≡ any_connected m = ap any_held r.re_states in
    record {
      down_any = rw same any;
      down_flag = r.re_flag ∙ rw (same, flag) refl;
      down_balance = omega (arith, r.re_taken, r.re_back, ap (holding conn) r.re_states, balance);
    }

pub disconnected-cases :
    (conn : ℕ) (manages : Bool) (adv : AdvAnswer) (c : ℕ) (s : Bt)
    → Same conn s (disconnected manages adv c s) ⊎ Down conn adv s (disconnected manages adv c s)
unfolding disconnected any_connected emit_bt not_ready cancel_publish
disconnected-cases conn manages adv c s =
    elim (Bool-cases (at_first (is_conn c) drop_conn s.conn_states).0) [
      | inl f ↦
          let found = at_first-drop conn c s.conn_states f in
          let e : (not manages && not true) ≡ false = never manages in
          simp (disconnected, f, e)
            (inr (
              Restarted-Down conn adv s _ _ (restart-Restarted conn adv _) refl (inr found.0)
                (omega (arith, found.1, count_one (c == conn) (given_back conn s.events)))))
      | inr f ↦ elim (Bool-cases manages) [
        | inr g ↦ simp (disconnected, f, g) (inl (Same-refl conn s))
        | inl g ↦
            simp (disconnected, f, g)
              (inr
                (Restarted-Down conn adv s _ _ (restart-Restarted conn adv _) refl (inl refl) refl))
      ]
    ]
  where
    never : (b : Bool) → (not b && not true) ≡ false
    never true = refl
    never false = refl

happen-Inv : (conn : ℕ) (h : Happening) (s : Bt) → Inv conn s → Inv conn (happen h s)
unfolding happen primary_battery_ccc_cfg_changed secondary_battery_ccc_cfg_changed any_connected
happen-Inv conn (link_up err manages hids_err c) s i =
    elim (connected-cases conn err manages hids_err c s) [
      | inl e ↦ Same-Inv conn s _ e i
      | inr u ↦ record {
        never_both = simp (u.up_flag, u.up_any) refl;
        balanced = omega (arith, u.up_taken, u.up_back, u.up_holding, i.balanced);
      }
    ]
happen-Inv conn (link_down manages adv c) s i = elim (disconnected-cases conn manages adv c s) [
  | inl e ↦ Same-Inv conn s _ e i
  | inr d ↦ record {
    never_both = down_never _ _ _ _ (started adv) d.down_any d.down_flag i.never_both;
    balanced = omega (arith, d.down_balance, i.balanced);
  }
]
  where
    down_never :
        (any any' flag flag' on : Bool)
        → (any' ≡ any) ⊎ (any ≡ true)
        → flag' ≡ (if not any' && not flag then on else flag)
        → (any && flag) ≡ false
        → (any' && flag') ≡ false
    down_never any any' flag flag' on a f n = ground (arith, a, f, n)
happen-Inv conn (secured manages err level) s i =
    Same-Inv conn s _ (secured-Same conn manages err level s) i
happen-Inv conn (mode_changed evt c) s i = Same-Inv conn s _ (mode-Same conn evt c s) i
happen-Inv conn (level_set percentage) s i = Same-Inv conn s _ (level-Same conn percentage s) i
happen-Inv conn (level_subscribed value) s i = record {
  never_both = i.never_both;
  balanced = i.balanced;
}
happen-Inv conn (other_level_set percentage) s i =
    Same-Inv conn s _ (secondary-Same conn percentage s) i
happen-Inv conn (other_level_subscribed value) s i = record {
  never_both = i.never_both;
  balanced = i.balanced;
}
happen-Inv conn (publish_ran err) s i = Same-Inv conn s _ (publish-Same conn err s) i

-- From a state that meets the two conditions, whatever happens: the flag of advertising is never up while a host is connected, and the references that were taken of a connection are those given back and those that a slot still holds.
pub run-Inv : (conn : ℕ) (hs : List Happening) (s : Bt) → Inv conn s → Inv conn (run hs s)
unfolding run
run-Inv conn [] s i = i
run-Inv conn (h ∷ hs) s i = run-Inv conn hs (happen h s) (happen-Inv conn h s i)
