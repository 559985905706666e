-- ===== src/BtConnect/Tests.antt =====
-- One slot for a host, and a host that comes and goes.
use ykb_firmware.Base.{◌≡◌, ◌≤◌, refl, true, false, none, some, List, [], ◌∷◌, length, arith}
use ykb_firmware.BtConnect.{Bt, adv_ok, any_connected, any_held, is_held, is_conn, started}
use ykb_firmware.BtConnect.Events.{Happening, link_up, link_down, run}
use ykb_firmware.BtConnect.Reachable.{Inv, run-Inv}
use ykb_firmware.BtConnect.Air.{run_air, IsFound, AreServed, run_air-IsFound, run_air-lost}
use ykb_firmware.BtConnect.ReportMap.{
  HidReport, all_maps, assemble_report_map, assemble_report_map_lem,
}

abbrev alone : Bt
alone = record {
  conn_states = record { conn = none; in_boot_mode = false } ∷ [];
  is_advertising = true;
  battery = record {
    notifications_ready = false;
    pending_valid = false;
    pending_level = 0;
    primary_level = 0;
    secondary_level = 0;
    secondary_ready = false;
    publish_in_ms = none;
  };
  events = [];
}

abbrev visit : List Happening
visit = link_up false true false 5 ∷ link_down true adv_ok 5 ∷ link_up false true false 6 ∷ []

alone-Inv : Inv 5 alone
unfolding any_connected any_held is_held is_conn
alone-Inv = record { never_both = refl; balanced = omega arith }

alone-IsFound : IsFound (alone, true)
unfolding any_connected any_held is_held
alone-IsFound = record { has_slot = omega arith; flag_up = refl; on_air = refl }

alone_free : any_connected alone ≡ false
unfolding any_connected any_held is_held
alone_free = refl

visit-AreServed : AreServed visit
unfolding started
visit-AreServed = (refl, (refl, (refl, tt)))

run-Inv_example : Inv 5 (run visit alone)
run-Inv_example = run-Inv 5 visit alone alone-Inv

run_air-IsFound_example : IsFound (run_air visit (alone, true))
run_air-IsFound_example = run_air-IsFound visit (alone, true) visit-AreServed alone-IsFound

run_air-lost_example :
    let (s', air) =
      run_air (link_up false true true 5 ∷ link_down true adv_ok 5 ∷ []) (alone, true) in
    (any_connected s' ≡ false) × (air ≡ false) × (s'.is_advertising ≡ true)
run_air-lost_example = run_air-lost 5 true adv_ok alone alone_free refl

abbrev maps : List HidReport
maps =
    record { report_map = some (1 ∷ 2 ∷ []); append_fails = some false }
    ∷ record { report_map = none; append_fails = none }
    ∷ record { report_map = some (3 ∷ []); append_fails = some false }
    ∷ []

assemble_report_map_lem_example :
    (length (all_maps maps) ≤ 3 → assemble_report_map 3 maps ≡ (true, all_maps maps))
    × ((assemble_report_map 3 maps).0 ≡ true → length (all_maps maps) ≤ 3)
    × (length (assemble_report_map 3 maps).1 ≤ 3)
assemble_report_map_lem_example = assemble_report_map_lem 3 maps
