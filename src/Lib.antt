-- ===== src/Lib.antt =====
-- The firmware of the YKB keyboards: what turns key values into reports, the packet protocol that its
-- links share, and the subsystems that send their messages by it or keep its state.
--
-- Parts and files.
-- - Protocol: include/lib/ykb_protocol.h. Crc and Packet hold the checksum, the header and the
--   lengths; Bitmap the received bits; Tx the sender (ykb_protocol_tx_init, _tx_build_packet and
--   the callers' loop); Rx the receiver (ykb_protocol_rx_begin_transfer, _rx_push_packet,
--   _rx_collect_missing). Exchange puts the two ends together.
-- - Splitlink: subsys/splitlink/src/sync/protocol/splitlink_sync_ykb_protocol.c, the messages between
--   the halves of a keyboard. Wire is a packet as bytes, TxSlot tx_slot_work_handler and the start of a
--   transfer, RxSlot splitlink_sync_protocol_on_receive and rx_slot_work_handler, Slave and Master
--   what each role sends and queues, Link the way from one half to the other. Scripts is the manifest and
--   the request of script slots, sync/splitlink_sync_master.c and sync/splitlink_sync_slave.c beside protocol.
-- - Backlight: subsys/ykb_backlight/src/ykb_backlight.c and lumiscript_vm.c. Names is the keys of the slots
--   as text, Slots the storage of the
--   script slots in the flash, Running which script runs.
-- - KbHandler.Slave: subsys/kb_handler/src/kb_handler_splitlink_master_adapter.c, the values of the other
--   half; Steps interleaves the three contexts that share them.
-- - BtConnect: subsys/bt_connect/src/bt_connect.c. Events is what can happen to a connection, ReportMap
--   the report map and the initialisation.
-- - Metrics: subsys/ykb_metrics/src/ykb_metrics.c, the counters; Log is what is logged of them.
-- - Power: subsys/ykb_power/src/ykb_power.c, the power key and the light, with the thread and the
--   settings updates in Power/Indicator.
-- - VendorHid: subsys/vendor_hid, the requests of the host. Context is the parsing and the work that
--   answers, Scripts the script slots as bytes, Device the interface to the subsystems that the
--   requests act on.
-- - Settings: the structures of include/subsys/kb_settings.h, the floating-point operations that they
--   need, which are a parameter (Settings/Arithmetic), and subsys/kb_settings (Settings/Store).
-- - KbHandler: subsys/kb_handler. Report is build_kb_report, Calibration the scaling of a reading,
--   Layers the caches of layer keys and handle_layer_key, Actions the FN actions with the script
--   slots of subsys/ykb_backlight, Handler the thread's state with process_key_value and what it
--   calls, Race the race mode, Mouse the mouse reports and the checks of their settings, Frame
--   whole frames and the reset, Transport the choice of link for a keyboard report and Topology the
--   check of the scanners in kb_handler_config.c.
-- - Battery: the thread of subsys/ykb_battsense.
-- - Scanner: drivers/mux/src/mux_gpio.c and drivers/kscan/src/kscan_muxes.c, its scans in Kscan and its
--   initialisation in Kscan/Start.
-- - Base: the libraries' names, Boolean tests, lists and integers over the native numbers.
--
-- How the code is read. A C integer is a number with its wrap-around written out. A structure is a
-- record, a pointer that may be NULL an Option, an array a list of its length. A function that
-- changes a structure gives the new one. Calls that leave a component are events in its state, the
-- last one first, or part of the result. What a device, a link or a library answers is an input: a
-- list of answers, one for each run of a work, or the fields of a record. Work items run one at a
-- time. YKB_PROTOCOL_MAX_PAYLOAD_SIZE is a parameter above 0, TOTAL_KEY_COUNT and
-- CONFIG_KB_HANDLER_REPORT_ROLLOVER are fields of Build.
--
-- Bounds and fuel. A message has fewer than 2 ^ 16 bytes, which its header's field imposes. The
-- loops of senders take fuel, and as much as there are packets is proved enough. Layer caches are
-- claimed for at most 255 keys, since their counts are uint8_t. Script slots are at most 2 ^ 16.
--
-- Not modelled: the radio and USB links, the script language, the delayed shutdown, the charger, the
-- callbacks around the link of the halves, its benchmark, the thread that calls the scanners and its
-- suspension. The readiness of a link is an input of Transport.
pub mod Backlight
pub mod Base
pub mod Battery
pub mod BtConnect
pub mod KbHandler
pub mod Metrics
pub mod Power
pub mod Protocol
pub mod Scanner
pub mod Settings
pub mod Splitlink
pub mod VendorHid
