-- ===== src/KbHandler/Transport.antt =====
-- kb_handler_transport.c: the link that a report goes to.
use ykb_firmware.Base.{Bool, true, false, ◌&&◌, Option, none, some, if◌then◌else◌, ◌≡◌, arith}
use ykb_firmware.Settings.{TransportPrio, prio_usb, prio_bt}

pub data Link : Type 0 where
  usb bt : Link

-- The links of the build, and whether each can send now. The readiness of a link is an answer of subsys/usb_connect or subsys/bt_connect.
pub record Links : Type 0 where
  pub has_usb : Bool
  pub has_bt : Bool
  pub usb_ready : Bool
  pub bt_ready : Bool

unfoldable pub link_of : TransportPrio → Link
link_of prio_usb = usb
link_of prio_bt = bt

-- The link of a report where the build has both.
unfoldable pub choose : Links → TransportPrio → Option Link
choose l prio =
    if l.usb_ready && l.bt_ready
    then some (link_of prio)
    else if l.usb_ready
    then some usb
    else if l.bt_ready
    then some bt
    else none

-- `kb_handler_transport_send_kb_report`: the link that the report is handed to.
unfoldable pub send_report : Links → TransportPrio → Option Link
unfolding choose
send_report l prio =
    if l.has_bt && l.has_usb
    then choose l prio
    else if l.has_bt
    then (if l.bt_ready then some bt else none)
    else if l.has_usb
    then (if l.usb_ready then some usb else none)
    else none

-- `kb_handler_transport_send_mouse_report`, whose last test is CONFIG_USB_CONNECT; `has_usb` and `has_bt` are
-- the options of the mouse on each link.
unfoldable pub send_mouse_report : Bool → Links → TransportPrio → Option Link
unfolding choose
send_mouse_report usb_connect l prio =
    if l.has_bt && l.has_usb
    then choose l prio
    else if l.has_bt
    then (if l.bt_ready then some bt else none)
    else if usb_connect
    then (if l.usb_ready then some usb else none)
    else none

abbrev pub is_open : Links → Link → Bool
is_open l usb = l.has_usb && l.usb_ready
is_open l bt = l.has_bt && l.bt_ready

abbrev pub other : Link → Link
other usb = bt
other bt = usb

-- The report goes to the preferred link if that is open, to the other one if only that is open, and nowhere if neither is.
pub send_report_lem :
    (l : Links) (prio : TransportPrio)
    → send_report l prio ≡ (
        if is_open l (link_of prio)
        then some (link_of prio)
        else if is_open l (other (link_of prio))
        then some (other (link_of prio))
        else none)
unfolding send_report choose link_of
send_report_lem l prio_usb = ground arith
send_report_lem l prio_bt = ground arith

-- A mouse report takes the same way as a keyboard report, where a USB device that has no mouse is never ready
-- to send mouse reports.
pub send_mouse_report-send_report :
    (usb_connect : Bool) (l : Links) (prio : TransportPrio)
    → (l.has_usb ≡ true → usb_connect ≡ true)
    → (l.has_usb ≡ false → l.usb_ready ≡ false)
    → send_mouse_report usb_connect l prio ≡ send_report l prio
unfolding send_mouse_report send_report choose
send_mouse_report-send_report usb_connect l prio on off = ground arith
