-- ===== src/VendorHid/Refused.antt =====
-- What the parsing of requests does with a packet that the receiver refuses.
use ykb_firmware.Base.{
  ℕ, ◌≤◌, ◌<◌, ◌≡◌, refl, sym, ap, ◌∙◌, true, false, some, List, ltb, arith, inl, inr, ==_ne,
}
use ykb_firmware.Protocol.Packet.{Packet}
use ykb_firmware.Protocol.Rx.{RxState, RxResult, out_of_order, is_error, push, store}
use ykb_firmware.Protocol.Rx.Valid.{
  push_cases, Admits, admit-Admits, mismatched, continues, opens, refuses,
}
use ykb_firmware.Splitlink.Wire.{header_size}
use ykb_firmware.VendorHid.Context.{Ctx, Code, rx_error, parse, packet_at}

-- A receiver in the middle of a transfer that takes packets in order and awaits another than the first.
pub record IsMidway (rx : RxState) : Type 0 where
  pub active : rx.is_active ≡ true
  pub strict : rx.allow_out_of_order ≡ false
  pub later : 0 < rx.next_expected_packet_idx

store_first :
    (mp : ℕ) (rx : RxState) (p : Packet)
    → IsMidway rx
    → p.header.packet_idx ≡ 0
    → store mp rx p ≡ (out_of_order, rx)
unfolding store
store_first mp rx p w e =
    simp (w.strict, e, ==_ne 0 rx.next_expected_packet_idx (λ z. absurd (not_zero z)))
  where
    not_zero : 0 ≡ rx.next_expected_packet_idx → ⊥
    not_zero z = omega (arith, w.later)

abbrev Refused : RxState → RxResult × RxState → Type 0
Refused rx out = (is_error out.0 ≡ true) × (out.1 ≡ rx)

Admits-Refused :
    (mp : ℕ) (mp_pos : 0 < mp) {rx : RxState} {p : Packet} {out : RxResult × RxState}
    → Admits mp mp_pos rx p out
    → IsMidway rx
    → p.header.packet_idx ≡ 0
    → Refused rx out
unfolding is_error
Admits-Refused mp mp_pos (mismatched on other) w e = (refl, refl)
Admits-Refused mp mp_pos {rx} {p} (continues on same) w e =
    rw (store_first mp rx p w e) (refl, refl)
Admits-Refused mp mp_pos (opens off begun) w e = absurd (clash (sym off ∙ w.active))
  where
    clash : false ≡ true → ⊥
    clash x = cc
Admits-Refused mp mp_pos (refuses off res bad) w e = (bad, refl)

push-Refused :
    (mp : ℕ) (mp_pos : 0 < mp) (rx : RxState) (p : Packet)
    → IsMidway rx
    → p.header.packet_idx ≡ 0
    → Refused rx (push mp rx p)
push-Refused mp mp_pos rx p w e = elim (push_cases mp mp_pos rx p) [
  | inl refused ↦ refused
  | inr (intact, same) ↦ rw same (Admits-Refused mp mp_pos (admit-Admits mp mp_pos rx p) w e)
]

parse_bad :
    (mp : ℕ) (ctx : Ctx) (memory : List ℕ) (len : ℕ)
    → ctx.busy ≡ false
    → ltb len header_size ≡ false
    → is_error (push mp ctx.rx (packet_at memory)).0 ≡ true
    → parse mp ctx (some memory) len ≡ (
      rx_error (push mp ctx.rx (packet_at memory)).0,
      record ctx { rx = (push mp ctx.rx (packet_at memory)).1 },
    )
unfolding parse
parse_bad mp ctx memory len idle enough bad = simp (idle, enough, bad)

-- While a request is being received and its next packet is not the first, a packet that starts a request anew is refused with an error and changes nothing. So a host that lost a packet cannot start over.
pub parse_restart :
    (mp : ℕ) (ctx : Ctx) (memory : List ℕ) (len : ℕ)
    → 0 < mp
    → IsMidway ctx.rx
    → ctx.busy ≡ false
    → header_size ≤ len
    → (packet_at memory).header.packet_idx ≡ 0
    → (res : RxResult) × (parse mp ctx (some memory) len ≡ (rx_error res, ctx))
      × (is_error res ≡ true)
parse_restart mp ctx memory len mp_pos w idle long e =
    let (bad, same) = push-Refused mp mp_pos ctx.rx (packet_at memory) w e in
    let enough : ltb len header_size ≡ false = ground arith in
    (
      (push mp ctx.rx (packet_at memory)).0,
      parse_bad mp ctx memory len idle enough bad
          ∙ ap {A = RxState} {B = Code × Ctx}
              (λ rx. (rx_error (push mp ctx.rx (packet_at memory)).0, record ctx { rx = rx })) same,
      bad,
    )
