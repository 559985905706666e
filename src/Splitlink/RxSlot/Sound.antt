-- ===== src/Splitlink/RxSlot/Sound.antt =====
-- What every frame, well-formed or not, leaves of the receiving slots.
use ykb_firmware.Base.{
  ℕ, ◌≤◌, ◌<◌, ◌≡◌, refl, sym, ap, ◌∙◌, Bool, true, List, [], ◌∷◌, ◌==◌, length, arith, ◌⊎◌, inl,
  inr, Bool-cases, Option-cases,
}
use ykb_firmware.Protocol.Packet.{Packet}
use ykb_firmware.Protocol.Rx.{
  RxState, RxResult, is_error, push, opened, rx_init, rx_reset, transfer_mismatch,
}
use ykb_firmware.Protocol.Rx.Valid.{
  IsHeader, IsValid, push-IsValid, rx_init-IsValid, Admits, admit-Admits, mismatched, continues,
  opens, refuses, push_cases,
}
use ykb_firmware.Protocol.Rx.Bounds.{push-Within}
use ykb_firmware.Splitlink.Wire.{read_packet}
use ykb_firmware.Splitlink.RxSlot.States.{
  receive_first, receive_on, receive_ready, receive_processing, rx_slot_work-slot_cleared,
}
use ykb_firmware.Splitlink.RxSlot.{
  RxSlot, RxSlotState, rx_empty, receiving, ready, processing, with_rx, slot_init, slot_cleared,
  slot_push, slot_receive, is_complete_result, Role, Receiver, receives, put_slot, on_receive,
  rx_slot_work, ReceiverEvent, frame, work, receiver_step, receiver_run, is_ready,
}
use ykb_firmware.Splitlink.RxSlot.Frames.{
  IsBytes, read_packet-IsHeader, IsLive, store-IsLive, error-IsLive, result_complete,
  receiving_not_ready, receiving_not_empty, ready_not_empty,
}

module _ (mp : ℕ) (mp_pos : 0 < mp) where
  Admits-IsLive :
      {rx : RxState} {p : Packet} {out : RxResult × RxState}
      → Admits mp mp_pos rx p out
      → IsLive out
  unfolding opened is_error
  Admits-IsLive {rx} (mismatched on other) = error-IsLive transfer_mismatch rx refl
  Admits-IsLive {rx} {p} (continues on same) = store-IsLive mp rx p on
  Admits-IsLive {rx} {p} (opens off e) = store-IsLive mp (opened rx p) p refl
  Admits-IsLive {rx} (refuses off res e) = error-IsLive res rx e

  push-IsLive : (rx : RxState) (p : Packet) → IsLive (push mp rx p)
  push-IsLive rx p = elim (push_cases mp mp_pos rx p) [
    | inl (e, same) ↦ error-IsLive (push mp rx p).0 (push mp rx p).1 e
    | inr (k, e) ↦ rw e (Admits-IsLive (admit-Admits mp mp_pos rx p))
  ]

  -- A receiver on the slot's array.
  pub record Attached (slot : RxSlot) : Type 0 where
    pub buffer : slot.rx.buffer ≡ slot.data_bytes
    pub capacity : slot.rx.capacity ≡ slot.max_data_length
    pub valid : IsValid mp mp_pos slot.rx

  -- A slot that is not empty has a receiver in a transfer, complete where its work waits.
  pub record Holding (slot : RxSlot) : Type 0 where
    pub attached : Attached slot
    pub on : slot.rx.is_active ≡ true
    pub done : slot.state ≡ ready → slot.rx.is_complete ≡ true

  pub record IsSound (slot : RxSlot) : Type 0 where
    pub storage : slot.max_data_length ≤ length slot.data_bytes
    pub holding : (slot.state ≡ rx_empty) ⊎ Holding slot

  cleared-IsSound :
      (slot : RxSlot) (rx : RxState)
      → slot.max_data_length ≤ length rx.buffer
      → IsSound (slot_cleared (with_rx slot rx))
  unfolding slot_cleared with_rx rx_reset
  cleared-IsSound slot rx h = record { storage = h; holding = inl refl }

  -- A packet pushed to a slot whose receiver is on its array.
  slot_push-IsSound :
      (slot : RxSlot) (p : Packet)
      → slot.max_data_length ≤ length slot.data_bytes
      → slot.state ≡ receiving
      → Attached slot
      → IsHeader p.header
      → IsSound (slot_push mp slot p).1
  unfolding slot_push with_rx is_complete_result
  slot_push-IsSound slot p room state at w =
      let inside = push-Within mp mp_pos slot.rx p w at.valid in
      let same : length (push mp slot.rx p).1.buffer ≡ length slot.data_bytes =
        inside.same_length ∙ ap length at.buffer in
      let big : slot.max_data_length ≤ length (push mp slot.rx p).1.buffer = omega (arith, same) in
      let valid = push-IsValid mp mp_pos slot.rx p w at.valid in
      let live = push-IsLive slot.rx p in
      elim (Bool-cases (is_error (push mp slot.rx p).0)) [
        | inl e ↦ simp (e) (cleared-IsSound slot (push mp slot.rx p).1 big)
        | inr e ↦ elim (Bool-cases (is_complete_result (push mp slot.rx p).0)) [
          | inl c ↦
              simp (e, c)
                (record {
                  storage = big;
                  holding = inr (record {
                    attached = record {
                      buffer = refl;
                      capacity = inside.same_capacity ∙ at.capacity;
                      valid = valid;
                    };
                    on = live.on e;
                    done = λ x. live.done (result_complete _ c);
                  });
                })
          | inr c ↦
              simp (e, c)
                (record {
                  storage = big;
                  holding = inr (record {
                    attached = record {
                      buffer = refl;
                      capacity = inside.same_capacity ∙ at.capacity;
                      valid = valid;
                    };
                    on = live.on e;
                    done = λ x. absurd (receiving_not_ready (sym state ∙ x));
                  });
                })
        ]
      ]

  slot_init-Attached :
      (track : Bool) (slot : RxSlot)
      → slot.max_data_length ≤ length slot.data_bytes
      → Attached (record (slot_init track slot) { state = receiving })
  unfolding slot_init with_rx rx_init
  slot_init-Attached track slot h = record {
    buffer = refl;
    capacity = refl;
    valid = rx_init-IsValid mp mp_pos slot.data_bytes slot.max_data_length track _ h;
  }

  start_room :
      (track : Bool) (slot : RxSlot)
      → slot.max_data_length ≤ length slot.data_bytes
      → (record (slot_init track slot) { state = receiving }).max_data_length
        ≤ length (record (slot_init track slot) { state = receiving }).data_bytes
  unfolding slot_init with_rx rx_init
  start_room track slot h = h

  -- Whatever the packet.
  slot_receive-IsSound :
      (track : Bool) (slot : RxSlot) (p : Packet)
      → IsSound slot
      → IsHeader p.header
      → IsSound (slot_receive mp track slot p).1
  slot_receive-IsSound track slot p s w = at slot.state refl
    where
      at : (state : RxSlotState) → slot.state ≡ state → IsSound (slot_receive mp track slot p).1
      at rx_empty e = rw (receive_first mp track slot p e) (
          slot_push-IsSound (record (slot_init track slot) { state = receiving }) p
            (start_room track slot s.storage) refl (slot_init-Attached track slot s.storage) w)
      at receiving e = rw (receive_on mp track slot p e) (elim s.holding [
        | inl empty ↦ absurd (receiving_not_empty (sym e ∙ empty))
        | inr h ↦ slot_push-IsSound slot p s.storage e h.attached w
      ])
      at ready e = rw (receive_ready mp track slot p e) s
      at processing e = rw (receive_processing mp track slot p e) s

  slot_cleared-IsSound :
      (slot : RxSlot) → slot.max_data_length ≤ length slot.rx.buffer → IsSound (slot_cleared slot)
  unfolding slot_cleared with_rx rx_reset
  slot_cleared-IsSound slot h = record { storage = h; holding = inl refl }

  -- A slot that is ready holds a message no longer than its array.
  pub ready_holds : (slot : RxSlot) → IsSound slot → slot.state ≡ ready → Holding slot
  ready_holds slot s e = elim s.holding [
    | inl empty ↦ absurd (ready_not_empty (sym e ∙ empty))
    | inr h ↦ h
  ]

  rx_slot_work-IsSound :
      (role : Role) (id : ℕ) (slot : RxSlot)
      → IsSound slot
      → slot.state ≡ ready
      → IsSound (rx_slot_work role id slot).1
  rx_slot_work-IsSound role id slot s e =
      let at = (ready_holds slot s e).attached in
      let same = ap length at.buffer in
      rw (rx_slot_work-slot_cleared role id slot)
        (slot_cleared-IsSound slot (omega (arith, s.storage, same)))

  abbrev AllSound : Receiver → Type 0
  AllSound node = (id : ℕ) → IsSound (node.slot_of id)

  put_slot-IsSound :
      (slots : ℕ → RxSlot) (id : ℕ) (slot : RxSlot)
      → ((other : ℕ) → IsSound (slots other))
      → IsSound slot
      → (other : ℕ) → IsSound (put_slot slots id slot other)
  unfolding put_slot
  put_slot-IsSound slots id slot all s other = elim (Bool-cases (id == other)) [
    | inl e ↦ rw e s
    | inr e ↦ rw e (all other)
  ]

  on_receive-AllSound :
      (track : Bool) (node : Receiver) (bytes : List ℕ)
      → IsBytes bytes
      → AllSound node
      → AllSound (on_receive mp track node bytes).1
  unfolding on_receive
  on_receive-AllSound track node bytes b all = elim (Option-cases (read_packet mp bytes)) [
    | inl e ↦ simp (on_receive, e) all
    | inr (p, e) ↦ elim (Bool-cases (receives node.role p.header.transfer_id)) [
      | inr other ↦ simp (on_receive, e, other) all
      | inl ours ↦
          simp (on_receive, e, ours)
            (put_slot-IsSound node.slot_of p.header.transfer_id _ all (
              slot_receive-IsSound track (node.slot_of p.header.transfer_id) p
                (all p.header.transfer_id) (read_packet-IsHeader mp bytes p b e)))
    ]
  ]

  -- The frames among the events are bytes.
  abbrev pub AreBytes : List ReceiverEvent → Type 0
  AreBytes [] = Unit
  AreBytes (frame bytes ∷ es) = IsBytes bytes × AreBytes es
  AreBytes (work id ∷ es) = AreBytes es

  work-AllSound :
      (track : Bool) (node : Receiver) (id : ℕ)
      → AllSound node
      → AllSound (receiver_step mp track node (work id))
  unfolding receiver_step is_ready
  work-AllSound track node id all = at (node.slot_of id).state refl
    where
      at :
          (state : RxSlotState)
          → (node.slot_of id).state ≡ state
          → AllSound (receiver_step mp track node (work id))
      at ready e = simp (e) (
          put_slot-IsSound node.slot_of id _ all
            (rx_slot_work-IsSound node.role id (node.slot_of id) (all id) e))
      at rx_empty e = simp (e) all
      at receiving e = simp (e) all
      at processing e = simp (e) all

  receiver_run-AllSound :
      (track : Bool) (node : Receiver) (es : List ReceiverEvent)
      → AreBytes es
      → AllSound node
      → AllSound (receiver_run mp track node es)
  unfolding receiver_run receiver_step
  receiver_run-AllSound track node [] b all = all
  receiver_run-AllSound track node (frame bytes ∷ es) b all =
      receiver_run-AllSound track (on_receive mp track node bytes).1 es b.1
        (on_receive-AllSound track node bytes b.0 all)
  receiver_run-AllSound track node (work id ∷ es) b all =
      receiver_run-AllSound track (receiver_step mp track node (work id)) es b
        (work-AllSound track node id all)

  -- A half whose slots are empty, each with its array.
  pub record IsIdle (node : Receiver) : Type 0 where
    pub idle : (id : ℕ) → (node.slot_of id).state ≡ rx_empty
    pub storage : (id : ℕ) → (node.slot_of id).max_data_length ≤ length (node.slot_of id).data_bytes

  -- From a half whose slots are empty, whatever frames of bytes come in and however the works run between them, a slot whose work waits has a complete receiver, and its message is no longer than the slot's array.
  pub receiver_run-Holding :
      (track : Bool) (node : Receiver) (es : List ReceiverEvent) (id : ℕ)
      → IsIdle node
      → AreBytes es
      → let slot = (receiver_run mp track node es).slot_of id in
        slot.state ≡ ready
        → (slot.rx.is_complete ≡ true)
          × (slot.rx.total_len ≤ slot.max_data_length)
          × (slot.max_data_length ≤ length slot.data_bytes)
  receiver_run-Holding track node es id n b e =
      let all =
        receiver_run-AllSound track node es b
          (λ other. record { storage = n.storage other; holding = inl (n.idle other) }) in
      let slot = (receiver_run mp track node es).slot_of id in
      let h = ready_holds slot (all id) e in
      let t = h.attached.valid.transfer h.on in
      (h.done e, omega (arith, t.room, h.attached.capacity), (all id).storage)
