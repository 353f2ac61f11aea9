-- ===== src/Controls/Access.antt =====
-- Reading and writing a control of src/ctrl-gen.c on a device.
use usb_video_class.Base.{
  ℕ, ◌≡◌, refl, ap, ◌∙◌, ◌⊎◌, inl, inr, true, false, some, List, length, arith, if_true, if_false,
  Bool-cases, ==_iff,
}
use usb_video_class.Base.Int.{ℤ, pos, negsuc, ◌==ℤ◌}
use usb_video_class.Desc.{ControlInterface}
use usb_video_class.Usb.{Reply, Usb, KeepsSize, set_cur, get_cur}
use usb_video_class.Controls.{
  Control, size, encode, decode, entity_id, unit_setup, req_type_set, req_type_get, finish_get,
  get_control, set_control,
}
use usb_video_class.Controls.Codec.{Fit, decode-encode, length-encode, decode-Runs}

pos_eq : (n : ℕ) → (pos n ==ℤ pos n) ≡ true
pos_eq n = ground arith

eq_pos : (a : ℤ) (n : ℕ) → (a ==ℤ pos n) ≡ true → a ≡ pos n
eq_pos (pos a) n e = ap pos ((==_iff a n).0 e)
eq_pos (negsuc a) n e = cc

-- A transfer of all the bytes gives the values of its buffer; any other result is handed on, with
-- the caller's values left alone.
abbrev pub Gets : {S : Type 0} → Control → List ℕ → Reply S → ℤ × List ℕ × S → Type 0
Gets c old r (ret, values, w) =
    (((r.result ≡ pos (size c.fields)) × (ret ≡ pos 0) × (decode c.fields r.buffer ≡ some values))
      ⊎ (((r.result ==ℤ pos (size c.fields)) ≡ false) × (ret ≡ r.result) × (values ≡ old)))
    × (w ≡ r.after)

finish_get-Gets :
    {S : Type 0} (c : Control) (old : List ℕ) (r : Reply S)
    → length r.buffer ≡ size c.fields
    → (o : ℤ × List ℕ × S) × (finish_get c old r ≡ some o) × Gets c old r o
unfolding finish_get
finish_get-Gets c old r e =
    let (values, run) = decode-Runs c.fields r.buffer (omega (arith, e)) in
    elim (Bool-cases (r.result ==ℤ pos (size c.fields))) [
      | inl all ↦ (
        (pos 0, values, r.after),
        if_true _ _ all ∙ rw run refl,
        (inl (eq_pos r.result (size c.fields) all, refl, run), refl),
      )
      | inr short ↦ ((r.result, old, r.after), if_false _ _ short, (inr (short, refl, refl), refl))
    ]

module _ {S : Type 0} (usb : Usb S) (uninit : ℕ → List ℕ) (ctrl_if : ControlInterface) where
  -- The transfers of a control, to the unit with a number.
  abbrev pub get_reply : Control → ℕ → ℕ → List ℕ → S → Reply S
  get_reply c unit req bytes w =
      usb.control_transfer (unit_setup ctrl_if req_type_get req unit c.selector (size c.fields))
        bytes w

  abbrev pub set_reply : Control → ℕ → List ℕ → S → Reply S
  set_reply c unit bytes w =
      usb.control_transfer (unit_setup ctrl_if req_type_set set_cur unit c.selector (size c.fields))
        bytes w

  -- For every control of the library, on a device that has its unit and whose transfers keep the size of
  -- their buffer, and for arrays of the size that is declared, a read ends without an access outside its buffer: if the
  -- transfer carried all the bytes, it succeeds with the values of the buffer, and
  -- otherwise it hands the transfer's result on and leaves the caller's values alone.
  pub get_control-Gets :
      (c : Control) (unit req : ℕ) (old : List ℕ) (w : S)
      → KeepsSize usb
      → ((n : ℕ) → length (uninit n) ≡ n)
      → entity_id ctrl_if c.entity ≡ some unit
      → (o : ℤ × List ℕ × S) × (get_control usb uninit ctrl_if c req old w ≡ some o)
        × Gets c old (get_reply c unit req (uninit (size c.fields)) w) o
  unfolding get_control
  get_control-Gets c unit req old w keeps sized known = rw known (
      finish_get-Gets c old (get_reply c unit req (uninit (size c.fields)) w)
        (keeps _ _ w ∙ sized (size c.fields)))

  -- On a device that has the unit of a control, accepts a write of all its bytes, and answers the
  -- next read of its current value with those bytes, and for arrays of the size that is declared,
  -- values that fit the control's fields are written with success, and the read after that gives
  -- the same values with success.
  pub get_control-set_control :
      (c : Control) (unit : ℕ) (values old : List ℕ) (w : S)
      → Fit c.fields values
      → ((n : ℕ) → length (uninit n) ≡ n)
      → entity_id ctrl_if c.entity ≡ some unit
      → ((bytes : List ℕ) (v : S)
          → length bytes ≡ size c.fields
          → (set_reply c unit bytes v).result ≡ pos (size c.fields))
      → ((bytes junk : List ℕ) (v : S)
          → length bytes ≡ size c.fields
          → length junk ≡ size c.fields
          → ((get_reply c unit get_cur junk (set_reply c unit bytes v).after).result
              ≡ pos (size c.fields))
            × ((get_reply c unit get_cur junk (set_reply c unit bytes v).after).buffer ≡ bytes))
      → (v : S) × (v' : S) × (set_control usb uninit ctrl_if c values w ≡ some (pos 0, v))
        × (get_control usb uninit ctrl_if c get_cur old v ≡ some (pos 0, values, v'))
  unfolding get_control set_control finish_get
  get_control-set_control c unit values old w fit sized known accepts recalls =
      let bytes = encode c.fields values in
      let len = length-encode c.fields values fit in
      let junk = uninit (size c.fields) in
      let (all, same) = recalls bytes junk w len (sized (size c.fields)) in
      (
        (set_reply c unit bytes w).after,
        (get_reply c unit get_cur junk (set_reply c unit bytes w).after).after,
        rw (known, accepts bytes w len, pos_eq (size c.fields)) refl,
        rw (known, all, pos_eq (size c.fields), same, decode-encode c.fields values fit) refl,
      )
