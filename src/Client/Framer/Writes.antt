-- ===== src/Client/Framer/Writes.antt =====
-- What a write disposition says of the bytes that the transport took.
use ami.Base.{
  ℕ, zero, suc, ◌<◌, ◌≡◌, refl, ap, sym, ◌∙◌, inl, inr, Bool, true, false, ◌&&◌, ◌||◌, [], ◌∷◌,
  none, Bytes, nat_eq, ltb, length, take, Bool-cases, Option-cases, Outcome-cases, Outcome, ok,
  arith,
}
use ami.Wire.Types.{Field}
use ami.Wire.Types as Wire
use ami.Wire.Writer.{contains_any, is_break, is_nil, append_message}
use ami.Wire.FieldLaws.{length-encode}
use ami.Wire.Exchange.{append_message-IsWritten}
use ami.Client.Message.{Action}
use ami.Client.Framer.{
  Framer, World, Written, Disposition, envelope_fields, is_none, is_deadline, write_fault,
  failed_write, transmit, write_action,
}

-- The promise of each disposition, for a message `AppendMessage` encodes as `buf` when it does.
abbrev pub Promise : Disposition → Framer → Outcome Wire.Error Bytes → Written → Type 0
Promise Disposition.complete f buf r = (buf ≡ ok r.sent) × (r.error ≡ none)
Promise Disposition.rejected f buf r = (r.sent ≡ []) × (r.framer ≡ f)
Promise Disposition.canceled f buf r = (r.sent ≡ []) × (r.framer.closed ≡ f.closed)
Promise Disposition.closed f buf r = (r.sent ≡ []) × (r.framer.closed ≡ true)
Promise Disposition.not_sent f buf r = (r.sent ≡ []) × (r.framer.closed ≡ true)
Promise Disposition.outcome_unknown f buf r = (0 < length r.sent) × (r.framer.closed ≡ true)

take_none : (n : ℕ) (s : Bytes) → ltb 0 n ≡ false → take n s ≡ []
take_none zero s h = refl
take_none (suc n) s h = ground (arith, h)

take_some : (n : ℕ) (s : Bytes) → ltb 0 n ≡ true → 0 < length s → 0 < length (take n s)
take_some zero s h l = ground (arith, h)
take_some (suc n) [] h l = absurd (omega arith)
take_some (suc n) (c ∷ s) h l = omega arith

take_whole : (s : Bytes) → take (length s) s ≡ s
take_whole [] = refl
take_whole (c ∷ s) = ap (λ t. c ∷ t) (take_whole s)

unwritten : (a : Bool) (n : ℕ) (d : Bool) → (a && nat_eq n 0 && d) ≡ true → ltb 0 n ≡ false
unwritten a n d h = ground (arith, h)

still_open : (a b left : Bool) → left ≡ (a || b) → left ≡ false → left ≡ a
still_open true b left e h = ground (arith, e, h)
still_open false b left e h = h

-- With the framer as it is when the write returns.
failed_write-Promise :
    (f : Framer) (w : World) (buf : Bytes) (left : Framer)
    → 0 < length buf
    → left.closed ≡ (f.closed || w.closing)
    → Promise
        (failed_write left w (take w.written buf)).disposition
        f
        (ok buf)
        (failed_write left w (take w.written buf))
unfolding failed_write
failed_write-Promise f w buf left l e = elim (Bool-cases left.closed) [
  | inl shut ↦ rw shut (elim (Bool-cases (ltb 0 w.written)) [
    | inl some_sent ↦ rw some_sent (take_some w.written buf some_sent l, refl)
    | inr none_sent ↦ rw none_sent (take_none w.written buf none_sent, refl)
  ])
  | inr opened ↦
      rw opened
        (elim (Bool-cases
          (w.interrupted && nat_eq w.written 0 && is_deadline (write_fault w.failed))) [
            | inl clean ↦ rw clean (
              take_none w.written buf (unwritten w.interrupted w.written _ clean),
              sym opened ∙ still_open f.closed w.closing left.closed e opened,
            )
            | inr dirty ↦ rw dirty (elim (Bool-cases (ltb 0 w.written)) [
              | inl some_sent ↦ rw some_sent (take_some w.written buf some_sent l, refl)
              | inr none_sent ↦ rw none_sent (take_none w.written buf none_sent, refl)
            ])
          ])
]

all_written : (a : Bool) (n : ℕ) (s : Bytes) → (a && nat_eq n (length s)) ≡ true → take n s ≡ s
all_written a n s h = rw (ground_eq) (take_whole s)
  where
    ground_eq : n ≡ length s
    ground_eq = ground (arith, h)

transmit-Promise :
    (f : Framer) (w : World) (buf : Bytes)
    → 0 < length buf
    → Promise (transmit f w buf).disposition f (ok buf) (transmit f w buf)
unfolding transmit
transmit-Promise f w buf l = elim (Bool-cases (is_none w.failed && nat_eq w.written (length buf))) [
  | inl whole ↦ rw whole (ap ok (sym (all_written (is_none w.failed) w.written buf whole)), refl)
  | inr part ↦
      rw part (failed_write-Promise f w buf (record f { closed = f.closed || w.closing }) l refl)
]

-- An encoded message is never empty.
encoded_size :
    (a : Action) (id buf : Bytes) (lim : Wire.Limits)
    → append_message [] (envelope_fields a id) lim ≡ ok buf
    → 0 < length buf
unfolding envelope_fields
encoded_size a id buf lim h =
    let v = append_message-IsWritten lim _ _ buf h in
    omega (arith, ap length v.encoded, length-encode (envelope_fields a id))

-- For every action, every ActionID and whatever the transport, the context and a concurrent close
-- do: a write that is complete has sent exactly the message that `AppendMessage` encodes, and has no
-- error; one that is rejected has sent nothing and has left the framer as it was; one that is
-- canceled has sent nothing and has left the connection open if it was; one that reports a closed
-- connection or that nothing was sent has sent nothing, and the connection is closed; and one whose
-- outcome is unknown has sent a byte at least, and the connection is closed.
pub write_action-Promise :
    (f : Framer) (w : World) (a : Action) (id : Bytes)
    → Promise
        (write_action f w a id).disposition
        f
        (append_message [] (envelope_fields a id) f.lim)
        (write_action f w a id)
unfolding write_action
write_action-Promise f w a id = elim (Option-cases w.entry) [
  | inr (c, e) ↦ rw e (refl, refl)
  | inl e ↦ rw e (elim (Bool-cases f.closed) [
    | inl shut ↦ rw shut (refl, refl)
    | inr opened ↦ rw opened (elim (Bool-cases (is_nil a.name)) [
      | inl unnamed ↦ rw unnamed (refl, refl)
      | inr named ↦ rw named (elim (Bool-cases (contains_any id is_break)) [
        | inl broken ↦ rw broken (refl, refl)
        | inr sound ↦
            rw sound (elim (Outcome-cases (append_message [] (envelope_fields a id) f.lim)) [
              | inr (x, h) ↦ rw h (refl, refl)
              | inl (buf, h) ↦ rw h (
                  transmit-Promise (record f { closed = false }) (record w { entry = none }) buf
                    (encoded_size a id buf f.lim h))
            ])
      ])
    ])
  ])
]
