-- ===== src/Client/Settings/Resolution.antt =====
-- What the resolvers accept, and what they make of it.
use ami.Base.{
  ℕ, zero, suc, ◌+◌, ◌<◌, ◌≡◌, ◌↔◌, refl, ap, sym, subst, ◌∙◌, inl, inr, ◌⊎◌, Bool, true, false,
  ltb, Outcome, ok, err, Outcome-cases, arith,
}
use ami.Demux.Types.{ℤ, pos, negsuc}
use ami.Wire.Types.{validate}
use ami.Wire.Types as Wire
use ami.Client.Settings.{pick, WireLimits, Setting, default_wire, default_age, resolve_wire}

-- The value is the one that was set, or the default where none was.
abbrev pub Chosen : ℤ → ℕ → ℕ → Type 0
Chosen (pos zero) default v = v ≡ default
Chosen (pos (suc n)) default v = v ≡ suc n
Chosen (negsuc n) default v = ⊥

pick-Chosen :
    (name : Setting) (set : ℤ) (default v : ℕ) → pick name set default ≡ ok v → Chosen set default v
pick-Chosen name (pos zero) default v h = ground (arith, h)
pick-Chosen name (pos (suc n)) default v h = ground (arith, h)
pick-Chosen name (negsuc n) default v h = absurd (cc)

Chosen-positive : (set : ℤ) (default v : ℕ) → 0 < default → Chosen set default v → ltb 0 v ≡ true
Chosen-positive (pos zero) default v d h = ground (arith, d, h)
Chosen-positive (pos (suc n)) default v d h = ground (arith, h)
Chosen-positive (negsuc n) default v d h = absurd h

-- Each limit of the connection is chosen.
pub record IsResolved (l : WireLimits) (w : Wire.Limits) (age : ℕ) : Type 0 where
  pub banner : Chosen l.max_banner_bytes default_wire.max_banner_bytes w.max_banner_bytes
  pub line : Chosen l.max_line_bytes default_wire.max_line_bytes w.max_line_bytes
  pub count : Chosen l.max_fields default_wire.max_fields w.max_fields
  pub bytes : Chosen l.max_message_bytes default_wire.max_message_bytes w.max_message_bytes
  pub lines :
      Chosen l.max_command_output_lines default_wire.max_command_output_lines
        w.max_command_output_lines
  pub output :
      Chosen l.max_command_output_bytes default_wire.max_command_output_bytes
        w.max_command_output_bytes
  pub action_count : Chosen l.max_action_fields default_wire.max_action_fields w.max_action_fields
  pub action_line :
      Chosen l.max_action_line_bytes default_wire.max_action_line_bytes w.max_action_line_bytes
  pub action : Chosen l.max_action_bytes default_wire.max_action_bytes w.max_action_bytes
  pub age_lem : Chosen l.max_partial_frame_age default_age age

pub ok-injective : {A : Type 0} (a b : A) → ◌≡◌ {A = Outcome Setting A} (ok a) (ok b) → a ≡ b
ok-injective a b e = cc

-- A step of a resolver that has succeeded.
pub step :
    {A : Type 0} (name : Setting) (set : ℤ) (default : ℕ) (k : ℕ → Outcome Setting A) (a : A)
    → ami.Base.◌>>=◌ (pick name set default) k ≡ ok a
    → (v : ℕ) × (pick name set default ≡ ok v) × (k v ≡ ok a)
step name (pos zero) default k a h = (default, refl, h)
step name (pos (suc n)) default k a h = (suc n, refl, h)
step name (negsuc n) default k a h = absurd (cc)

resolve_wire-IsResolved :
    (l : WireLimits) (w : Wire.Limits) (age : ℕ) → resolve_wire l ≡ ok (w, age) → IsResolved l w age
unfolding resolve_wire
resolve_wire-IsResolved l w age h =
    let (a, pa, h) = step _ l.max_banner_bytes _ _ _ h in
    let (b, pb, h) = step _ l.max_line_bytes _ _ _ h in
    let (c, pc, h) = step _ l.max_fields _ _ _ h in
    let (d, pd, h) = step _ l.max_message_bytes _ _ _ h in
    let (e, pe, h) = step _ l.max_command_output_lines _ _ _ h in
    let (f, pf, h) = step _ l.max_command_output_bytes _ _ _ h in
    let (g, pg, h) = step _ l.max_action_fields _ _ _ h in
    let (i, pi, h) = step _ l.max_action_line_bytes _ _ _ h in
    let (j, pj, h) = step _ l.max_action_bytes _ _ _ h in
    let (k, pk, h) = step _ l.max_partial_frame_age _ _ _ h in
    subst (λ (p : Wire.Limits × ℕ). IsResolved l p.0 p.1) (ok-injective _ _ h)
      (record {
        banner = pick-Chosen _ l.max_banner_bytes default_wire.max_banner_bytes a pa;
        line = pick-Chosen _ l.max_line_bytes default_wire.max_line_bytes b pb;
        count = pick-Chosen _ l.max_fields default_wire.max_fields c pc;
        bytes = pick-Chosen _ l.max_message_bytes default_wire.max_message_bytes d pd;
        lines = pick-Chosen _ l.max_command_output_lines default_wire.max_command_output_lines e pe;
        output =
            pick-Chosen _ l.max_command_output_bytes default_wire.max_command_output_bytes f pf;
        action_count = pick-Chosen _ l.max_action_fields default_wire.max_action_fields g pg;
        action_line = pick-Chosen _ l.max_action_line_bytes default_wire.max_action_line_bytes i pi;
        action = pick-Chosen _ l.max_action_bytes default_wire.max_action_bytes j pj;
        age_lem = pick-Chosen _ l.max_partial_frame_age default_age k pk;
      })

valid :
    (w : Wire.Limits)
    → ltb 0 w.max_banner_bytes ≡ true
    → ltb 0 w.max_line_bytes ≡ true
    → ltb 0 w.max_fields ≡ true
    → ltb 0 w.max_message_bytes ≡ true
    → ltb 0 w.max_command_output_lines ≡ true
    → ltb 0 w.max_command_output_bytes ≡ true
    → ltb 0 w.max_action_fields ≡ true
    → ltb 0 w.max_action_line_bytes ≡ true
    → ltb 0 w.max_action_bytes ≡ true
    → validate w ≡ ok tt
unfolding validate
valid w a b c d e f g h i = rw a (rw b (rw c (rw d (rw e (rw f (rw g (rw h (rw i refl))))))))

-- The limits that the connection resolves pass the validation of the wire package: each is the one
-- that was set, or the default where none was set, and it is positive.
pub resolve_wire-validate :
    (l : WireLimits) (w : Wire.Limits) (age : ℕ)
    → resolve_wire l ≡ ok (w, age)
    → (validate w ≡ ok tt) × IsResolved l w age
resolve_wire-validate l w age h =
    let v = resolve_wire-IsResolved l w age h in
    (
      valid w (Chosen-positive _ _ _ (omega arith) v.banner)
          (Chosen-positive _ _ _ (omega arith) v.line) (Chosen-positive _ _ _ (omega arith) v.count)
          (Chosen-positive _ _ _ (omega arith) v.bytes)
          (Chosen-positive _ _ _ (omega arith) v.lines)
          (Chosen-positive _ _ _ (omega arith) v.output)
          (Chosen-positive _ _ _ (omega arith) v.action_count)
          (Chosen-positive _ _ _ (omega arith) v.action_line)
          (Chosen-positive _ _ _ (omega arith) v.action),
      v,
    )
