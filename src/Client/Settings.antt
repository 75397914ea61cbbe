-- ===== src/Client/Settings.antt =====
-- limits.go and the limits of config.go, and `Validate` of internal/demux/limits.go.
pub mod Resolution
pub mod Sessions
use ami.Base.{
  ℕ, zero, suc, ◌+◌, Bool, true, false, not, ◌&&◌, List, [], ◌∷◌, Bytes, ltb, if◌then◌else◌,
  Outcome, ok, err, guard, ◌>>=◌, ◌>>◌,
}
use Prim.Native.Nat.{◌*◌}
use ami.Demux.Types.{ℤ, pos, negsuc}
use ami.Demux.Types as Demux
use ami.Wire.Types as Wire

-- A field of the configuration: a negative one is refused, and zero selects the default.
abbrev pub pick : {E : Type 0} → E → ℤ → ℕ → Outcome E ℕ
pick name (negsuc n) default = err name
pick name (pos zero) default = ok default
pick name (pos (suc n)) default = ok (suc n)

pub record WireLimits : Type 0 where
  pub max_banner_bytes : ℤ
  pub max_line_bytes : ℤ
  pub max_fields : ℤ
  pub max_message_bytes : ℤ
  pub max_command_output_lines : ℤ
  pub max_command_output_bytes : ℤ
  pub max_action_fields : ℤ
  pub max_action_line_bytes : ℤ
  pub max_action_bytes : ℤ
  pub max_partial_frame_age : ℤ

-- What the resolvers name when they refuse.
pub data Setting : Type 0 where
  banner_bytes line_bytes fields message_bytes command_output_lines command_output_bytes : Setting
  action_fields action_line_bytes action_bytes partial_frame_age : Setting
  write_admission write_attempt retirement_lifetime pending retirement subscriptions : Setting
  subscription_queue_items subscription_queue_bytes subscription_bytes matcher_names : Setting
  matcher_bytes lists list_queue_items list_queue_bytes list_observed_bytes list_bytes : Setting
  interval write_timeout timeout machine_limit : Setting

abbrev second : ℕ
second = 1000000000

-- The defaults, in nanoseconds where they are durations.
abbrev pub default_wire : Wire.Limits
default_wire = record {
  max_banner_bytes = 1024;
  max_line_bytes = 32768;
  max_fields = 1024;
  max_message_bytes = 131072;
  max_command_output_lines = 65536;
  max_command_output_bytes = 8388608;
  max_action_fields = 128;
  max_action_line_bytes = 1022;
  max_action_bytes = 131072;
}

abbrev pub default_age : ℕ
default_age = 30 * second

-- `WireLimits.resolve`
unfoldable pub resolve_wire : WireLimits → Outcome Setting (Wire.Limits × ℕ)
resolve_wire l = do
  banner ← pick Setting.banner_bytes l.max_banner_bytes default_wire.max_banner_bytes
  line ← pick Setting.line_bytes l.max_line_bytes default_wire.max_line_bytes
  count ← pick Setting.fields l.max_fields default_wire.max_fields
  bytes ← pick Setting.message_bytes l.max_message_bytes default_wire.max_message_bytes
  lines ←
      pick Setting.command_output_lines l.max_command_output_lines
        default_wire.max_command_output_lines
  output ←
      pick Setting.command_output_bytes l.max_command_output_bytes
        default_wire.max_command_output_bytes
  action_count ← pick Setting.action_fields l.max_action_fields default_wire.max_action_fields
  action_line ←
      pick Setting.action_line_bytes l.max_action_line_bytes default_wire.max_action_line_bytes
  action ← pick Setting.action_bytes l.max_action_bytes default_wire.max_action_bytes
  age ← pick Setting.partial_frame_age l.max_partial_frame_age default_age
  ok (
    record {
      max_banner_bytes = banner;
      max_line_bytes = line;
      max_fields = count;
      max_message_bytes = bytes;
      max_command_output_lines = lines;
      max_command_output_bytes = output;
      max_action_fields = action_count;
      max_action_line_bytes = action_line;
      max_action_bytes = action;
    },
    age,
  )

pub record KeepaliveConfig : Type 0 where
  pub disabled : Bool
  pub interval : ℤ
  pub write_timeout : ℤ
  pub timeout : ℤ

pub record Keepalive : Type 0 where
  pub disabled : Bool
  pub interval : ℕ
  pub write_timeout : ℕ
  pub timeout : ℕ

-- `KeepaliveConfig.resolve`
unfoldable pub resolve_keepalive : KeepaliveConfig → Outcome Setting Keepalive
resolve_keepalive k = do
  period ← pick Setting.interval k.interval (30 * second)
  write_wait ← pick Setting.write_timeout k.write_timeout (5 * second)
  reply_wait ← pick Setting.timeout k.timeout (10 * second)
  ok (record {
    disabled = k.disabled;
    interval = period;
    write_timeout = write_wait;
    timeout = reply_wait;
  })

-- The limits of a session, less those of the wire.
pub record SessionConfig : Type 0 where
  pub write_admission : ℤ
  pub write_attempt : ℤ
  pub max_pending : ℤ
  pub max_retirement : ℤ
  pub retirement_lifetime : ℤ
  pub max_subscriptions : ℤ
  pub subscription_queue_items : ℤ
  pub subscription_queue_bytes : ℤ
  pub max_subscription_bytes : ℤ
  pub max_matcher_names : ℤ
  pub max_matcher_bytes : ℤ
  pub max_lists : ℤ
  pub list_queue_items : ℤ
  pub list_queue_bytes : ℤ
  pub list_observed_bytes : ℤ
  pub max_list_bytes : ℤ

-- Go's `sessionLimits`.
pub record SessionLimits : Type 0 where
  pub write_admission : ℕ
  pub write_attempt : ℕ
  pub sub_items : ℕ
  pub sub_bytes : ℕ
  pub list_items : ℕ
  pub list_bytes : ℕ
  pub list_observed : ℕ
  pub machine : Demux.Limits

-- `Limits.Validate` of internal/demux.
unfoldable pub validate_machine : Demux.Limits → Outcome Setting (Unit {0})
validate_machine l = do
  guard (ltb 0 l.max_pending) Setting.pending
  guard (ltb 0 l.max_subscriptions) Setting.subscriptions
  guard (ltb 0 l.max_subscription_bytes) Setting.subscription_bytes
  guard (ltb 0 l.max_lists) Setting.lists
  guard (ltb 0 l.max_list_bytes) Setting.list_bytes
  guard (ltb 0 l.max_matcher_names) Setting.matcher_names
  guard (ltb 0 l.max_matcher_bytes) Setting.matcher_bytes
  guard (ltb 0 l.max_retirement) Setting.retirement
  guard (ltb 0 l.retirement_lifetime) Setting.retirement_lifetime

-- `Limits.resolve`
unfoldable pub resolve_session : SessionConfig → Outcome Setting SessionLimits
resolve_session l = do
  admission ← pick Setting.write_admission l.write_admission (5 * second)
  attempt ← pick Setting.write_attempt l.write_attempt (5 * second)
  lifetime ← pick Setting.retirement_lifetime l.retirement_lifetime (60 * second)
  pendings ← pick Setting.pending l.max_pending 256
  slots ← pick Setting.retirement l.max_retirement 384
  subs ← pick Setting.subscriptions l.max_subscriptions 128
  sub_items ← pick Setting.subscription_queue_items l.subscription_queue_items 512
  sub_bytes ← pick Setting.subscription_queue_bytes l.subscription_queue_bytes 2097152
  family ← pick Setting.subscription_bytes l.max_subscription_bytes 33554432
  names ← pick Setting.matcher_names l.max_matcher_names 64
  name_bytes ← pick Setting.matcher_bytes l.max_matcher_bytes 4096
  list_count ← pick Setting.lists l.max_lists 16
  list_items ← pick Setting.list_queue_items l.list_queue_items 4096
  item_bytes ← pick Setting.list_queue_bytes l.list_queue_bytes 8388608
  list_observed ← pick Setting.list_observed_bytes l.list_observed_bytes 33554432
  all_lists ← pick Setting.list_bytes l.max_list_bytes 67108864
  let machine : Demux.Limits = record {
    max_pending = pendings;
    max_subscriptions = subs;
    max_subscription_bytes = family;
    max_lists = list_count;
    max_list_bytes = all_lists;
    max_matcher_names = names;
    max_matcher_bytes = name_bytes;
    max_retirement = slots;
    retirement_lifetime = lifetime;
  }
  validate_machine machine
  ok (record {
    write_admission = admission;
    write_attempt = attempt;
    sub_items = sub_items;
    sub_bytes = sub_bytes;
    list_items = list_items;
    list_bytes = item_bytes;
    list_observed = list_observed;
    machine = machine;
  })
