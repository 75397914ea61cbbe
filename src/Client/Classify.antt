-- ===== src/Client/Classify.antt =====
-- classify.go, `responseSuccess` and `Event.Is` of event.go, and `newActionID` of client.go.
pub mod Folding
pub mod Ids
pub mod Envelopes
use ami.Base.{
  ℕ, zero, suc, ◌+◌, ◌-◌, ◌<◌, Bool, true, false, not, ◌&&◌, ◌||◌, List, [], ◌∷◌, ◌++◌, Option,
  some, none, Bytes, bytes_eq, nat_eq, leb, ltb, length, take, drop, map, if◌then◌else◌,
}
use Prim.Native.Nat.{◌/◌, ◌%◌}
use ami.Demux.Types.{Kind, Class, Mark, Envelope}
use ami.Wire.Folding.{lower}
use ami.Wire.Writer.{is_nil}
use ami.Wire.Types.{Field}
use ami.Client.Message.{
  Message, get, values, event_key, event_list_key, action_id_key, response_key, event_name,
}

abbrev pub is_upper : ℕ → Bool
is_upper c = leb b'A' c && leb c b'Z'

-- The first loop of `foldASCII`: the index of the first uppercase letter, or the length.
unfoldable pub first_upper : Bytes → ℕ
first_upper [] = 0
first_upper (c ∷ s) = if is_upper c then 0 else suc (first_upper s)

-- `foldASCII`
unfoldable pub fold_ascii : Bytes → Bytes
fold_ascii s =
    let i = first_upper s in if nat_eq i (length s) then s else take i s ++ map lower (drop i s)

-- The loop of `equalFoldASCII`, behind the test of the lengths.
unfoldable pub same_letters : Bytes → Bytes → Bool
same_letters (a ∷ as') (b ∷ bs) = nat_eq (lower a) (lower b) && same_letters as' bs
same_letters _ _ = true

-- `equalFoldASCII`
unfoldable pub equal_fold_ascii : Bytes → Bytes → Bool
equal_fold_ascii a b = nat_eq (length a) (length b) && same_letters a b

-- `Event.Is`
abbrev pub is_named : Message → Bytes → Bool
is_named m name = equal_fold_ascii (event_name m) name

abbrev pub fields_size : List Field → ℕ
fields_size [] = 0
fields_size (f ∷ fields) = length f.key + length f.value + 4 + fields_size fields

-- `wireSize`
unfoldable pub wire_size : Message → ℕ
wire_size m = 2 + fields_size m.fields

abbrev pub complete_word : Bytes
complete_word = b'C' ∷ b'o' ∷ b'm' ∷ b'p' ∷ b'l' ∷ b'e' ∷ b't' ∷ b'e' ∷ []

abbrev pub cancelled_word : Bytes
cancelled_word = b'C' ∷ b'a' ∷ b'n' ∷ b'c' ∷ b'e' ∷ b'l' ∷ b'l' ∷ b'e' ∷ b'd' ∷ []

abbrev pub start_word : Bytes
start_word = b's' ∷ b't' ∷ b'a' ∷ b'r' ∷ b't' ∷ []

abbrev pub success_word : Bytes
success_word = b'S' ∷ b'u' ∷ b'c' ∷ b'c' ∷ b'e' ∷ b's' ∷ b's' ∷ []

abbrev pub follows_word : Bytes
follows_word = b'F' ∷ b'o' ∷ b'l' ∷ b'l' ∷ b'o' ∷ b'w' ∷ b's' ∷ []

-- `parseMark`
unfoldable pub parse_mark : Bytes → Mark
parse_mark v =
    if is_nil v
    then Mark.none
    else if equal_fold_ascii v complete_word
    then Mark.complete
    else if equal_fold_ascii v cancelled_word
    then Mark.cancelled
    else if equal_fold_ascii v start_word
    then Mark.start
    else Mark.none

-- `responseSuccess`
unfoldable pub response_success : Message → Bool
response_success m =
    let v = get m response_key in equal_fold_ascii v success_word || equal_fold_ascii v follows_word

-- `strings.CutPrefix`: what follows the prefix.
unfoldable pub cut_prefix : Bytes → Bytes → Option Bytes
cut_prefix s [] = some s
cut_prefix [] (p ∷ ps) = none
cut_prefix (c ∷ s) (p ∷ ps) = let rest = cut_prefix s ps in if nat_eq c p then rest else none

abbrev pub kind_of : Option Bytes → Bool × Kind
kind_of (some (c ∷ d ∷ rest)) =
    if nat_eq c b'r'
    then (true, Kind.request)
    else if nat_eq c b'l'
    then (true, Kind.list)
    else (false, Kind.unset)
kind_of _ = (false, Kind.unset)

-- `parseActionID`, for the session's prefix.
unfoldable pub parse_action_id : Bytes → Bytes → Bool × Kind
parse_action_id prefix id = kind_of (cut_prefix id prefix)

-- `strconv.FormatUint` in base ten. A number has no more digits than its value and one.
unfoldable pub digits : ℕ → ℕ → Bytes
digits zero n = []
digits (suc fuel) n =
    let front = digits fuel (n / 10) in
    if ltb n 10 then (b'0' + n) ∷ [] else front ++ (b'0' + n % 10) ∷ []

unfoldable pub format_uint : ℕ → Bytes
format_uint n = digits (n + 1) n

abbrev pub kind_letter : Kind → ℕ
kind_letter Kind.list = b'l'
kind_letter _ = b'r'

-- `newActionID`, with the number that the counter has reached.
unfoldable pub new_action_id : Bytes → Kind → ℕ → Bytes
new_action_id prefix kind seq = prefix ++ (kind_letter kind ∷ format_uint seq)

-- Every value is the first one.
unfoldable pub all_same : (Bytes → Bytes → Bool) → List Bytes → Bool
all_same same [] = true
all_same same (v ∷ []) = true
all_same same (v ∷ w ∷ vs) = same w v && all_same same (v ∷ vs)

abbrev pub blank_envelope : ℕ → ℕ → Envelope
blank_envelope size now = record {
  class = Class.invalid;
  name = [];
  action_id = [];
  own = false;
  kind = Kind.unset;
  mark = Mark.none;
  success = false;
  size = size;
  now = now;
}

-- The ActionID of the envelope, when there is one.
abbrev pub with_id : Bytes → List Bytes → Envelope → Envelope
with_id prefix [] env = env
with_id prefix (id ∷ ids) env = record env {
  action_id = id;
  own = (parse_action_id prefix id).0;
  kind = (parse_action_id prefix id).1;
}

-- The arm of a message with these values of Event.
abbrev pub event_envelope : Message → Bytes → List Bytes → Envelope → Envelope
event_envelope msg name names env =
    if is_nil name
      || not (all_same equal_fold_ascii (name ∷ names))
      || not (all_same equal_fold_ascii (values msg event_list_key))
    then env
    else record env {
      class = Class.event;
      name = fold_ascii name;
      mark = parse_mark (get msg event_list_key);
    }

-- The arm of a message with no Event, and these values of Response.
abbrev pub response_envelope : Message → List Bytes → Envelope → Envelope
response_envelope msg [] env = env
response_envelope msg (v ∷ responses) env =
    if all_same equal_fold_ascii (v ∷ responses)
    then record env { class = Class.response; success = response_success msg }
    else env

abbrev pub classed : Message → List Bytes → Envelope → Envelope
classed msg [] env = response_envelope msg (values msg response_key) env
classed msg (name ∷ names) env = event_envelope msg name names env

-- `classify`, at this time of the session's clock.
unfoldable pub classify : Bytes → ℕ → Message → Envelope
classify prefix now msg =
    let env = blank_envelope (wire_size msg) now in
    let ids = values msg action_id_key in
    if all_same bytes_eq ids
    then classed msg (values msg event_key) (with_id prefix ids env)
    else env
