-- ===== src/Engine/Contacts.antt =====
-- engine/contacts.go: who is told of an alert on a device. A text whose bytes are read is a list of
-- bytes; the rows are those that the query returns, in its order, and `now` is in minutes of the day.
pub mod Texts
pub mod Hours
pub mod Targets
mod Examples
use rayavriti_netmonitor.Common.{
  ℕ, ◌+◌, ◌*◌, ◌%◌, Bool, true, false, not, ◌&&◌, ◌||◌, String, str_eq, Option, none, some, List,
  [], ◌∷◌, ◌++◌, ◌==◌, ltb, leb, if◌then◌else◌,
}

abbrev pub Bytes : Type 0
Bytes = List ℕ

pub record Contact : Type 0 where
  pub id : ℕ
  pub name : String
  pub email : String
  pub phone : String
  pub telegram_chat_id : String
  pub whatsapp_number : String
  pub preferred_channel : String
  pub quiet_hours_start : Option Bytes
  pub quiet_hours_end : Option Bytes

-- A row of the query.
pub record DeviceContact : Type 0 where
  pub contact : Contact
  pub role : String
  pub notify_on : Bytes
  pub device_id : Option ℕ
  pub location_id : Option ℕ

pub record ResolvedContact : Type 0 where
  pub contact : Contact
  pub channel : String
  pub target : String
  pub role : String
  pub device_id : Option ℕ
  pub location_id : Option ℕ

abbrev pub bytes_eq : Bytes → Bytes → Bool
bytes_eq [] [] = true
bytes_eq [] (b ∷ bs) = false
bytes_eq (a ∷ as') [] = false
bytes_eq (a ∷ as') (b ∷ bs) = a == b && bytes_eq as' bs

abbrev pub is_empty : Bytes → Bool
is_empty [] = true
is_empty (b ∷ bs) = false

-- `part` is what has been read since the last separator.
unfoldable pub split_from : ℕ → Bytes → Bytes → List Bytes
split_from sep part [] = part ∷ []
split_from sep part (b ∷ s) =
    let cut = split_from sep [] s in
    let longer = split_from sep (part ++ b ∷ []) s in if b == sep then part ∷ cut else longer

unfoldable pub split_bytes : Bytes → ℕ → List Bytes
unfolding split_from
split_bytes s sep = split_from sep [] s

abbrev pub space : ℕ
space = 32

abbrev pub comma : ℕ
comma = 44

abbrev pub colon : ℕ
colon = 58

unfoldable pub trim_start : Bytes → Bytes
trim_start [] = []
trim_start (b ∷ s) = let rest = trim_start s in if b == space then rest else b ∷ s

unfoldable pub trim_end : Bytes → Bytes
trim_end [] = []
trim_end (b ∷ s) = let rest = trim_end s in if b == space && is_empty rest then [] else b ∷ rest

unfoldable pub trim_space : Bytes → Bytes
unfolding trim_start trim_end
trim_space s = trim_end (trim_start s)

unfoldable pub trimmed_parts : List Bytes → List Bytes
unfolding trim_space
trimmed_parts [] = []
trimmed_parts (p ∷ parts) =
    let rest = trimmed_parts parts in
    let trimmed = trim_space p in if is_empty trimmed then rest else trimmed ∷ rest

unfoldable pub split_comma : Bytes → List Bytes
unfolding split_bytes trimmed_parts
split_comma s = trimmed_parts (split_bytes s comma)

abbrev pub any_is : Bytes → List Bytes → Bool
any_is severity [] = false
any_is severity (p ∷ parts) = bytes_eq p severity || any_is severity parts

unfoldable pub should_notify : Bytes → Bytes → Bool
unfolding split_comma
should_notify notify_on severity =
    if is_empty notify_on then true else any_is severity (split_comma notify_on)

-- A byte less '0', in eight bits.
abbrev pub digit : ℕ → ℕ
digit b = (b + 208) % 256

-- `none` is -1.
unfoldable pub minutes_of : ℕ → ℕ → Option ℕ
minutes_of h m = if ltb 23 h || ltb 59 m then none else some (h * 60 + m)

unfoldable pub parse_hhmm : Bytes → Option ℕ
unfolding minutes_of
parse_hhmm (a ∷ b ∷ c ∷ d ∷ e ∷ rest) =
    if c == colon then minutes_of (digit a * 10 + digit b) (digit d * 10 + digit e) else none
parse_hhmm [] = none
parse_hhmm (a ∷ []) = none
parse_hhmm (a ∷ b ∷ []) = none
parse_hhmm (a ∷ b ∷ c ∷ []) = none
parse_hhmm (a ∷ b ∷ c ∷ d ∷ []) = none

unfoldable pub is_within : ℕ → Option ℕ → Option ℕ → Bool
is_within now none end = false
is_within now (some start) none = false
is_within now (some start) (some end) =
    if leb start end then leb start now && ltb now end else leb start now || ltb now end

unfoldable pub in_quiet_hours : ℕ → Option Bytes → Option Bytes → Bool
unfolding parse_hhmm is_within
in_quiet_hours now none end = false
in_quiet_hours now (some start) none = false
in_quiet_hours now (some start) (some end) = is_within now (parse_hhmm start) (parse_hhmm end)

-- The first text that is not empty.
abbrev pub or_else : String → String → String
or_else a b = if str_eq a "" then b else a

unfoldable pub fallback : Contact → String
fallback c =
    or_else c.telegram_chat_id (or_else c.email (or_else c.phone (or_else c.whatsapp_number "")))

unfoldable pub resolve_target : Contact → String
unfolding fallback
resolve_target c =
    if str_eq c.preferred_channel "telegram"
    then or_else c.telegram_chat_id (fallback c)
    else if str_eq c.preferred_channel "whatsapp"
    then or_else c.whatsapp_number (fallback c)
    else if str_eq c.preferred_channel "sms"
    then or_else c.phone (fallback c)
    else if str_eq c.preferred_channel "email"
    then or_else c.email (fallback c)
    else fallback c

abbrev pub resolved : DeviceContact → ResolvedContact
resolved d = record {
  contact = d.contact;
  channel = d.contact.preferred_channel;
  target = resolve_target d.contact;
  role = d.role;
  device_id = d.device_id;
  location_id = d.location_id;
}

unfoldable pub resolve_for_device : ℕ → Bytes → List DeviceContact → List ResolvedContact
unfolding should_notify in_quiet_hours resolve_target
resolve_for_device now severity [] = []
resolve_for_device now severity (d ∷ rows) =
    let rest = resolve_for_device now severity rows in
    if not (should_notify d.notify_on severity)
    then rest
    else if in_quiet_hours now d.contact.quiet_hours_start d.contact.quiet_hours_end
    then rest
    else if str_eq (resolve_target d.contact) ""
    then rest
    else resolved d ∷ rest
