-- ===== src/Engine/Contacts/Examples.antt =====
-- Contacts at concrete inputs.
use rayavriti_netmonitor.Common.{◌≡◌, refl, true, false, none, some, [], ◌∷◌, map, All, String}
use rayavriti_netmonitor.Engine.Contacts.{
  Bytes, Contact, DeviceContact, split_from, split_bytes, trimmed_parts, trim_space, trim_start,
  trim_end, split_comma, parse_hhmm, minutes_of, in_quiet_hours, should_notify, resolve_target,
  fallback, resolve_for_device,
}
use rayavriti_netmonitor.Engine.Contacts.Texts.{join, occurs, join-split_bytes}

-- "a, b"
abbrev two_parts : Bytes
two_parts = 97 ∷ 44 ∷ 32 ∷ 98 ∷ []

split_two : split_comma two_parts ≡ (97 ∷ []) ∷ (98 ∷ []) ∷ []
unfolding split_comma split_bytes split_from trimmed_parts trim_space trim_start trim_end
split_two = refl

join-split_bytes_example :
    (join 44 (split_bytes two_parts 44) ≡ two_parts)
    × All (λ p. occurs 44 p ≡ false) (split_bytes two_parts 44)
join-split_bytes_example = join-split_bytes two_parts 44

-- "22:00" and "06:30"
abbrev late : Bytes
late = 50 ∷ 50 ∷ 58 ∷ 48 ∷ 48 ∷ []

abbrev early : Bytes
early = 48 ∷ 54 ∷ 58 ∷ 51 ∷ 48 ∷ []

late_minutes : parse_hhmm late ≡ some 1320
unfolding parse_hhmm minutes_of
late_minutes = refl

early_minutes : parse_hhmm early ≡ some 390
unfolding parse_hhmm minutes_of
early_minutes = refl

abbrev ada : Contact
ada = record {
  id = 1;
  name = "Ada";
  email = "ada@example.org";
  phone = "";
  telegram_chat_id = "";
  whatsapp_number = "";
  preferred_channel = "telegram";
  quiet_hours_start = none;
  quiet_hours_end = none;
}

abbrev primary : DeviceContact
primary = record {
  contact = ada;
  role = "primary";
  notify_on = [];
  device_id = some 2;
  location_id = none;
}

told_always : should_notify [] (97 ∷ []) ≡ true
unfolding should_notify
told_always = refl

never_quiet : in_quiet_hours 60 none none ≡ false
unfolding in_quiet_hours
never_quiet = refl

-- A contact who prefers Telegram and has no chat is told by Telegram at the e-mail address.
mismatched_target :
    map {B = String × String}
      (λ r. (r.channel, r.target))
      (resolve_for_device 60 (97 ∷ []) (primary ∷ []))
    ≡ ("telegram", "ada@example.org") ∷ []
unfolding resolve_for_device should_notify in_quiet_hours resolve_target fallback
mismatched_target = refl
