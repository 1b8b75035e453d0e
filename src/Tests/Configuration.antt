-- ===== src/Tests/Configuration.antt =====
-- src/svc/stt/stt_ws_config.c at concrete environments.
use subtitle_overlay_fw.Base.{
  ℕ, ◌≡◌, ◌⊎◌, refl, Bool, true, false, Option, none, some, List, [], ◌∷◌, ok, arith,
}
use subtitle_overlay_fw.Utils.NumberParse.{number_parse_u32, parse_digits}
use subtitle_overlay_fw.Stt.WsConfig.{
  Variable, Config, parse_url, config_default, from_env, session_of_env, env_u32, env_string,
  break_at, behind_prefix, parse_location,
}
use subtitle_overlay_fw.Stt.WsConfig.Url.{Parts, IsUrl, print_url, located, parse_url-print_url}
use subtitle_overlay_fw.Stt.WsConfig.Limits.{
  IsWithinLimits, HasServer, config_default-IsWithinLimits,
}

-- stt.lan:8443/ws
abbrev on_the_lan : Parts
on_the_lan = record {
  host = b's' ∷ b't' ∷ b't' ∷ b'.' ∷ b'l' ∷ b'a' ∷ b'n' ∷ [];
  port = some (b'8' ∷ b'4' ∷ b'4' ∷ b'3' ∷ []);
  path = b'/' ∷ b'w' ∷ b's' ∷ [];
}

on_the_lan-IsUrl : IsUrl on_the_lan
on_the_lan-IsUrl = record {
  host_size = (omega arith, omega arith);
  host_colon = (refl, (refl, (refl, (refl, (refl, (refl, (refl, tt)))))));
  host_slash = (refl, (refl, (refl, (refl, (refl, (refl, (refl, tt)))))));
  port = (λ e. cc, (omega arith, (omega arith, omega arith)));
  path = refl;
}

-- The URL, and a backoff whose maximum is below its minimum
abbrev pub swapped_backoff : Variable → Option (List ℕ)
swapped_backoff Variable.url = some (b'w' ∷ b's' ∷ b':' ∷ b'/' ∷ b'/' ∷ b'h' ∷ [])
swapped_backoff Variable.backoff_min_ms = some (b'6' ∷ b'0' ∷ b'0' ∷ b'0' ∷ b'0' ∷ [])
swapped_backoff Variable.backoff_max_ms = some (b'1' ∷ b'0' ∷ b'0' ∷ b'0' ∷ [])
swapped_backoff _ = none

abbrev pub swapped : Bool × Config
swapped = config_default swapped_backoff

backoff_in_order : (swapped.0 ≡ true) × ((swapped.1.backoff_max_ms ≡ 60000) × (swapped.1.port ≡ 80))
unfolding config_default from_env session_of_env env_u32 env_string parse_url parse_location
    break_at behind_prefix number_parse_u32 parse_digits
backoff_in_order = (refl, (refl, refl))

parse_url-print_url_example :
    parse_url (print_url true on_the_lan) (from_env swapped_backoff)
    ≡ ok (located true on_the_lan (from_env swapped_backoff))
parse_url-print_url_example =
    parse_url-print_url true on_the_lan (from_env swapped_backoff) on_the_lan-IsUrl

config_default-IsWithinLimits_example :
    IsWithinLimits (config_default swapped_backoff).1
    × (((config_default swapped_backoff).0 ≡ false) ⊎ HasServer (config_default swapped_backoff).1)
config_default-IsWithinLimits_example = config_default-IsWithinLimits swapped_backoff
