-- ===== src/Stt/WsConfig.antt =====
-- src/svc/stt/stt_ws_config.c: where the server is and how long to wait for it. The environment is
-- the function `getenv`; a C string is the list of its characters before the terminating NUL.
pub mod Url
pub mod Limits
use subtitle_overlay_fw.Base.{
  ℕ, ◌-◌, ◌*◌, ◌/◌, Bool, true, false, ◌||◌, ◌==◌, Option, none, some, List, [], ◌∷◌, ltb, leb,
  if◌then◌else◌, length, take, Result, ok, err, einval,
}
use subtitle_overlay_fw.Utils.NumberParse.{number_parse_u32}

-- The environment variables that are read, SUBTITLE_STT_WS_URL to
-- SUBTITLE_STT_NEMOTRON_RESIDUE_TOKENS_AT_END
pub data Variable : Type 0 where
  url ca_file ca_dir target_lang : Variable
  connect_timeout_ms handshake_timeout_ms idle_timeout_ms ping_ms backoff_min_ms backoff_max_ms :
      Variable
  min_epoch latency_ms stop_history_eou_ms residue_tokens_at_end : Variable

-- stt_session_start_t; `is_s16_le` is format == STT_SESSION_FORMAT_S16_LE.
pub record SessionStart : Type 0 where
  pub sample_rate_hz : ℕ
  pub channels : ℕ
  pub is_s16_le : Bool
  pub chunk_ms : ℕ
  pub samples_per_chunk : ℕ
  pub bytes_per_chunk : ℕ
  pub latency_ms : ℕ
  pub stop_history_eou_ms : ℕ
  pub residue_tokens_at_end : ℕ
  pub target_lang : List ℕ

-- stt_ws_config_t
pub record Config : Type 0 where
  pub url : List ℕ
  pub host : List ℕ
  pub path : List ℕ
  pub ca_file : List ℕ
  pub ca_dir : List ℕ
  pub port : ℕ
  pub use_tls : Bool
  pub connect_timeout_ms : ℕ
  pub handshake_timeout_ms : ℕ
  pub idle_timeout_ms : ℕ
  pub ping_interval_ms : ℕ
  pub backoff_min_ms : ℕ
  pub backoff_max_ms : ℕ
  pub min_epoch : ℕ
  pub session : SessionStart

-- STT_WS_CONFIG_URL_MAX, _HOST_MAX, _PATH_MAX and _CA_PATH_MAX, and STT_SESSION_LANG_MAX
abbrev pub url_max : ℕ
url_max = 256

abbrev pub host_max : ℕ
host_max = 128

abbrev pub path_max : ℕ
path_max = 128

abbrev pub ca_path_max : ℕ
ca_path_max = 128

abbrev pub lang_max : ℕ
lang_max = 16

-- What snprintf leaves of a string in a buffer of this size
abbrev pub fit : ℕ → List ℕ → List ℕ
fit size text = take (size - 1) text

-- What stands behind a prefix, as strncmp with its length finds it
unfoldable pub behind_prefix : List ℕ → List ℕ → Option (List ℕ)
behind_prefix [] xs = some xs
behind_prefix (p ∷ ps) [] = none
behind_prefix (p ∷ ps) (x ∷ xs) = let rest = behind_prefix ps xs in if p == x then rest else none

-- What stands before the first such character, and from it on
unfoldable pub break_at : ℕ → List ℕ → List ℕ × List ℕ
break_at c [] = ([], [])
break_at c (x ∷ xs) =
    let (before, rest) = break_at c xs in if x == c then ([], x ∷ xs) else (x ∷ before, rest)

-- "wss://" and "ws://"
abbrev pub secure_scheme : List ℕ
secure_scheme = b'w' ∷ b's' ∷ b's' ∷ b':' ∷ b'/' ∷ b'/' ∷ []

abbrev pub plain_scheme : List ℕ
plain_scheme = b'w' ∷ b's' ∷ b':' ∷ b'/' ∷ b'/' ∷ []

-- The host and the port, split before the colon; the port is by default that of the scheme.
abbrev pub with_port : ℕ → List ℕ × List ℕ → Result (List ℕ × ℕ)
with_port port (host, []) = ok (host, port)
with_port port (host, colon ∷ digits) = elim (number_parse_u32 (some digits) 1 65535 true) [
  | err e ↦ err einval
  | ok p ↦ ok (host, p)
]

abbrev pub or_root : List ℕ → List ℕ
or_root [] = b'/' ∷ []
or_root (c ∷ cs) = c ∷ cs

-- The host is refused if it is empty or too long for its buffer.
abbrev pub fill_in : Bool → List ℕ → Config → Result (List ℕ × ℕ) → Result Config
fill_in use_tls path config (err e) = err e
fill_in use_tls path config (ok (host, port)) =
    if length host == 0 || leb host_max (length host)
    then err einval
    else ok (record config {
      host = host;
      port = port;
      use_tls = use_tls;
      path = fit path_max (or_root path);
    })

abbrev pub with_path : Bool → ℕ → Config → List ℕ × List ℕ → Result Config
with_path use_tls port config (authority, path) =
    fill_in use_tls path config (with_port port (break_at b':' authority))

-- What stands behind the scheme
unfoldable pub parse_location : Bool → ℕ → List ℕ → Config → Result Config
parse_location use_tls port cursor config = with_path use_tls port config (break_at b'/' cursor)

unfoldable pub parse_url : List ℕ → Config → Result Config
parse_url text config = elim (behind_prefix secure_scheme text) [
  | some cursor ↦ parse_location true 443 cursor config
  | none ↦ elim (behind_prefix plain_scheme text) [
    | some cursor ↦ parse_location false 80 cursor config
    | none ↦ err einval
  ]
]

-- A buffer after env_string
unfoldable pub env_string : ℕ → Option (List ℕ) → List ℕ → List ℕ
env_string size none dst = dst
env_string size (some []) dst = dst
env_string size (some (c ∷ cs)) dst = fit size (c ∷ cs)

unfoldable pub env_u32 : Option (List ℕ) → ℕ → ℕ → ℕ → ℕ
env_u32 none fallback min_value max_value = fallback
env_u32 (some []) fallback min_value max_value = fallback
env_u32 (some (c ∷ cs)) fallback min_value max_value =
    elim (number_parse_u32 (some (c ∷ cs)) min_value max_value true) [
      | err e ↦ fallback
      | ok parsed ↦ parsed
    ]

-- "/etc/ssl/certs/ca-certificates.crt"
abbrev pub default_ca_file : List ℕ
default_ca_file =
    b'/' ∷ b'e' ∷ b't' ∷ b'c' ∷ b'/' ∷ b's' ∷ b's' ∷ b'l' ∷ b'/' ∷ b'c' ∷ b'e' ∷ b'r' ∷ b't' ∷ b's'
    ∷ b'/' ∷ b'c' ∷ b'a' ∷ b'-' ∷ b'c' ∷ b'e' ∷ b'r' ∷ b't' ∷ b'i' ∷ b'f' ∷ b'i' ∷ b'c' ∷ b'a'
    ∷ b't' ∷ b'e' ∷ b's' ∷ b'.' ∷ b'c' ∷ b'r' ∷ b't' ∷ []

-- A maximum below the minimum is raised to it.
abbrev pub ordered : Config → Config
ordered c =
    if ltb c.backoff_max_ms c.backoff_min_ms
    then record c { backoff_max_ms = c.backoff_min_ms }
    else c

-- url[0] != '\0'
abbrev pub has_url : List ℕ → Bool
has_url [] = false
has_url (c ∷ cs) = true

module _ (getenv : Variable → Option (List ℕ)) where
  unfoldable pub session_of_env : SessionStart
  session_of_env = record {
    sample_rate_hz = 48000;
    channels = 1;
    is_s16_le = true;
    chunk_ms = 20;
    samples_per_chunk = 48000 * 20 / 1000;
    bytes_per_chunk = 48000 * 20 / 1000 * 2;
    latency_ms = env_u32 (getenv latency_ms) 560 0 10000;
    stop_history_eou_ms = env_u32 (getenv stop_history_eou_ms) 600 0 10000;
    residue_tokens_at_end = env_u32 (getenv residue_tokens_at_end) 2 0 100;
    target_lang = env_string lang_max (getenv target_lang) (b'e' ∷ b's' ∷ b'-' ∷ b'E' ∷ b'S' ∷ []);
  }

  -- The configuration before the backoff is put in order and the URL is read
  unfoldable pub from_env : Config
  from_env = record {
    url = env_string url_max (getenv url) [];
    host = [];
    path = [];
    ca_file = env_string ca_path_max (getenv ca_file) (fit ca_path_max default_ca_file);
    ca_dir = env_string ca_path_max (getenv ca_dir) [];
    port = 0;
    use_tls = false;
    connect_timeout_ms = env_u32 (getenv connect_timeout_ms) 5000 100 60000;
    handshake_timeout_ms = env_u32 (getenv handshake_timeout_ms) 10000 100 60000;
    idle_timeout_ms = env_u32 (getenv idle_timeout_ms) 45000 1000 600000;
    ping_interval_ms = env_u32 (getenv ping_ms) 15000 0 600000;
    backoff_min_ms = env_u32 (getenv backoff_min_ms) 500 100 60000;
    backoff_max_ms = env_u32 (getenv backoff_max_ms) 30000 1000 600000;
    min_epoch = env_u32 (getenv min_epoch) 1767225600 0 4294967295;
    session = session_of_env;
  }

  -- stt_ws_config_default: whether it returns 0, and the configuration, also on a failure
  unfoldable pub config_default : Bool × Config
  config_default =
      let config = ordered from_env in
      if has_url config.url
      then elim (parse_url config.url config) [
        | err e ↦ (false, config)
        | ok parsed ↦ (true, parsed)
      ]
      else (false, config)
