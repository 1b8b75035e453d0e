-- ===== src/Stt/WsConfig/Limits.antt =====
-- Whatever the environment holds, the configuration keeps to its limits.
use subtitle_overlay_fw.Base.{
  ℕ, ◌-◌, ◌^◌, ◌≤◌, ◌<◌, ◌≡◌, ◌≢◌, ◌⊎◌, inl, inr, refl, sym, ◌∙◌, Bool, true, false, ◌||◌, ◌==◌,
  Bool-cases, Option, Option-cases, none, some, List, [], ◌∷◌, ltb, leb, length, length-take,
  Result, Result-cases, ok, err, einval, arith,
}
use subtitle_overlay_fw.Utils.NumberParse.{number_parse_u32}
use subtitle_overlay_fw.Utils.NumberParse.Decimal.{number_parse_u32-eq-ok}
use subtitle_overlay_fw.Stt.WsConfig.{
  Variable, Config, fit, behind_prefix, break_at, secure_scheme, plain_scheme, with_port, fill_in,
  or_root, parse_location, parse_url, env_string, env_u32, from_env, session_of_env, ordered,
  has_url, config_default, default_ca_file,
}

env_u32-bounds :
    (value : Option (List ℕ)) (fallback lo hi : ℕ)
    → lo ≤ fallback
    → fallback ≤ hi
    → hi < 2 ^ 32
    → (lo ≤ env_u32 value fallback lo hi) × (env_u32 value fallback lo hi ≤ hi)
unfolding env_u32
env_u32-bounds none fallback lo hi l h s = (l, h)
env_u32-bounds (some []) fallback lo hi l h s = (l, h)
env_u32-bounds (some (c ∷ cs)) fallback lo hi l h s =
    elim (Result-cases (number_parse_u32 (some (c ∷ cs)) lo hi true)) [
      | inl r ↦ rw (r.1, env_u32) (l, h)
      | inr r ↦
          let number = (number_parse_u32-eq-ok lo hi (c ∷ cs) r.0 s (omega (arith, l, h))).0 r.1 in
          rw (r.1, env_u32) (omega (arith, number.3), omega (arith, number.4))
    ]

length-fit : (size : ℕ) (text : List ℕ) → 0 < size → length (fit size text) < size
length-fit size text h = omega (arith, h, length-take (size - 1) text)

length-env_string :
    (size : ℕ) (value : Option (List ℕ)) (dst : List ℕ)
    → 0 < size
    → length dst < size
    → length (env_string size value dst) < size
unfolding env_string
length-env_string size none dst s h = h
length-env_string size (some []) dst s h = h
length-env_string size (some (c ∷ cs)) dst s h = length-fit size (c ∷ cs) s

-- The times and the buffers
pub record IsWithinLimits (c : Config) : Type 0 where
  pub connect_timeout_ms : (100 ≤ c.connect_timeout_ms) × (c.connect_timeout_ms ≤ 60000)
  pub handshake_timeout_ms : (100 ≤ c.handshake_timeout_ms) × (c.handshake_timeout_ms ≤ 60000)
  pub idle_timeout_ms : (1000 ≤ c.idle_timeout_ms) × (c.idle_timeout_ms ≤ 600000)
  pub ping_interval_ms : c.ping_interval_ms ≤ 600000
  pub backoff_ms : (100 ≤ c.backoff_min_ms) × (c.backoff_min_ms ≤ c.backoff_max_ms)
  pub backoff_max_ms : c.backoff_max_ms ≤ 600000
  pub url : length c.url < 256
  pub ca_file : length c.ca_file < 128
  pub ca_dir : length c.ca_dir < 128
  pub target_lang : length c.session.target_lang < 16

-- Where to connect to
abbrev pub HasServer : Config → Type 0
HasServer c =
    ((0 < length c.host) × (length c.host < 128))
    × (((1 ≤ c.port) × (c.port ≤ 65535)) × ((c.path ≢ []) × (length c.path < 128)))

-- The same before the backoff is put in order
record IsInRange (c : Config) : Type 0 where
  connect_timeout_ms : (100 ≤ c.connect_timeout_ms) × (c.connect_timeout_ms ≤ 60000)
  handshake_timeout_ms : (100 ≤ c.handshake_timeout_ms) × (c.handshake_timeout_ms ≤ 60000)
  idle_timeout_ms : (1000 ≤ c.idle_timeout_ms) × (c.idle_timeout_ms ≤ 600000)
  ping_interval_ms : c.ping_interval_ms ≤ 600000
  backoff_min_ms : (100 ≤ c.backoff_min_ms) × (c.backoff_min_ms ≤ 60000)
  backoff_max_ms : c.backoff_max_ms ≤ 600000
  url : length c.url < 256
  ca_file : length c.ca_file < 128
  ca_dir : length c.ca_dir < 128
  target_lang : length c.session.target_lang < 16

module _ (getenv : Variable → Option (List ℕ)) where
  bounds :
      (v : Variable) (fallback lo hi : ℕ)
      → lo ≤ fallback
      → fallback ≤ hi
      → hi < 2 ^ 32
      → (lo ≤ env_u32 (getenv v) fallback lo hi) × (env_u32 (getenv v) fallback lo hi ≤ hi)
  bounds v = env_u32-bounds (getenv v)

  from_env-IsInRange : IsInRange (from_env getenv)
  unfolding from_env session_of_env
  from_env-IsInRange = record {
    connect_timeout_ms =
        bounds Variable.connect_timeout_ms 5000 100 60000 (omega arith) (omega arith) (omega arith);
    handshake_timeout_ms =
        bounds Variable.handshake_timeout_ms 10000 100 60000 (omega arith) (omega arith)
          (omega arith);
    idle_timeout_ms =
        bounds Variable.idle_timeout_ms 45000 1000 600000 (omega arith) (omega arith) (omega arith);
    ping_interval_ms =
        (bounds Variable.ping_ms 15000 0 600000 (omega arith) (omega arith) (omega arith)).1;
    backoff_min_ms =
        bounds Variable.backoff_min_ms 500 100 60000 (omega arith) (omega arith) (omega arith);
    backoff_max_ms =
        (bounds Variable.backoff_max_ms 30000 1000 600000 (omega arith) (omega arith)
          (omega arith)).1;
    url = length-env_string 256 (getenv Variable.url) [] (omega arith) (omega arith);
    ca_file =
        length-env_string 128 (getenv Variable.ca_file) (fit 128 default_ca_file) (omega arith)
          (length-fit 128 default_ca_file (omega arith));
    ca_dir = length-env_string 128 (getenv Variable.ca_dir) [] (omega arith) (omega arith);
    target_lang =
        length-env_string 16 (getenv Variable.target_lang) (b'e' ∷ b's' ∷ b'-' ∷ b'E' ∷ b'S' ∷ [])
          (omega arith) (omega arith);
  }

ordered-IsWithinLimits : (c : Config) → IsInRange c → IsWithinLimits (ordered c)
ordered-IsWithinLimits c r = elim (Bool-cases (ltb c.backoff_max_ms c.backoff_min_ms)) [
  | inl swapped ↦ rw swapped (record {
    connect_timeout_ms = r.connect_timeout_ms;
    handshake_timeout_ms = r.handshake_timeout_ms;
    idle_timeout_ms = r.idle_timeout_ms;
    ping_interval_ms = r.ping_interval_ms;
    backoff_ms = (r.backoff_min_ms.0, omega arith);
    backoff_max_ms = omega (arith, r.backoff_min_ms);
    url = r.url;
    ca_file = r.ca_file;
    ca_dir = r.ca_dir;
    target_lang = r.target_lang;
  })
  | inr kept ↦ rw kept (record {
    connect_timeout_ms = r.connect_timeout_ms;
    handshake_timeout_ms = r.handshake_timeout_ms;
    idle_timeout_ms = r.idle_timeout_ms;
    ping_interval_ms = r.ping_interval_ms;
    backoff_ms = (r.backoff_min_ms.0, ground (arith, kept));
    backoff_max_ms = r.backoff_max_ms;
    url = r.url;
    ca_file = r.ca_file;
    ca_dir = r.ca_dir;
    target_lang = r.target_lang;
  })
]

or_root-filled :
    (path : List ℕ) → (fit 128 (or_root path) ≢ []) × (length (fit 128 (or_root path)) < 128)
or_root-filled [] = (λ e. cc, omega arith)
or_root-filled (c ∷ cs) = (λ e. cc, length-fit 128 (c ∷ cs) (omega arith))

with_port-bounds :
    (default : ℕ) (split : List ℕ × List ℕ) (r : List ℕ × ℕ)
    → (1 ≤ default) × (default ≤ 65535)
    → with_port default split ≡ ok r
    → (1 ≤ r.1) × (r.1 ≤ 65535)
with_port-bounds default (host, []) r d e = let same : (host, default) ≡ r = cc in rw (sym same) d
with_port-bounds default (host, colon ∷ digits) r d e =
    elim (Result-cases (number_parse_u32 (some digits) 1 65535 true)) [
      | inl n ↦
          let refused : with_port default (host, colon ∷ digits) ≡ err einval =
            rw (n.1, with_port) refl in
          absurd (ground (arith, refused, e))
      | inr n ↦
          let taken : with_port default (host, colon ∷ digits) ≡ ok (host, n.0) =
            rw (n.1, with_port) refl in
          let number =
            (number_parse_u32-eq-ok 1 65535 digits n.0 (omega arith) (omega arith)).0 n.1 in
          let same : (host, n.0) ≡ r = cc in rw (sym same) (number.3, number.4)
    ]

-- Only the four fields change, and those are in order.
abbrev Fills : Config → Config → Type 0
Fills c d =
    HasServer d
    × (d ≡ record c { host = d.host; port = d.port; use_tls = d.use_tls; path = d.path })

fill_in-Fills :
    (use_tls : Bool) (path : List ℕ) (c d : Config) (r : Result (List ℕ × ℕ))
    → ((q : List ℕ × ℕ) → r ≡ ok q → (1 ≤ q.1) × (q.1 ≤ 65535))
    → fill_in use_tls path c r ≡ ok d
    → Fills c d
fill_in-Fills use_tls path c d (err why) h e = absurd (ground (arith, e))
fill_in-Fills use_tls path c d (ok (host, port)) h e =
    elim (Bool-cases (length host == 0 || leb 128 (length host))) [
      | inl refused ↦
          let no : fill_in use_tls path c (ok (host, port)) ≡ err einval =
            rw (refused, fill_in) refl in
          absurd (ground (arith, no, e))
      | inr fits ↦
          let d' : Config = record c {
            host = host;
            port = port;
            use_tls = use_tls;
            path = fit 128 (or_root path);
          } in
          let yes_ : fill_in use_tls path c (ok (host, port)) ≡ ok d' = rw (fits, fill_in) refl in
          let same : d' ≡ d = cc in
          rw (sym same) ((ground (arith, fits), (h (host, port) refl, or_root-filled path)), refl)
    ]

parse_location-Fills :
    (use_tls : Bool) (default : ℕ) (cursor : List ℕ) (c d : Config)
    → (1 ≤ default) × (default ≤ 65535)
    → parse_location use_tls default cursor c ≡ ok d
    → Fills c d
unfolding parse_location
parse_location-Fills use_tls default cursor c d s e =
    let (authority, path) = break_at b'/' cursor in
    fill_in-Fills use_tls path c d (with_port default (break_at b':' authority))
      (λ q h. with_port-bounds default (break_at b':' authority) q s h) e

parse_url-Fills : (text : List ℕ) (c d : Config) → parse_url text c ≡ ok d → Fills c d
unfolding parse_url
parse_url-Fills text c d e = elim (Option-cases (behind_prefix secure_scheme text)) [
  | inr s ↦
      let secure : parse_url text c ≡ parse_location true 443 s.0 c = rw (s.1, parse_url) refl in
      parse_location-Fills true 443 s.0 c d (omega arith, omega arith) (sym secure ∙ e)
  | inl not_secure ↦ elim (Option-cases (behind_prefix plain_scheme text)) [
    | inr s ↦
        let plain : parse_url text c ≡ parse_location false 80 s.0 c =
          rw (not_secure, parse_url, s.1) refl in
        parse_location-Fills false 80 s.0 c d (omega arith, omega arith) (sym plain ∙ e)
    | inl none_ ↦
        let refused : parse_url text c ≡ err einval = rw (not_secure, parse_url, none_) refl in
        absurd (ground (arith, refused, e))
  ]
]

IsWithinLimits-Fills : (c d : Config) → IsWithinLimits c → Fills c d → IsWithinLimits d
IsWithinLimits-Fills c d l f = rw f.1 (record {
  connect_timeout_ms = l.connect_timeout_ms;
  handshake_timeout_ms = l.handshake_timeout_ms;
  idle_timeout_ms = l.idle_timeout_ms;
  ping_interval_ms = l.ping_interval_ms;
  backoff_ms = l.backoff_ms;
  backoff_max_ms = l.backoff_max_ms;
  url = l.url;
  ca_file = l.ca_file;
  ca_dir = l.ca_dir;
  target_lang = l.target_lang;
})

-- Whatever the environment holds, every time of the configuration is within its limits, the minimum
-- of the backoff is not above its maximum and every text fits in its buffer; and either the status is
-- a failure, or there is a host that fits, a port from 1 to 65535 and a path that is not empty.
pub config_default-IsWithinLimits :
    (getenv : Variable → Option (List ℕ))
    → IsWithinLimits (config_default getenv).1
      × (((config_default getenv).0 ≡ false) ⊎ HasServer (config_default getenv).1)
unfolding config_default
config_default-IsWithinLimits getenv =
    let c = ordered (from_env getenv) in
    let limits = ordered-IsWithinLimits (from_env getenv) (from_env-IsInRange getenv) in
    elim (Bool-cases (has_url c.url)) [
      | inr missing ↦ rw missing (limits, inl refl)
      | inl present ↦ elim (Result-cases (parse_url c.url c)) [
        | inl r ↦ rw (present, r.1) (limits, inl refl)
        | inr r ↦
            let fills = parse_url-Fills c.url c r.0 r.1 in
            rw (present, r.1) (IsWithinLimits-Fills c r.0 limits fills, inr fills.0)
      ]
    ]
