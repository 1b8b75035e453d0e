-- ===== src/Stt/WsConfig/Url.antt =====
-- A URL that is put together from its parts is taken apart again.
use subtitle_overlay_fw.Base.{
  ℕ, ◌≤◌, ◌<◌, ◌≡◌, ◌≢◌, refl, ap, ◌∙◌, Bool, true, false, ◌||◌, ◌==◌, Option, none, some, List, [],
  ◌∷◌, ◌++◌, leb, length, ok, arith,
}
use subtitle_overlay_fw.Utils.NumberParse.{number_parse_u32}
use subtitle_overlay_fw.Utils.NumberParse.Decimal.{IsDigits, decimal, number_parse_u32-eq-ok}
use subtitle_overlay_fw.Stt.WsConfig.{
  Config, fit, behind_prefix, break_at, secure_scheme, plain_scheme, with_port, fill_in, with_path,
  or_root, parse_location, parse_url,
}

-- Text without a character
abbrev pub Lacks : ℕ → List ℕ → Type 0
Lacks c [] = Unit
Lacks c (x ∷ xs) = ((x == c) ≡ false) × Lacks c xs

-- The end of the text, or that character
abbrev StartsWith : ℕ → List ℕ → Type 0
StartsWith c [] = Unit
StartsWith c (x ∷ xs) = (x == c) ≡ true

break_at-append :
    (c : ℕ) (xs ys : List ℕ) → Lacks c xs → StartsWith c ys → break_at c (xs ++ ys) ≡ (xs, ys)
unfolding break_at
break_at-append c [] [] l s = refl
break_at-append c [] (y ∷ ys) l s = rw s refl
break_at-append c (x ∷ xs) ys l s = rw (l.0, break_at-append c xs ys l.1 s) refl

-- The port in a URL: none, or digits behind a colon
abbrev pub print_port : Option (List ℕ) → List ℕ
print_port none = []
print_port (some digits) = b':' ∷ digits

abbrev pub port_or : ℕ → Option (List ℕ) → ℕ
port_or port none = port
port_or port (some digits) = decimal digits

abbrev pub IsPort : Option (List ℕ) → Type 0
IsPort none = Unit
IsPort (some digits) =
    (digits ≢ []) × (IsDigits digits × ((1 ≤ decimal digits) × (decimal digits ≤ 65535)))

-- A path is empty, or starts with a slash.
abbrev pub IsPath : List ℕ → Type 0
IsPath [] = Unit
IsPath (c ∷ cs) = c ≡ b'/'

with_port-print :
    (default : ℕ) (host : List ℕ) (port : Option (List ℕ))
    → Lacks b':' host
    → IsPort port
    → with_port default (break_at b':' (host ++ print_port port)) ≡ ok (host, port_or default port)
with_port-print default host none l p = ap (with_port default) (break_at-append b':' host [] l tt)
with_port-print default host (some digits) l p =
    let number : number_parse_u32 (some digits) 1 65535 true ≡ ok (decimal digits) =
      (number_parse_u32-eq-ok 1 65535 digits (decimal digits) (omega arith) (omega arith)).1
        (p.0, p.1.0, refl, p.1.1.0, p.1.1.1) in
    ap (with_port default) (break_at-append b':' host (b':' ∷ digits) l refl)
    ∙ rw (number, with_port) refl

Lacks-append : (c : ℕ) (xs ys : List ℕ) → Lacks c xs → Lacks c ys → Lacks c (xs ++ ys)
Lacks-append c [] ys a b = b
Lacks-append c (x ∷ xs) ys a b = (a.0, Lacks-append c xs ys a.1 b)

IsDigits-Lacks : (ds : List ℕ) → IsDigits ds → Lacks b'/' ds
IsDigits-Lacks [] d = tt
IsDigits-Lacks (c ∷ cs) d = (ground (arith, d.0), IsDigits-Lacks cs d.2)

print_port-Lacks : (port : Option (List ℕ)) → IsPort port → Lacks b'/' (print_port port)
print_port-Lacks none p = tt
print_port-Lacks (some digits) p = (refl, IsDigits-Lacks digits p.1.0)

IsPath-StartsWith : (path : List ℕ) → IsPath path → StartsWith b'/' path
IsPath-StartsWith [] p = tt
IsPath-StartsWith (c ∷ cs) p = ground (arith, p)

-- The parts of a URL behind its scheme
pub record Parts : Type 0 where
  pub host : List ℕ
  pub port : Option (List ℕ)
  pub path : List ℕ

abbrev pub scheme : Bool → List ℕ
scheme true = secure_scheme
scheme false = plain_scheme

abbrev pub default_port : Bool → ℕ
default_port true = 443
default_port false = 80

unfoldable pub print_url : Bool → Parts → List ℕ
print_url use_tls u = scheme use_tls ++ ((u.host ++ print_port u.port) ++ u.path)

pub record IsUrl (u : Parts) : Type 0 where
  pub host_size : (0 < length u.host) × (length u.host < 128)
  pub host_colon : Lacks b':' u.host
  pub host_slash : Lacks b'/' u.host
  pub port : IsPort u.port
  pub path : IsPath u.path

abbrev pub located : Bool → Parts → Config → Config
located use_tls u config = record config {
  host = u.host;
  port = port_or (default_port use_tls) u.port;
  use_tls = use_tls;
  path = fit 128 (or_root u.path);
}

parse_location-print :
    (use_tls : Bool) (u : Parts) (config : Config)
    → IsUrl u
    → parse_location use_tls (default_port use_tls) ((u.host ++ print_port u.port) ++ u.path) config
      ≡ ok (located use_tls u config)
unfolding parse_location
parse_location-print use_tls u config i =
    let lacks =
      Lacks-append b'/' u.host (print_port u.port) i.host_slash (print_port-Lacks u.port i.port) in
    let split =
      break_at-append b'/' (u.host ++ print_port u.port) u.path lacks
        (IsPath-StartsWith u.path i.path) in
    let sized : (length u.host == 0 || leb 128 (length u.host)) ≡ false =
      ground (arith, i.host_size) in
    ap (with_path use_tls (default_port use_tls) config) split
    ∙ ap (fill_in use_tls u.path config)
        (with_port-print (default_port use_tls) u.host u.port i.host_colon i.port)
    ∙ rw sized refl

behind_prefix-append : (ps xs : List ℕ) → behind_prefix ps (ps ++ xs) ≡ some xs
unfolding behind_prefix
behind_prefix-append [] xs = refl
behind_prefix-append (p ∷ ps) xs =
    let same : (p == p) ≡ true = ground arith in rw same (behind_prefix-append ps xs)

-- "ws://" is not the start of a secure URL.
behind_prefix-plain : (xs : List ℕ) → behind_prefix secure_scheme (plain_scheme ++ xs) ≡ none
unfolding behind_prefix
behind_prefix-plain xs = refl

-- A URL put together from a scheme, a host of 1 to 127 characters without colon and slash, perhaps a
-- port from 1 to 65535 in decimal, and a path that is empty or starts with a slash is accepted, and
-- gives scheme, host and port back, with the port of the scheme where there is none, and the first
-- 127 characters of the path, the root path where there is none; no other field of the configuration
-- changes.
pub parse_url-print_url :
    (use_tls : Bool) (u : Parts) (config : Config)
    → IsUrl u
    → parse_url (print_url use_tls u) config ≡ ok (located use_tls u config)
unfolding parse_url print_url
parse_url-print_url true u config i =
    rw (behind_prefix-append secure_scheme ((u.host ++ print_port u.port) ++ u.path), parse_url)
      (parse_location-print true u config i)
parse_url-print_url false u config i =
    let rest = (u.host ++ print_port u.port) ++ u.path in
    rw (behind_prefix-plain rest, parse_url, behind_prefix-append plain_scheme rest)
      (parse_location-print false u config i)
