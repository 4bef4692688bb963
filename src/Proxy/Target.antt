-- ===== src/Proxy/Target.antt =====
-- `validateOrigin` and `validateTarget` of proxy/src/validation.ts: which TCP targets the proxy is
-- willing to reach. Texts are lists of character codes; a host comes from the path of a URL, which is
-- ASCII, so that `toLowerCase` changes A to Z alone.
pub mod Public
use browser_wallet.Prelude.{
  ℕ, ◌+◌, Bool, true, false, not, ◌&&◌, ◌||◌, Option, none, some, List, [], ◌∷◌, map, reverse, ◌==◌,
  leb, ltb, if◌then◌else◌, length,
}
use browser_wallet.Prelude.Decimal.{read_digits}
use browser_wallet.Prelude.BigInt.{ℤ, pos, negsuc, split}
use browser_wallet.Prelude.Hex.{list_eq}

abbrev pub to_lower : ℕ → ℕ
to_lower c = if leb 65 c && leb c 90 then c + 32 else c

pub starts_with : List ℕ → List ℕ → Bool
starts_with cs [] = true
starts_with [] (p ∷ ps) = false
starts_with (c ∷ cs) (p ∷ ps) = c == p && starts_with cs ps

-- The suffix is given reversed.
abbrev pub ends_with : List ℕ → List ℕ → Bool
ends_with cs xiffus = starts_with (reverse cs) xiffus

-- `includes` on a list of texts.
unfoldable pub includes : List (List ℕ) → List ℕ → Bool
includes [] text = false
includes (t ∷ ts) text = list_eq t text || includes ts text

-- `includes` on a list of parsed numbers.
unfoldable pub includes_port : List ℤ → ℕ → Bool
includes_port [] port = false
includes_port (negsuc n ∷ ps) port = includes_port ps port
includes_port (pos n ∷ ps) port = n == port || includes_port ps port

unfoldable pub validate_origin : Option (List ℕ) → List (List ℕ) → Bool
unfolding includes
validate_origin none allowed = false
validate_origin (some origin) allowed = ltb 0 (length origin) && includes allowed origin

-- One to three digits.
pub octet : List ℕ → Option ℕ
octet cs = if leb 1 (length cs) && leb (length cs) 3 then read_digits 0 cs else none

abbrev pub is_private_range : ℕ → ℕ → Bool
is_private_range a b =
    a == 10
    || (a == 172 && leb 16 b && leb b 31)
    || (a == 192 && b == 168)
    || a == 127
    || (a == 169 && b == 254)
    || a == 0
    || (a == 100 && leb 64 b && leb b 127)
    || a == 255

abbrev pub private_octets : Option ℕ → Option ℕ → Option ℕ → Option ℕ → Bool
private_octets (some a) (some b) (some c) (some d) =
    if ltb 255 a || ltb 255 b || ltb 255 c || ltb 255 d then false else is_private_range a b
private_octets _ _ _ _ = false

abbrev pub private_parts : List (List ℕ) → Bool
private_parts (p ∷ q ∷ r ∷ s ∷ []) = private_octets (octet p) (octet q) (octet r) (octet s)
private_parts _ = false

pub is_private_ipv4 : List ℕ → Bool
is_private_ipv4 host = private_parts (split b'.' host)

-- "localhost", "localhost.localdomain", "ip6-localhost", "ip6-loopback"
abbrev pub localhost : List ℕ
localhost = b'l' ∷ b'o' ∷ b'c' ∷ b'a' ∷ b'l' ∷ b'h' ∷ b'o' ∷ b's' ∷ b't' ∷ []

abbrev pub blocked_hostnames : List (List ℕ)
blocked_hostnames =
    localhost
    ∷ (b'l' ∷ b'o' ∷ b'c' ∷ b'a' ∷ b'l' ∷ b'h' ∷ b'o' ∷ b's' ∷ b't' ∷ b'.' ∷ b'l' ∷ b'o' ∷ b'c'
        ∷ b'a' ∷ b'l' ∷ b'd' ∷ b'o' ∷ b'm' ∷ b'a' ∷ b'i' ∷ b'n' ∷ [])
    ∷ (b'i' ∷ b'p' ∷ b'6' ∷ b'-' ∷ localhost)
    ∷ (b'i' ∷ b'p' ∷ b'6' ∷ b'-' ∷ b'l' ∷ b'o' ∷ b'o' ∷ b'p' ∷ b'b' ∷ b'a' ∷ b'c' ∷ b'k' ∷ [])
    ∷ []

-- ".local", ".internal", ".localhost" at the end.
abbrev pub is_private_suffix : List ℕ → Bool
is_private_suffix lower =
    ends_with lower (b'l' ∷ b'a' ∷ b'c' ∷ b'o' ∷ b'l' ∷ b'.' ∷ [])
    || ends_with lower (b'l' ∷ b'a' ∷ b'n' ∷ b'r' ∷ b'e' ∷ b't' ∷ b'n' ∷ b'i' ∷ b'.' ∷ [])
    || ends_with lower (b't' ∷ b's' ∷ b'o' ∷ b'h' ∷ b'l' ∷ b'a' ∷ b'c' ∷ b'o' ∷ b'l' ∷ b'.' ∷ [])

-- "::1", "[::1]", and what starts with "::ffff:", "[::ffff:", "fc", "fd" or "fe80".
abbrev pub is_private_ipv6 : List ℕ → Bool
is_private_ipv6 lower =
    list_eq lower (b':' ∷ b':' ∷ b'1' ∷ [])
    || list_eq lower (b'[' ∷ b':' ∷ b':' ∷ b'1' ∷ b']' ∷ [])
    || starts_with lower (b':' ∷ b':' ∷ b'f' ∷ b'f' ∷ b'f' ∷ b'f' ∷ b':' ∷ [])
    || starts_with lower (b'[' ∷ b':' ∷ b':' ∷ b'f' ∷ b'f' ∷ b'f' ∷ b'f' ∷ b':' ∷ [])
    || starts_with lower (b'f' ∷ b'c' ∷ [])
    || starts_with lower (b'f' ∷ b'd' ∷ [])
    || starts_with lower (b'f' ∷ b'e' ∷ b'8' ∷ b'0' ∷ [])

pub is_private_host : List ℕ → Bool
is_private_host host =
    let lower = map to_lower host in
    if includes blocked_hostnames lower
    then true
    else if is_private_suffix lower
    then true
    else if is_private_ipv6 lower
    then true
    else is_private_ipv4 host

-- `true` where the answer is `null`, no error.
pub validate_target : List ℕ → ℕ → List ℤ → Bool
validate_target host port allowed =
    if not (includes_port allowed port)
    then false
    else if ends_with host (b'n' ∷ b'o' ∷ b'i' ∷ b'n' ∷ b'o' ∷ b'.' ∷ [])
    then false
    else not (is_private_host host)
