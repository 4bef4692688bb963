-- ===== src/Proxy/Path.antt =====
-- `parseProxyPath` of proxy/src/validation.ts: the host and the port in the path of a request. The
-- expression /^\/v1\/([^/]+)\/(\d+)$/ is given by the parts between the slashes.
pub mod Route
use browser_wallet.Prelude.{
  ℕ, Bool, true, false, Option, none, some, List, [], ◌∷◌, map, ◌==◌, ltb, ◌||◌, ◌&&◌,
  if◌then◌else◌, length,
}
use browser_wallet.Prelude.Decimal.{read_digits}
use browser_wallet.Prelude.BigInt.{split}
use browser_wallet.Prelude.Hex.{list_eq}

pub record ProxyTarget : Type 0 where
  pub host : List ℕ
  pub port : ℕ

-- `replace(/_/g, '.')`
abbrev pub underscore_to_dot : ℕ → ℕ
underscore_to_dot c = if c == b'_' then b'.' else c

-- `none` is `null`, also where the expression does not match.
pub target : List ℕ → Option ℕ → Option ProxyTarget
target host none = none
target host (some port) =
    if ltb port 1 || ltb 65535 port
    then none
    else some (record { host = map underscore_to_dot host; port = port })

pub match_path : List (List ℕ) → Option ProxyTarget
unfolding target
match_path (start ∷ version ∷ host ∷ port ∷ []) =
    if list_eq start []
      && list_eq version (b'v' ∷ b'1' ∷ [])
      && ltb 0 (length host)
      && ltb 0 (length port)
    then target host (read_digits 0 port)
    else none
match_path _ = none

pub parse_proxy_path : List ℕ → Option ProxyTarget
unfolding match_path
parse_proxy_path pathname = match_path (split b'/' pathname)
