-- ===== src/Proxy/Gate.antt =====
-- `fetch` of proxy/src/index.ts up to the TCP connection: which requests are refused, with which
-- status, and which target is connected to.
pub mod Wallet
use browser_wallet.Prelude.{
  ℕ, ◌||◌, not, ◌≡◌, Bool, true, false, Option, none, some, List, [], ◌∷◌, map, ltb, length,
  if◌then◌else◌,
}
use browser_wallet.Prelude.BigInt.{ℤ, split, trim}
use browser_wallet.Prelude.Hex.{list_eq}
use browser_wallet.Peers.Text.{parse_int}
use browser_wallet.Proxy.Path.{ProxyTarget, parse_proxy_path}
use browser_wallet.Proxy.Target.{validate_origin, validate_target}

pub record Request : Type 0 where
  pub upgrade : Option (List ℕ)
  pub origin : Option (List ℕ)
  pub pathname : List ℕ

pub record Env : Type 0 where
  pub allowed_origins : Option (List ℕ)
  pub allowed_ports : Option (List ℕ)

pub data Answer : Type 0 where
  status : ℕ → Answer
  connects : ProxyTarget → Answer

-- "websocket"
abbrev pub websocket : List ℕ
websocket = b'w' ∷ b'e' ∷ b'b' ∷ b's' ∷ b'o' ∷ b'c' ∷ b'k' ∷ b'e' ∷ b't' ∷ []

abbrev pub is_websocket : Option (List ℕ) → Bool
is_websocket none = false
is_websocket (some text) = list_eq text websocket

-- `text ?? ''`
abbrev pub or_empty : Option (List ℕ) → List ℕ
or_empty none = []
or_empty (some text) = text

-- `.map((s) => s.trim()).filter(Boolean)`
pub nonempty_parts : List (List ℕ) → List (List ℕ)
nonempty_parts [] = []
nonempty_parts (p ∷ ps) =
    let rest = nonempty_parts ps in if ltb 0 (length (trim p)) then trim p ∷ rest else rest

-- `.map((s) => parseInt(s.trim(), 10)).filter((n) => !isNaN(n))`
abbrev pub keep_number : Option ℤ → List ℤ → List ℤ
keep_number none ns = ns
keep_number (some n) ns = n ∷ ns

pub numbers : List (List ℕ) → List ℤ
numbers [] = []
numbers (p ∷ ps) = keep_number (parse_int (trim p)) (numbers ps)

pub origins : Env → List (List ℕ)
unfolding nonempty_parts
origins env = nonempty_parts (split b',' (or_empty env.allowed_origins))

pub ports : Env → List ℤ
unfolding numbers
ports env = numbers (split b',' (or_empty env.allowed_ports))

abbrev pub is_empty {ℓ} : {A : Type ℓ} → List A → Bool
is_empty [] = true
is_empty (x ∷ xs) = false

pub fetch_target : Option ProxyTarget → List ℤ → Answer
fetch_target none allowed = status 400
fetch_target (some target) allowed =
    if is_empty allowed
    then status 500
    else if not (validate_target target.host target.port allowed)
    then status 400
    else connects target

pub fetch : Request → Env → Answer
unfolding fetch_target
fetch request env =
    if not (is_websocket request.upgrade)
    then status 426
    else if is_empty (origins env)
    then status 500
    else if not (validate_origin request.origin (origins env))
    then status 403
    else fetch_target (parse_proxy_path request.pathname) (ports env)
