-- ===== src/Proxy/Target/Public.antt =====
-- Which IPv4 addresses `validateTarget` of proxy/src/validation.ts lets through.
use browser_wallet.Prelude.{
  ℕ, ◌<◌, ◌≤◌, ◌≡◌, ◌↔◌, ◌⊎◌, refl, ap, ◌∙◌, Bool, true, false, not, List, [], ◌∷◌, ◌++◌, map,
  reverse, some, arith, All, All-append, length, leb, ◌&&◌, ◌||◌,
}
use mathlib.Core.List.{reverse_aux}
use browser_wallet.Prelude.Decimal.{
  IsDigit, decimal, decimal-All, decimal_nonempty, read_digits-decimal, length-decimal,
}
use browser_wallet.Prelude.BigInt.{ℤ, split}
use browser_wallet.Prelude.BigInt.Laws.{decimal-Lacks, split_from-append, split_from_last}
use browser_wallet.Prelude.Hex.{list_eq}
use browser_wallet.Proxy.Target.{
  to_lower, starts_with, includes, includes_port, octet, is_private_range, is_private_ipv4,
  blocked_hostnames, is_private_suffix, is_private_ipv6, is_private_host, validate_target,
  ends_with,
}

-- The reserved ranges, by their first two numbers: 10/8, 172.16/12, 192.168/16, 127/8, 169.254/16,
-- 0/8, 100.64/10 and 255/8.
abbrev pub Reserved : ℕ → ℕ → Type 0
Reserved a b =
    (a ≡ 10)
    ⊎ ((a ≡ 172) × (16 ≤ b) × (b ≤ 31))
    ⊎ ((a ≡ 192) × (b ≡ 168))
    ⊎ (a ≡ 127)
    ⊎ ((a ≡ 169) × (b ≡ 254))
    ⊎ (a ≡ 0)
    ⊎ ((a ≡ 100) × (64 ≤ b) × (b ≤ 127))
    ⊎ (a ≡ 255)

-- "a.b.c.d"
abbrev pub dotted : ℕ → ℕ → ℕ → ℕ → List ℕ
dotted a b c d = decimal a ++ b'.' ∷ (decimal b ++ b'.' ∷ (decimal c ++ b'.' ∷ decimal d))

-- Digits and dots.
abbrev pub Numeric : ℕ → Type 0
Numeric c = c < 58

digits-Numeric : (cs : List ℕ) → All IsDigit cs → All Numeric cs
digits-Numeric [] h = tt
digits-Numeric (c ∷ cs) (d, h) = (omega arith, digits-Numeric cs h)

joined : (n : ℕ) (cs : List ℕ) → All Numeric cs → All Numeric (decimal n ++ b'.' ∷ cs)
joined n cs h =
    All-append Numeric (decimal n) (b'.' ∷ cs) (digits-Numeric (decimal n) (decimal-All n))
      (omega arith, h)

pub dotted-Numeric : (a b c d : ℕ) → All Numeric (dotted a b c d)
dotted-Numeric a b c d =
    joined a _ (joined b _ (joined c _ (digits-Numeric (decimal d) (decimal-All d))))

reverse_aux-Numeric :
    (xs ys : List ℕ) → All Numeric xs → All Numeric ys → All Numeric (reverse_aux xs ys)
reverse_aux-Numeric [] ys h k = k
reverse_aux-Numeric (x ∷ xs) ys (p, h) k = reverse_aux-Numeric xs (x ∷ ys) h (p, k)

lower_same : (cs : List ℕ) → All Numeric cs → map to_lower cs ≡ cs
lower_same [] h = refl
lower_same (c ∷ cs) (d, h) = ground (arith, lower_same cs h)

not_prefix :
    (cs : List ℕ) (p : ℕ) (ps : List ℕ) → All Numeric cs → 57 < p → starts_with cs (p ∷ ps) ≡ false
unfolding starts_with
not_prefix [] p ps h k = refl
not_prefix (c ∷ cs) p ps (d, h) k = ground arith

not_equal :
    (cs : List ℕ) (p : ℕ) (ps : List ℕ) → All Numeric cs → 57 < p → list_eq cs (p ∷ ps) ≡ false
unfolding list_eq
not_equal [] p ps h k = refl
not_equal (c ∷ cs) p ps (d, h) k = ground arith

not_blocked : (p : ℕ) (ps cs : List ℕ) → All Numeric cs → 57 < p → list_eq (p ∷ ps) cs ≡ false
unfolding list_eq
not_blocked p ps [] h k = refl
not_blocked p ps (c ∷ cs) (d, h) k = ground arith

either : {x y : Bool} → x ≡ false → y ≡ false → (x || y) ≡ false
either h k = ground arith

-- A text of digits and dots is no host name, and no IPv6 address.
module _ (cs : List ℕ) (n : All Numeric cs) where
  not_hostname : includes blocked_hostnames cs ≡ false
  unfolding includes
  not_hostname = either (not_blocked b'l' _ cs n (omega arith)) (
      either (not_blocked b'l' _ cs n (omega arith)) (
        either (not_blocked b'i' _ cs n (omega arith))
          (either (not_blocked b'i' _ cs n (omega arith)) refl)))

  ends_otherwise : (p : ℕ) (ps : List ℕ) → 57 < p → ends_with cs (p ∷ ps) ≡ false
  ends_otherwise p ps k = not_prefix (reverse cs) p ps (reverse_aux-Numeric cs [] n tt) k

  not_suffix : is_private_suffix cs ≡ false
  not_suffix =
      let e = ends_otherwise in
      either (either (e b'l' _ (omega arith)) (e b'l' _ (omega arith))) (e b't' _ (omega arith))

  not_ipv6 : is_private_ipv6 cs ≡ false
  not_ipv6 =
      either
        (either
          (either
            (either
              (either
                (either (not_equal cs b':' _ n (omega arith)) (not_equal cs b'[' _ n (omega arith)))
                (not_prefix cs b':' _ n (omega arith)))
              (not_prefix cs b'[' _ n (omega arith)))
            (not_prefix cs b'f' _ n (omega arith)))
          (not_prefix cs b'f' _ n (omega arith)))
        (not_prefix cs b'f' _ n (omega arith))

  validate-Numeric :
      (port : ℕ) (allowed : List ℤ)
      → validate_target cs port allowed ≡ (includes_port allowed port && not (is_private_ipv4 cs))
  unfolding validate_target is_private_host
  validate-Numeric port allowed =
      rw (ends_otherwise b'n' (b'o' ∷ b'i' ∷ b'n' ∷ b'o' ∷ b'.' ∷ []) (omega arith))
        (rw (lower_same cs n) (rw not_hostname (rw not_suffix (rw not_ipv6 (ground arith)))))

module _ (a b c d : ℕ) where
  abbrev host : List ℕ
  host = dotted a b c d

  split-dotted : split b'.' host ≡ decimal a ∷ decimal b ∷ decimal c ∷ decimal d ∷ []
  unfolding split
  split-dotted =
      split_from-append b'.' [] (decimal a) _ (decimal-Lacks b'.' a (λ h. omega arith))
      ∙ ap (λ ps. decimal a ∷ ps)
          (split_from-append b'.' [] (decimal b) _ (decimal-Lacks b'.' b (λ h. omega arith))
            ∙ ap (λ ps. decimal b ∷ ps)
                (split_from-append b'.' [] (decimal c) _ (decimal-Lacks b'.' c (λ h. omega arith))
                  ∙ ap (λ ps. decimal c ∷ ps)
                      (split_from_last b'.' [] (decimal d)
                        (decimal-Lacks b'.' d (λ h. omega arith)))))

  octet-decimal : (n : ℕ) → n < 256 → octet (decimal n) ≡ some n
  unfolding octet
  octet-decimal n h =
      let few : length (decimal n) ≤ 3 = length-decimal 2 n (omega arith) in
      let fits : (leb 1 (length (decimal n)) && leb (length (decimal n)) 3) ≡ true =
        ground (arith, decimal_nonempty n) in
      rw fits (read_digits-decimal n)

  module _ (la : a < 256) (lb : b < 256) (lc : c < 256) (ld : d < 256) where
    is_private_ipv4-dotted : is_private_ipv4 host ≡ is_private_range a b
    unfolding is_private_ipv4
    is_private_ipv4-dotted = rw split-dotted (
        rw (octet-decimal a la) (
          rw (octet-decimal b lb)
            (rw (octet-decimal c lc) (rw (octet-decimal d ld) (ground arith)))))

    is_private_range_iff : (is_private_range a b ≡ true) ↔ Reserved a b
    is_private_range_iff = ground arith

    -- A dotted IPv4 address is let through exactly if its port is allowed and it is in none of the
    -- reserved ranges.
    pub validate_target-dotted_iff :
        (port : ℕ) (allowed : List ℤ)
        → (validate_target host port allowed ≡ true)
          ↔ ((includes_port allowed port ≡ true) × ¬ Reserved a b)
    validate_target-dotted_iff port allowed =
        rw (validate-Numeric host (dotted-Numeric a b c d) port allowed)
          (rw is_private_ipv4-dotted (ground (arith)))
