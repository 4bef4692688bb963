-- ===== src/Storage/Vss/Framing.antt =====
-- The frame around an encrypted value, src/ldk/storage/vss-crypto.ts.
use browser_wallet.Prelude.{
  ℕ, zero, suc, ◌+◌, ◌≡◌, ◌≢◌, ◌⊎◌, inl, inr, Bool-cases, none, refl, sym, ap, true, false, some,
  [], ◌∷◌, ◌++◌, length, length-append, ◌==◌, ==_iff, ltb, arith,
}
use browser_wallet.Storage.Remote.{Bytes}
use browser_wallet.Storage.Vss.{
  Primitives, vss_encrypt, vss_decrypt, take, drop, nonce_length, key_length,
}

pub take-append : (n : ℕ) (as' bs : Bytes) → length as' ≡ n → take n (as' ++ bs) ≡ as'
take-append zero [] bs e = refl
take-append zero (a ∷ as') bs e = absurd (omega arith)
take-append (suc n) [] bs e = absurd (omega arith)
take-append (suc n) (a ∷ as') bs e = ap (λ cs. a ∷ cs) (take-append n as' bs (omega arith))

pub drop-append : (n : ℕ) (as' bs : Bytes) → length as' ≡ n → drop n (as' ++ bs) ≡ bs
drop-append zero [] bs e = refl
drop-append zero (a ∷ as') bs e = absurd (omega arith)
drop-append (suc n) [] bs e = absurd (omega arith)
drop-append (suc n) (a ∷ as') bs e = drop-append n as' bs (omega arith)

-- The documented behaviour of ChaCha20-Poly1305: what was encrypted is decrypted with the same key and
-- nonce, and the tag has 16 bytes.
pub record IsCipher (p : Primitives) : Type 0 where
  pub decrypts : (key nonce m : Bytes) → p.decrypt key nonce (p.encrypt key nonce m) ≡ some m
  pub tagged : (key nonce m : Bytes) → length (p.encrypt key nonce m) ≡ length m + 16

-- A blob that `vssEncrypt` gave is opened by `vssDecrypt`.
pub framed_opens :
    (p : Primitives) (h : IsCipher p) (key nonce m blob : Bytes)
    → length nonce ≡ nonce_length
    → vss_encrypt p key nonce m ≡ some blob
    → vss_decrypt p key blob ≡ some m
unfolding vss_encrypt vss_decrypt
framed_opens p h key nonce m blob n e =
    let sized : length key ≡ key_length = ground (arith, ==_iff (length key) key_length) in
    let framed : nonce ++ p.encrypt key nonce m ≡ blob = ground arith in
    let test : (length key == key_length) ≡ true = ground (arith, ==_iff (length key) key_length) in
    let long : ltb (length (nonce ++ p.encrypt key nonce m)) (nonce_length + 16) ≡ false =
      ground (arith, length-append nonce (p.encrypt key nonce m), h.tagged key nonce m) in
    rw (sym framed) (
      rw (test, long)
        (rw
          (
            take-append nonce_length nonce (p.encrypt key nonce m) n,
            drop-append nonce_length nonce (p.encrypt key nonce m) n,
          )
          (h.decrypts key nonce m)))

-- For a nonce of 12 bytes and any plaintext, the empty one too: with a key of 32 bytes `vssEncrypt` gives
-- a blob, which begins with the nonce, has 28 bytes more than the plaintext, and is turned back by
-- `vssDecrypt`; with a key of another length both throw, whatever they are given.
pub vss_decrypt-vss_encrypt :
    (p : Primitives) (h : IsCipher p) (key nonce m : Bytes)
    → length nonce ≡ nonce_length
    → ((length key ≡ key_length)
        × (blob : Bytes) × (vss_encrypt p key nonce m ≡ some blob)
        × (take nonce_length blob ≡ nonce)
        × (length blob ≡ length m + 28)
        × (vss_decrypt p key blob ≡ some m))
      ⊎ ((length key ≢ key_length)
          × (vss_encrypt p key nonce m ≡ none)
          × ((blob : Bytes) → vss_decrypt p key blob ≡ none))
unfolding vss_encrypt vss_decrypt
vss_decrypt-vss_encrypt p h key nonce m n = elim (Bool-cases (length key == key_length)) [
  | inl e ↦
      (let given : vss_encrypt p key nonce m ≡ some (nonce ++ p.encrypt key nonce m) = rw e refl in
        inl (
          ground (arith, ==_iff (length key) key_length),
          nonce ++ p.encrypt key nonce m,
          given,
          take-append nonce_length nonce (p.encrypt key nonce m) n,
          omega (arith, length-append nonce (p.encrypt key nonce m), h.tagged key nonce m),
          framed_opens p h key nonce m (nonce ++ p.encrypt key nonce m) n given,
        ))
  | inr e ↦
      inr ((λ same. ground (arith, ==_iff (length key) key_length)), rw e refl, λ blob. rw e refl)
]
