-- ===== src/Peers/Connection/Sound.antt =====
-- What stays true of a connection of src/ldk/peers/peer-connection.ts, and the lemmas that keep it.
use browser_wallet.Prelude.{
  Bool, true, false, not, List, [], ◌∷◌, ◌≡◌, ◌≢◌, ◌⊎◌, inl, inr, refl, arith, if◌then◌else◌, ap,
}
use browser_wallet.Peers.Connection.{
  Reason, Settlement, rejected, Phase, connecting, opened, closing, closed, Call,
  socket_disconnected, Connection, settle,
}

-- The calls of `resolve` and `reject` that fit the flag: none, or one.
abbrev pub Settlements : Bool → List Settlement → Type 0
Settlements false ss = ss ≡ []
Settlements true ss = (s : Settlement) × (ss ≡ s ∷ [])

-- `socket_disconnected` has been called.
unfoldable pub told : List Call → Bool
told [] = false
told (socket_disconnected ∷ cs) = true
told (_ ∷ cs) = told cs

abbrev pub GivenUp : Phase → Type 0
GivenUp p = (p ≡ closing) ⊎ (p ≡ closed)

pub record Sound (c : Connection) : Type 0 where
  pub once : Settlements c.resolved c.settled
  pub timed : c.timer ≡ not c.resolved
  pub fresh : c.phase ≡ connecting → c.resolved ≡ false
  pub over : c.phase ≡ closed → c.resolved ≡ true
  pub released : c.phase ≡ closed → c.descriptor ≡ true → told c.calls ≡ true
  pub given_up : (why : Reason) → c.settled ≡ rejected why ∷ [] → GivenUp c.phase

pub unsettled : (r : Bool) (ss : List Settlement) → Settlements r ss → r ≡ false → ss ≡ []
unsettled false ss h e = h
unsettled true ss h e = cc

told-call : (f : Call) (cs : List Call) → told cs ≡ true → told (f ∷ cs) ≡ true
unfolding told
told-call f cs h = ground arith

pub settle-Sound :
    (s : Settlement) (c : Connection)
    → c.settled ≡ []
    → c.phase ≢ connecting
    → (c.phase ≡ closed → c.descriptor ≡ true → told c.calls ≡ true)
    → ((why : Reason) → s ≡ rejected why → GivenUp c.phase)
    → Sound (settle s c)
settle-Sound s c e n r g = record {
  once = (s, ap (λ ss. s ∷ ss) e);
  timed = refl;
  fresh = λ p. absurd (n p);
  over = λ p. refl;
  released = r;
  given_up = λ why p. g why (cc p);
}

pub close-GivenUp : (p : Phase) → GivenUp (elim p [ closed ↦ closed | _ ↦ closing ])
close-GivenUp connecting = inl refl
close-GivenUp opened = inl refl
close-GivenUp closing = inl refl
close-GivenUp closed = inr refl

pub if-Sound :
    {x y : Connection} (b : Bool)
    → (b ≡ true → Sound x)
    → (b ≡ false → Sound y)
    → Sound (if b then x else y)
if-Sound true f g = f refl
if-Sound false f g = g refl
