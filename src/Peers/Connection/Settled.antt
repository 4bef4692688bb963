-- ===== src/Peers/Connection/Settled.antt =====
-- How the promise of `connectToPeer` (src/ldk/peers/peer-connection.ts) is settled.
use browser_wallet.Prelude.{
  ℕ, Bool, true, false, not, List, [], ◌∷◌, ◌≡◌, ◌≢◌, inl, inr, refl, arith, if◌then◌else◌,
  Bool-cases,
}
use browser_wallet.Peers.Connection.{
  Reason, connected, rejected, connecting, opened, closing, closed, Call, socket_disconnected,
  Connection, init, cleanup, call, process_events, settle, close, timed_out, not_initiated,
  handshake_failed, socket_failed, closed_early, Frame, on_timeout, on_open, on_message, on_error,
  on_close, disconnect, Happens, Reachable, lists,
}
use browser_wallet.Peers.Connection.Sound.{
  told, Sound, settle-Sound, if-Sound, close-GivenUp, unsettled,
}

module _ (c : Connection) (h : Sound c) where
  pending : c.resolved ≡ false → c.settled ≡ []
  pending r = unsettled c.resolved c.settled h.once r

  not_closed : c.resolved ≡ false → c.phase ≢ closed
  not_closed r p = cc (h.over p)

  give_up-Sound : (why : Reason) → c.resolved ≡ false → Sound (settle (rejected why) (close c))
  give_up-Sound why r =
      let open_still = not_closed r in
      settle-Sound (rejected why) (close c) (pending r) (ground arith)
        (λ p. absurd (open_still (ground arith))) (λ _ _. close-GivenUp c.phase)

  cleanup-Sound : c.resolved ≡ true → Sound (cleanup c)
  cleanup-Sound r = record {
    once = h.once;
    timed = rw r refl;
    fresh = h.fresh;
    over = h.over;
    released = h.released;
    given_up = h.given_up;
  }

  calls-Sound : (cs : List Call) → c.phase ≢ closed → Sound (record c { calls = cs })
  calls-Sound cs n = record {
    once = h.once;
    timed = h.timed;
    fresh = h.fresh;
    over = h.over;
    released = λ p. absurd (n p);
    given_up = h.given_up;
  }

  timeout-Sound : Sound (on_timeout c)
  unfolding on_timeout
  timeout-Sound = if-Sound c.resolved cleanup-Sound (give_up-Sound timed_out)

  open-Sound : (i : Bool) → c.phase ≡ connecting → Sound (on_open i c)
  unfolding on_open
  open-Sound i p =
      let none_yet = pending (h.fresh p) in
      if-Sound i
        (λ _. record {
          once = h.once;
          timed = h.timed;
          fresh = λ e. cc;
          over = λ e. cc;
          released = λ e. cc;
          given_up = λ why e. cc;
        })
        (λ _.
          settle-Sound (rejected not_initiated)
            (close (record c { phase = opened; descriptor = true })) none_yet (λ e. cc) (λ e. cc)
            (λ _ _. inl refl))

  message-Sound :
      (n : Bool) (pubkey : List ℕ) (frame : Frame)
      → c.phase ≡ opened
      → Sound (on_message n pubkey frame c)
  unfolding on_message
  message-Sound n pubkey frame p =
      let up : c.phase ≢ closed = λ e. cc in
      let early : c.phase ≢ connecting = λ e. cc in
      if-Sound (not c.descriptor) (λ _. h)
        (λ _.
          if-Sound (not frame.binary) (λ _. h)
            (λ _.
              if-Sound (not frame.readable)
                (λ _. if-Sound c.resolved cleanup-Sound (give_up-Sound handshake_failed))
                (λ _.
                  if-Sound c.resolved
                    (λ _. if-Sound n (λ _. calls-Sound _ up) (λ _. calls-Sound _ up))
                    (λ r.
                      if-Sound (lists frame.peers pubkey)
                        (λ _.
                          settle-Sound connected (call process_events c) (pending r) early
                            (λ e. absurd (up e)) (λ why e. cc))
                        (λ _. calls-Sound _ up)))))

  error-Sound : Sound (on_error (record c { phase = closing }))
  unfolding on_error
  error-Sound =
      if-Sound c.resolved
        (λ r. record {
          once = h.once;
          timed = h.timed;
          fresh = λ e. cc;
          over = λ e. cc;
          released = λ e. cc;
          given_up = λ _ _. inl refl;
        })
        (λ r.
          settle-Sound (rejected socket_failed) (record c { phase = closing }) (pending r) (λ e. cc)
            (λ e. cc) (λ _ _. inl refl))

  closed-Sound :
      (b : Bool) (cs : List Call)
      → (b ≡ true → told cs ≡ true)
      → Sound (
          let d : Connection = record c { phase = closed; descriptor = b; calls = cs } in
          if c.resolved then d else settle (rejected closed_early) d)
  closed-Sound b cs t =
      if-Sound c.resolved
        (λ r. record {
          once = h.once;
          timed = h.timed;
          fresh = λ e. cc;
          over = λ _. r;
          released = λ _. t;
          given_up = λ _ _. inr refl;
        })
        (λ r.
          settle-Sound (rejected closed_early)
            (record c { phase = closed; descriptor = b; calls = cs }) (pending r) (λ e. cc) (λ _. t)
            (λ _ _. inr refl))

  close-Sound : Sound (on_close (record c { phase = closed }))
  unfolding on_close
  close-Sound = elim (Bool-cases c.descriptor) [
    | inl d ↦ rw d (closed-Sound true (socket_disconnected ∷ c.calls) (λ _. unfold told in refl))
    | inr d ↦ rw d (closed-Sound false c.calls (λ e. cc))
  ]

  hung_up-Sound :
      (b : Bool) (cs : List Call)
      → c.settled ≡ connected ∷ []
      → (b ≡ true → told cs ≡ true)
      → Sound (close (record c { descriptor = b; calls = cs }))
  unfolding told
  hung_up-Sound b cs e t =
      let done : c.resolved ≡ true = elim (Bool-cases c.resolved) [
        | inl r ↦ r
        | inr r ↦ cc (pending r)
      ] in
      record {
        once = h.once;
        timed = h.timed;
        fresh = λ p. absurd (ground arith);
        over = λ _. done;
        released = λ _. t;
        given_up = λ why p. cc;
      }

  disconnect-Sound : c.settled ≡ connected ∷ [] → Sound (disconnect c)
  unfolding disconnect
  disconnect-Sound e = elim (Bool-cases c.descriptor) [
    | inl d ↦ rw d (hung_up-Sound true (socket_disconnected ∷ c.calls) e (λ _. unfold told in refl))
    | inr d ↦ rw d (hung_up-Sound false c.calls e (λ p. cc))
  ]

init-Sound : Sound init
init-Sound = record {
  once = refl;
  timed = refl;
  fresh = λ _. refl;
  over = λ p. cc;
  released = λ p. cc;
  given_up = λ why e. cc;
}

module _ {notified : Bool} {pubkey : List ℕ} where
  Happens-Sound : {c d : Connection} → Happens notified pubkey c d → Sound c → Sound d
  Happens-Sound (Happens.times_out c _) h = timeout-Sound c h
  Happens-Sound (Happens.opens i c p) h = open-Sound c h i p
  Happens-Sound (Happens.receives frame c p) h = message-Sound c h notified pubkey frame p
  Happens-Sound (Happens.fails c _) h = error-Sound c h
  Happens-Sound (Happens.closes c _) h = close-Sound c h
  Happens-Sound (Happens.disconnects c e) h = disconnect-Sound c h e

  -- Whatever happens to a connection, in whatever order: the promise is settled at most once, and the
  -- timer runs exactly until then. When the socket has closed, the promise is settled, and the peer
  -- manager has been told if it knew the connection. A connection whose promise was rejected is
  -- closing or closed.
  pub Reachable-Sound : (c : Connection) → Reachable notified pubkey c → Sound c
  Reachable-Sound _ Reachable.starts = init-Sound
  Reachable-Sound d (Reachable.goes_on {c} r s) = Happens-Sound s (Reachable-Sound c r)
