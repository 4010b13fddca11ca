-- ===== src/Client/Socket/Descriptors.antt =====
-- The descriptors that connect opens and closes.
use Prim.Native.String.{String}
use embedded_client_server_v.Prelude.{
  ℕ, ◌≡◌, refl, sym, ap, ◌∙◌, Bool, true, false, not, inl, inr, Option, none, some, ℤ, arith,
  is_negative, is_nonpos, Bool-cases, if◌then◌else◌,
}
use embedded_client_server_v.Posix.{
  Descriptors, Held, only, with_all, without, without-with_all, with_all_none, Posix, Errno, again,
  would_block, in_progress, fault,
}
use embedded_client_server_v.Client.Socket.{
  TcpClient, wait_for_connect, close, give_up, established, conclude, attempt, connect,
  apply_recv_timeout,
}

-- The descriptors of a client.
abbrev pub owned : TcpClient → Held
owned c = only c.fd

module _ (os : Posix) (d : Descriptors os) (others : Held) where
  open os use {World}

  -- All that is held beside the others is the client's, and it is connected just when the call says
  -- so.
  abbrev pub Balanced : (TcpClient × Bool) × World → Type 0
  Balanced r = (d.held r.1 ≡ with_all others (owned r.0.0)) × (is_negative r.0.0.fd ≡ not r.0.1)

  pub none_owned : (c : TcpClient) → is_negative c.fd ≡ true → with_all others (owned c) ≡ others
  none_owned c closed = with_all_none others c.fd closed

  pub close-held :
      (c : TcpClient) (w : World)
      → d.held w ≡ with_all others (owned c)
      → (d.held (close os c w).1 ≡ others) × (is_negative (close os c w).0.fd ≡ true)
  unfolding close
  close-held c w e = elim (Bool-cases (is_negative c.fd)) [
    | inl closed ↦ rw (closed, close) (e ∙ none_owned c closed, closed)
    | inr opened ↦
        rw (opened, close)
          (
            d.close_held c.fd w
                ∙ ap (λ f. without f (owned c)) e
                ∙ without-with_all others (owned c),
            refl,
          )
  ]

  give_up-Balanced :
      (c : TcpClient) (w : World) → d.held w ≡ with_all others (owned c) → Balanced (give_up os c w)
  unfolding give_up
  give_up-Balanced c w e =
      let (kept, closed) = close-held c w e in
      (kept ∙ sym (none_owned (close os c w).0 closed), closed)

  established-Balanced :
      (c : TcpClient) (flags : ℤ) (ms : ℕ) (w : World)
      → d.held w ≡ with_all others (owned c)
      → is_negative c.fd ≡ false
      → Balanced (established os c flags ms w)
  unfolding established apply_recv_timeout
  established-Balanced c flags ms w e f =
      (d.set_recv_timeout_held c.fd _ _ _ ∙ d.set_flags_held c.fd flags w ∙ e, f)

  wait_held : (fd : ℤ) (ms : ℕ) (w : World) → d.held (wait_for_connect os fd ms w).1 ≡ d.held w
  unfolding wait_for_connect
  wait_held fd ms w =
      ground (arith, d.poll_held fd ms w, d.socket_error_held fd (os.poll fd ms w).1)

  conclude-Balanced :
      (c : TcpClient) (flags : ℤ) (recv_ms connect_ms : ℕ) (e : Option Errno) (w : World)
      → d.held w ≡ with_all others (owned c)
      → is_negative c.fd ≡ false
      → Balanced (conclude os c flags recv_ms connect_ms e w)
  unfolding conclude
  conclude-Balanced c flags recv_ms connect_ms none w h f =
      established-Balanced c flags recv_ms w h f
  conclude-Balanced c flags recv_ms connect_ms (some in_progress) w h f =
      let h' = wait_held c.fd connect_ms w ∙ h in
      elim (Bool-cases (wait_for_connect os c.fd connect_ms w).0) [
        | inl connected ↦ rw (connected, conclude) (established-Balanced c flags recv_ms _ h' f)
        | inr refused ↦ rw (refused, conclude) (give_up-Balanced c _ h')
      ]
  conclude-Balanced c flags recv_ms connect_ms (some again) w h f = give_up-Balanced c w h
  conclude-Balanced c flags recv_ms connect_ms (some would_block) w h f = give_up-Balanced c w h
  conclude-Balanced c flags recv_ms connect_ms (some fault) w h f = give_up-Balanced c w h

  attempt-Balanced :
      (c : TcpClient) (ip : String) (port recv_ms connect_ms : ℕ) (w : World)
      → d.held w ≡ with_all others (owned c)
      → is_negative c.fd ≡ false
      → Balanced (attempt os c ip port recv_ms connect_ms w)
  unfolding attempt
  attempt-Balanced c ip port recv_ms connect_ms w h f =
      let w1 = (os.inet_pton ip w).1 in
      let (flags, w2) = os.get_flags c.fd w1 in
      let w3 = os.set_flags c.fd (os.with_non_block flags) w2 in
      let h1 = d.inet_pton_held ip w ∙ h in
      let h4 =
        d.connect_held c.fd ip port w3
        ∙ d.set_flags_held c.fd _ w2
        ∙ d.get_flags_held c.fd w1
        ∙ h1 in
      elim (Bool-cases (is_nonpos (os.inet_pton ip w).0)) [
        | inl malformed ↦ rw (malformed, attempt) (give_up-Balanced c w1 h1)
        | inr valid ↦ rw (valid, attempt) (conclude-Balanced c flags recv_ms connect_ms _ _ h4 f)
      ]

  if-Balanced :
      (b : Bool) (x y : (TcpClient × Bool) × World)
      → (b ≡ true → Balanced x)
      → (b ≡ false → Balanced y)
      → Balanced (if b then x else y)
  if-Balanced true x y f g = f refl
  if-Balanced false x y f g = g refl

  -- An attempt to connect leaks no descriptor, whatever fails in it: if the process holds the
  -- client's descriptor, when it has one, and `others` beside it, each so often, then afterwards it
  -- holds exactly the same others and the client's new descriptor, when it has one, and the client
  -- has one then just when connect returns true.
  pub connect-Balanced :
      (c : TcpClient) (ip : String) (port recv_ms connect_ms : ℕ) (w : World)
      → d.held w ≡ with_all others (owned c)
      → Balanced (connect os c ip port recv_ms connect_ms w)
  unfolding connect
  connect-Balanced c ip port recv_ms connect_ms w h =
      let w1 = (close os c w).1 in
      let (kept, _) = close-held c w h in
      let (fd, w2) = os.socket w1 in
      let c' : TcpClient = record { fd = fd } in
      let h2 : d.held w2 ≡ with_all others (owned c') =
        d.socket_held w1 ∙ ap (λ f. with_all f (only fd)) kept in
      if-Balanced (is_negative fd) ((c', false), w2) _ (λ failed. (h2, failed))
        (λ opened. attempt-Balanced c' ip port recv_ms connect_ms w2 h2 opened)
