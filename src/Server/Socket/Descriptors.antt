-- ===== src/Server/Socket/Descriptors.antt =====
-- The descriptors of the server: the listening socket and the connection to the client.
use embedded_client_server_v.Prelude.{
  ℕ, ◌≡◌, refl, sym, ap, ◌∙◌, Bool, true, false, negsuc, is_negative, if◌then◌else◌,
}
use embedded_client_server_v.Posix.{
  Posix, Descriptors, Held, only, with_all, without, without-with_all, with_all_none,
}
use embedded_client_server_v.Server.Socket.{
  TcpServer, new, abandon, start_listening, bind_port, wait_for_client, close_client, shut_down,
  apply_recv_timeout,
}

either_way :
    {A : Type 0} (P : A → Type 0) (b : Bool) (x y : A)
    → (b ≡ true → P x)
    → (b ≡ false → P y)
    → P (if b then x else y)
either_way P true x y f g = f refl
either_way P false x y f g = g refl

module _ (os : Posix) (d : Descriptors os) (others : Held) where
  open os use {World}

  -- What a server goes through between its constructor and its destructor, in the order in which
  -- ServerApp::run calls it: it waits for a client when it has none. In between the process may do
  -- anything that leaves its descriptors alone.
  pub data Lives : TcpServer → World → Type 0 where
    started :
        (port recv_timeout_ms : ℕ) {w : World}
        → d.held w ≡ others
        → Lives (new os port recv_timeout_ms w).0 (new os port recv_timeout_ms w).1
    waited :
        {s : TcpServer} {w : World}
        → Lives s w
        → is_negative s.client_fd ≡ true
        → Lives (wait_for_client os s w).0.0 (wait_for_client os s w).1
    hung_up :
        {s : TcpServer} {w : World}
        → Lives s w
        → Lives (close_client os s w).0 (close_client os s w).1
    worked : {s : TcpServer} {w w' : World} → Lives s w → d.held w' ≡ d.held w → Lives s w'

  abbrev Balanced : TcpServer → World → Type 0
  Balanced s w = d.held w ≡ with_all (with_all others (only s.listen_fd)) (only s.client_fd)

  close_client-held :
      (s : TcpServer) (w : World)
      → Balanced s w
      → Balanced (close_client os s w).0 (close_client os s w).1
        × (is_negative (close_client os s w).0.client_fd ≡ true)
        × ((close_client os s w).0.listen_fd ≡ s.listen_fd)
  unfolding close_client
  close_client-held s w e =
      either_way
        (λ (r : TcpServer × World).
          Balanced r.0 r.1 × (is_negative r.0.client_fd ≡ true) × (r.0.listen_fd ≡ s.listen_fd))
        (is_negative s.client_fd) _ _ (λ closed. (e, closed, refl))
        (λ open'. (
          d.close_held s.client_fd w
              ∙ ap (λ f. without f (only s.client_fd)) e
              ∙ without-with_all _ (only s.client_fd)
              ∙ sym (with_all_none _ (negsuc 0) refl),
          refl,
          refl,
        ))

  abandon-held :
      (s : TcpServer) (w : World)
      → d.held w ≡ with_all others (only s.listen_fd)
      → is_negative s.client_fd ≡ true
      → Balanced (abandon os s w).0 (abandon os s w).1
  unfolding abandon
  abandon-held s w e f =
      d.close_held s.listen_fd w
      ∙ ap (λ x. without x (only s.listen_fd)) e
      ∙ without-with_all others (only s.listen_fd)
      ∙ sym (with_all_none others (negsuc 0) refl)
      ∙ sym (with_all_none _ s.client_fd f)

  wait_for_client-held :
      (s : TcpServer) (w : World)
      → is_negative s.client_fd ≡ true
      → Balanced s w
      → Balanced (wait_for_client os s w).0.0 (wait_for_client os s w).1
  unfolding wait_for_client apply_recv_timeout
  wait_for_client-held s w f e =
      let (fd, w') = os.accept s.listen_fd w in
      let before = e ∙ with_all_none _ s.client_fd f in
      let after = d.accept_held s.listen_fd w ∙ ap (λ x. with_all x (only fd)) before in
      either_way (λ (r : (TcpServer × Bool) × World). Balanced r.0.0 r.1) (is_negative fd) _ _
        (λ refused. after) (λ accepted. d.set_recv_timeout_held fd _ _ w' ∙ after)

  start_listening-held :
      (s : TcpServer) (w : World)
      → d.held w ≡ with_all others (only s.listen_fd)
      → is_negative s.listen_fd ≡ false
      → is_negative s.client_fd ≡ true
      → Balanced (start_listening os s w).0 (start_listening os s w).1
  unfolding start_listening
  start_listening-held s w e open' f =
      let kept = d.listen_held s.listen_fd 1 w ∙ e in
      either_way (λ (r : TcpServer × World). Balanced r.0 r.1)
        (is_negative (os.listen s.listen_fd 1 w).0) _ _ (λ refused. abandon-held s _ kept f)
        (λ listens. kept ∙ sym (with_all_none _ s.client_fd f))

  bind_port-held :
      (s : TcpServer) (port : ℕ) (w : World)
      → d.held w ≡ with_all others (only s.listen_fd)
      → is_negative s.listen_fd ≡ false
      → is_negative s.client_fd ≡ true
      → Balanced (bind_port os s port w).0 (bind_port os s port w).1
  unfolding bind_port
  bind_port-held s port w e open' f =
      let kept = d.bind_held s.listen_fd port w ∙ e in
      either_way (λ (r : TcpServer × World). Balanced r.0 r.1)
        (is_negative (os.bind s.listen_fd port w).0) _ _ (λ refused. abandon-held s _ kept f)
        (λ bound. start_listening-held s _ kept open' f)

  new-held :
      (port recv_timeout_ms : ℕ) (w : World)
      → d.held w ≡ others
      → Balanced (new os port recv_timeout_ms w).0 (new os port recv_timeout_ms w).1
  unfolding new
  new-held port recv_timeout_ms w e =
      let (fd, w') = os.socket w in
      let s : TcpServer = record {
        listen_fd = fd;
        client_fd = negsuc 0;
        recv_timeout_ms = recv_timeout_ms;
      } in
      let opens : d.held w' ≡ with_all others (only fd) =
        d.socket_held w ∙ ap (λ x. with_all x (only fd)) e in
      either_way (λ (r : TcpServer × World). Balanced r.0 r.1) (is_negative fd) _ _
        (λ failed. opens ∙ sym (with_all_none _ (negsuc 0) refl))
        (λ opened.
          let kept : d.held (os.set_reuse_addr fd w').1 ≡ with_all others (only fd) =
            d.set_reuse_addr_held fd w' ∙ opens in
          either_way (λ (r : TcpServer × World). Balanced r.0 r.1)
            (is_negative (os.set_reuse_addr fd w').0) _ _ (λ refused. abandon-held s _ kept refl)
            (λ reusable. bind_port-held s port _ kept opened refl))

  -- Through its whole life the server holds the listening socket and the connection that its record
  -- names, when it has them, and nothing else.
  Lives-Balanced : (s : TcpServer) (w : World) → Lives s w → Balanced s w
  Lives-Balanced s w (started port ms e) = new-held port ms _ e
  Lives-Balanced s w (waited {s = before} {w = past} l f) =
      wait_for_client-held before past f (Lives-Balanced before past l)
  Lives-Balanced s w (hung_up {s = before} {w = past} l) =
      (close_client-held before past (Lives-Balanced before past l)).0
  Lives-Balanced s w (worked {w = past} l e) = e ∙ Lives-Balanced s past l

  -- A server leaks no descriptor: whatever its constructor met, however many clients it waited for
  -- in vain, served and hung up on, once its destructor has run the process holds exactly the
  -- descriptors that it held before the constructor.
  pub shut_down-Lives : (s : TcpServer) (w : World) → Lives s w → d.held (shut_down os s w) ≡ others
  unfolding shut_down
  shut_down-Lives s w l =
      let (kept, none', same) = close_client-held s w (Lives-Balanced s w l) in
      let (t, w') = close_client os s w in
      let listening = kept ∙ with_all_none _ t.client_fd none' in
      either_way (λ x. d.held x ≡ others) (is_negative t.listen_fd) _ _
        (λ closed. listening ∙ with_all_none others t.listen_fd closed)
        (λ open'.
          d.close_held t.listen_fd w'
          ∙ ap (λ f. without f (only t.listen_fd)) listening
          ∙ without-with_all others (only t.listen_fd))
