-- ===== src/Server/App/Sending.antt =====
-- What sendHeader and sendFrame put on the wire: the messages of the protocol.
use embedded_client_server_v.Prelude.{
  ℕ, ◌%◌, ◌≡◌, refl, ap, ◌∙◌, Bool, true, false, List, [], ◌∷◌, ◌++◌, length, arith, M, pure, ◌>>=◌,
  ℤ, subst, if◌then◌else◌, Returns, Returns-bind, Returns-pure, Returns-mono, call,
}
use embedded_client_server_v.Protocol.Bytes.{net_bytes, u32_mod}
use embedded_client_server_v.Protocol.Message.{with_image}
use embedded_client_server_v.Posix.{Posix, Laws}
use embedded_client_server_v.Server.Hardware.{Hardware}
use embedded_client_server_v.Server.Socket
use embedded_client_server_v.Server.Socket.Sending.{
  Transmits, Transmits-append, Transmits-cut, send_all-Transmits, send_response-Transmits,
}
use embedded_client_server_v.Server.App.{ServerApp, on_world, send_header, send_jpeg, send_frame}

module _ (os : Posix) (hw : Hardware os) (laws : Laws os) where
  open os use {World}

  -- A transmission on a connection that changes nothing of the app but its world.
  pub record Sends (fd : ℤ) (a : ServerApp os hw) (data' : List ℕ) (done : Bool)
      (b : ServerApp os hw) : Type 0 where
    pub transmits : Transmits (laws.sent fd a.world) data' done (laws.sent fd b.world)
    pub keeps : b ≡ record a { world = b.world }

  on_world-Sends :
      (fd : ℤ) (m : M World Bool) (a : ServerApp os hw) (data' : List ℕ)
      → Returns (m a.world) (λ done w. Transmits (laws.sent fd a.world) data' done (laws.sent fd w))
      → Returns (on_world os hw m a) (Sends fd a data')
  on_world-Sends fd m a data' r = record {
    value = r.value;
    state = record a { world = r.state };
    runs = rw (r.runs, on_world);
    holds = record { transmits = r.holds; keeps = refl };
  }

  Sends-append :
      (fd : ℤ) (a b c : ServerApp os hw) (x y : List ℕ) (done : Bool)
      → Sends fd a x true b
      → Sends fd b y done c
      → Sends fd a (x ++ y) done c
  Sends-append fd a b c x y done p q = record {
    transmits = Transmits-append _ x y _ _ done p.transmits q.transmits;
    keeps = q.keeps ∙ ap {B = ServerApp os hw} (λ t. record t { world = c.world }) p.keeps;
  }

  Sends-cut :
      (fd : ℤ) (a b : ServerApp os hw) (x y : List ℕ)
      → Sends fd a x false b
      → Sends fd a (x ++ y) false b
  Sends-cut fd a b x y p = record { transmits = Transmits-cut _ x y _ p.transmits; keeps = p.keeps }

  -- Two transmissions, the second only if the first is complete.
  Sends-then :
      (fd : ℤ) (a : ServerApp os hw) (x y : List ℕ) (first : M (ServerApp os hw) Bool)
      (second : M (ServerApp os hw) Bool)
      → Returns (first a) (Sends fd a x)
      → ((b : ServerApp os hw) → Sends fd a x true b → Returns (second b) (Sends fd b y))
      → Returns ((first >>= λ done. if done then second else pure false) a) (Sends fd a (x ++ y))
  Sends-then fd a x y first second r k =
      Returns-bind first (λ done. if done then second else pure false) a (Sends fd a x)
        (Sends fd a (x ++ y)) r next
    where
      next :
          (done : Bool) (b : ServerApp os hw)
          → Sends fd a x done b
          → Returns ((if done then second else pure false) b) (Sends fd a (x ++ y))
      next true b p =
          Returns-mono (Sends fd b y) (Sends fd a (x ++ y))
            (λ done c q. Sends-append fd a b c x y done p q) (k b p)
      next false b p = Returns-pure _ false b (Sends-cut fd a b x y p)

  pub send_header-Sends :
      (header : ℕ) (a : ServerApp os hw)
      → Returns
          (send_header os hw header a)
          (Sends a.server.client_fd a (header ∷ net_bytes a.frame_id))
  unfolding send_header
  send_header-Sends header a =
      Sends-then a.server.client_fd a (header ∷ []) (net_bytes a.frame_id)
        (on_world os hw (call (Socket.send_response os a.server header)))
        (on_world os hw (Socket.send_all os a.server (net_bytes a.frame_id)))
        (on_world-Sends a.server.client_fd (call (Socket.send_response os a.server header)) a
          (header ∷ [])
          (Returns-pure _ _ _ (send_response-Transmits os laws a.server header a.world)))
        (λ b _.
          on_world-Sends a.server.client_fd (Socket.send_all os a.server (net_bytes a.frame_id)) b
            (net_bytes a.frame_id)
            (send_all-Transmits os laws a.server (net_bytes a.frame_id) b.world))

  -- htonl keeps the low 32 bits, which is all that the cast leaves.
  net_bytes_cast : (n : ℕ) → net_bytes (n % u32_mod) ≡ net_bytes n
  unfolding net_bytes
  net_bytes_cast n = ground arith

  send_jpeg-Sends :
      (jpeg : List ℕ) (a : ServerApp os hw)
      → Returns
          (send_jpeg os hw jpeg a)
          (Sends a.server.client_fd a (net_bytes (length jpeg) ++ jpeg))
  unfolding send_jpeg
  send_jpeg-Sends jpeg a = rw (← net_bytes_cast (length jpeg)) (
      Sends-then a.server.client_fd a (net_bytes (length jpeg % u32_mod)) jpeg
        (on_world os hw (Socket.send_all os a.server (net_bytes (length jpeg % u32_mod))))
        (on_world os hw (Socket.send_all os a.server jpeg))
        (on_world-Sends a.server.client_fd
          (Socket.send_all os a.server (net_bytes (length jpeg % u32_mod))) a
          (net_bytes (length jpeg % u32_mod))
          (send_all-Transmits os laws a.server (net_bytes (length jpeg % u32_mod)) a.world))
        (λ b _.
          on_world-Sends a.server.client_fd (Socket.send_all os a.server jpeg) b jpeg
            (send_all-Transmits os laws a.server jpeg b.world)))

  pub send_frame-Sends :
      (header : ℕ) (jpeg : List ℕ) (a : ServerApp os hw)
      → Returns
          (send_frame os hw header jpeg a)
          (Sends a.server.client_fd a (with_image header a.frame_id jpeg))
  unfolding send_frame with_image
  send_frame-Sends header jpeg a =
      Sends-then a.server.client_fd a (header ∷ net_bytes a.frame_id)
        (net_bytes (length jpeg) ++ jpeg) (send_header os hw header) (send_jpeg os hw jpeg)
        (send_header-Sends header a)
        (λ b p.
          subst
            (λ fd. Returns (send_jpeg os hw jpeg b) (Sends fd b (net_bytes (length jpeg) ++ jpeg)))
            (ap (λ t. t.server.client_fd) p.keeps) (send_jpeg-Sends jpeg b))
