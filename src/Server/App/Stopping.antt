-- ===== src/Server/App/Stopping.antt =====
-- A session of the server up to its STOP.
use embedded_client_server_v.Prelude.{
  ℕ, zero, suc, ◌≤◌, ◌<◌, ◌≡◌, ◌⊎◌, Bool, true, false, List, [], ◌∷◌, ◌++◌, is_negative, ℤ, length,
  take,
}
use embedded_client_server_v.Protocol.Message.{Message, encode}
use embedded_client_server_v.Protocol.Stream.{encode_all}
use embedded_client_server_v.Posix.{Posix, Laws}
use embedded_client_server_v.Server.Hardware.{Hardware, IsLocal}
use embedded_client_server_v.Server.App.{ServerApp, SessionOutcome, stop_requested, gone}
use embedded_client_server_v.Server.App.Answers.{Answers}
use embedded_client_server_v.Server.App.Serving.{Served}
use embedded_client_server_v.Server.App.Untouched.{Holds}

-- So many requests, then STOP, and what is behind it.
abbrev pub requests_then_stop : ℕ → List ℕ → List ℕ
requests_then_stop zero rest = 2 ∷ rest
requests_then_stop (suc n) rest = 1 ∷ requests_then_stop n rest

module _ (os : Posix) (hw : Hardware os) (laws : Laws os) where
  -- The acknowledgement has been sent; or the send of it was the last call of the session and has
  -- failed, and nothing of it has been sent.
  abbrev pub Acknowledged : ℤ → List ℕ → os.World → Type 0
  Acknowledged fd ack v =
      (ack ≡ 102 ∷ [])
      ⊎ ((ack ≡ [])
          × ((w : os.World) × (is_negative (os.send fd (102 ∷ []) w).0 ≡ true)
              × (v ≡ (os.send fd (102 ∷ []) w).1)))

  -- No more answers than requests have been sent in full, and then the acknowledgement, if the send
  -- of it has not failed; the STOP is the last byte read.
  pub record Stopped (a : ServerApp os hw) (n : ℕ) (rest : List ℕ) (b : ServerApp os hw)
      : Type 0 where
    pub answers : List Message
    pub ack : List ℕ
    pub acknowledged : Acknowledged a.server.client_fd ack b.world
    pub few : length answers ≤ n
    pub sent :
        laws.sent a.server.client_fd b.world
        ≡ laws.sent a.server.client_fd a.world ++ (encode_all answers ++ ack)
    pub read : laws.pending a.server.client_fd b.world ≡ rest

  -- After fewer answers than requests, one more has not been sent in full.
  pub record CutOff (a : ServerApp os hw) (n : ℕ) (b : ServerApp os hw) : Type 0 where
    pub answers : List Message
    pub last : Message
    pub part : ℕ
    pub few : length answers < n
    pub short : part < length (encode last)
    pub sent :
        laws.sent a.server.client_fd b.world
        ≡ laws.sent a.server.client_fd a.world ++ (encode_all answers ++ take part (encode last))

  abbrev pub Stops : ServerApp os hw → ℕ → List ℕ → SessionOutcome → ServerApp os hw → Type 0
  Stops a n rest o b = ((o ≡ stop_requested) × Stopped a n rest b) ⊎ ((o ≡ gone) × CutOff a n b)

module _ (os : Posix) (hw : Hardware os) (laws : Laws os) (local : IsLocal os laws hw) where
  open os use {World}

  -- A command that is next has been read.
  abbrev reading : ServerApp os hw → ServerApp os hw
  reading a =
      let w = (os.recv a.server.client_fd 1 a.world).1 in
      record a { last_command = (os.now w).0; world = (os.now w).1 }

  -- An answer of which only a beginning has been sent.
  record PartSent (a c : ServerApp os hw) : Type 0 where
    last : Message
    part : ℕ
    short : part < length (encode last)
    sent :
        laws.sent a.server.client_fd c.world
        ≡ laws.sent a.server.client_fd a.world ++ take part (encode last)

  abbrev Answering : ServerApp os hw → Bool × SessionOutcome → ServerApp os hw → Type 0
  Answering a x c = (x.1 ≡ gone) × (x.0 ≡ false → PartSent a c)

  -- A request that is next is answered in full, or only in part.
  abbrev Requested : ServerApp os hw → List ℕ → Bool × SessionOutcome → ServerApp os hw → Type 0
  Requested a y x c =
      Answering a x c
      × (x.0 ≡ true → Served os hw laws 1 a c)
      × Holds os hw (laws.pending a.server.client_fd) a.server y c
