-- ===== src/Server/Socket/Sending.antt =====
-- What sendAll puts on the wire.
use embedded_client_server_v.Prelude.{
  ℕ, zero, suc, ◌+◌, ◌-◌, ◌≤◌, ◌<◌, ◌≡◌, sym, ap, ◌∙◌, inl, inr, Bool, true, false, List, [], ◌∷◌,
  ◌++◌, ℤ, pos, ℤ-cases, arith, append_assoc, append-nil, ltb, Bool-cases, ltb→lt, length,
  length-drop, length-append, take-append_left, take-append_right, take, drop, take-add, take-all,
  Returns, Returns-pure,
}
use embedded_client_server_v.Posix.{Posix, Laws}
use embedded_client_server_v.Server.Socket.{TcpServer, send_rest, send_all, send_response}

-- What has left after a transmission: everything, or a beginning that is not everything.
abbrev pub Transmits : List ℕ → List ℕ → Bool → List ℕ → Type 0
Transmits before data' true after = after ≡ before ++ data'
Transmits before data' false after = (k : ℕ) × (k < length data') × (after ≡ before ++ take k data')

pub Transmits-append :
    (before x y middle after : List ℕ) (done : Bool)
    → Transmits before x true middle
    → Transmits middle y done after
    → Transmits before (x ++ y) done after
Transmits-append before x y middle after true e f = f ∙ ap (λ m. m ++ y) e ∙ append_assoc before x y
Transmits-append before x y middle after false e (k, h, f) = (
  length x + k,
  omega (arith, length-append x y),
  f
      ∙ ap (λ m. m ++ take k y) e
      ∙ append_assoc before x (take k y)
      ∙ ap (◌++◌ before) (sym (take-append_right k x y)),
)

pub Transmits-cut :
    (before x y after : List ℕ)
    → Transmits before x false after
    → Transmits before (x ++ y) false after
Transmits-cut before x y after (k, h, f) = (
  k,
  omega (arith, length-append x y),
  f ∙ ap (◌++◌ before) (sym (take-append_left k x y (omega arith))),
)

module _ (os : Posix) (laws : Laws os) (fd : ℤ) (data' before : List ℕ) where
  open os use {World}

  -- After a send that accepts `n` more bytes.
  advanced :
      (sent n : ℕ) (w : World)
      → laws.sent fd w ≡ before ++ take sent data'
      → (os.send fd (drop sent data') w).0 ≡ pos n
      → (n ≤ length data' - sent)
        × (laws.sent fd (os.send fd (drop sent data') w).1 ≡ before ++ take (sent + n) data')
  advanced sent n w e r =
      let accepts = laws.send_accepts fd (drop sent data') w r in
      (
        omega (arith, accepts.0, length-drop sent data'),
        accepts.1
            ∙ ap (λ xs. xs ++ take n (drop sent data')) e
            ∙ append_assoc before (take sent data') (take n (drop sent data'))
            ∙ ap (◌++◌ before) (sym (take-add sent n data')),
      )

  send_rest_lem :
      (fuel sent : ℕ) (w : World)
      → length data' < sent + fuel
      → sent ≤ length data'
      → laws.sent fd w ≡ before ++ take sent data'
      → Returns
          (send_rest os fuel fd data' sent w)
          (λ done w'. Transmits before data' done (laws.sent fd w'))
  unfolding send_rest
  send_rest_lem zero sent w enough h e = absurd (omega arith)
  send_rest_lem (suc fuel) sent w enough h e = elim (Bool-cases (ltb sent (length data'))) [
    | inl more ↦
        rw (more, send_rest)
          (elim (ℤ-cases (os.send fd (drop sent data') w).0) [
            | inl (n, r) ↦
                let after = advanced sent (suc n) w e r in
                rw (r, r)
                  (send_rest_lem fuel (sent + suc n) (os.send fd (drop sent data') w).1
                    (omega arith) (omega (arith, after.0, ltb→lt _ _ more)) after.1)
            | inr (inl r) ↦
                let after = advanced sent 0 w e r in
                rw r (Returns-pure _ false _ (sent + 0, omega (arith, ltb→lt _ _ more), after.1))
            | inr (inr (n, r)) ↦ rw r (
                Returns-pure _ false _
                  (sent, ltb→lt _ _ more, laws.send_refuses fd (drop sent data') w r ∙ e))
          ])
    | inr full ↦
        let whole : sent ≡ length data' = ground arith in
        rw (full, send_rest)
          (Returns-pure _ true w
            (e ∙ ap (λ k. before ++ take k data') whole ∙ ap (◌++◌ before) (take-all data')))
  ]

module _ (os : Posix) (laws : Laws os) where
  open os use {World}

  -- sendAll always returns. When it returns true the connection has accepted exactly the bytes
  -- that it was given, behind those sent before; when it returns false, only the first k of them,
  -- for some k less than their number.
  pub send_all-Transmits :
      (s : TcpServer) (data' : List ℕ) (w : World)
      → Returns
          (send_all os s data' w)
          (λ done w'. Transmits (laws.sent s.client_fd w) data' done (laws.sent s.client_fd w'))
  unfolding send_all
  send_all-Transmits s data' w =
      send_rest_lem os laws s.client_fd data' (laws.sent s.client_fd w) (suc (length data')) 0 w
        (omega arith) (omega arith) (sym (append-nil (laws.sent s.client_fd w)))

  -- sendResponse, which sends one byte.
  pub send_response-Transmits :
      (s : TcpServer) (response : ℕ) (w : World)
      → let (done, w') = send_response os s response w in
        Transmits (laws.sent s.client_fd w) (response ∷ []) done (laws.sent s.client_fd w')
  unfolding send_response
  send_response-Transmits s response w = elim (ℤ-cases (os.send s.client_fd (response ∷ []) w).0) [
    | inl (n, r) ↦
        let (small, e) = laws.send_accepts s.client_fd (response ∷ []) w r in
        let one : n ≡ 0 = omega arith in
        rw r (e ∙ ap (λ k. laws.sent s.client_fd w ++ take (suc k) (response ∷ [])) one)
    | inr (inl r) ↦
        absurd (omega (arith, laws.send_some s.client_fd (response ∷ []) w (omega arith) r))
    | inr (inr (n, r)) ↦ rw r (
      0,
      omega arith,
      laws.send_refuses s.client_fd (response ∷ []) w r
          ∙ sym (append-nil (laws.sent s.client_fd w)),
    )
  ]
