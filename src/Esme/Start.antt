-- ===== src/Esme/Start.antt =====
-- Connecting and binding: net.c, smpp.c and esme.c together.
use as_smpp.Prelude.{ℕ, ◌+◌, ◌<◌, ◌≡◌, ◌⊎◌, inl, inr, Option, refl, sym, ap, ◌∙◌, arith}
use as_smpp.Prelude.{List, [], ◌∷◌, ◌++◌, append_assoc, ret, ◌>>=◌, none, some, true, false}
use as_smpp.Memory.{Memory, IsSupplied, size_mod}
use as_smpp.Buffer.Valid.{IsValid}
use as_smpp.Types
use as_smpp.Types.{CharPtr, ErrorCode}
use as_smpp.Session.{Session, SessionState, Event, World, locked, unlocked, signalled_all}
use as_smpp.Session.{state_mutex, send_mutex, spawned_worker, set_state}
use as_smpp.Net.{Platform, net_connect, invalid_socket}
use as_smpp.Smpp.{bind, bind_command}
use as_smpp.Smpp.Framing.{frame}
use as_smpp.Smpp.Sending.{SentOnce}
use as_smpp.Smpp.BindFrame.{Shows, Login, IsLogin, bind_bytes, bind-frame}
use as_smpp.Smpp.Worker.{connect, connected}
use as_smpp.Esme.{Options, configured, start, start_session, bind_session}

-- The world after a connection was made.
abbrev pub opened_world : World → ℕ → ℕ → World
opened_world w address fd =
    let s = w.session in
    record {
      session = record s { state = SessionState.opened; socket_handle = fd };
      trace =
          ((w.trace ++ (Event.freed_address address ∷ []))
            ++ (locked state_mutex ∷ unlocked state_mutex ∷ signalled_all ∷ []))
          ++ (spawned_worker ∷ []);
    }

-- The world after no connection was made: the handle and what was given back.
abbrev pub failed_world : World → ℕ → List Event → World
failed_world w handle released =
    let s = w.session in
    record { session = record s { socket_handle = handle }; trace = w.trace ++ released }

module _ (os : Platform) (handle : ℕ) (hostname : CharPtr) (port_no : ℕ) where
  net_connect_unresolved :
      os.getaddrinfo hostname port_no ≡ none
      → net_connect os handle hostname port_no ≡ (ErrorCode.getaddrinfo, handle, [])
  unfolding net_connect
  net_connect_unresolved unresolved = rw (unresolved, net_connect) refl

  net_connect_no_socket :
      (address : ℕ)
      → os.getaddrinfo hostname port_no ≡ some address
      → os.socket address ≡ none
      → net_connect os handle hostname port_no
        ≡ (ErrorCode.net, invalid_socket, Event.freed_address address ∷ [])
  unfolding net_connect
  net_connect_no_socket address resolved failed = rw (resolved, failed, net_connect) refl

  net_connect_refused :
      (address fd : ℕ)
      → os.getaddrinfo hostname port_no ≡ some address
      → os.socket address ≡ some fd
      → os.connect fd address ≡ false
      → net_connect os handle hostname port_no
        ≡ (ErrorCode.net, fd, Event.closed_socket fd ∷ Event.freed_address address ∷ [])
  unfolding net_connect
  net_connect_refused address fd resolved made refused =
      rw (resolved, made, refused, net_connect) refl

  net_connect_made :
      (address fd : ℕ)
      → os.getaddrinfo hostname port_no ≡ some address
      → os.socket address ≡ some fd
      → os.connect fd address ≡ true
      → net_connect os handle hostname port_no
        ≡ (ErrorCode.none, fd, Event.freed_address address ∷ [])
  unfolding net_connect
  net_connect_made address fd resolved made accepted =
      rw (resolved, made, accepted, net_connect) refl

module _ (os : Platform) (w : World) (hostname : CharPtr) (port_no : ℕ) where
  connect_made :
      (address fd : ℕ)
      → os.getaddrinfo hostname port_no ≡ some address
      → os.socket address ≡ some fd
      → os.connect fd address ≡ true
      → connect os w hostname port_no ≡ (ErrorCode.none, opened_world w address fd)
  unfolding connect connected set_state
  connect_made address fd resolved made accepted = ap (connected w) (
      net_connect_made os w.session.socket_handle hostname port_no address fd resolved made
        accepted)

  connect_failed_early :
      (handle : ℕ) (released : List Event)
      → net_connect os w.session.socket_handle hostname port_no
        ≡ (ErrorCode.getaddrinfo, handle, released)
      → connect os w hostname port_no ≡ (ErrorCode.net, failed_world w handle released)
  unfolding connect connected
  connect_failed_early handle released e = ap (connected w) e

  connect_failed :
      (handle : ℕ) (released : List Event)
      → net_connect os w.session.socket_handle hostname port_no ≡ (ErrorCode.net, handle, released)
      → connect os w hostname port_no ≡ (ErrorCode.net, failed_world w handle released)
  unfolding connect connected
  connect_failed handle released e = ap (connected w) e

-- An event for a value, if there is one.
abbrev pub each : (ℕ → Event) → Option ℕ → List Event
each event none = []
each event (some x) = event x ∷ []

-- The socket that is made for an address list.
abbrev pub socket_for : Platform → Option ℕ → Option ℕ
socket_for os none = none
socket_for os (some address) = os.socket address

answer_cases : (a : Option ℕ) → (a ≡ none) ⊎ ((x : ℕ) × (a ≡ some x))
answer_cases none = inl refl
answer_cases (some x) = inr (x, refl)

-- The lists of events that one call appends after another, as one list.
regroup :
    (vs ws xs ys zs : List Event)
    → (((vs ++ ws) ++ xs) ++ ys) ++ zs ≡ vs ++ (ws ++ (xs ++ (ys ++ zs)))
regroup vs ws xs ys zs =
    append_assoc ((vs ++ ws) ++ xs) ys zs
    ∙ append_assoc (vs ++ ws) xs (ys ++ zs)
    ∙ append_assoc vs ws (xs ++ (ys ++ zs))

module _ (mem : Memory) (os : Platform) where
  start_made :
      (w : World) (o : Options) (w₁ w₂ : World)
      → connect os (configured w o) o.hostname o.port_no ≡ (ErrorCode.none, w₁)
      → bind mem os w₁ o.system_id o.password o.system_type o.address_ton o.address_npi
          o.address_range
        ≡ ret (ErrorCode.none, w₂)
      → start mem os (some w) o ≡ ret (ErrorCode.none, some w₂)
  unfolding start start_session bind_session
  start_made w o w₁ w₂ up r =
      ap (λ x. bind_session mem os o x >>= λ r. ret (r.0, some r.1)) up ∙ rw r refl

  start_failed :
      (w : World) (o : Options) (w' : World)
      → connect os (configured w o) o.hostname o.port_no ≡ (ErrorCode.net, w')
      → start mem os (some w) o ≡ ret (ErrorCode.net, some w')
  unfolding start start_session bind_session
  start_failed w o w' e = ap (λ x. bind_session mem os o x >>= λ r. ret (r.0, some r.1)) e

  -- Where the name does not resolve: the error code is the one for the network, the settings of the call
  -- are in the session, and nothing else happens.
  start_unresolved :
      (w : World) (o : Options)
      → os.getaddrinfo o.hostname o.port_no ≡ none
      → start mem os (some w) o
        ≡ ret (ErrorCode.net, some (failed_world (configured w o) w.session.socket_handle []))
  unfolding configured
  start_unresolved w o unresolved = start_failed w o _ (
      connect_failed_early os (configured w o) o.hostname o.port_no _ _
        (net_connect_unresolved os _ o.hostname o.port_no unresolved))

  -- Where the connection is refused: the error code is the one for the network, and the socket is closed
  -- and the address list freed, in this order; no thread is started and nothing is sent. The session has
  -- the settings of the call and keeps the handle of the closed socket.
  pub start_refused :
      (w : World) (o : Options) (address fd : ℕ)
      → os.getaddrinfo o.hostname o.port_no ≡ some address
      → os.socket address ≡ some fd
      → os.connect fd address ≡ false
      → start mem os (some w) o
        ≡ ret (
          ErrorCode.net,
          some (
              failed_world
                (configured w o)
                fd
                (Event.closed_socket fd ∷ Event.freed_address address ∷ [])),
        )
  start_refused w o address fd resolved made refused = start_failed w o _ (
      connect_failed os (configured w o) o.hostname o.port_no _ _
        (net_connect_refused os _ o.hostname o.port_no address fd resolved made refused))

  -- Where the name does not resolve, no socket is to be had, or the connection is refused: start returns the
  -- error code for the network. All that has happened is that the socket, where one was made, was closed,
  -- and the address list, where the name resolved to one, freed behind it: no thread is started, nothing is
  -- sent, and no mutex is locked. The session has the mode, version and options of the call and 1 as its next
  -- number, keeps the handle of the socket that was closed, and is otherwise as it was but for the handle.
  pub start_fails :
      (w : World) (o : Options)
      → ((address fd : ℕ)
          → os.getaddrinfo o.hostname o.port_no ≡ some address
          → os.socket address ≡ some fd
          → os.connect fd address ≡ false)
      → let addresses = os.getaddrinfo o.hostname o.port_no in
        let socket = socket_for os addresses in
        let s = w.session in
        (w' : World) × (start mem os (some w) o ≡ ret (ErrorCode.net, some w'))
        × (w'.trace
            ≡ w.trace
              ++ (each (λ fd. Event.closed_socket fd) socket
                  ++ each (λ address. Event.freed_address address) addresses))
        × (w'.session ≡ record s {
          socket_handle = w'.session.socket_handle;
          sequence_no = 1;
          mode = o.session_mode;
          smpp_version = o.version;
          use_udh = o.use_udh;
          use_message_payload_tlv = o.use_message_payload_tlv;
          max_sm_length = o.max_sm_length;
        })
        × ((fd : ℕ) → socket ≡ some fd → w'.session.socket_handle ≡ fd)
  unfolding configured
  start_fails w o refuses = elim (answer_cases (os.getaddrinfo o.hostname o.port_no)) [
    | inl unresolved ↦ (
      failed_world (configured w o) w.session.socket_handle [],
      start_unresolved w o unresolved,
      rw unresolved refl,
      refl,
      λ fd e. absurd (ground (arith, ap (socket_for os) (sym unresolved) ∙ e)),
    )
    | inr (address, resolved) ↦ elim (answer_cases (os.socket address)) [
      | inl failed ↦ (
        failed_world (configured w o) invalid_socket (Event.freed_address address ∷ []),
        start_failed w o _ (
            connect_failed os (configured w o) o.hostname o.port_no _ _
              (net_connect_no_socket os _ o.hostname o.port_no address resolved failed)),
        rw (resolved, failed) refl,
        refl,
        λ fd e. absurd (ground (arith, sym failed ∙ ap (socket_for os) (sym resolved) ∙ e)),
      )
      | inr (made, opened) ↦ (
        failed_world (configured w o) made
            (Event.closed_socket made ∷ Event.freed_address address ∷ []),
        start_refused w o address made resolved opened (refuses address made resolved opened),
        rw (resolved, opened) refl,
        refl,
        λ fd e. ground (arith, sym opened ∙ ap (socket_for os) (sym resolved) ∙ e),
      )
    ]
  ]

  -- What start_binds comes to as a call that sends.
  pub start_sends :
      (w : World) (o : Options) (l : Login) (address fd : ℕ)
      → IsSupplied mem
      → IsLogin l
      → Shows o.system_id l.system_id
      → Shows o.password l.password
      → Shows o.system_type l.system_type
      → Shows o.address_range l.address_range
      → o.address_ton ≡ l.ton
      → o.address_npi ≡ l.npi
      → os.getaddrinfo o.hostname o.port_no ≡ some address
      → os.socket address ≡ some fd
      → os.connect fd address ≡ true
      → IsValid w.session.send_buffer
      → w.session.send_buffer.capacity + 274 < size_mod
      → let w₁ = opened_world (configured w o) address fd in
        let s = w₁.session in
        (w' : World) × (start mem os (some w) o ≡ ret (ErrorCode.none, some w'))
        × SentOnce 274
            (frame (bind_command o.session_mode) Types.status_rok 1 (bind_bytes l o.version))
            w₁
            (record s { sequence_no = 2 })
            w'
  unfolding configured
  start_sends w o l address fd supply ok p₁ p₂ p₃ p₄ ton npi resolved made accepted v room =
      let w₁ = opened_world (configured w o) address fd in
      let up =
        connect_made os (configured w o) o.hostname o.port_no address fd resolved made accepted in
      let (w₂, r, once) =
        bind-frame mem supply os w₁ l o.system_id o.password o.system_type o.address_range ok p₁ p₂
          p₃ p₄ v room in
      (w₂, start_made w o w₁ w₂ up (rw (ton, npi) r), once)

  -- For a login whose parts fit their fields, where the name resolves to an address list, a socket is to
  -- be had and the connection is accepted, with a well-formed send buffer that size_t leaves 274 bytes to
  -- grow and allocations that succeed: start returns no error. The address list was freed, the session
  -- opened, the receiving thread started, and then the bind request sent over that socket with the
  -- number 1; all in this order and nothing else. The state is opened and the next number is 2.
  pub start_binds :
      (w : World) (o : Options) (l : Login) (address fd : ℕ)
      → IsSupplied mem
      → IsLogin l
      → Shows o.system_id l.system_id
      → Shows o.password l.password
      → Shows o.system_type l.system_type
      → Shows o.address_range l.address_range
      → o.address_ton ≡ l.ton
      → o.address_npi ≡ l.npi
      → os.getaddrinfo o.hostname o.port_no ≡ some address
      → os.socket address ≡ some fd
      → os.connect fd address ≡ true
      → IsValid w.session.send_buffer
      → w.session.send_buffer.capacity + 274 < size_mod
      → (w' : World) × (start mem os (some w) o ≡ ret (ErrorCode.none, some w'))
        × (w'.trace
            ≡ w.trace
              ++ (Event.freed_address address
                  ∷ locked state_mutex
                  ∷ unlocked state_mutex
                  ∷ signalled_all
                  ∷ spawned_worker
                  ∷ locked send_mutex
                  ∷ Event.sent fd (
                      frame
                        (bind_command o.session_mode)
                        Types.status_rok
                        1
                        (bind_bytes l o.version))
                  ∷ unlocked send_mutex
                  ∷ []))
        × (w'.session.state ≡ SessionState.opened)
        × (w'.session.sequence_no ≡ 2)
  unfolding configured
  start_binds w o l address fd supply ok p₁ p₂ p₃ p₄ ton npi resolved made accepted v room =
      let (w₂, r, once) =
        start_sends w o l address fd supply ok p₁ p₂ p₃ p₄ ton npi resolved made accepted v room in
      (
        w₂,
        r,
        once.events
            ∙ regroup w.trace (Event.freed_address address ∷ [])
                (locked state_mutex ∷ unlocked state_mutex ∷ signalled_all ∷ [])
                (spawned_worker ∷ []) _,
        ap (λ (s : Session). s.state) once.session,
        ap (λ (s : Session). s.sequence_no) once.session,
      )
