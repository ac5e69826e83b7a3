-- ===== src/Demo/Running.antt =====
-- main of src/_as-smpp-demo/_as-smpp-demo.c.
use as_smpp.Prelude.{ℕ, Bool, true, ◌+◌, ◌<◌, ◌≡◌, refl, ap, ◌∙◌, arith, some, false}
use as_smpp.Prelude.{List, [], ◌∷◌, ◌++◌, append_assoc, ret, length, replicate, All}
use mathlib.Core.Path.{ap₂}
use as_smpp.Memory.{Memory, IsSupplied, size_mod}
use as_smpp.Buffer
use as_smpp.Buffer.{Buffer}
use as_smpp.Buffer.Valid.{IsValid}
use as_smpp.Types
use as_smpp.Types.{ErrorCode}
use as_smpp.Session
use as_smpp.Session.{Session, SessionMode, SessionState, Event, World, Mutex, locked, unlocked}
use as_smpp.Session.{signalled_all, spawned_worker, waited, state_mutex, send_mutex, destroy}
use as_smpp.Session.{
  made_mutex, made_condition, destroyed_mutex, destroyed_condition, freed_session,
}
use as_smpp.Session.Waiting.{Differs, wait_for_state_lem}
use as_smpp.Net.{Platform}
use as_smpp.Serializer.Submit.{Message, IsMessage, submit_bytes}
use as_smpp.Serializer.Address.{Party, IsParty, address_of}
use as_smpp.Smpp.{submit_sm, get_sequence_no, bind_command}
use as_smpp.Smpp.Framing.{frame}
use as_smpp.Smpp.Sending.{submit_sm-frame}
use as_smpp.Smpp.BindFrame.{Login, IsLogin, bind_bytes, text, null}
use as_smpp.Converter.Transcoding.{wire, transcode_unicode_to_ucs2_be_lem, IsUnit}
use as_smpp.Esme.{configured}
use as_smpp.Esme.Start.{start_sends, start_refused, failed_world}
use as_smpp.Core
use as_smpp.Demo.{
  Line, options, text_units, service, subscriber, prepared, send_text, started, main,
}
use as_smpp.Demo.Printing.{init-IsValid}

-- "foo" with the password "bar" and the type "as-smpp".
abbrev pub login : Login
login = record {
  system_id = 102 ∷ 111 ∷ 111 ∷ [];
  password = 98 ∷ 97 ∷ 114 ∷ [];
  system_type = 97 ∷ 115 ∷ 45 ∷ 115 ∷ 109 ∷ 112 ∷ 112 ∷ [];
  ton = 0;
  npi = 0;
  address_range = [];
}

abbrev party : Party
party = record {
  ton = 1;
  npi = 0;
  digits = 55 ∷ 57 ∷ 49 ∷ 54 ∷ 51 ∷ 50 ∷ 54 ∷ 51 ∷ 50 ∷ 53 ∷ 51 ∷ [];
}

-- The message on the wire.
abbrev pub greeting : Message
greeting = record {
  service_type = 83 ∷ 77 ∷ 80 ∷ 80 ∷ [];
  source = party;
  destination = party;
  data_coding = 8;
  text = wire text_units;
}

login-IsLogin : IsLogin login
login-IsLogin = record {
  system_id = record { chars = ground arith; short = omega arith };
  password = record { chars = ground arith; short = omega arith };
  system_type = record { chars = ground arith; short = omega arith };
  address_range = record { chars = tt; short = omega arith };
}

party-IsParty : IsParty party
party-IsParty = record {
  ton = omega arith;
  npi = omega arith;
  chars = ground arith;
  short = omega arith;
}

greeting-IsMessage : IsMessage greeting
greeting-IsMessage = record {
  service_chars = ground arith;
  service_short = omega arith;
  source = party-IsParty;
  destination = party-IsParty;
  coding = omega arith;
  short = omega arith;
}

text_units-IsUnit : All IsUnit text_units
text_units-IsUnit = ground arith

-- What is seen of the program, step by step: it makes a session, connects and asks to be bound as a transceiver, waits,
-- sends the message, and gives the session back.
abbrev pub create_events : List Event
create_events = made_mutex send_mutex ∷ made_condition ∷ made_mutex state_mutex ∷ []

abbrev pub connect_events : ℕ → ℕ → List Event
connect_events address fd =
    Event.freed_address address
    ∷ locked state_mutex
    ∷ unlocked state_mutex
    ∷ signalled_all
    ∷ spawned_worker
    ∷ locked send_mutex
    ∷ Event.sent fd (
        frame (bind_command SessionMode.transceiver) Types.status_rok 1
          (bind_bytes login Types.version_3_4))
    ∷ unlocked send_mutex
    ∷ []

abbrev pub wait_events : ℕ → List Event
wait_events n =
    locked state_mutex ∷ replicate n waited ++ (unlocked state_mutex ∷ signalled_all ∷ [])

abbrev pub submit_events : ℕ → List Event
submit_events fd =
    locked send_mutex
    ∷ Event.sent fd (frame Types.submit_sm_id Types.status_rok 2 (submit_bytes greeting))
    ∷ unlocked send_mutex
    ∷ []

abbrev pub destroy_events : List Event
destroy_events =
    destroyed_mutex state_mutex
    ∷ destroyed_condition
    ∷ destroyed_mutex send_mutex
    ∷ destroyed_mutex send_mutex
    ∷ freed_session
    ∷ []

regroup : (xs ys zs rest : List Event) → ((xs ++ ys) ++ zs) ++ rest ≡ xs ++ (ys ++ (zs ++ rest))
regroup xs ys zs rest = append_assoc (xs ++ ys) zs rest ∙ append_assoc xs ys (zs ++ rest)

module _ (mem : Memory) (os : Platform) (big : Bool) (supply : IsSupplied mem) where
  send_text_lem :
      (w : World) (before after : List SessionState)
      → w.session.state ≡ SessionState.opened
      → w.session.sequence_no ≡ 2
      → All (Differs SessionState.bound_trx) before
      → IsValid w.session.send_buffer
      → w.session.send_buffer.capacity + 685 < size_mod
      → (w' : World) × (send_text mem os big (before ++ (SessionState.bound_trx ∷ after)) w
          ≡ ret (Line.binding ∷ Line.bound ∷ [], w'))
        × (w'.trace
            ≡ ((w.trace ++ wait_events (length before + 1))
                ++ submit_events w.session.socket_handle)
              ++ destroy_events)
  unfolding send_text destroy get_sequence_no Session.state_code address_of
  send_text_lem w before after opened second others v room =
      let apart : Differs SessionState.bound_trx w.session.state =
        let goal : Differs SessionState.bound_trx SessionState.opened = omega arith in
        rw opened goal in
      let waits = wait_for_state_lem w SessionState.bound_trx before after apart others in
      let w₃ : World =
        let s = w.session in
        record {
          session = record s { state = SessionState.bound_trx };
          trace = w.trace ++ wait_events (length before + 1);
        } in
      let swaps = transcode_unicode_to_ucs2_be_lem big text_units [] text_units-IsUnit in
      let text : Buffer = record {
        ptr = wire text_units ++ (0 ∷ 0 ∷ []);
        data_len = 48;
        capacity = 0;
      } in
      let (w₄, sends, once) =
        submit_sm-frame mem os supply w₃ greeting [] [] [] text greeting-IsMessage (omega arith)
          refl v room in
      let sent : submit_sm mem os w₃ service subscriber subscriber Types.data_coding_ucs2 text
          ≡ ret (ErrorCode.none, w₃.session.sequence_no, w₄) =
        sends in
      (
        destroy w₄,
        rw (waits, swaps) (rw sent refl),
        ap (λ t. t ++ destroy_events)
            (once.events
              ∙ ap
                  (λ n.
                    w₃.trace
                    ++ (locked send_mutex
                        ∷ Event.sent w.session.socket_handle
                            (frame Types.submit_sm_id Types.status_rok n (submit_bytes greeting))
                        ∷ unlocked send_mutex
                        ∷ []))
                  second),
      )

  -- Where the name resolves to an address list, a socket is to be had, the connection is accepted,
  -- allocations succeed, and the session is left in other states than bound as a transceiver at a number
  -- of wake-ups and then in this one, whatever a fresh session holds and on a machine of either byte
  -- order: main returns, having printed that it binds and that it is bound. It has made the two mutexes and
  -- the condition of a session, connected, asked with the number 1 to be bound, waited once for each of
  -- these wake-ups, sent its text with the number 2 in UCS-2 with the high byte of each character first, and
  -- given the session back, all in this order and nothing else; the send mutex was destroyed twice.
  pub main_submits :
      (block : Session) (before after : List SessionState) (address fd : ℕ)
      → os.getaddrinfo options.hostname options.port_no ≡ some address
      → os.socket address ≡ some fd
      → os.connect fd address ≡ true
      → All (Differs SessionState.bound_trx) before
      → (w' : World) × (main mem os big (before ++ (SessionState.bound_trx ∷ after)) block
          ≡ ret (Line.binding ∷ Line.bound ∷ [], w'))
        × (w'.trace
            ≡ create_events
              ++ (connect_events address fd
                  ++ (wait_events (length before + 1) ++ (submit_events fd ++ destroy_events))))
  unfolding main started prepared configured Session.create Core.init Core.fini Buffer.init
      Session.set_handler_bind_response Session.set_handler_submit_sm_response
      Session.set_handler_deliver_sm
  main_submits block before after address fd resolved made accepted others =
      let w = prepared mem block in
      let v = init-IsValid mem supply 8192 (omega arith) in
      let (w₂, starts, once) =
        start_sends mem os w options login address fd supply login-IsLogin
          (text (102 ∷ 111 ∷ 111 ∷ []) []) (text (98 ∷ 97 ∷ 114 ∷ []) [])
          (text (97 ∷ 115 ∷ 45 ∷ 115 ∷ 109 ∷ 112 ∷ 112 ∷ []) []) null refl refl resolved made
          accepted v (omega arith) in
      let (w', runs, events) =
        send_text_lem w₂ before after (ap (λ (s : Session). s.state) once.session)
          (ap (λ (s : Session). s.sequence_no) once.session) others once.valid
          (omega (arith, once.growth)) in
      let waits = wait_events (length before + 1) in
      let first : w₂.trace ≡ create_events ++ connect_events address fd = once.events in
      let socket : w₂.session.socket_handle ≡ fd =
        ap (λ (s : Session). s.socket_handle) once.session in
      (
        w',
        rw (starts, runs) refl,
        events
            ∙ ap₂ (λ t k. ((t ++ waits) ++ submit_events k) ++ destroy_events) first socket
            ∙ regroup (create_events ++ connect_events address fd) waits (submit_events fd)
                destroy_events,
      )

  -- Where the connection is refused, the program says so, and gives the session back.
  main_refused :
      (block : Session) (wakeups : List SessionState) (address fd : ℕ)
      → os.getaddrinfo options.hostname options.port_no ≡ some address
      → os.socket address ≡ some fd
      → os.connect fd address ≡ false
      → (w' : World) × (main mem os big wakeups block ≡ ret (Line.error ∷ [], w'))
        × (w'.trace
            ≡ create_events
              ++ (Event.closed_socket fd ∷ Event.freed_address address ∷ destroy_events))
  unfolding main started prepared configured Session.create Core.init Core.fini Session.destroy
      Session.set_handler_bind_response Session.set_handler_submit_sm_response
      Session.set_handler_deliver_sm
  main_refused block wakeups address fd resolved made refused =
      let w = prepared mem block in
      (
        destroy (
            failed_world (configured w options) fd
              (Event.closed_socket fd ∷ Event.freed_address address ∷ [])),
        rw (start_refused mem os w options address fd resolved made refused) refl,
        refl,
      )
