-- ===== src/Session.antt =====
-- The session and its state: include/as-smpp-core/session.h,
-- src/as-smpp-core/include/private-session.h and src/as-smpp-core/src/session.c.
pub mod Waiting
use as_smpp.Prelude.{ℕ, Bool, List, [], ◌∷◌, ◌++◌, Option, none}
use as_smpp.Prelude.{true, false, ◌==◌, if◌then◌else◌, Run, ret, starved, ◌>>=◌}
use as_smpp.Memory.{Memory}
use as_smpp.Buffer
use as_smpp.Buffer.{Buffer}
use as_smpp.Types.{CharPtr, PduSubmitSm}

pub data SessionState : Type 0 where
  undefined opened bound_tx bound_rx bound_trx closed : SessionState

-- The values of the states.
unfoldable pub state_code : SessionState → ℕ
state_code undefined = 0
state_code opened = 1
state_code bound_tx = 3
state_code bound_rx = 5
state_code bound_trx = 7
state_code closed = 8

pub data SessionMode : Type 0 where
  transmitter receiver transceiver : SessionMode

-- The mutexes of a session.
pub data Mutex : Type 0 where
  state_mutex send_mutex : Mutex

-- What the code does that is seen outside of the session: calls of the thread and socket functions,
-- calls of the application's handlers, and blocks given back to the allocator.
pub data Event : Type 0 where
  locked : Mutex → Event
  unlocked : Mutex → Event
  signalled_all : Event
  -- as_smpp_condition_wait, which gives the state mutex back while it waits
  waited : Event
  made_mutex : Mutex → Event
  made_condition : Event
  destroyed_mutex : Mutex → Event
  destroyed_condition : Event
  freed_session : Event
  spawned_worker : Event
  -- the socket and the bytes that were handed to `send`
  sent : ℕ → List ℕ → Event
  closed_socket : ℕ → Event
  freed_address : ℕ → Event
  freed_tlvs : ℕ → Event
  -- a handler, with its arguments
  bind_response : ℕ → ℕ → ℕ → Event
  submit_response : ℕ → ℕ → ℕ → CharPtr → Event
  deliver : ℕ → ℕ → ℕ → PduSubmitSm → Event

-- struct as_smpp_session_t. The mutexes and the condition have no contents here: their calls are
-- events. A handler is a number that stands for the function, or nothing for NULL.
pub record Session : Type 0 where
  pub state : SessionState
  pub socket_handle : ℕ
  pub sequence_no : ℕ
  pub smpp_version : ℕ
  pub mode : SessionMode
  pub receive_buffer : Buffer
  pub send_buffer : Buffer
  pub use_udh : Bool
  pub use_message_payload_tlv : Bool
  pub max_sm_length : ℕ
  pub handler_bind_response : Option ℕ
  pub handler_submit_response : Option ℕ
  pub handler_deliver : Option ℕ

-- A session together with what has happened so far, the latest last.
pub record World : Type 0 where
  pub session : Session
  pub trace : List Event

abbrev pub emit : List Event → World → World
emit events w = record w { trace = w.trace ++ events }

abbrev pub with_session : Session → World → World
with_session s w = record w { session = s }

-- as_smpp_session_set_state
unfoldable pub set_state : World → SessionState → World
set_state w state =
    let s = w.session in
    emit (locked state_mutex ∷ unlocked state_mutex ∷ signalled_all ∷ [])
      (with_session (record s { state = state }) w)

-- AS_SMPP_BUFFER_INIT_CAPACITY
abbrev pub buffer_init_capacity : ℕ
buffer_init_capacity = 8192

-- as_smpp_session_create, where the struct's allocation succeeds; `block` is its indeterminate
-- contents. What is seen begins with this call.
unfoldable pub create : Memory → Session → World
create mem block = record {
  session = record block {
    state = undefined;
    handler_submit_response = none;
    handler_deliver = none;
    handler_bind_response = none;
    receive_buffer = Buffer.init mem buffer_init_capacity;
    send_buffer = Buffer.init mem buffer_init_capacity;
  };
  trace = made_mutex send_mutex ∷ made_condition ∷ made_mutex state_mutex ∷ [];
}

-- as_smpp_session_get_state
unfoldable pub get_state : Session → SessionState
get_state s = s.state

-- as_smpp_set_handler_bind_response, ..._submit_sm_response and ..._deliver_sm
unfoldable pub set_handler_bind_response : Session → Option ℕ → Session
set_handler_bind_response s handler = record s { handler_bind_response = handler }

unfoldable pub set_handler_submit_sm_response : Session → Option ℕ → Session
set_handler_submit_sm_response s handler = record s { handler_submit_response = handler }

unfoldable pub set_handler_deliver_sm : Session → Option ℕ → Session
set_handler_deliver_sm s handler = record s { handler_deliver = handler }

-- The loop of as_smpp_session_wait_for_state. The list has the states that the other threads have left
-- at each time the wait comes back; when there are no more, the call still waits.
unfoldable pub wait_loop : World → SessionState → List SessionState → Run World
wait_loop w state [] = if state_code w.session.state == state_code state then ret w else starved
wait_loop w state (next ∷ later) = elim (state_code w.session.state == state_code state) [
  | true ↦ ret w
  | false ↦
      let s = w.session in
      wait_loop (emit (waited ∷ []) (with_session (record s { state = next }) w)) state later
]

-- as_smpp_session_wait_for_state
unfoldable pub wait_for_state : World → SessionState → List SessionState → Run World
wait_for_state w state wakeups = do
  w ← wait_loop (emit (locked state_mutex ∷ []) w) state wakeups
  ret (emit (unlocked state_mutex ∷ signalled_all ∷ []) w)

-- as_smpp_session_destroy; the session's block is given back at the end.
unfoldable pub destroy : World → World
destroy w =
    let s = w.session in
    emit
      (destroyed_mutex state_mutex
        ∷ destroyed_condition
        ∷ destroyed_mutex send_mutex
        ∷ destroyed_mutex send_mutex
        ∷ freed_session
        ∷ [])
      (with_session
        (record s {
          send_buffer = Buffer.destroy s.send_buffer;
          receive_buffer = Buffer.destroy s.receive_buffer;
        })
        w)
