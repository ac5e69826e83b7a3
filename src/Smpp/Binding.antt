-- ===== src/Smpp/Binding.antt =====
-- The receiving thread of src/as-smpp-core/src/smpp.c on the answer to a bind request.
use as_smpp.Prelude.{ℕ, ◌+◌, ◌<◌, ◌≡◌, refl, sym, ◌∙◌}
use as_smpp.Prelude.{List, [], ◌∷◌, ◌++◌, append-nil, ret, length, All}
use as_smpp.Memory.{Memory}
use as_smpp.Buffer.Valid.{IsValid, contents}
use as_smpp.Types
use as_smpp.Types.{PduHeader}
use as_smpp.Session.{SessionMode, SessionState, Event, World, set_state}
use as_smpp.Net.{Platform}
use as_smpp.Serializer.Spec.{Holds-contents, Holds-next}
use as_smpp.Serializer.Header.{header_bytes, length-header_bytes}
use as_smpp.Serializer.Text.{IsChar, read_text}
use as_smpp.Smpp.{bind_command}
use as_smpp.Smpp.Worker.{
  Locals, dispatch, dispatch_response, on_bind_response, bound_state, call_handler,
}

-- The state that a mode asks for.
abbrev pub state_for : SessionMode → SessionState
state_for SessionMode.transmitter = SessionState.bound_tx
state_for SessionMode.receiver = SessionState.bound_rx
state_for SessionMode.transceiver = SessionState.bound_trx

bound_state_for : (mode : SessionMode) → bound_state (bind_command mode) ≡ state_for mode
unfolding bound_state bind_command
bound_state_for SessionMode.transmitter = refl
bound_state_for SessionMode.receiver = refl
bound_state_for SessionMode.transceiver = refl

module _ (mem : Memory) (os : Platform) (locals : Locals) where
  dispatch-bind :
      (mode : SessionMode) (h : PduHeader) (w : World) (index : ℕ)
      → h.command_id ≡ 0x8000_0000 + bind_command mode
      → dispatch mem os locals w h index
        ≡ on_bind_response mem os locals w h (bind_command mode) index
  unfolding dispatch dispatch_response bind_command
  dispatch-bind SessionMode.transmitter h w index e = rw e refl
  dispatch-bind SessionMode.receiver h w index e = rw e refl
  dispatch-bind SessionMode.transceiver h w index e = rw e refl

  -- Where a well-formed receive buffer holds the answer to a bind request in some mode, with a system id
  -- that fits the thread's array: the handler, if there is one, is called with its number and status, and
  -- then the session is in the bound state of the mode, whatever the status says.
  pub dispatch-bind_response :
      (mode : SessionMode) (h : PduHeader) (w : World) (system_id rest : List ℕ)
      → h.command_id ≡ 0x8000_0000 + bind_command mode
      → IsValid w.session.receive_buffer
      → contents w.session.receive_buffer ≡ header_bytes h ++ ((system_id ++ (0 ∷ [])) ++ rest)
      → All IsChar system_id
      → length system_id < length locals.system_id
      → dispatch mem os locals w h 16
        ≡ ret (
            set_state
              (call_handler w.session.handler_bind_response
                (λ f. Event.bind_response f h.sequence_no h.status)
                w)
              (state_for mode))
  unfolding on_bind_response
  dispatch-bind_response mode h w system_id rest e v held ok room =
      let text = (system_id ++ (0 ∷ [])) ++ rest in
      let whole : contents w.session.receive_buffer ≡ (header_bytes h ++ text) ++ [] =
        held ∙ sym (append-nil (header_bytes h ++ text)) in
      let behind =
        Holds-next (header_bytes h) text _ (Holds-contents (header_bytes h ++ text) [] v whole) in
      let here = rw (length-header_bytes h) at behind in
      let (r, _) =
        read_text system_id locals.system_id Types.length_system_id rest _ ok room here in
      rw (dispatch-bind mode h w 16 e, on_bind_response) (rw (r, bound_state_for mode) refl)
