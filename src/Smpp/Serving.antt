-- ===== src/Smpp/Serving.antt =====
-- What as_smpp_receive_worker of src/as-smpp-core/src/smpp.c does for one PDU, of whatever kind.
use as_smpp.Prelude.{ℕ, ◌+◌, ◌≤◌, ◌≡◌}
use as_smpp.Prelude.{List, [], ◌∷◌, ◌++◌, length}
use as_smpp.Prelude.{Option, none, some, drop}
use as_smpp.Buffer.Valid.{IsValid}
use as_smpp.Types
use as_smpp.Types.{CharPtr, PduHeader, Tlv}
use as_smpp.Session.{Session, SessionState, Event, World, locked, unlocked}
use as_smpp.Session.{signalled_all, send_mutex, state_mutex}
use as_smpp.Serializer.Delivery.{delivered}
use as_smpp.Smpp.Framing.{frame}
use as_smpp.Smpp.Binding.{state_for}
use as_smpp.Smpp.Worker.{Locals}
use as_smpp.Smpp.Packets.{Body, Packet}

-- The parts of a session that decide what is done for a PDU, and that no PDU changes.
pub record Links : Type 0 where
  pub socket : ℕ
  pub bind_response : Option ℕ
  pub submit_response : Option ℕ
  pub deliver : Option ℕ

abbrev pub links_of : Session → Links
links_of s = record {
  socket = s.socket_handle;
  bind_response = s.handler_bind_response;
  submit_response = s.handler_submit_response;
  deliver = s.handler_deliver;
}

-- The call of a handler that may not be set.
abbrev pub handled : Option ℕ → (ℕ → Event) → List Event
handled none event = []
handled (some handler) event = event handler ∷ []

-- An answer with the command 0x80000015.
abbrev pub answered : ℕ → ℕ → List ℕ → List Event
answered socket sequence_no body =
    locked send_mutex
    ∷ Event.sent socket (frame 0x8000_0015 Types.status_rok sequence_no body)
    ∷ unlocked send_mutex
    ∷ []

abbrev pub state_changed : List Event
state_changed = locked state_mutex ∷ unlocked state_mutex ∷ signalled_all ∷ []

-- The array with a terminated text at its front.
abbrev pub with_text : List ℕ → List ℕ → CharPtr
with_text t array = some (t ++ (0 ∷ drop (length t + 1) array))

-- What is done for a PDU with this status and number.
unfoldable pub served_body : Locals → Links → ℕ → ℕ → Body → List Event
served_body locals k status sequence_no (Body.enquiry rest) = answered k.socket sequence_no []
served_body locals k status sequence_no (Body.bind_answer mode system_id rest) =
    handled k.bind_response (λ f. Event.bind_response f sequence_no status) ++ state_changed
served_body locals k status sequence_no (Body.submit_answer message_id rest) =
    handled k.submit_response
      (λ f. Event.submit_response f sequence_no status (with_text message_id locals.message_id))
served_body locals k status sequence_no (Body.delivery d tlvs) =
    handled k.deliver
      (λ f. Event.deliver f sequence_no status (delivered d locals.request locals.request_buffers))
    ++ (Event.freed_tlvs 0 ∷ answered k.socket sequence_no (0 ∷ []))
served_body locals k status sequence_no (Body.other command_id rest) = []

abbrev pub served : Locals → Links → Packet → List Event
served locals k p = served_body locals k p.status p.sequence_no p.body

-- The state of the session after a PDU.
unfoldable pub state_after : SessionState → Body → SessionState
state_after s (Body.bind_answer mode system_id rest) = state_for mode
state_after s _ = s

-- How far the send buffer may grow for a PDU.
unfoldable pub cost : Body → ℕ
cost (Body.enquiry rest) = 80
cost (Body.delivery d tlvs) = 161
cost _ = 0

-- `w'` is `w` after the thread has dealt with `p`.
pub record Serves (locals : Locals) (p : Packet) (w w' : World) : Type 0 where
  pub events : w'.trace ≡ w.trace ++ served locals (links_of w.session) p
  pub state : w'.session.state ≡ state_after w.session.state p.body
  pub links : links_of w'.session ≡ links_of w.session
  pub receiving : w'.session.receive_buffer ≡ w.session.receive_buffer
  pub sending : IsValid w'.session.send_buffer
  pub growth : w'.session.send_buffer.capacity ≤ w.session.send_buffer.capacity + cost p.body
