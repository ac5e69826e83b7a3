-- ===== src/Smpp/Interleaving/Calls.antt =====
-- The actions of a call, one after the other, are the call.
use as_smpp.Prelude.{
  ℕ, ◌+◌, ◌%◌, ◌^◌, ◌≡◌, refl, sym, ap, ◌∙◌, List, [], ◌∷◌, none, bit_or, Run, ret, fault, starved,
  ◌>>=◌, >>=-assoc, bind_cong,
}
use as_smpp.Memory.{Memory}
use as_smpp.Buffer.{Buffer}
use as_smpp.Session.{Session, World, with_session}
use as_smpp.Types
use as_smpp.Types.{CharPtr, ErrorCode, PduHeader}
use as_smpp.Serializer.Pdu.{serialize_pdu_header, serialize_pdu_submit_sm}
use as_smpp.Net.{Platform, net_send}
use as_smpp.Serializer.{serialize_integer, serialize_string}
use as_smpp.Smpp.{
  lock_send, unlock_send, send, send_filled, cleared, bind_command, get_sequence_no, submit_sm,
  enquire_link_response, deliver_sm_response, bind,
}
use as_smpp.Smpp.Interleaving.{
  Locals, Action, SendCall, submit, answer_enquiry, answer_delivery, request_bind, actions, restore,
  hand_over, version, sending, run_actions, perform, on_buffer,
}

abbrev keep : Locals → ErrorCode × World → Run (Locals × World)
keep locals sent = ret (locals, sent.1)

abbrev unlock : Locals × World → Run World
unlock r = ret (unlock_send r.1)

abbrev unlock_sent : ErrorCode × World → Run World
unlock_sent r = ret (unlock_send r.1)

handed_over :
    (locals : Locals) (m : Run (ErrorCode × World))
    → (((m >>= keep locals) >>= λ done. ret (done.0, done.1)) >>= unlock) ≡ (m >>= unlock_sent)
handed_over locals (ret sent) = refl
handed_over locals fault = refl
handed_over locals starved = refl

module _ (mem : Memory) (os : Platform) where
  -- The world after actions, once the mutex is unlocked.
  abbrev pub finish : List Action → Locals → World → Run World
  finish rest locals w = run_actions mem os rest locals w >>= λ r. ret (unlock_send r.1)

  finish-buffer :
      (f : Buffer → Run Buffer) (rest : List Action) (locals : Locals) (w : World)
      → finish (on_buffer f ∷ rest) locals w ≡ (
          f w.session.send_buffer >>= λ b.
          finish rest locals (with_session (record w.session { send_buffer = b }) w))
  unfolding run_actions
  finish-buffer f rest locals w =
      let m = f w.session.send_buffer in
      let g = λ (b : Buffer).
        run_actions mem os rest locals (with_session (record w.session { send_buffer = b }) w) in
      let k = λ (r : Locals × World). ret (unlock_send r.1) in
      ap (λ x. x >>= k)
        (>>=-assoc m (λ b. ret (locals, with_session (record w.session { send_buffer = b }) w))
          (λ done. run_actions mem os rest done.0 done.1))
      ∙ >>=-assoc m g k

  finish-sending :
      (locals : Locals) (w : World)
      → finish (sending mem os) locals w ≡ (send mem os w >>= λ r. ret (unlock_send r.1))
  unfolding run_actions send
  finish-sending locals w =
      let b = w.session.send_buffer in
      let n = b.data_len % 2 ^ 32 in
      let w₁ = with_session (record w.session { send_buffer = cleared b }) w in
      let aside = record locals { data_len = b.data_len } in
      let m = serialize_integer mem (cleared b) n 4 in
      finish-buffer (λ b. serialize_integer mem b n 4) (restore ∷ hand_over mem os ∷ []) aside w₁
      ∙ bind_cong m (λ c. handed_over aside (
          net_send os
            (with_session (record w.session { send_buffer = record c { data_len = b.data_len } }) w)
            w.session.socket_handle (record c { data_len = b.data_len })))
      ∙ sym (
          >>=-assoc m
            (λ c.
              net_send os
                (with_session
                  (record w.session { send_buffer = record c { data_len = b.data_len } }) w)
                w.session.socket_handle (record c { data_len = b.data_len }))
            unlock_sent)

  -- The actions fill the buffer as `g` does and send it.
  abbrev Fills : List Action → Locals → World → Session → (Buffer → Run Buffer) → Type 0
  Fills rest locals w s g =
      (b : Buffer)
      → finish rest locals (with_session (record s { send_buffer = b }) w)
        ≡ (g b >>= λ c. send mem os (with_session (record s { send_buffer = c }) w) >>= unlock_sent)

  Fills-last :
      (f : Buffer → Run Buffer) (locals : Locals) (w : World) (s : Session)
      → Fills (on_buffer f ∷ sending mem os) locals w s f
  Fills-last f locals w s b =
      let at = λ (c : Buffer). with_session (record s { send_buffer = c }) w in
      finish-buffer f (sending mem os) locals (at b)
      ∙ bind_cong (f b) (λ c. finish-sending locals (at c))

  Fills-cons :
      (f g : Buffer → Run Buffer) (rest : List Action) (locals : Locals) (w : World) (s : Session)
      → Fills rest locals w s g
      → Fills (on_buffer f ∷ rest) locals w s (λ b. f b >>= g)
  Fills-cons f g rest locals w s h b =
      finish-buffer f rest locals (with_session (record s { send_buffer = b }) w)
      ∙ bind_cong (f b) h
      ∙ sym (
          >>=-assoc (f b) g
            (λ c. send mem os (with_session (record s { send_buffer = c }) w) >>= unlock_sent))

  abbrev writing : (Buffer → Run Buffer) → List (Buffer → Run Buffer) → List Action
  writing f [] = on_buffer f ∷ sending mem os
  writing f (g ∷ gs) = on_buffer f ∷ writing g gs

  abbrev written : (Buffer → Run Buffer) → List (Buffer → Run Buffer) → Buffer → Run Buffer
  written f [] b = f b
  written f (g ∷ gs) b = f b >>= written g gs

  Fills-all :
      (f : Buffer → Run Buffer) (gs : List (Buffer → Run Buffer)) (locals : Locals) (w : World)
      (s : Session)
      → Fills (writing f gs) locals w s (written f gs)
  Fills-all f [] locals w s = Fills-last f locals w s
  Fills-all f (g ∷ gs) locals w s =
      Fills-cons f (written g gs) (writing g gs) locals w s (Fills-all g gs locals w s)

  -- The same in front of other actions.
  abbrev writing_first :
      (Buffer → Run Buffer) → List (Buffer → Run Buffer) → List Action → List Action
  writing_first f [] rest = on_buffer f ∷ rest
  writing_first f (g ∷ gs) rest = on_buffer f ∷ writing_first g gs rest

  abbrev written_first :
      (Buffer → Run Buffer)
      → List (Buffer → Run Buffer)
      → (Buffer → Run Buffer)
      → Buffer
      → Run Buffer
  written_first f [] k b = f b >>= k
  written_first f (g ∷ gs) k b = f b >>= written_first g gs k

  Fills-after :
      (f : Buffer → Run Buffer) (gs : List (Buffer → Run Buffer)) (rest : List Action)
      (k : Buffer → Run Buffer) (locals : Locals) (w : World) (s : Session)
      → Fills rest locals w s k
      → Fills (writing_first f gs rest) locals w s (written_first f gs k)
  Fills-after f [] rest k locals w s h = Fills-cons f k rest locals w s h
  Fills-after f (g ∷ gs) rest k locals w s h =
      Fills-cons f (written_first g gs k) (writing_first g gs rest) locals w s
        (Fills-after g gs rest k locals w s h)

  abbrev succeed : World → Run (ErrorCode × World)
  succeed w = ret (ErrorCode.none, w)

  dropped_code : (m : Run World) → ((m >>= succeed) >>= λ r. ret r.1) ≡ m
  dropped_code (ret w) = refl
  dropped_code fault = refl
  dropped_code starved = refl

  abbrev succeed_with : ℕ → World → Run (ErrorCode × ℕ × World)
  succeed_with n w = ret (ErrorCode.none, n, w)

  dropped_number : (n : ℕ) (m : Run World) → ((m >>= succeed_with n) >>= λ r. ret r.2) ≡ m
  dropped_number n (ret w) = refl
  dropped_number n fault = refl
  dropped_number n starved = refl

  abbrev answer : PduHeader → Buffer → Run Buffer
  answer h b =
      serialize_pdu_header mem b 0 (bit_or Types.enquire_link_id Types.response_flag)
        Types.status_rok h.sequence_no

  pub finish-actions :
      (call : SendCall) (locals : Locals) (w : World)
      → finish (actions mem os call) locals (lock_send w) ≡ perform mem os w call
  unfolding run_actions actions perform send_filled submit_sm enquire_link_response
      deliver_sm_response bind get_sequence_no
  finish-actions (answer_enquiry h) locals w =
      Fills-all (answer h) [] locals (lock_send w) w.session (cleared w.session.send_buffer)
      ∙ sym (dropped_code _)
  finish-actions (answer_delivery h) locals w =
      Fills-all (answer h) ((λ b. serialize_string mem b none Types.length_message_id) ∷ []) locals
        (lock_send w) w.session (cleared w.session.send_buffer)
      ∙ sym (dropped_code _)
  finish-actions (submit service_type source destination data_coding message) locals w =
      let (n, s) = get_sequence_no w.session in
      Fills-all (λ b. serialize_pdu_header mem b 0 Types.submit_sm_id Types.status_rok n)
        ((λ b. serialize_pdu_submit_sm mem b service_type source destination data_coding message)
          ∷ [])
        (record locals { sequence_no = n }) (lock_send w) s (cleared w.session.send_buffer)
      ∙ sym (dropped_number n _)
  finish-actions (request_bind system_id password system_type ton npi range) locals w =
      let n = w.session.sequence_no in
      let s = record w.session { sequence_no = (n + 1) % 2 ^ 32 } in
      let l = record locals { sequence_no = n } in
      let put = λ (v : ℕ) (b : Buffer). serialize_integer mem b v 1 in
      let text = λ (v : CharPtr) (len : ℕ) (b : Buffer). serialize_string mem b v len in
      let fields = text password 9 ∷ text system_type 13 ∷ [] in
      let numbers = put npi ∷ text range 41 ∷ [] in
      let rest = version mem os ∷ writing (put ton) numbers in
      let k = written (put s.smpp_version) (put ton ∷ numbers) in
      let last : Fills rest l (lock_send w) s k =
        Fills-all (put s.smpp_version) (put ton ∷ numbers) l (lock_send w) s in
      Fills-after (λ b. serialize_pdu_header mem b 0 (bind_command s.mode) Types.status_rok n)
        (text system_id Types.length_system_id ∷ fields) rest k l (lock_send w) s last
        (cleared s.send_buffer)
      ∙ sym (dropped_code _)
