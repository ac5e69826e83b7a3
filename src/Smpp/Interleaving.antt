-- ===== src/Smpp/Interleaving.antt =====
-- The calls of src/as-smpp-core/src/smpp.c that send, made by several threads at once: each call is
-- cut into the actions on the session that its statements are, and a step of the whole is one action
-- of some thread, or one call of as_smpp_mutex_lock or as_smpp_mutex_unlock.
pub mod Calls
pub mod Order
pub mod Serial
pub mod Progress
pub mod Wire
use as_smpp.Prelude.{
  ℕ, ◌+◌, ◌%◌, ◌^◌, ◌≡◌, List, [], ◌∷◌, ◌++◌, Option, none, some, ◌==◌, if◌then◌else◌,
}
use as_smpp.Prelude.{Run, ret, ◌>>=◌, bit_or}
use as_smpp.Memory.{Memory}
use as_smpp.Buffer.{Buffer}
use as_smpp.Types
use as_smpp.Types.{CharPtr, Address, PduHeader}
use as_smpp.Session.{World, with_session}
use as_smpp.Net.{Platform, net_send}
use as_smpp.Serializer.{serialize_integer, serialize_string}
use as_smpp.Serializer.Pdu.{serialize_pdu_header, serialize_pdu_submit_sm}
use as_smpp.Smpp.{
  get_sequence_no, lock_send, unlock_send, cleared, bind_command, submit_sm, enquire_link_response,
  deliver_sm_response, bind,
}

-- What a call keeps for itself: the sequence number, and the length that as_smpp_send puts aside.
pub record Locals : Type 0 where
  pub sequence_no : ℕ
  pub data_len : ℕ

abbrev pub Action : Type 0
Action = Locals → World → Run (Locals × World)

-- A call with its arguments.
pub data SendCall : Type 0 where
  submit : CharPtr → Address → Address → ℕ → Buffer → SendCall
  answer_enquiry : PduHeader → SendCall
  answer_delivery : PduHeader → SendCall
  request_bind : CharPtr → CharPtr → CharPtr → ℕ → ℕ → CharPtr → SendCall

-- An action on the send buffer.
abbrev pub on_buffer : (Buffer → Run Buffer) → Action
on_buffer f locals w = f w.session.send_buffer >>= λ b.
    ret (locals, with_session (record w.session { send_buffer = b }) w)

-- `buffer->dataLen = 0`
abbrev pub clear : Action
clear = on_buffer (λ b. ret (cleared b))

abbrev pub number : Action
number locals w =
    let (n, s) = get_sequence_no w.session in
    ret (record locals { sequence_no = n }, with_session s w)

-- `a_session->sequenceNo++`
abbrev pub count : Action
count locals w =
    let s = w.session in
    ret (
      record locals { sequence_no = s.sequence_no },
      with_session (record s { sequence_no = (s.sequence_no + 1) % 2 ^ 32 }) w,
    )

abbrev pub put_aside : Action
put_aside locals w = ret (record locals { data_len = w.session.send_buffer.data_len }, w)

abbrev pub restore : Action
restore locals = on_buffer (λ b. ret (record b { data_len = locals.data_len })) locals

module _ (mem : Memory) (os : Platform) where
  abbrev pub header : ℕ → ℕ → Action
  header id status locals =
      on_buffer (λ b. serialize_pdu_header mem b 0 id status locals.sequence_no) locals

  abbrev pub bind_header : Action
  bind_header locals w = header (bind_command w.session.mode) Types.status_rok locals w

  abbrev pub answer_header : PduHeader → Action
  answer_header h = on_buffer (λ b.
      serialize_pdu_header mem b 0 (bit_or Types.enquire_link_id Types.response_flag)
        Types.status_rok h.sequence_no)

  abbrev pub text : CharPtr → ℕ → Action
  text s len = on_buffer (λ b. serialize_string mem b s len)

  abbrev pub integer : ℕ → ℕ → Action
  integer value len = on_buffer (λ b. serialize_integer mem b value len)

  abbrev pub version : Action
  version locals w = integer w.session.smpp_version 1 locals w

  -- as_smpp_send
  abbrev pub put_length : Action
  put_length locals = integer (locals.data_len % 2 ^ 32) 4 locals

  abbrev pub hand_over : Action
  hand_over locals w =
      net_send os w w.session.socket_handle w.session.send_buffer >>= λ sent. ret (locals, sent.1)

  abbrev pub sending : List Action
  sending = put_aside ∷ clear ∷ put_length ∷ restore ∷ hand_over ∷ []

  -- What a call does between locking and unlocking the send mutex.
  unfoldable pub actions : SendCall → List Action
  actions (submit service_type source destination data_coding message) =
      clear
      ∷ number
      ∷ header Types.submit_sm_id Types.status_rok
      ∷ on_buffer
          (λ b. serialize_pdu_submit_sm mem b service_type source destination data_coding message)
      ∷ sending
  actions (answer_enquiry h) = clear ∷ answer_header h ∷ sending
  actions (answer_delivery h) =
      clear ∷ answer_header h ∷ text none Types.length_message_id ∷ sending
  actions (request_bind system_id password system_type ton npi range) =
      clear
      ∷ count
      ∷ bind_header
      ∷ text system_id Types.length_system_id
      ∷ text password 9
      ∷ text system_type 13
      ∷ version
      ∷ integer ton 1
      ∷ integer npi 1
      ∷ text range 41
      ∷ sending

  unfoldable pub run_actions : List Action → Locals → World → Run (Locals × World)
  run_actions [] locals w = ret (locals, w)
  run_actions (a ∷ rest) locals w = a locals w >>= λ done. run_actions rest done.0 done.1

  -- A call that no other thread disturbs.
  unfoldable pub perform : World → SendCall → Run World
  perform w (submit service_type source destination data_coding message) =
      submit_sm mem os w service_type source destination data_coding message >>= λ r. ret r.2
  perform w (answer_enquiry h) = enquire_link_response mem os w h >>= λ r. ret r.1
  perform w (answer_delivery h) = deliver_sm_response mem os w h >>= λ r. ret r.1
  perform w (request_bind system_id password system_type ton npi range) =
      bind mem os w system_id password system_type ton npi range >>= λ r. ret r.1

  -- Calls one after the other, each with the thread that makes it.
  unfoldable pub perform_all : World → List (ℕ × SendCall) → Run World
  perform_all w [] = ret w
  perform_all w (c ∷ cs) = perform w c.1 >>= λ w'. perform_all w' cs

-- A thread between two calls, or within one, with the calls that it is still to make.
pub data Thread : Type 0 where
  outside : List SendCall → Thread
  inside : Locals → List Action → List SendCall → Thread

-- The session with the trace, the thread that holds the send mutex, and the threads by their numbers.
pub record Config : Type 0 where
  pub world : World
  pub holder : Option ℕ
  pub threads : ℕ → Thread

abbrev pub set_thread : (ℕ → Thread) → ℕ → Thread → ℕ → Thread
set_thread threads i t = λ j. if j == i then t else threads j

-- as_smpp_mutex_lock returns when no thread holds the mutex; the local variables hold anything then.
pub data Step (mem : Memory) (os : Platform) : Config → Config → Type 0 where
  acquires :
      (c : Config) (i : ℕ) (call : SendCall) (calls : List SendCall) (locals : Locals)
      → c.threads i ≡ outside (call ∷ calls)
      → c.holder ≡ none
      → Step mem os c (record {
        world = lock_send c.world;
        holder = some i;
        threads = set_thread c.threads i (inside locals (actions mem os call) calls);
      })
  acts :
      (c : Config) (i : ℕ) (a : Action) (rest : List Action) (calls : List SendCall)
      (locals after : Locals) (w : World)
      → c.threads i ≡ inside locals (a ∷ rest) calls
      → a locals c.world ≡ ret (after, w)
      → Step mem os c (record {
        world = w;
        holder = c.holder;
        threads = set_thread c.threads i (inside after rest calls);
      })
  releases :
      (c : Config) (i : ℕ) (calls : List SendCall) (locals : Locals)
      → c.threads i ≡ inside locals [] calls
      → Step mem os c (record {
        world = unlock_send c.world;
        holder = none;
        threads = set_thread c.threads i (outside calls);
      })

pub data Steps (mem : Memory) (os : Platform) (c : Config) : Config → Type 0 where
  here : Steps mem os c c
  next : {d e : Config} → Steps mem os c d → Step mem os d e → Steps mem os c e
