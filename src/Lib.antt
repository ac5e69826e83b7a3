-- ===== src/Lib.antt =====
-- as-smpp, a C library for the client side of SMPP (Short Message Peer-to-Peer): its PDUs, the
-- session, and the thread that receives.
--
-- The program. A session (src/as-smpp-core/src/session.c) has a socket, two buffers and the
-- number of the next request. as_smpp_esme_start (src/as-smpp-esme/src/esme.c) connects it,
-- which starts the receiving thread, and sends a bind request. The calls of
-- src/as-smpp-core/src/smpp.c that send hold the send mutex, put a PDU into the send buffer
-- with the functions of src/as-smpp-core/src/serializer.c, and hand it to the socket
-- (src/as-smpp-core/src/net.c). The thread appends what it receives to the receive buffer,
-- takes complete PDUs off its front, calls the handlers of the application, and answers the
-- requests.
--
-- The files. Prelude has the shared names and the lemmas on lists, tests and bits, and the
-- type Run of what a C function comes to: a value, or a fault, which is a read or write
-- outside a block or another undefined behaviour, or starved, where the fuel of a modelled
-- loop ran out. Memory is the allocator. Buffer is the growing buffer of
-- src/as-smpp-core/src/core.c: as_smpp_buffer_add is `add`, and so on without the prefix;
-- Buffer/Valid says when a buffer is well formed and what it holds, and how a writer is
-- specified; Buffer/Growth and Buffer/Editing prove that the functions keep to it. Types are
-- the structures of include/as-smpp-core/smpp-types.h. Serializer has the fields and
-- Serializer/Pdu the headers and bodies; Serializer/Macros has the macros of
-- src/as-smpp-core/include/private-serializer.h. Serializer/Spec is the independent
-- description of the wire format in plain arithmetic, and the other files below Serializer
-- relate the two. Session, Net, Smpp, Smpp/Worker and Esme are the C files of these names
-- (Session/Waiting is about as_smpp_session_wait_for_state), the worker being
-- as_smpp_receive_worker with as_smpp_connect. Smpp/Framing to Smpp/BindFrame and Esme/Start
-- are about what they send and do. Smpp/Packets has the PDUs that a peer may send, of every
-- command, and Smpp/Serving what the thread is to do for each; Smpp/Dispatching, Smpp/Draining
-- and Smpp/Reassembly compare the two for one PDU, for the PDUs in the buffer, and for a
-- connection that delivers them in chunks (Smpp/Stream); Smpp/Enquiries has them for
-- enquire_link alone. Smpp/Hostile is about any bytes a peer may send, with
-- Serializer/Endings, Smpp/Endings and Smpp/Termination. Variant and Map are the variants and
-- the map at the top and the end of core.c (as_smpp_map_add is `map_add`, and so on).
-- Map/Search has the same operations on trees of keys that can be read, and Map/Nodes relates
-- the two; Map/Valid has the invariant, Map/Operations what the functions come to under it,
-- Map/Laws and Map/Dictionary the contract, the latter by comparing the map with a dictionary.
-- Smpp/Interleaving cuts the calls that send into actions, for several threads at once. Logger
-- and Threads are src/as-smpp-core/src/logger.c and threads.c. Core has as_smpp_init and
-- as_smpp_fini, and Demo is src/_as-smpp-demo/_as-smpp-demo.c with its printed lines as data,
-- Demo/Printing being about its handler for deliveries, Demo/Running about main, and
-- Demo/Receiving about what is printed for the PDUs of a peer. Examples has the data and runs
-- at concrete inputs.
--
-- State. A session is a record like the C struct, passed on from call to call; a World is a
-- session and the trace of what was seen outside of it: mutexes locked and unlocked, bytes
-- sent, handlers called, and so on, in their order. Pointers to characters are the memory from
-- the pointer on, or nothing for NULL. The blocks that variants point to are a function from
-- addresses, the memory of the caller, which an entry of the map goes on to refer to; Map/Kept has
-- what the caller may change of it between calls. A node of the map has its place in a tree and
-- its address, which the pointers to the nodes above are. The numbers are natural numbers, and the
-- arithmetic of size_t (64 bits) and uint32_t is written out where the code uses it.
--
-- Parameters. malloc and realloc, the socket functions, and the contents of memory that is not
-- initialised are arguments of the model. The theorems that need it assume that allocations
-- succeed and that realloc keeps what a block held; the code does not test for a null pointer.
-- In the map, whose blocks have addresses, a null pointer from the allocator is the address 0, and
-- making a node there is a fault.
--
-- Fuel. The loop over the received PDUs takes fuel, one unit for a PDU: without a bound the
-- loop may not end. The loop over the parameters of a deliver_sm takes fuel too, and gets the
-- length of the PDU, of which every round takes four bytes. The loop that waits for a state
-- runs over the list of the states at its wake-ups; `starved` says that it still waits after
-- them. The loop of the conversion from GSM gets a unit for each byte; that of the conversion
-- to GSM takes any fuel. The other loops are structural.
--
-- Converter is src/as-smpp-core/src/converter.c: its tables and the conversions between
-- Latin-1 and GSM 03.38, with `char` without a sign, and in Converter/Transcoding the
-- conversion to UCS-2, for machines of either byte order. Converter/Decoding has a decoder on
-- lists, which the conversion from GSM is compared with.
--
-- Threads. The calls that send are modelled whole, and interleaved: a step is one action of a
-- thread on the session, or as_smpp_mutex_lock, which returns when no thread holds the mutex,
-- or as_smpp_mutex_unlock. Locking does not fail; the code does not look at its result.
--
-- Taken as gcc and clang take it: a byte from 0x80 on that as_smpp_deserialize_integer shifts into
-- the sign bit, which the C standard leaves undefined.
--
-- Not modelled: the code for Windows, and the text that the code prints but for the dump of
-- the logger and the lines of the demo. What the receiving thread does besides answering is
-- modelled without interleaving it with the calls of the application. The other parts do not
-- call the functions of Threads, whose results the code does not look at: their calls are
-- events of the trace or steps of the interleaving.
pub mod Prelude
pub mod Memory
pub mod Buffer
pub mod Types
pub mod Serializer
pub mod Session
pub mod Net
pub mod Smpp
pub mod Esme
pub mod Converter
pub mod Variant
pub mod Map
pub mod Logger
pub mod Threads
pub mod Core
pub mod Demo
pub mod Examples
