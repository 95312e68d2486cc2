-- ===== src/Lib.antt =====
-- This library models parts of corosync-qdevice: the decisions of the quorum server qnetd about
-- which partition of a cluster gets its vote, and the lists that these decisions stand on.
--
-- A cluster of qnetd is a list of connected clients, one per node, and the data of the decision
-- algorithm. A client reports its configuration node list and, with a ring id, its membership node
-- list; on each report, and when a client leaves, the algorithm decides again and sends votes to
-- the clients, and the answers of the clients drive it further.
--
-- Prelude passes on the names of the libraries and adds lemmas on tests and lists. Dynar is
-- qdevices/dynar.c, the byte arrays that messages are built in. Tlv is qdevices/tlv.h and tlv.c:
-- Types the enumerations and structures, Bytes memory and network byte order, Add the functions
-- tlv_add_*, Iter the iterator, Decode the functions tlv_iter_decode_*, Each the loop over the
-- options of a message, which Each.Runs gives as a relation with no fuel, with proofs in their
-- child modules and in RoundTrip, Walk (a message that is a sequence of options), Layout and
-- NodeInfo. Msg is qdevices/msg.h and msg.c: Types the types and the header, Create the functions
-- msg_create_*, Decode msg_decode; Layout, Options, Parts and Created say what a created message
-- holds and how each option is decoded, RoundTrip and Loop what follows for whole messages.
-- NodeList is qdevices/node-list.c, with the comparison of lists in NodeList.Eq. Qnetd.Client is
-- the record of a client, of a cluster and of the messages that wait for a client (qdevices/qnetd-
-- client.h, qnetd-cluster.h) with the lookups of qnetd-cluster.c and qnetd_client_send_vote_info
-- of qnetd-client-send.c; Qnetd.ClusterList is the sorted insertion and the removal of a client in
-- qnetd-cluster-list.c.
--
-- Qnetd.Ffsplit is qdevices/qnetd-algo-ffsplit.c: Data its structures, Stable
-- qnetd_algo_ffsplit_is_membership_stable, Partition the comparison of two partitions, Select
-- qnetd_algo_ffsplit_select_partition, Votes the states of the clients and the sending of votes,
-- Do qnetd_algo_ffsplit_do, and Callbacks the functions that the server calls. The modules below
-- each of them hold the proofs. Callbacks.Protocol is the life of a cluster as a step relation:
-- clients join, their reports and answers arrive, the server stores what it learns, clients leave.
-- Callbacks.Careful and Callbacks.Shutdown add what Protocol leaves out: that the server goes
-- down, and that a client sends its init message again.
--
-- Qnetd.Algorithm is what the server asks of an algorithm (qdevices/qnetd-algorithm.h, qnetd-
-- algorithm.c), and Ffsplit.Registered the fifty-fifty split algorithm in this form.
-- Qnetd.Messages is qdevices/qnetd-client-msg-received.c: Server the state and the answers from
-- outside, Simple the check of TLS and the handlers that do not call an algorithm, Init the init
-- message, Reports the node lists, questions and answers that an algorithm decides about, Received
-- the choice of the handler; Guards and Join hold the proofs.
--
-- TimerList is qdevices/timer-list.h and timer-list.c, the timers in a binary heap: Clock is about
-- the times that wrap around, Sift about the moves of a timer up and down, Order, Insert and Added
-- about the order of the heap, Bag about the timers in it without their order, First about the
-- timer at its top.
--
-- Qnetd.AlgoUtils and Qnetd.Lms are qdevices/qnetd-algo-utils.c and qnetd-algo-lms.c, the last man
-- standing algorithm: the partitions by ring id, the decision for one client, and in Lms.Callbacks
-- the functions that the server calls.
--
-- A pointer to a client is its address `addr`, a failed assertion is `none`, and whether memory is
-- granted or a message can be queued is a function that the operations take as an argument. Loops
-- over lists are structural recursion. Fuel is taken by the loop over the options of a message or
-- of a node info: the length plus two, and the results for any more are the same; and by the moves
-- of a timer in its heap: the position plus one on the way up, the number of timers on the way
-- down. A number of fixed width wraps around where the code lets it: the sequence number of a vote
-- is taken modulo 2 ^ 32, a score modulo 2 ^ 64.
--
-- Not modelled are the texts that go to the log, the sockets, TLS, the callbacks of timers, and
-- the daemon on the client's side.
pub mod Prelude
pub mod Tlv
pub mod Msg
pub mod TimerList
pub mod Dynar
pub mod NodeList
pub mod Qnetd
