-- ===== src/Lib.antt =====
-- AaltoMME: the mobility management entity of an LTE core. The parts modelled are the ones every
-- message of the MME goes through.
--
-- Gtp (libgtp): GTPv2-C packets towards the gateways. Gtp/Ie.antt has gtpie.c on memory with
-- addresses (gtp2ie_encaps, gtp2ie_decap, gtp2ie_gettliv and the two on groups), Gtp/Header.antt has
-- get_default_gtp and gtp2_recv of gtp.c, Gtp/Tbcd.antt the two functions on BCD digits. The loop
-- over at most GTPIE_SIZE elements is a recursion on the slots that are left.
--
-- Nas (NAS/src): the NAS library. Nas/Ie.antt has StandardIeSchemas.c, Nas/Options.antt and
-- Nas/Messages.antt have NASMessages.c, where the table of the optionals of a message is a list of
-- lines; Nas/Count.antt and Nas/Security.antt have the COUNT, the protection and the authentication
-- of NAS.c with eia0.c and eea0.c, Nas/Decode.antt has its dispatch, and Nas/Eia2.antt has eia2.c.
-- NASHandler is the record NasHandler with its two counts apart. OpenSSL is not modelled: HMAC-
-- SHA256 and the CBC step of AES-128 are parameters, and Nas/Security.antt takes 128-EIA2 as a
-- parameter that `eia2` of Nas/Eia2.antt fills. The loop over the blocks of a message runs on the
-- number of its bits as fuel, of which each round uses 128.
--
-- S11 (mme/S11): a session with a serving gateway. S11/Session.antt has S11_User.c and the six
-- states as functions on a record, with what leaves the session as a list of effects, and
-- S11/Peer.antt has S11_Peer.c. A session decodes its messages with Gtp/Ie.antt. What a variable on
-- the stack holds before it is written is a parameter; an abort or the use of a null pointer is
-- `none`. The elements of the requests and the EPS session are not modelled.
--
-- Emm (mme/S1/NAS): the mobility management of a user. Emm/Ctx.antt has EMMCtx.c and EMM_Timers.c,
-- Emm/Send.antt, Emm/Procedures.antt and Emm/Requests.antt have NAS_EMM.c, Emm/Uplink.antt what a
-- decoded message is to a state; Emm/Deregistered.antt, Emm/Registered.antt,
-- Emm/SpecificProcedure.antt and Emm/CommonProcedure.antt have the four states of EMM_FSMConfig.c,
-- and Emm/Machine.antt joins them to one step on an event: a message from the user, an answer of the
-- HSS, a timer, a request of the network. A step returns the context with what was sent and called
-- as a list; an abort, and a use of memory that is not there, is `none`. A message is authenticated
-- with Nas/Security.antt and decoded with Nas/Decode.antt; what a variable on the stack holds before
-- it is written is a parameter. The states look at a message type that is, of a session management
-- message, the transaction identity: such a message is taken for the mobility message whose type that
-- spells, and what its memory holds when it is read as one is a parameter (Overlay of
-- Emm/Uplink.antt). Emm/Transition.antt is the abstract specification: the steps that
-- the registration of a user may take.
--
-- S1ap (S1AP/src): S1ap/Encode.antt has the writers of rt_per_bin.c, the packed encoding rules, and
-- S1ap/Decode.antt the readers; a BinaryData is memory with an address, a position in the octet and
-- a length. The loop of eint runs on a fuel of nine octets, where a 64-bit number has eight at most.
-- S1ap/Message.antt has a message with its container as a list of elements (Containers.c and the
-- functions of S1AP.c that find, take and add one), and S1ap/Pdu.antt the frame of a message, as
-- s1ap_encode and s1ap_decode write and read it. The tables of the functions that encode and decode
-- an element are arguments; S1ap/UeIds.antt has those of the identities of a user, and
-- S1ap/ElementCodes.antt those of a capacity and of a string of octets. Of the elements, those
-- that the state machines of S1 use are the constructors of Value.
--
-- S1 (mme/S1, with the tables of MME.c): associations with eNodeBs, and the connection of a user.
-- S1/Session.antt has the two states of ECMSession.c with what they send and call as a list;
-- S1/Store.antt has the tables of sessions, where a pointer to a session is its identity, and the
-- key of a node, which points into a session, is apart from its value; S1/Association.antt has the
-- two states of S1Assoc.c and the path switch, and S1/Machine.antt the reset, the end of an
-- association, and one step on what happens at a socket. A step is `none` where a null pointer or a
-- session that was freed is used. A second session with the identity 0, which is given out when all
-- others are taken, frees the first one and leaves the nodes of that pointing to no session; the key
-- of 0 in the table of the identities, which lies in the freed one too, is still read as 0. The order in which glib goes through a table is an argument, and so
-- are the users that the EMM has (Users) and the configuration. A call of the EMM is an effect: what
-- the EMM calls back on the session is not part of the step.
--
-- Timers (Common/timermgr.c): Timers/Timer.antt has the life of one timer; which expiry has a
-- callback that stops it is an argument.
--
-- Machine integers are natural numbers with the wrap-around written out; memory is a total map from
-- addresses to octets, so that reads beyond a buffer are reads of what lies there. Not modelled are
-- the ESM with the context setup request and the acknowledgement of a path switch, paging, the
-- readers of printable and bit strings and the structures of the elements of S1AP, the database
-- behind Subscription and HSS, the copies of MILENAGE, AES and SHA-2, and sockets, the events of
-- libevent and logging. The modules Runs and SecurityRuns apply the theorems to concrete data.
pub mod Prelude
pub mod Emm
pub mod Gtp
pub mod Nas
pub mod S1
pub mod S11
pub mod S1ap
pub mod Timers
