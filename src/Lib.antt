-- ===== src/Lib.antt =====
-- RUDP for the network simulator ns-3: a datagram transport protocol with its packet header, the
-- protocol object of a node, and its sockets.
--
-- The parts and how they interact. A node has one `RudpL4Protocol`. It owns the end points of IPv4 and
-- of IPv6 (ns-3's demultiplexers) and the list of the sockets; the layer above makes sockets through
-- `RudpSocketFactoryImpl`. A `RudpSocketImpl` asks the protocol object for an end point when it binds
-- or first sends, and registers its callbacks there. It sends through the protocol object's `Send`,
-- which puts a `RudpHeader` in front of the packet and gives it to the IP layer (the down target). The
-- IP layer gives packets to `Receive`, which looks the end points up and forwards a copy to each; the
-- end point calls `ForwardUp` of its socket, which queues it for `Recv`.
--
-- The files and what they model (paths from the root of the repository):
--   Header: the class of rudp-header.h, its constructor, setters and getters in rudp-header.cc.
--     Header/Buffer: the iterator of ns-3 that they use, a parameter, with its laws. Header/Wire:
--     `Serialize` and `Deserialize`; its children are proofs. Header/Print: `Print`, as the pieces that
--     it inserts into the stream.
--   Ns3: what the source uses of ns-3: a record `Ns3` of types and pure functions, the calls out of the
--     module as data (`Call`), and a record `Env` of the answers that come back. Ns3/Laws: what is
--     relied on of addresses and packets. All of it is a parameter of every definition that uses it.
--     Ns3/Owner: whom an end point calls, by its receive and by its destroy callback, as the calls made
--     tell it.
--   State: the members of `RudpL4Protocol` (rudp-l4-protocol.h) and of `RudpSocketImpl`
--     (rudp-socket-impl.h) as records, and the monad of the functions: a function runs on one socket,
--     the protocol object and the list of the calls made, and returns or makes a fault. A fault is a
--     failed `NS_ASSERT`, a use of a null pointer, or a read past the end of a buffer.
--   L4: the end points and the down targets in rudp-l4-protocol.cc. L4/Aggregate: `NotifyNewAggregate`,
--     `CreateSocket`, `DoDispose`, and rudp-socket-factory-impl.cc. L4/Datagram: `Send`, `Receive` and
--     `ReceiveIcmp`.
--   Socket: `Connect`, the names and the small functions in rudp-socket-impl.cc. Socket/Binding: the
--     functions `Bind`, `FinishBind` and `BindToNetDevice`. Socket/Sending: `Send`, `SendTo`, `DoSend`
--     and the functions `DoSendTo`. Socket/Receiving: `ForwardUp`, `ForwardUp6`, `Recv`, `RecvFrom`.
--     Socket/Closing: the shutdowns, `Close` and the destructor. Socket/Base and Socket/Attributes: the
--     virtual functions of rudp-socket.h and the attributes of rudp-socket.cc. Socket/Delivery joins a
--     sender and a receiver, Socket/Reply the receiver and its answer. Socket/Reach has the sequences of
--     calls on one socket as a relation on its states. Socket/Receiving/Inbox has the specification of
--     the receive buffer.
--   Host: the protocol object with all the sockets that it creates. `create` and `call` run
--     `CreateSocket` and a call of one socket over the shared state, `destruct` runs the destructor of a
--     socket, and `deliver` gives what an end point got to the socket that its callback leads to;
--     `Reaches` is the relation of the states that interleaved calls reach. Host/Queues: what comes for
--     the end points and what the applications ask of all the sockets, as one sequence (`play`).
--     Host/Deletion: the end of the object (`dispose`), with the destroy callbacks that the end points
--     make which the deletions of `DoDispose` delete. The other children, and the files named Owner or Ended, are proofs.
--   Types: what the functions `GetTypeId` register.
--   Prelude: shared names and lemmas. Tests: a small ns-3 and runs in it.
--
-- Names keep the source's words: `DoSendTo` is `do_send_to`, with a 6 behind the name for IPv6;
-- functions of the protocol object whose names sockets have too begin with `l4_`. A function that is
-- long in the source is cut at its blocks, and a comment says which lines a part is.
--
-- How the source is read. Packets are values, so `Copy` is the packet itself, and the tags that a call
-- leaves on its caller's packet are not seen after it. A packet that the application gives has none of
-- the tags that the functions add; `AddPacketTag` asserts that it adds no second tag of a kind, and
-- `SendTo` is the one function that leads to it (`do_send_to_again`). The check that ns-3 makes of a
-- device to bind to is an answer of `Env`, and the program asserts where it fails. Answers of ns-3 depend on the calls made so far
-- and on nothing else. The calls to the application (`NotifyDataRecv` and the like) are the last
-- things that a function does to the state, so what the application does in them is what it does next.
-- `NS_ASSERT` is on. `AggregateObject` may notify the protocol object again; the model has both cases,
-- one level deep, for the run inside finds the node set. Sockets are known by the order of their
-- creation. Integers of the source that wrap (the counter of received bytes, the length field, the
-- shifts in the header) have the wrap written out; the two 16-bit ports stay below 2 ^ 16 by their
-- types, which the results say where they use it. No definition runs on fuel: loops go over lists.
--
-- Where the source does not compile, the model has what is meant: the constructor of the header with
-- no comma before its body, the two local words of `Deserialize` as local variables, the flags under
-- the names that rudp-header.cc has, and `m_rudp` for `m_udp` in the constructor of the socket. The
-- checksum functions that rudp-l4-protocol.cc calls are not declared in `RudpHeader`; whether a packet
-- passes is an answer of ns-3.
--
-- The several sockets. The sockets of a `Host` take turns, as the events of the simulator do: a call
-- runs to its end before another starts. What an end point calls is read off the calls that set its
-- callback and give it back. That allocation gives no end point which still calls a socket is a
-- hypothesis where it is used, for ns-3 makes the end points. The destructors of
-- sockets are among the calls of `Reaches`, and a socket that was destroyed may be called there like
-- any other, which only adds states. `DoDispose` is not: a life with it is a `Reaches` up to it, the
-- function `dispose`, and a `Reaches` from there on. Which destroy callbacks ns-3 makes when it deletes
-- end points is an answer of `Env`; that it makes those which are set is a hypothesis (`DeletionLaws`).
--
-- The attributes. `set_attribute` is what an accessor does with a value that the checker let pass; that
-- ns-3 gives each attribute its initial value is its own doing. `IpTtl` is kept by the class `Socket`
-- of ns-3, whose two functions are a parameter. The file names `UdpSocket` there for `RudpSocket`.
--
-- Not modelled: logging, which changes nothing. What ns-3 does with the types that are registered is
-- its own; the class of rudp-socket-factory.h declares no function but `GetTypeId`, which is in Types.
pub mod Prelude
pub mod Header
pub mod Host
pub mod Ns3
pub mod State
pub mod L4
pub mod Socket
pub mod Types
pub mod Tests
