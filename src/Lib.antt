-- ===== src/Lib.antt =====
-- A model of ws-streaming, an implementation of the WebSocket Streaming Protocol, from the bytes on
-- the wire to the signals of a connection.
--
-- Parts, in the order in which they rest on each other:
--   * Prelude: shared names, tests, lists, bits and words.
--   * Wire: the two headers. Wire/Streaming is include/ws-streaming/detail/streaming_protocol.hpp
--     and src/detail/streaming_protocol.cpp, Wire/WebSocket is websocket_protocol.hpp and .cpp
--     there. Their `RoundTrip` modules relate writer and reader, their `Prefix` modules read parts
--     of the input.
--   * Buffer: src/detail/dynamic_buffer.cpp and its header, the transmit buffer in blocks. The record
--     `DynamicBuffer` has the fields of the class; `contents` is the abstract view, a list of bytes.
--   * Peer: src/detail/base_peer.cpp (Peer/Base: receive buffer, packets, frames, metadata) and
--     src/detail/peer.cpp with include/ws-streaming/detail/peer.hpp (Peer/Tcp: the transport). The
--     shared part returns what it does to others as a list of `Effect`s, which the transport carries
--     out; the socket is an argument, an `Answer` for each call. `Peer.Tcp.Order.Reach` are the runs
--     of a peer: writes, completions of write waits and closings in every order.
--     Peer/Tls is src/detail/peer_tls.cpp with its header: the same shared part over a stream that
--     takes one message of a queue at a time; its runs are `Peer.Tls.Order.Reach`.
--   * Semver: src/detail/semver.cpp and its header.
--   * Signals: src/detail/linear_table.cpp, local_signal_container.cpp and
--     remote_signal_container.cpp with their headers, and src/detail/remote_signal_impl.cpp
--     (RemoteSignal: subscriptions, RemoteSignal/Data: metadata and data). Metadata is what the
--     accessors of src/metadata.cpp give.
--   * Connection: src/connection.cpp. Local has the signals of this end with their tables, and
--     Local/Subscribe their subscriptions; Publish makes packets of published data and Receive
--     gives the packets of the other end to its signals; Handlers has the messages about signals,
--     Parameters their JSON values and the command interface, Messages what a signal does with its
--     own (remote_signal_impl::handle_metadata), Dispatch the messages by method, the requests and
--     src/detail/command_interface_client_factory.cpp, and CommandClient is
--     src/detail/in_band_command_interface_client.cpp. Delivery puts two ends together, and so does
--     Hello for what is announced. Shared pointers to tables are values in their owners, and a weak
--     pointer is the owner with the count of the tables that it made.
--   * Metadata: src/metadata.cpp (Read, with Read/Sizes for the size of a sample and the TCP signal
--     rate) and src/metadata_builder.cpp (Build), as functions of the JSON value that an object
--     holds; Fields is src/struct_field.cpp, struct_field_builder.cpp, struct_field_dimension.cpp
--     and dimension_builder.cpp. `Refinement.View` is the abstract view, what the accessors give.
--   * Http: include/ws-streaming/detail/http_client_servicer.hpp, with the completions of
--     Boost.Beast as events (Servicer/Life) and the responses (Servicer/Responses).
--   * Examples: concrete runs.
--
-- What is not part of the repository is an argument: `Buffer.Copy.BufferCopy` is
-- boost::asio::buffer_copy with its documented effect, `Peer.Json.JsonLib` and
-- `Connection.Parameters.JsonValues`, `Metadata.Document.Library` and `Http.Servicer.Library` are
-- nlohmann::json as each part calls it, with documented laws in `IsJson` and `IsLibrary`. The parse
-- error of a JSON pointer into a list is not modelled: `value_pointer` always gives a value.
--
-- Bounds: bytes are numbers, and words are reduced where the source reduces them. Sizes in memory do
-- not wrap. Loops run on fuel that is enough: the loops over received bytes take a byte in each round
-- and have one more than their number, `consume` and `commit` move a byte in each round, `prepare`
-- ends at the limit on the blocks, and the receive buffer grows in each round up to its limit.
-- `unsubscribe` follows a chain of table ids, with fuel of two more than the number of signals.
--
-- Not modelled: threads, the executor and the times at which handlers run; slots that the application
-- connects; the HTTP client, the server and its sessions, and the key of a WebSocket upgrade.
mod Examples
pub mod Prelude
pub mod Wire
pub mod Buffer
pub mod Peer
pub mod Semver
pub mod Signals
pub mod Metadata
pub mod Http
pub mod Connection
