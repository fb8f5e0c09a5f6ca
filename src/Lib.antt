-- ===== src/Lib.antt =====
-- Verification of the MQTT client in C.
--
-- The program is a client for MQTT 3.1.1, with the property lists of version 5. A call of the
-- client (src/MQTTClient.c) goes through the protocol handlers (src/MQTTProtocol.c) to the packet
-- layer, which turns packets into bytes and bytes into packets, and from there through the
-- websocket frames (src/utils/WebSocket.c) and the socket buffers to the network. This library
-- models the packet layer, the socket buffers below it, and the helpers that the layers share.
--
-- - Memory: C objects as the list code sees them: memory cells for the elements of lists, and whether
--   a block is allocated. A load through a null pointer or of a released element, and a second
--   release, have no defined outcome. Memory/Segments is the predicate that a chain of elements lies
--   between two pointers.
-- - LinkedList: src/utils/LinkedList.c. The names are those of the source (`ListInsert` is
--   list_insert). LinkedList/Chains says what a well-linked list is, the other files follow the
--   operations: Insert, Find (search, ListUnlink and its variants), Unlink, Ends (ListDetachHead,
--   ListPopTail), Empty and Iterate.
-- - SocketBuffer: src/utils/SocketBuffer.c, the state of reads and writes that were interrupted.
--   The lists of queues and of pending writes are lists with one entry for a socket, which Entries
--   searches by key.
-- - Socket: the part of src/utils/Socket.c that moves bytes: `Socket_getch`, `Socket_getdata`,
--   `Socket_writev`, `Socket_putdatas`, `Socket_continueWrite` and `Socket_noPendingWrites`. The
--   calls `recv` and `writev` are parameters, functions on a state of the network. Socket/Header
--   follows a caller that reads a fixed header again and again while it arrives, Socket/Deliver and
--   Socket/Send a packet that is written in as many steps as the network makes of it.
-- - Transport: what the packet layer needs of src/utils/WebSocket.h: `WebSocket_getch`,
--   `WebSocket_getdata`, `WebSocket_putdatas`, the frame position, and the two time stamps of
--   `networkHandles`. It is a record of operations on a state, a parameter of all that reads or
--   sends, and the only law of every such record is that `WebSocket_getch` gives a byte.
--   Transport/Rewinding names what an interrupted read relies on beside it: the bytes of a frame stay
--   until it is read to its end, and the positions within it can be sought. Transport/Stream and
--   Transport/Framed are implementations for the examples.
-- - RemainingLength: the variable byte integers of src/MQTTPacket.c, `MQTTPacket_encode`,
--   `MQTTPacket_decode` and `MQTTPacket_VBIlen`.
-- - Wire: single fields in src/MQTTPacket.c, `readInt`, `readChar`, `readUTFlen`, `writeInt`,
--   `writeChar`, `writeInt4`, `writeUTF`, `writeData` and `writeMQTTLenString`.
-- - Properties: the property lists of src/MQTTProperties.c.
-- - Packet: src/MQTTPacket.c with the structures of src/utils/TypeDefine.h: the header byte, the
--   readers `MQTTPacket_publish`, `MQTTPacket_ack`, `MQTTPacket_connack` and
--   `MQTTPacket_suback`. Packet/Factory is `MQTTPacket_Factory`, Packet/Send the functions that
--   send.
-- - MsgId: `MQTTProtocol_assignMsgId` of src/MQTTProtocol.c.
-- - Protocol: the publications and messages in flight of src/MQTTProtocol.c: reference counts, the
--   queue of acknowledgements and `MQTTProtocol_handlePubacks`; Protocol/Outgoing has
--   `MQTTProtocol_createMessage` and what `MQTTProtocol_startPublish` stores, Protocol/Start its sending
--   and `MQTTProtocol_storeQoS0`, Protocol/Incoming has
--   `Protocol_processPublication` and `MQTTProtocol_handlePublishes`, which use the senders of Packet
--   and the pending writes of Socket. Protocol/Address has the copies of strings and
--   `MQTTProtocol_addressPort`, with `atoi` as a parameter.
-- - Frame: `WebSocket_buildFrame`, `WebSocket_calculateFrameHeaderSize` and
--   `WebSocket_unmaskData` of src/utils/WebSocket.c. `rand` is a parameter.
-- - Utf8: src/utils/utf-8.c, the test that a topic or a client identifier is well-formed UTF-8.
-- - Base64: src/utils/Base64.c, which the websocket layer uses for keys.
-- - Sha1: src/utils/SHA1.c, the hash of the websocket handshake, on 32-bit words.
-- - Prelude: shared names, and `Run`, the outcome of code that may leave its defined behaviour.
--
-- C code as functions. A buffer that is written is a cursor: the bytes written so far, and how
-- many fit behind them. A read or write outside an object, a null pointer that is followed and the
-- release of a pointer that `malloc` did not return are the outcome `fault`; `done` is every other
-- outcome. `NULL` as a result is `none`. A function that allocates takes what `malloc` answers,
-- one Boolean for each call within it. Numbers are natural numbers with the reductions of the code
-- written out (`% 256` for a stored byte); `int` is used within its range, and the conversions to
-- `char` and from `unsigned int` are written out where they matter (`writeInt4`). Whether `char`
-- is signed is a parameter of Utf8 and Base64.
--
-- Loops. `MQTTPacket_encode` is a recursion on the accessibility of the number that is left.
-- `MQTTPacket_decode` counts down from MAX_NO_OF_REMAINING_LENGTH_BYTES as the code counts up to
-- it, so that there is no fuel beside the code's own bound. The loop of `UTF8_validate` has the
-- length of the string as its fuel, since each round takes at least a byte. The loop of
-- `MQTTProtocol_assignMsgId` has 65535 as its fuel, the number of identifiers, and that of
-- `SHA1_Update` the length of the data. A loop over the elements of a linked list takes its fuel
-- as an argument, which its theorems ask to be larger than the number of elements. The caller of
-- Socket/Header has one attempt for each arrival, and that of Socket/Deliver one call for each
-- window that the network opens. All other loops run over a list.
--
-- Sizes. The field `count` of a linked list is an `int`, kept as its pattern of 32 bits, and
-- `size` a `size_t` of 64 bits; both wrap around. The lengths of the socket buffers are used
-- within the range of `int`.
--
-- Not modelled: the log; the calls of the client (src/MQTTClient.c); in src/MQTTProtocol.c the
-- opening of a connection and the release of a client; the rest of src/utils/WebSocket.c; in
-- src/utils/Socket.c the choice of the next ready socket and the opening and closing of
-- connections, which are calls of the operating system; the release of all memory at the end
-- (`SocketBuffer_terminate`, `SocketBuffer_freeDefQ`); the comparisons `intcompare` and
-- `stringcompare`, which read through the pointers of a list; and the wrappers of
-- src/utils/Thread.c. The release of a rejected packet is not followed, so that a leak of the
-- readers does not show; the buffers that the sending functions leave allocated are part of their
-- result.
pub mod Prelude
pub mod Entries
pub mod Memory
pub mod LinkedList
pub mod SocketBuffer
pub mod Socket
pub mod Transport
pub mod RemainingLength
pub mod Wire
pub mod Properties
pub mod Packet
pub mod MsgId
pub mod Protocol
pub mod Base64
pub mod Frame
pub mod Sha1
pub mod Utf8
