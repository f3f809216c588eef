-- ===== src/Lib.antt =====
-- The packet distribution system: a server and a client that exchange typed packets over
-- encrypted sessions of the library mal-packet-weaver, the MetaTrader data that such packets carry,
-- and a key generator.
--
-- Parts, and where they are modelled:
--   Prelude   native numbers, lists, machine integers (int32_t, int64_t and uint64_t with the
--             conversions between them).
--   Archive   what the `serialize` templates need of a Boost archive. `Serializer` is a template
--             instantiated at a saving and a loading archive, `member` is `ar & this->member`, `⨾` is
--             one statement after the other; `Transfers` says what the other end receives.
--             Archive.Enumeration is the macro MQL_DECLARE_ENUM_SERIALIZE of
--             common/mql-cpp/enums.hpp. Archive.Layout is what the packet macros and std::vector add.
--   Mql       common/mql-cpp: one module for each enumeration (Mql.Enums, with the enumerators in
--             snake case and a constructor `unnamed` for other ints), MQL_DateTime, and one module for
--             each struct of account-info.hpp and trade-info.hpp under its namespace, with its members
--             under their names (a base is the member of its name) and its `serialize`.
--   Text      std::to_string, std::stoi.
--   Packets   common/packets/packet-network.hpp and packet-crypto.hpp. Packets.Crypto has the
--             interface of the cryptography, Packets.Catalogue the numbers of the packets of all four
--             subsystems (subsystems.hpp, account-trade-info.hpp and node-info.hpp too), by which
--             Packets.Numbering tells them apart, Packets.Parts their bases and the types of their
--             members, and Packets.Payload what each packet is made of and how it is serialized;
--             Packets.Payload.Sent takes the packets that the handlers send through it and back.
--   Session   the calls that a handler makes on its session; Session.Echo is process_echo of
--             central_server/main.cpp and client_test/main.cpp, and Session.Conversation the exchange
--             of two ends that both answer by it.
--   Server    central_server/main.cpp: Server.Encryption is encryption_handler_server,
--             Server.Connections the class TcpServer with its handlers as steps, Server.Threads the
--             same handlers on the threads that run the io_context, as a step relation, and
--             Server.Start is main.
--   Client    client_test/main.cpp: Client.Encryption is setup_encryption_for_session, and
--             Client.Start main.
--   Handshake the two ends of the key exchange together.
--   Exchange  a session of the two programs: the handlers that each end registers and the client's
--             coroutine, run on the packets as they come; Exchange.Phases is its abstract machine of
--             phases. Exchange.Schedule has the endless orders of turns in which no end starves,
--             Exchange.Liveness and Exchange.Overflow what a session comes to along them,
--             Exchange.Sessions many sessions at once, Exchange.Peer the server's handlers against
--             any packets.
--   Common    common/common.hpp: bytes_to_hex_str and read_key.
--   Files     file streams over a file system that is a parameter.
--   NodeInfo  common/packets/node-info.hpp and node-info.cpp: NodeInfo.Loads the load numbers,
--             for which NodeInfo.Stat reads /proc/stat, NodeInfo.Drives and NodeInfo.Mounts
--             getDisksLoad, NodeInfo.Counts the process and file counts, NodeInfo.Sockets
--             getOpenSocketCount, NodeInfo.Response the constructor of the response packet. What a
--             system call answers is a field of a record for the platform.
--   Keygen    keygen/main.cc: WriteMergedKeys and WriteSeparateKeys; Keygen.Command is main.
--   System    the server and the sessions of all its clients, as one state.
--   Deployment
--             the key generator, the server and the client together.
--   Tests     instances of the parameters, and the theorems at concrete inputs.
--
-- Parameters. Boost's layout of primitive values (Codec: what is written is read back), how the
-- packet macros and Boost let parts and elements follow one another (Layout), the constructors that
-- the two mains call (Host: signer, verifier, acceptor, connections), the cryptography (Crypto and
-- Ecdsa: Diffie-Hellman agreement, a verifier that takes what its signer signs; no secret comes of
-- bytes that are no public key), the file system (FileSystem with IsLawful: what is written is read,
-- a folder that is created is there and stays), what is_closed answers for a session, the operations
-- on double (Doubles), the answers of the operating system and random values are arguments. The
-- constructor of AES256 is taken to return. Log lines are not modelled.
--
-- Bounds. Signed members carry their range as a hypothesis (`Fits`), which is what a value of the
-- C++ type satisfies. Fuel: `emit` has one more than the number that is printed, the loop over the
-- drive letters 32 rounds for the 32 bits of a DWORD, the scan of a text its length, since every
-- round takes a character. Where the model has no fuel left, it stops; the theorems are about the
-- functions with their fuel fixed.
--
-- Threads. A data race is undefined behaviour, so in Server.Threads any state may follow one; a
-- handler's change to connections_ is in place when the handler ends. In Exchange each handler runs
-- as one step.
--
-- Not modelled: the C structs of common/mql-c/account-info.h (no code uses them, and the headers with
-- the types of their members are not in the repository), the placeholder libraries client_dll and
-- server_dll with server_test, log lines, and the build.
pub mod Prelude
pub mod Archive
pub mod Mql
pub mod NodeInfo
pub mod Text
pub mod Common
pub mod Packets
pub mod Session
pub mod Server
pub mod Client
pub mod Handshake
pub mod Exchange
pub mod Files
pub mod Keygen
pub mod System
pub mod Deployment
mod Tests
