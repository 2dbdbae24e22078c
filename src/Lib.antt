-- ===== src/Lib.antt =====
-- netns-mcast-relay: a relay of UDP multicast (mDNS, SSDP) between network namespaces.
--
-- The parts and how they interact. The command (cmd/relay) reads the configuration, starts the relay
-- and, if asked to, a control API on a unix socket. The relay (internal/relay/relay.go) keeps one
-- instance per network namespace, with a multicast socket per group. Receivers put what they read into
-- one channel; `broadcast` passes each packet through the middleware (internal/middleware, here the
-- loop guard) and puts it into the queue of every other namespace; a send worker per namespace
-- writes its queue out through the sockets (internal/socket/multicast.go). The coordinator collects
-- commands of the control API (internal/control/server.go) and applies them in one go once none has
-- come for a while. Paths of namespaces are made canonical by internal/netns/netns.go.
--
-- Which file models which part:
--   Base, Base/*     shared: the native numbers, texts and bytes as lists of numbers, equality as an
--                    interface (Eq), results with an error (Base/Outcome), Go maps as association lists whose first entry counts, integers.
--   Net, Paths       what the source uses of Go's net (IP.To4, To16, Equal, IsMulticast), strings and
--                    path/filepath (TrimSpace, Clean, Contains), written after their documentation.
--   Strings          what packet_decode.go uses of strings, encoding/hex and net/textproto: ReplaceAll,
--                    Split, Fields, Join, Cut, HasSuffix, EncodeToString, CanonicalMIMEHeaderKey, Add, Get.
--   Config           internal/config/config.go: `parse` is Parse on the values that the flag package
--                    leaves; parseSocketMode, parseMulticastGroup and the paths of namespaces.
--   Command          cmd/relay/main.go: `start` and the steps are run; its goroutines as a step
--                    relation that notes what happened.
--   Netns            CanonicalizePath.
--   Netns/Handle     NSHandle, Open and Close.
--   Netns/Do         (h *NSHandle) Do, over the calls of the package netns.
--   Middleware       Packet, the Middleware interface, Chain.
--   Middleware/LoopGuard   loop_guard.go: `process` is (g *LoopGuard) Process at a given time, `cleanup`
--                    its cleanup loop, `loop_key_for_packet` loopKeyForPacket.
--   Middleware/Decode  packet_decode.go: `decode_packet` is decodePacket, `decode_ssdp` decodeSSDP,
--                    `decode_mdns` decodeMDNS, `hex_preview` hexPreview.
--   Relay            constants, groupKeyFromUDPAddr, nsInstance; Platform, the relay's view of the
--                    packages netns and socket.
--   Relay/Namespace  buildInstance and teardown.
--   Relay/Coordinator  `coordinate`: one function for each case of its select (on_command, on_timer,
--                    on_done) and the closure `reconcile`.
--   Relay/Broadcast  receive (receive_one), broadcast (fan_out, broadcast_one), startSendWorker
--                    (send_one).
--   Relay/Concurrent the running relay, Run with its goroutines: instances in a memory, snapshots that
--                    point to them, fan-outs, reconciles and teardowns in several steps. Its
--                    child History gives the commands of a run that no reconcile has answered yet, and the
--                    paths that its last reconcile has tried to build in vain.
--   Relay/System     the same with each round of a goroutine as one step, and New.
--   Relay/Api        AddNamespace, RemoveNamespace, ActiveNamespaces, and the relay as the control API's
--                    NamespaceController.
--   Relay/Wiring     the relay's Platform filled by Open, NewMulticastSocket and the two Close;
--                    Relay/Wiring/Live fills its reads and writes with ReadFrom and WriteToGroup, whose
--                    memory of writes is kept per socket.
--   Socket/Create    NewMulticastSocket and Close, over the calls of net and x/net/ipv4.
--                    Socket/Create/Open: the descriptors that are open, by their identity.
--   Socket/Checksum  udpChecksum and the segment that writeRawUDP fills in.
--   Socket/Transfer  ReadFrom, WriteTo, WriteToGroup and writeRawUDP; Socket/Transfer/Log and
--                    Socket/Transfer/Writes: the writes that a call tries.
--   Socket/Echo      markSent and isSelfEcho.
--   Control/Accept   namespacePathPattern, containerIDPattern, canonicalizeNamespacePath.
--   Control/Handlers extractNamespacePath, writeRequestError, and the routes of NewUnixServer.
--   Control/Listener NewUnixServer up to its routes, resolveSocketGroup, removeStaleSocket,
--                    isActiveUnixSocket and Run, over the calls of os, net, os/user and net/http.
--   Control/Serving  Run with its goroutine that calls Shutdown, and the requests in progress: a step
--                    relation.
--   Logging          internal/logging/logging.go: DebugLazy.
--
-- Conventions. Times are numbers of nanoseconds, and a clock is passed in where the source calls
-- time.Now. Bytes are numbers below 256. A Go int is an integer, without a bound; uint16, uint32 and the
-- drop counter's 64 bits wrap. A text is the list of its code points; an invalid byte of a payload is
-- the code point that Go decodes it as. A nil pointer or slice whose
-- difference from a value the source observes is `none`. Go's range over a map has no fixed order; the
-- model takes the list's order, and the theorems about reconcile and fan-out speak of lookups, which do
-- not depend on it. MD5 is a parameter, and no theorem assumes anything of it: a theorem about packets
-- of one key covers colliding payloads too. The JSON decoder's two answers are part of a request. The
-- packages netns and socket are to the relay an interface (Platform); the theorems about the relay that
-- count what is open assume that opening and closing are accounted for (Relay.Namespace.Descriptors.
-- Ledger), for each resource that is counted, with a bound on what a failed socket leaves open.
-- Relay/Wiring fills that interface and the assumption, for each descriptor and for all of them together,
-- from the models of NewMulticastSocket, Close and Do, which in turn assume that the system's calls open
-- and close what their documentation says (Socket.Create.Open.Descriptors): closing a descriptor that is
-- open frees that one, and closing one that is not frees none;
-- and that the thread is in the namespace that was set last (Netns.Do.Restored.Thread).
--
-- The theorems about NewUnixServer take a file system whose calls change the entries and the listeners as
-- their documentation says (Control.Listener.Files.Files), and the one about the writes of a socket
-- takes a system that keeps a log of them and of settings that failed (Socket.Transfer.Log.Recorder).
--
-- Fuel. Only the loop of udpChecksum that folds the carries is on fuel. A sum below 2^32 is at most
-- 0x1fffe after one round and at most 0xffff after two, so three rounds are enough.
--
-- What is coarser than the code. In Relay/System a fan-out and a reconcile are one step each;
-- Relay/Concurrent cuts them. There, the cancellation of a context and of its children is one step, and
-- so are the closing of all sockets in a teardown, the building of one instance, and a write of the send
-- worker. Logging is left out.
--
-- What is not modelled: the parsing of the command line by package flag; serving HTTP and
-- the timeout of a request, which are net/http's; the exit code; the calls of the logger, of which
-- Middleware/Decode has only the attributes that packet_decode.go gives. Of Middleware/Decode, the DNS
-- library's Unpack, the decoding of UTF-8, unicode.ToUpper and the quoting of %q are parameters.
pub mod Base
pub mod Net
pub mod Paths
pub mod Strings
pub mod Netns
pub mod Middleware
pub mod Relay
pub mod Socket
pub mod Control
pub mod Command
pub mod Config
pub mod Logging
