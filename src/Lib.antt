-- ===== src/Lib.antt =====
-- A verification library for the peer-to-peer network stack in pydevp2p/devp2p, the Python part of
-- the repository. Its parts are the Kademlia overlay, which keeps a table of known nodes and looks
-- up nodes by their distance to an id, the datagrams that find nodes, and the layers between peers:
-- frames in a multiplexer, the encrypted session, its handshake, and the peers with their protocols.
--
-- Prelude: numbers, lists, results with the exceptions of the program, sorting by a key, bytes,
-- and methods that change an object and may raise.
--
-- Kademlia, for pydevp2p/devp2p/kademlia.py:
--   Node: class Node and the constants; Node.Members: lists of nodes without a repeated key.
--   Bucket: class KBucket; Bucket.Lru: add_node and remove_node against a bounded list in order of
--   last sighting; Bucket.Split: split.
--   Table: class RoutingTable. The program's table holds its buckets by reference, so here the
--   search for a bucket gives its place in the list. Lookup, Shape, Adds, Keeps, Effect, Ends,
--   Removal: the search, insertion and removal; Nearest: neighbours; Addresses: the update of a
--   node's address. Other references to a node of the table are only read for its id and key, so its
--   address is updated in the table alone.
--   Protocol: class KademliaProtocol; a method is a function from the object to the object and a
--   result or an exception, and what it wrote before it raised stays written. Messages go to an
--   outbox. The clock, the echo that the wire returns for a ping and the random numbers are
--   arguments. Protocol.Invariant: the invariant of the handlers; Protocol.Runs: any
--   sequence of calls; Protocol.Returns and Protocol.Fuel: the fuel of update.
--   Tests: the theorems on small tables.
--
-- Rlp: what the layers above use of the rlp package (encode, decode and consume_item), as a record
-- of operations, with the documented laws that the theorems need.
--
-- Multiplexer, for pydevp2p/devp2p/multiplexer.py:
--   Frame: class Frame, its constructor, header and body; Frame.Chunks: the chunks of a packet;
--   Frame.Layout: the sizes of the bytes; Frame.Total: the fuel of the constructor.
--   Cipher: the frame cipher that a multiplexer calls. State: class Multiplexer, its queues
--   and chunk buffers. Send: add_packet, the window sizes, pop_frames.
--   Receive: decode_header, decode_body, decode. Channel: two ciphers that stay in sync.
--   Transfer: the frames of one end read by the other; Transfer.Packets: by a list of frames;
--   Transfer.Delivered: a whole packet. Samples: a concrete rlp; Tests: the theorems on it.
--
-- Rlpx, for pydevp2p/devp2p/rlpxcipher.py, the RLPxSession of which is a cipher of Multiplexer:
--   Session: encrypt, decrypt_header, decrypt_body and the running hashes. Frames: what they give
--   on each branch. Channel, Wire: two sessions in sync; Tampered: frames with a changed tag.
--   Handshake: setup_cipher and the messages before it; Handshake.Messages and Handshake.Steps: the
--   layout of auth and ack, and what each step leaves in the session; Handshake.Agreement: the keys
--   of both ends. Samples: a toy cipher; Tests: the theorems on it.
--
-- Crypto, for pydevp2p/devp2p/crypto.py, which gives the sessions their keys:
--   Kdf: eciesKDF. Ecies: ecies_encrypt and ecies_decrypt; Delivered: one against the other;
--   Authentic: the checks of ecies_decrypt. Keys: class ECCx and the signatures; Carried: two
--   objects of ECCx as the ends of a handshake. Tests: a toy hash, cipher and curve.
--
-- MuxSession, for pydevp2p/devp2p/muxsession.py: class MultiplexedSession, which joins a multiplexer
--   with its session. Steps: the calls of the session that make up the handshake; Exchange: the
--   handshake between two ends. Tests: two ends with toy keys.
--
-- Peer, for pydevp2p/devp2p/peer.py, peermanager.py, p2p_protocol.py and protocol.py:
--   Protocol: the ids of the commands on the wire; Dispatch: their space. Commands: the commands of
--   BaseProtocol and their payloads; Payloads: a command from one end to the other.
--   State: the manager with its peers, in one record, as the methods of both change each other's
--   state; a peer is a number, and stands in the list until it is stopped. Handlers: what a peer
--   does with hello, disconnect and ping, and how peers come and go. Capabilities: the
--   services that a hello names. Search: connect and a round of the discovery loop; what other calls
--   do while it sleeps or connects is an argument. Shutdown: the stop of the manager. Marks: what the
--   manager keeps apart; Invariant, Handled: its invariant; Runs: any sequence of events. Monitor: the
--   pings of a connection. Tests: a manager with a caller.
--
-- Discovery, for pydevp2p/devp2p/discovery.py:
--   Items: what rlp reads and writes, and the operations of crypto.py, as interfaces. Datagram: pack,
--   unpack, and receive up to its dispatch. Accepted: receive of what pack makes; Genuine: the
--   datagrams that receive hands on. Endpoint: class Address. Messages: the payloads of the send
--   methods and what the recv methods read of them; Exchange: one against the other;
--   Arrival: whole messages. Tests: a toy hash, signature and encoding.
--
-- Times are whole milliseconds. An id is a number below 2 ^ 256 and a public key a list of bytes.
-- RoutingTable.add_node tries again after a split; its fuel is k_id_size + 1 rounds, enough since
-- each split halves the range of the bucket that the node falls in. KademliaProtocol.update calls
-- itself with a replacement after it has deleted an expected pong; its fuel is one more than the
-- number of expected pongs. The constructor of a frame calls itself for the rest of the payload;
-- its fuel is the length of the payload and two, enough since each call takes at least one byte.
-- decode has one more round than its buffer has bytes, since a frame takes at least 48 of them.
-- A loop over queued frames has one more round than there are frames. The loop of eciesKDF runs once
-- for each 64 in the length and 7 and once more, and ends with the round after. The stop of the
-- manager has one more round than there are peers. The loop of
-- ECCx.__init__ takes the random key pairs from a list, and may need any number of them.
--
-- Not modelled: sockets, greenlets, logging, configuration, UPnP and the limit on nested Python
-- calls; the hash and the integer decoder that make an id of a public key, which are parameters of
-- new_node; the ciphers, hashes and curve operations that crypto.py takes from other packages,
-- which are parameters; random keys, nonces and padding, which are arguments; the writing and
-- reading of a socket, broadcast, _bootstrap and the server in peer.py and peermanager.py; how
-- protocol.py collects the commands of a class; the remaining modules of pydevp2p, the experiments,
-- and the C++ and Go programs of the repository.
pub mod Prelude
pub mod Rlp
pub mod Kademlia
pub mod Multiplexer
pub mod Rlpx
pub mod Crypto
pub mod MuxSession
pub mod Peer
pub mod Discovery
