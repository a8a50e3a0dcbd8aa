-- ===== src/Lib.antt =====
-- walletpair: verification of WalletPair, a protocol that pairs a dApp with a wallet by a relay and
-- carries sealed requests between them.
--
-- Parts of the program and of this library:
-- * Relay/ models the relay worker (walletpair-websocket-relay-cf-worker/src). Relay/Routing is
--   index.ts: the worker's `fetch` turns a request away or forwards it to the object of its
--   channel. Relay/Types is types.ts. Relay/Protocol is protocol.ts: validateChannelId,
--   validatePeerId, parseMessage (one definition for each message type), the messages that the
--   worker builds, and stateAllowsMessage. Relay/Channel is channel.ts, one `ChannelDO`: State has
--   its fields, sockets, storage and alarm in the record `Channel`, with findPeerWs, persistState
--   and ensureInitialized; Pairing has handleCreate, handleJoin and handleAccept; Traffic has
--   handleData, handleClose and handleDisconnect; Events has webSocketMessage, webSocketClose,
--   webSocketError and alarm; Runs has `fetch` and the histories of an object, in which the
--   platform delivers events, changes sockets and evicts the object from memory.
-- * Relay/Channel/Invariant, Transitions, Storage, Recovery, Delivery and Edges, with the lemmas of
--   States, Quiet and Sets, have the theorems, over every handler, on what a channel keeps, how its
--   state may change, when storage holds it, what an eviction leaves, who receives what, and what
--   sockets and objects that are out of date do.
-- * Json models the values of JSON.parse, and Base64 `atob` and `btoa`, which belong to the
--   language's platform. Common has the names and lemmas that all modules share.
-- * Sdk/ models the SDK (walletpair-sdk/src). Sdk/Types has the phases, messages and close reasons of
--   types.ts. Sdk/DApp is dapp-session.ts: State has the fields of `DAppSession`, serialize, setPhase
--   and sendRaw; Closing has close and what it clears; Reconnecting has the reconnection, the
--   lifetime and the heartbeat; Requests has request, nextSendSeq and resendPending; Joining has the
--   message `join`, acceptWallet and rejectWallet; Messages has handleMessage; Lifecycle has
--   createPairing, restore and the events of a session. Its folder's Soundness, Replays,
--   Numbering, Retries, Snapshots and Edges have the theorems on what a session keeps over events.
--   Sdk/Wallet is wallet-session.ts: State has the fields of `WalletSession`, serialize, setPhase and
--   sendRaw; Closing has close and nextSendSeq; Responses has approve, reject, pushEvent and the two
--   caches, which are maps of Sdk/Maps; Requests has the message `req` and processRequest;
--   Reconnecting has the join, the reconnection, the lifetime and the heartbeat; Messages has
--   handleMessage; Lifecycle has prepareJoin, confirmJoin, restore and the events of a session.
--   Soundness, Repeats, Answers, Duplicates, Asking and Edges have its theorems.
--   The record `Crypto` of each State is the interface of crypto.ts that the session calls.
--   Sdk/Crypto is crypto.ts: Encodings has base64url and the numbers in bytes; Primitives is the
--   interface of the third-party packages; Keys has the derived keys and the fingerprint; Payloads
--   has sealPayload, unsealPayload, sealJoin and unsealJoin; Snapshots has the signed snapshots;
--   PairingUris has buildPairingUri and parsePairingUri.
--   Sdk/Exchange has the two sessions together. Sdk/Objects has the assignment of properties.
--   Sdk/Transport is ws-transport.ts, with its sockets numbered and every event of a socket as a step.
--   Sdk/ChainIds has parseChainId of types.ts. Sdk/Errors is errors.ts and Sdk/DisconnectLog is disconnect-log.ts.
--   Sdk/Provider is evm/eip1193.ts: Endpoints has resolveEndpoints, jsonRpcFetchFailover and
--   serveReadOnly; Routing has the sets of methods and dispatch up to the request of the session;
--   Mapper has the default mapper's requests; Chains has the chain that dispatch adds; Numbers has
--   parseInt and toString, up to 2^53 - 1; Events has what the provider does with the events of its session, where a
--   run is a list of them; Urls has the URLs by chain and the filter of wallet_getCapabilities.
--
-- How it is modelled: a handler is a function from a channel to a channel; frames that go out are
-- recorded in `sent`, newest first. An exception is the value `thrown` beside the channel that it
-- leaves. Whether `ws.send` throws on a socket is the parameter `throws`, another one for each
-- event of a run; JSON.parse is the parameter `parse_json`. Times are natural numbers of
-- milliseconds that an event carries. Every loop goes through a list or a text; only the digits
-- of a request's id and of a chain have fuel, at least the number itself, which is never less than the digits
-- behind the first. A message's length is counted in UTF-16 units, as `message.length` does.
--
-- Not modelled: what the worker writes to the console, bodies and headers of its HTTP replies, and
-- the time stamps it writes into messages, which nothing reads. Handlers run to their end one after
-- another: the platform lets no other event in while one waits for storage.
-- A session's persistence saves at once or is absent; handlers of the application's listeners do not
-- call the session back; the delays of timers and the URL that a transport is given are left out. The
-- sessions call crypto.ts through an interface, on native texts. Of the EVM
-- provider, the mapping of results is not modelled, nor is wagmi.ts;
-- nor are the emitter, the extension, the examples and the relay in Rust.
pub mod Base64
pub mod Common
pub mod Json
pub mod Relay
pub mod Sdk
