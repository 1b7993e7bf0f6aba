-- ===== src/Lib.antt =====
-- parity-bridge relays deposits and withdrawals between two Ethereum chains, `main` and `side`. A
-- node polls one `Bridge` (bridge/src/bridge.rs) again and again. The bridge polls three relays;
-- each is a `RelayStream` over the logs of a contract, which a `LogStream` fetches in the ranges of
-- newly confirmed blocks that a `BlockNumberStream` finds. A `RelayStream` makes one future of every
-- log, which reads and writes the contracts, and an `OrderedStream` puts the results of these
-- futures into the order of blocks. The blocks relayed come back to the bridge, whose state is
-- then written to a file.
--
-- The files, and the sources that they model:
-- - Ordered.antt and its children: bridge/src/ordered_stream.rs. Orders are natural numbers, the
--   futures are any type with a polling function.
-- - BlockNumber.antt, LogStream.antt, Relay.antt with their children: the files
--   block_number_stream.rs, log_stream.rs and relay_stream.rs of bridge/src. Relay/Logs.antt puts
--   the streams of logs below the relays, by the interface `RangeSource` of Relay/Inv.antt.
-- - MainToSideSign.antt, SideToMainSign.antt, SideToMainSignatures.antt: the three kinds of relay
--   futures, of the files of these names in bridge/src.
-- - Bridge.antt: bridge/src/bridge.rs, over any relays with the interface `Ascends` of
--   Bridge/Persist.antt; Bridge/Relays.antt fills it by a `RelayStream`, and Bridge/Start.antt is
--   `Bridge::new` with the relays of the program.
-- - MainContract.antt, SideContract.antt, Helpers.antt: the requests to the contracts, and the
--   futures that wait for the answers (main_contract.rs, side_contract.rs, helpers.rs).
-- - SendTx.antt: bridge/src/send_tx_with_receipt.rs.
-- - Message.antt, Signature.antt: message_to_main.rs and signature.rs of bridge/src.
-- - Database.antt, Config.antt: database.rs and config.rs of bridge/src.
-- - Deploy.antt: bridge/src/deploy.rs, the futures that deploy the two contracts and the files that
--   record a deployment.
-- - Cli.antt: cli/src/main.rs, the executable that runs a bridge. Deployer.antt: deploy/src/main.rs,
--   the executable that deploys the contracts and writes the database.
-- - Error.antt: bridge/src/error.rs. Async.antt: polls, the macros of bridge/src/macros.rs, and the
--   loops that use them.
-- - Base.antt: what all files share. Examples.antt: concrete inputs.
--
-- A `poll` with a loop over a `match` on the state is a function `step` for one round, with a
-- function `on_…` for every state and a function `got_…` for what follows the answer of the future
-- that the state waits for. Its answer has, beside the cases of the futures library, one for a
-- panic (`expect`, `as_u64`, an index out of range) and one for a loop that has used up its rounds.
--
-- Bounds. Every loop takes a number of rounds. A round that goes on uses up an answer of a node or
-- a timer, so that more rounds than there are answers during one poll are enough; for the three
-- kinds of relay futures two, three and four rounds are enough whatever the nodes answer, and three
-- for a deployment. Block numbers have 64 bits: `as_u64` panics above, and the addition in
-- `LogStream` wraps around.
--
-- Parameters. Not part of the repository are the nodes, their transport and the timers (`Web3` in
-- Web3.antt), the code generated from the contracts (`Contracts`, and `Compiled` for their code and
-- constructors), big-endian numbers (`BigEndian`), files and folders (`Os` and `Folders` in
-- Os.antt), `join_all`, the hash, the printers and parsers of TOML and of the ABI, and what the
-- executables take from elsewhere: the event loop, the command line parser, the connections and
-- the combinator `and_then` (`Runtime` in Cli/Crates.antt). `Net` records the requests that have
-- been sent.
--
-- Not modelled: logging, and what the executables print; the `Timer` handle, which carries no
-- state; the serde functions for `U256`, which only call libraries; the transport that stands in
-- for a node in tests; the contracts in Solidity and their tests.
pub mod Base
pub mod Async
pub mod Ordered
pub mod Error
pub mod Signature
pub mod Message
pub mod Web3
pub mod BlockNumber
pub mod LogStream
pub mod Relay
pub mod Os
pub mod Config
pub mod Database
pub mod Contracts
pub mod Helpers
pub mod MainContract
pub mod SideContract
pub mod MainToSideSign
pub mod SideToMainSign
pub mod SideToMainSignatures
pub mod SendTx
pub mod Bridge
pub mod Deploy
pub mod Cli
pub mod Deployer
pub mod Examples
