-- ===== src/Examples.antt =====
-- Concrete inputs for the theorems of the library: scripted nodes, small streams and futures.
mod Node
mod BigEndian
mod Streams
mod Relays
mod Start
mod Collected
mod Running
mod Deploy
mod Cli
mod Deployer
mod Items
mod Records
