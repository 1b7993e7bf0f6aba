-- ===== src/Deploy.antt =====
-- The deployment of the two contracts: bridge/src/deploy.rs. `Rounds` is the loop of a
-- deployment over what differs in the two, a `Plan`; `Chains` polls `DeployMain` by it. `Side` is
-- `DeploySide`, whose loop is written out there. `Info` is `DeployedContract::dump_info`.
pub mod Contract
pub mod Rounds
pub mod Chains
pub mod Side
pub mod Info
pub mod Made
pub mod Once
pub mod Dump
