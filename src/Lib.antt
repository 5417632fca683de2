-- ===== src/Lib.antt =====
-- The deploy and administration scripts of the Rome bridge and oracle: the guard that decides which chain
-- a script may send on, the deploy of RomeBridgeWithdraw 13.0.0 on Rubicon with its connection, its file
-- store and its build check, its constructor arguments, the plan of the CCTP domain list, the registry
-- update of the oracle contracts, and the deployments file.
--
-- How the parts interact. Every script asks the guard before it sends. The Rubicon deploy is one flow:
-- it reads the command line, asks the guard, validates the roles, reads the deployments file, builds
-- the constructor arguments, compares its owner with the owner of the live contract, compares the given
-- digest with the one of this deploy, sends, reads the contract back, fetches the mined transaction and
-- writes a record. A recovery takes the same flow without the send. The domain script compares a wanted
-- list with the contract's list and prints or sends the calls that close the difference; whether it may
-- send is decided by the guard too. The flow takes its send from the connection, which asks the guard once
-- more with the digest of what it is about to send, and its record write from the file store. The registry
-- update turns a deployments file of the oracle into the registry's two files; the other scripts read and
-- write their addresses and pools in a deployments file per network.
--
-- What models what:
--   Guard, Guard/Rubicon, Guard/Rpc: scripts/bridge/lib/testnet-guard.ts. `judgeChain` is judge_chain,
--     `judgeRubiconV13Deploy` is judge_rubicon_v13_deploy, `judgeSolanaGenesis` is
--     judge_solana_genesis; a gate (`assertTestnetSend` and the like) takes the answer of the RPC and
--     returns the id or the error that is thrown.
--   Domains/Spec, Domains/Registry, Domains/Plan, Domains/Send, Domains/Circle:
--     scripts/bridge/lib/cctp-domain-plan.ts (`parseDomainSpec`, `domainsFromRegistry`,
--     `planDomainChanges`, `canSend`, `checkCircleRecord`). A JavaScript Map is an association list whose
--     `insert` replaces; `byChain` is a search of the list that it indexes.
--   Domains/Contract: enableCctpDomain and disableCctpDomain of contracts/bridge/RomeBridgeWithdraw.sol
--     on the map from domains to kinds, and the loop of scripts/bridge/enable-cctp-domains.ts that
--     sends the calls and stops at the first revert.
--   Ctor, Ctor/Pdas: scripts/bridge/lib/withdraw-ctor-args.ts, scripts/bridge/derive/cctp-accounts.ts,
--     scripts/bridge/derive/wormhole-accounts.ts, scripts/bridge/constants.ts,
--     scripts/bridge/lib/wormhole-target-chain.ts and scripts/lib/pubkey.ts.
--   Deploy and its children: scripts/bridge/lib/rubicon-v13.ts. Args is `parseArgs`; Roles is
--     `validateRoles`; ReadBack is `verifyDeployment` and `buildOwnerCalls`; Tx is `deployDigest`,
--     `predictedAddress` and `deployTxProblems`; Record is `withV13Record` and `usdcFromDeployments`;
--     Env is `DeployDeps` and the errors; Retry is `verifyWithRetry` and `fetchMinedDeploy`; Prepare is
--     `runFlow` up to the send, and Flow is the rest and `runRubiconV13Deploy`. `stage.sendStarted` and
--     what a run did to the world (a send, a record) are fields of Run.
--   Inputs: scripts/bridge/lib/burn-recipient.ts and scripts/bridge/lib/deploy-roles.ts
--     (`resolveBurnRecipient`, `resolveBurnAmount`, `resolveRoles`).
--   Connection: `depsFromConnection` and `isEntryPoint` of scripts/bridge/deploy-rubicon-v13.ts; `deploy`
--     there is deploy, which ends in a DeployEnd: refused before the transaction goes to the wallet,
--     failed after that, or created.
--   FileStore, FileStore/Entry: `fileStore` of scripts/bridge/deploy-rubicon-v13.ts. `writeAtomic` is
--     write_atomic, its `try` is replace with fill and swap_in, its `catch` is clean_up; `addRecord` is
--     add_record. A state of the world is passed through the calls of Node's fs.
--   Provenance and its children: scripts/bridge/lib/build-provenance.ts. Check is
--     `checkBuildProvenance`, Same is `sameJson`, Sources is `checkDependencySources`, whose two loops are
--     want_sources and packages_problems.
--   Oracle and its children: scripts/oracle/lib/emit-registry-update.ts. Feeds is `buildOracle`; Versions
--     is `updateForName`; Contracts is `buildContracts` and `emitRegistryUpdate`.
--   Deployments, Deployments/Addresses, Deployments/Pools: scripts/lib/deployments.ts.
--   Mints: `bridgedMintsFrom` of scripts/bridge/lib/ensure-bridge-atas.ts.
--   Prelude and its children: lists, Boolean tests, results of functions that throw, JavaScript numbers,
--     32-bit bit operations, JSON values, and the string operations that the scripts use.
--
-- Parameters. viem, @solana/web3.js and bs58 are records of functions; JSON.parse and JSON.stringify, the
-- file store, the checkout, the chain and the wallet are fields of DeployDeps, as in the source. A
-- dependency that answers at several moments of a run takes the moment. `String` of a JSON value is an argument where a
-- registry's chains are told apart. Circle's record is a function
-- from a domain and a kind where the contract reads it. Node's fs is a record of functions on a state of
-- the world, each of which may fail; FileStore/Laws says which file each of them changes. What JSON.parse
-- gives for a text that was written is a hypothesis where a theorem needs it.
--
-- Choices. An error message is a constructor with the values that it prints; the retry's test of an
-- error's text is a match on that constructor. A number that comes from outside is a JsNumber: a whole
-- number, a negative one, or not a whole number. `toLowerCase` is modelled on ASCII letters. The two retry loops
-- are recursions on the number of attempts that are left, four as in the source, so they need no other bound.
-- `parseArgs` recurses on the arguments. The loop that writes a buffer has as much fuel as the buffer has
-- bytes, which is enough since each pass writes a byte or throws. Version numbers and counts are exact
-- naturals, as JavaScript's numbers are below 2 ^ 53; the theorem on new version numbers asks for that. `sameJson` is read on JSON values whose objects have distinct keys and whose numbers are whole.
--
-- Not modelled: log lines, pauses between attempts, the simulation of the owner calls (printed, never
-- fatal), the accounts of a list of domains, the per-mint Wormhole accounts, the
-- artifact and build profile that the deploy's `source` reads, its compile step and `main`,
-- `fetchTarballFromRegistry`, and every script that only calls these parts and prints.
pub mod Prelude
pub mod Guard
pub mod Domains
pub mod Ctor
pub mod Deploy
pub mod Inputs
pub mod Oracle
pub mod Deployments
pub mod FileStore
pub mod Connection
pub mod Provenance
pub mod Mints
