-- ===== src/Lib.antt =====
-- A model of the parts of Clawsembly Kernel that decide: the shared worker that lets browser tabs
-- share one OpenClaw runtime, the frame that talks to it, the handoff of a model capability and
-- the bridge that uses it, the snapshot store, the reader of the package image, the validators of
-- agent turns, and on the server the broker of capabilities and the worker in front of it.
--
-- How the parts interact. The page hands a capability to the runtime frame (Byok for
-- src/byok-capability-handoff.ts, Runtime for src/byok-runtime.ts). The frame reaches the shared
-- worker by a message port (Coordinator for src/openclaw-shared-worker.ts), which makes the oldest
-- tab the owner of the runtime and routes requests and answers. The guest's model requests are
-- answered by the bridge (Bridge for src/byok-http-bridge.ts) inside that capability. The
-- runtime's files come from the package image (FsImage for src/clawsemblyfs.ts) or from a snapshot
-- (Opfs for src/opfs-directory-store.ts). AgentTurn stands for
-- src/openclaw-agent-turn-response.ts, Boot for src/openclaw-boot-cache.ts and
-- src/openclaw-runtime-recovery.ts, and Byok/Config for src/openclaw-capability-config.ts. An
-- opaque capability stands for a session in a broker on the server (Broker for
-- worker/byok-broker.mjs), which holds the credential of the provider; the worker in front of it
-- names the broker in the token (Worker for worker/index.mjs).
--
-- Shared: Prelude has lists, equality, insertion-ordered maps and sets (`JsMap`, `JsSet`), Js the
-- JavaScript values that cross a port, JsText the strings that a source walks through,
-- as lists of UTF-16 code units. An array may have named properties, as after a structured clone.
--
-- Correspondence. Coordinator: the record `Coordinator` holds the variables of the worker and a
-- log of posts; Owner has `send`, `broadcast`, `chooseOwner`, `disconnect`; Route has
-- `rememberWizardNextResponse`, `rememberWizardResult`, `routeOwnerOutput`; Handle has
-- `wizardNextKey`, the handler of a port's messages and `onconnect`. Opfs: names, paths and
-- `validateManifest`; Disk has the file system, Commit `commitDirectoryTreeToOpfs` with the list
-- of its writes (a call of the file system that throws ends it after some of them,
-- `Opfs.Disk.interrupted`), Restore `restoreDirectoryTreeFromOpfs`. FsImage:
-- `parseClawsemblyFs`; Writer describes the format that scripts/build-openclaw-package-image.mjs writes. Runtime: the handlers
-- with the log of their effects. Bridge: `parseRequest`, `processRequest` and one round of the
-- loop.
--
-- Broker: `Session` is the stored record; Identity has `resolveOpenAiIdentity`, Issue `issue` and
-- `startOpenAiDeviceCode`, Poll `pollOpenAiDeviceCode`, Forward `forwardModelRequest` cut at its
-- two critical sections, `revoke` and `alarm`; World is the step relation of its events, and Fetch
-- has `fetch`. Worker has `parseRoutedCapability`, Capability `issueByokCapability`,
-- `startOpenAiDeviceAuthorization` and `routeByokCapability` over the stores of all brokers,
-- Manifest `validateRuntimeManifest`, `loadRuntimeManifest`, `resolveRuntimeArtifact` and the
-- paths of `handleRequest`, Artifact `serveRuntimeArtifact` over a bucket and a cache.
--
-- Parameters. Whether `postMessage` throws and what `JSON.stringify` gives (`Coordinator.Host`);
-- the text decoder; the URL parser; JSON, SHA-256 and the sorting of directories
-- (`Opfs.Disk.Platform`); reading, `JSON.parse`, `fetch` and failing writes (`Bridge.Host`); the
-- authorization service, the provider, digests, JSON, base64 and numbers (`Broker.Env`); the
-- secrets and the times are arguments; the ids of brokers (`Worker.Capability.Platform`).
--
-- Bounds and fuel. The recursion of `chooseOwner` through failing posts is cut by fuel, one round
-- for each connected port and one more, since each nested call has lost a port. All other
-- functions recurse on their data. Numbers are natural numbers; the image reader checks that sizes
-- are safe integers as the source does.
--
-- Not modelled: the pages and probes, the SDK and the guest, generated code, scripts, brokers in
-- other languages; the worker's other assets and its health and failure answers, how numbers and
-- digests are printed in headers; the evidence records, the storage estimate, timers and locks. A
-- capability's slot and messages are values without functions or cycles.
pub mod Prelude
pub mod Js
pub mod Coordinator
pub mod JsText
pub mod FsImage
pub mod AgentTurn
pub mod Opfs
pub mod Byok
pub mod Runtime
pub mod Bridge
pub mod Boot
pub mod Broker
pub mod Worker
