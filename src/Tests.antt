-- ===== src/Tests.antt =====
-- The keyserver at concrete inputs.
mod Launchers
mod Monitors
mod Queue
mod Templates
mod Reflector
mod Grants
mod Pods
mod Serving
mod Gateway
mod Nodes
mod Commands
mod Sample
mod Requests
mod Batches
mod Configuration
mod Signatures
mod KeyclientRounds
