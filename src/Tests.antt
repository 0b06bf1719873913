-- ===== src/Tests.antt =====
-- Runs of the definitions and instances of the theorems at concrete inputs.
mod Proto
mod Fragments
mod Sending
mod Nonces
mod Receiving
mod Agents
mod Hosts
mod Restarts
mod Configs
mod Sessions
mod Forwards
mod Typed
mod Proxy
mod Listed
