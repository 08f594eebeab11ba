-- ===== src/Tests.antt =====
-- Runs of the model at small inputs, and the theorems at inputs that meet their hypotheses.
mod Spillway
mod World
mod Receive
mod Send
mod Driving
mod Peer
mod Buffers
mod Server
mod Client
mod Framing
mod Completions
mod Race
mod Histories
mod Level
mod Listener
mod RpcClient
