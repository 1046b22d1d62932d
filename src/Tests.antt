-- ===== src/Tests.antt =====
-- Runs of the definitions on concrete inputs, and an instance of each theorem.
mod Memory
mod Codecs
mod Links
mod Nodes
mod Shares
mod Servers
mod Subscriptions
mod Texts
