-- ===== src/Tests.antt =====
-- Runs of the modelled code with a toy cipher, hash and DH function.
mod Toy
mod Ciphers
mod Patterns
mod Handshakes
mod Turns
mod Keys
mod Names
mod Standards
mod Texts
mod Transport
mod Whole
mod Complete
