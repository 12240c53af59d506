-- ===== src/Client.antt =====
-- tsf/Ohagey/OhageyProtocol.h and OhageyEngineClient.cpp: the client of the conversion engine.
pub mod Parse
pub mod Messages
pub mod Response
pub mod Os
pub mod Launch
pub mod Frame
pub mod Exchange
pub mod Calls
pub mod Keeps
mod Tests
mod Runs
