-- ===== src/Tests.antt =====
-- Each theorem at a concrete input of the code that it is about (carbonc/).
mod Conditions
mod Instructions
mod Memory
mod Frames
mod Scopes
mod Tokens
mod Lexing
mod Parsing
mod Typing
mod Texts
