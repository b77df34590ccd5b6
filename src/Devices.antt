-- ===== src/Devices.antt =====
-- dashboard/lib/devices.js: pairing codes, the limits on guessing them, and the tokens of paired
-- devices. A call reads the clock once. The store is the parsed content of its file, which every write
-- replaces; what the random generators return is an input. `digest` stands for the hexadecimal SHA-256,
-- `clean` for the replacements by regular expressions that make a name safe, and `show` for the text
-- of a number.
pub mod Pairing
pub mod Guesses
pub mod Once
pub mod Store
pub mod Manage
pub mod Names
pub mod Tokens
pub mod Refresh
pub mod Exchange
pub mod Paired
mod Examples
