-- ===== src/Js.antt =====
-- The part of JavaScript that the program rests on: its values, and asynchronous functions.
pub mod Decimal
pub mod Value
pub mod Blank
pub mod Exec
pub mod Text
pub mod Same
