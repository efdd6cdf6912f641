-- ===== src/Cli.antt =====
-- cli/radio_cli.h and cli/radio_cli.c: the interactive checkout of the radio, which reads command
-- lines and calls the driver.
pub mod Text
pub mod Numerals
pub mod Tokens
pub mod Execute
pub mod Main
pub mod Session
pub mod Ends
pub mod Refusal
