-- ===== src/Command.antt =====
-- cmd: the commands `gremlins` and `unleash`, and their flags (cmd/internal/flags/flags.go).
-- Cobra, pflag and viper are outside the model; a flag is what is told to them.
pub mod Flags
pub mod Unleash
pub mod Cancel
pub mod Signals
pub mod Root
