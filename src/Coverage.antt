-- ===== src/Coverage.antt =====
-- internal/coverage: coverage.go, which turns the blocks of a coverage profile into a `Profile`,
-- and profile.go, which asks whether a position is covered.
-- Running `go mod download` and `go test -cover` is outside the model; their result is a parameter.
pub mod Profile
pub mod Parse
pub mod Run
