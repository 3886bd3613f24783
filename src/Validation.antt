-- ===== src/Validation.antt =====
-- pkg/validation/shared.go, and the local validator of internal/validation that calls it: the check of
-- a row's fields by the rules of a revision. Go's regular expressions are the parameter `matches`, from
-- a pattern and a text; a row is the list of its fields, in the order in which Go ranges over the map.
pub mod Rules
pub mod Verdict
