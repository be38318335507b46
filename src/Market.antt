-- ===== src/Market.antt =====
-- The abstract market that both order books implement: one side of a book is a list of lots in
-- priority order, best first. It is stated with no levels, index maps or pointers.
pub mod Sweep
pub mod Place
