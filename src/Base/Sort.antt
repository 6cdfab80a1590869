-- ===== src/Base/Sort.antt =====
-- sort.Slice, sort.SliceStable and sort.Strings of Go's library: what they promise fixes their
-- result for a comparison that is a weak order (SliceStable) or a total one (Slice, Strings), so
-- one stable insertion sort stands for all of them.
mod Keys
mod Laws
unfoldable pub use Keys.*
unfoldable pub use Laws.*
