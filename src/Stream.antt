-- ===== src/Stream.antt =====
-- The byte streams of ServerSystem/Stream: `Buffer` is `ByteStreamBuffer`, `Writer` and `Reader`
-- are the two classes over it, `Text` their string
-- methods, `Fields` the words as one family; the other modules prove.
pub mod Buffer
pub mod Writer
pub mod Reader
pub mod Valid
pub mod Access
pub mod Appends
pub mod Consumes
pub mod Fields
pub mod ReadBack
pub mod RoundTrip
pub mod Text
pub mod TextStore
pub mod TextWrite
pub mod WideText
pub mod WideStore
pub mod WideRoundTrip
pub mod WideWrite
pub mod TextRead
pub mod TextScan
pub mod Bounds
pub mod TextRoundTrip
