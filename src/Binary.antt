-- ===== src/Binary.antt =====
-- pkg/binary: the wire formats. A byte is a number below 256, a byte slice a list of bytes, and a
-- float64 or float32 its bit pattern, so `math.Float64bits` and `math.Float64frombits` are the
-- identity. A destination slice is the bytes up to its capacity.
pub mod LittleEndian
pub mod Codec
pub mod Egress
pub mod Subscription
mod Tests
