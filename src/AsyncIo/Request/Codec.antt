-- ===== src/AsyncIo/Request/Codec.antt =====
-- `struct request` as its bytes: `requestid` in little-endian order, and the zeros of `buf`.
use thrift_bench.Prelude.{
  ℕ, ◌+◌, ◌-◌, ◌^◌, ◌<◌, ◌≡◌, List, ◌++◌, length, take, replicate, length-replicate, arith,
}
use thrift_bench.Prelude.Bytes.{le_bytes, le_value}
use thrift_bench.AsyncIo.Request.{request_size}

-- `new request()` clears the struct, and the client sets `requestid`.
padded : ℕ → ℕ → List ℕ
padded n id = le_bytes 8 id ++ replicate n 0

pub request_bytes : ℕ → List ℕ
unfolding padded
request_bytes id = padded (request_size - 8) id

-- `reqp->requestid`, read through the cast of the buffer.
pub request_id_of : List ℕ → ℕ
request_id_of buf = le_value (take 8 buf)

length-padded : (n id : ℕ) → length (padded n id) ≡ n + 8
unfolding padded
length-padded n id = omega (arith, length-replicate {A = ℕ} n 0)

request_id_of-padded : (n id : ℕ) → id < 2 ^ 64 → request_id_of (padded n id) ≡ id
unfolding padded request_id_of
request_id_of-padded n id h = omega arith

pub length-request_bytes : (id : ℕ) → length (request_bytes id) ≡ request_size
unfolding request_bytes padded
length-request_bytes id = length-padded (request_size - 8) id

-- An identifier below 2^64, written into the bytes of a request, is what is read back from them.
pub request_id_of-request_bytes : (id : ℕ) → id < 2 ^ 64 → request_id_of (request_bytes id) ≡ id
unfolding request_bytes padded
request_id_of-request_bytes id h = request_id_of-padded (request_size - 8) id h
