-- ===== src/Session/Buffer.antt =====
-- ls_autobahn.h: the buffer that messages are packed into, with room for the size in front.
use basicmatch.Base.{
  ℕ, ◌+◌, ◌-◌, ◌*◌, ◌/◌, ◌%◌, ◌^◌, List, [], ◌∷◌, ◌++◌, length, take, ltb, if◌then◌else◌,
}

-- The bytes of the allocation, and what has been written behind the size field.
pub record Buffer : Type 0 where
  pub bufsize : ℕ
  pub bytes : List ℕ

unfoldable pub new_buffer : ℕ → Buffer
new_buffer size = record { bufsize = (size + 4) % 2 ^ 32; bytes = [] }

abbrev pub serial_size : Buffer → ℕ
serial_size b = 4 + length b.bytes

abbrev pub data_size : Buffer → ℕ
data_size b = serial_size b - 4

unfoldable pub clear_buffer : Buffer → Buffer
clear_buffer b = record b { bytes = [] }

-- buffer::write, which makes the allocation larger where the bytes do not fit.
unfoldable pub write : List ℕ → Buffer → Buffer
write bs b = record {
  bufsize =
      if ltb b.bufsize (serial_size b + length bs)
      then (b.bufsize + (length bs + 128)) % 2 ^ 32
      else b.bufsize;
  bytes = b.bytes ++ bs;
}

-- The four bytes of htonl(n) in memory, and ntohl of the first four bytes.
unfoldable pub htonl : ℕ → List ℕ
htonl n = n / 2 ^ 24 % 256 ∷ n / 2 ^ 16 % 256 ∷ n / 2 ^ 8 % 256 ∷ n % 256 ∷ []

unfoldable pub ntohl : List ℕ → ℕ
ntohl (a ∷ b ∷ c ∷ d ∷ rest) = a * 2 ^ 24 + b * 2 ^ 16 + c * 2 ^ 8 + d
ntohl _ = 0

-- What a send of the buffer hands over: the size and the bytes, of which TcpSocket::send takes as
-- many as its uint16_t says.
unfoldable pub serial : Buffer → List ℕ
unfolding htonl
serial b = htonl (data_size b) ++ b.bytes

unfoldable pub tcp_send : List ℕ → ℕ → List ℕ
tcp_send bs size = take (size % 2 ^ 16) bs
