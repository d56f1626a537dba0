-- ===== src/Apps/Request.antt =====
-- app/src/perf_write.cc: the requests that it writes to the card, one size after the other.
use homa_nic.Prelude.{ℕ, zero, suc, ◌+◌, ◌-◌, ◌*◌, ◌/◌, ◌%◌, ◌^◌, ◌<◌, ◌≡◌, refl, List, [], ◌∷◌}
use homa_nic.Prelude.{arith, length}
use homa_nic.Apps.Header.{Header, encode, decode, IsHeader}
use homa_nic.Apps.Header.Layout.{length-encode, decode-encode}
use homa_nic.Apps.Word.{metadata_word, metadata_word-parts}

-- `HOMA_MAX_MESSAGE_LENGTH`, the size of the buffer that a message is received in.
abbrev pub max_message_length : ℕ
max_message_length = 1000000

-- `memset` of an array of `n` bytes.
abbrev pub memset : ℕ → ℕ → List ℕ
memset zero c = []
memset (suc n) c = c ∷ memset n c

-- The header of a message; what is not assigned is 0, since the struct is static.
unfoldable pub request : ℕ → ℕ → Header
request size retoff = record {
  unused = 0;
  saddr = memset 16 15;
  daddr = memset 16 10;
  sport = 1;
  dport = 1;
  buff_addr = 0;
  metadata = metadata_word size retoff;
  id = 0;
  completion_cookie = 0;
}

-- The size of the messages of round `i`, and the byte of the receive buffer that is polled.
abbrev pub write_size : ℕ → ℕ
write_size i = 1000 * (i + 1) % 2 ^ 32

abbrev pub poll_offset : ℕ → ℕ
poll_offset i = write_size i - 1

abbrev pub write_rounds : ℕ
write_rounds = 200

request-IsHeader :
    (size retoff : ℕ) → metadata_word size retoff < 2 ^ 32 → IsHeader (request size retoff)
unfolding request
request-IsHeader size retoff h = record {
  unused = omega arith;
  saddr = refl;
  daddr = refl;
  sport = omega arith;
  dport = omega arith;
  buff_addr = omega arith;
  metadata = h;
  id = omega arith;
  completion_cookie = omega arith;
}

metadata-request : (size retoff : ℕ) → (request size retoff).metadata ≡ metadata_word size retoff
unfolding request
metadata-request size retoff = refl

-- In each of its 200 rounds perf_write stores the 64 bytes of a header from which the header can be
-- read back, whose metadata word holds the size 1000 * (i + 1) of the message above the offset 0,
-- and it polls the last byte of that message, inside the receive buffer.
pub write_request :
    (i : ℕ)
    → i < write_rounds
    → let h = request (write_size i) 0 in
      (length (encode h) ≡ 64)
      × (decode (encode h) ≡ h)
      × (h.metadata / 2 ^ 12 ≡ 1000 * (i + 1))
      × (h.metadata % 2 ^ 12 ≡ 0)
      × (poll_offset i + 1 ≡ 1000 * (i + 1))
      × (poll_offset i < max_message_length)
write_request i l =
    let (w, s, r) = metadata_word-parts (write_size i) 0 (omega arith) (omega arith) in
    let v = request-IsHeader (write_size i) 0 w in
    (
      length-encode (request (write_size i) 0) v,
      decode-encode (request (write_size i) 0) v,
      rw (metadata-request (write_size i) 0) (omega (arith, s)),
      rw (metadata-request (write_size i) 0) r,
      omega arith,
      omega arith,
    )
