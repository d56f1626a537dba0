-- ===== src/Apps/Examples.antt =====
-- Runs of the benchmark programs.
use homa_nic.Prelude.{
  ℕ, suc, ◌+◌, ◌-◌, ◌*◌, ◌/◌, ◌%◌, ◌^◌, ◌≤◌, ◌<◌, ◌≡◌, ◌⊎◌, refl, true, false, arith, length, ltb,
  if◌then◌else◌, ok,
}
use homa_nic.Apps.Header.{Header, encode, decode}
use homa_nic.Apps.Header.Card.{read_msghdr, read_msghdr-encode}
use homa_nic.Apps.Word.{metadata_word}
use homa_nic.Apps.Request.{
  request, memset, write_size, poll_offset, max_message_length, write_request,
}
use homa_nic.Apps.Fill.{Memory, fill, fill_lem}
use homa_nic.Apps.PingPong.{
  State, start, Step, store_ping, deliver_ping, see_ping, store_pong, clear_ping, deliver_pong,
  see_pong, clear_pong, Reach, nothing, step,
}
use homa_nic.Apps.PingPong.{waiting, clearing, polling}
use homa_nic.Apps.PingPong.Laws.{one_message, progress, early_ping_lost, Finished, Lost}

-- The first ping has been sent.
abbrev first_ping : State
first_ping = record start { client = waiting; pings = 1; pings_sent = 1 }

abbrev to_first_ping : Reach start first_ping
to_first_ping = step nothing (store_ping refl (omega arith) refl)

one_message_example :
    (first_ping.pings + first_ping.pongs ≤ 1)
    × ((first_ping.pings_sent ≡ first_ping.pongs_sent)
        ⊎ (first_ping.pings_sent ≡ suc first_ping.pongs_sent))
one_message_example = one_message first_ping to_first_ping

progress_example :
    ((t : State) × Step first_ping t)
    ⊎ Finished first_ping
    ⊎ (Lost first_ping × ((t : State) → ¬ (Step first_ping t)))
progress_example = progress first_ping to_first_ping

-- The server has stored its pong, the client has had it and has sent the step ping, all before the
-- server sets `*poll` to 0.
abbrev early : State
early = record start {
  client = waiting;
  server = clearing;
  server_poll = true;
  pings = 1;
  pings_sent = 2;
  pongs_sent = 1;
}

abbrev to_early : Reach start early
to_early =
    step
      (step
        (step
          (step
            (step
              (step (step to_first_ping (deliver_ping (omega arith) refl))
                (see_ping refl refl refl))
              (store_pong refl refl))
            (deliver_pong (omega arith) refl))
          (see_pong refl refl refl))
        (clear_pong refl refl))
      (store_ping refl (omega arith) refl)

-- The second ping has been delivered, and the server has then set `*poll` to 0.
abbrev lost : State
lost = record early { server = polling; server_poll = false; pings = 0 }

early_ping_lost_example :
    (lost.pings_sent ≡ early.pings_sent) × (lost.pongs_sent ≡ early.pongs_sent)
early_ping_lost_example =
    early_ping_lost early lost to_early refl (omega arith) (step nothing (clear_ping refl refl))

-- The header of a message of 64 bytes, as the ping-pong programs write it.
abbrev ping : Header
ping = record {
  unused = 0;
  saddr = memset 16 15;
  daddr = memset 16 10;
  sport = 1;
  dport = 1;
  buff_addr = 0;
  metadata = 262144;
  id = 0;
  completion_cookie = 0;
}

ping_word : metadata_word 64 0 ≡ 262144
unfolding metadata_word
ping_word = refl

read_msghdr-encode_example : read_msghdr (encode ping) ≡ record {
  unused = 0;
  saddr = memset 16 15;
  daddr = memset 16 10;
  sport = 1;
  dport = 1;
  buff_addr = 0;
  ret = 0;
  buff_size = 64;
  id = 0;
  completion_cookie = 0;
}
read_msghdr-encode_example = read_msghdr-encode ping (record {
  unused = omega arith;
  saddr = refl;
  daddr = refl;
  sport = omega arith;
  dport = omega arith;
  buff_addr = omega arith;
  metadata = omega arith;
  id = omega arith;
  completion_cookie = omega arith;
})

write_request_example :
    let h = request (write_size 15) 0 in
    (length (encode h) ≡ 64)
    × (decode (encode h) ≡ h)
    × (h.metadata / 2 ^ 12 ≡ 1000 * (15 + 1))
    × (h.metadata % 2 ^ 12 ≡ 0)
    × (poll_offset 15 + 1 ≡ 1000 * (15 + 1))
    × (poll_offset 15 < max_message_length)
write_request_example = write_request 15 (omega arith)

abbrev send_buffer : Memory
send_buffer = record { size = 1000000; byte = λ _. 0 }

fill_lem_example :
    (m' : Memory) × (fill send_buffer ≡ ok m')
    × (m'.size ≡ send_buffer.size)
    × ((p : ℕ) → m'.byte p ≡ (if ltb p (max_message_length - 64) then (p / 64 + 1) % 256 else 0))
fill_lem_example = fill_lem send_buffer refl
