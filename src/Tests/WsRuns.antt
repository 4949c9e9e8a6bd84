-- ===== src/Tests/WsRuns.antt =====
-- The byte stream at concrete inputs.
use mesquitte_client.Base.{All, arith, ◌≡◌, ◌≢◌, refl, List, [], ◌∷◌, ◌++◌, length}
use mesquitte_client.WsStream.{
  waits, item, binary, close, skipped, WsByteStream, ws_new, out_of_fuel, poll_read, poll_write,
  poll_fill_buf, fine, waiting, taken, rejected, connection_closed, poll_shutdown,
}
use mesquitte_client.WsStream.Fuel.{readers_end}
use mesquitte_client.WsStream.Bytes.{unread, InBounds, run_reads, run_reads_lem}
use mesquitte_client.WsStream.Buffered.{Shows, IsUsize, poll_fill_buf-Shows}
use mesquitte_client.WsStream.Writes.{
  Write, run_writes, contents, run_writes_count, run_writes-poll_shutdown,
}

abbrev stream : WsByteStream
stream = ws_new (
    item (binary (1 ∷ 2 ∷ 3 ∷ []))
    ∷ waits
    ∷ item skipped
    ∷ item (binary (4 ∷ []))
    ∷ item close
    ∷ [])

-- Reads of two bytes: a message is cut in two, a read finds nothing, the next message follows.
reads_test : (run_reads (2 ∷ 2 ∷ 2 ∷ 2 ∷ []) stream).0 ≡ 1 ∷ 2 ∷ 3 ∷ 4 ∷ []
unfolding run_reads poll_read
reads_test = refl

run_reads_lem_example :
    ((run_reads (2 ∷ 2 ∷ []) stream).0 ++ unread (run_reads (2 ∷ 2 ∷ []) stream).1
      ≡ 1 ∷ 2 ∷ 3 ∷ 4 ∷ [])
    × InBounds (run_reads (2 ∷ 2 ∷ []) stream).1.read
run_reads_lem_example = run_reads_lem (2 ∷ 2 ∷ []) stream tt

readers_end_example :
    ((poll_read 2 stream).0 ≢ out_of_fuel) × ((poll_fill_buf stream).0 ≢ out_of_fuel)
readers_end_example = readers_end 2 stream

lengths : All IsUsize stream.inner
lengths = (omega arith, (tt, (tt, (omega arith, (tt, tt)))))

poll_fill_buf-Shows_example : Shows stream (poll_fill_buf stream)
poll_fill_buf-Shows_example = poll_fill_buf-Shows stream tt (tt, lengths)

abbrev writes : List Write
writes =
    record { ready_poll = fine; sent = taken; buf = 1 ∷ 2 ∷ [] }
    ∷ record { ready_poll = waiting; sent = taken; buf = 3 ∷ [] }
    ∷ record { ready_poll = fine; sent = rejected connection_closed; buf = 3 ∷ [] }
    ∷ record { ready_poll = fine; sent = taken; buf = 3 ∷ [] }
    ∷ []

writes_test : (run_writes writes stream).0 ≡ 2
unfolding run_writes poll_write
writes_test = refl

run_writes_count_example :
    (run_writes writes stream).0 ≡ length (contents (run_writes writes stream).1)
run_writes_count_example = run_writes_count writes stream

run_writes-poll_shutdown_example :
    let after = run_writes writes (poll_shutdown fine stream).1 in (after.1 ≡ []) × (after.0 ≡ 0)
run_writes-poll_shutdown_example = run_writes-poll_shutdown fine writes stream
