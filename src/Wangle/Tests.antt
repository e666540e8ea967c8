-- ===== src/Wangle/Tests.antt =====
-- Tests of the models of wangle/, and instances of their theorems.
use thrift_bench.Prelude.{
  ℕ, ◌+◌, ◌≡◌, refl, Option, none, some, List, [], ◌∷◌, length, arith, if◌then◌else◌, ◌==◌, lookup,
  insert, erase,
}
use thrift_bench.Wangle.Codec.{
  Message, sizeof_message, copy_message, new_message, overlay, read, write, serve,
}
use thrift_bench.Wangle.Codec.Bounds.{IsWhole, serve-write}
use thrift_bench.Wangle.Dispatcher.{
  Dispatcher, new_dispatcher, Event, calls, reads, expires, interrupt, handle_all,
}
use thrift_bench.Wangle.Dispatcher
use thrift_bench.Wangle.Dispatcher.Refine.{steps, empty, Agrees, handle_all-steps}
use thrift_bench.Wangle.Dispatcher.Late.{late-read}
use thrift_bench.Wangle.Client.{Reply}
use thrift_bench.Wangle.Client.Averages.{averages}

-- What the client makes for a size of two bytes.
abbrev small : Message
small = record { req_id = 3; extra_len = 2; client_send = 500; client_resp = 0; room = 7 ∷ 9 ∷ [] }

small-IsWhole : IsWhole small
small-IsWhole = record {
  id_fits = omega arith;
  extra_fits = omega arith;
  send_fits = omega arith;
  resp_fits = omega arith;
  allocated = refl;
}

new_message_small : (new_message 2 3 (7 ∷ 9 ∷ 4 ∷ [])).room ≡ small.room
unfolding new_message
new_message_small = refl

serve-write_example :
    (buf : List ℕ) × (write small ≡ some buf)
    × (length buf ≡ sizeof_message + 2)
    × (read (some buf) ≡ some (copy_message small ∷ []))
    × (serve (some buf) ≡ (if small.extra_len == 0 then some (buf ∷ []) else none))
serve-write_example = serve-write small small-IsWhole

read_short : read (some (1 ∷ 2 ∷ [])) ≡ none
unfolding read overlay
read_short = refl

abbrev history : List Event
history =
    calls small ∷ calls (record small { req_id = 4 }) ∷ reads (record small { req_id = 4 }) ∷ []

handle_all-steps_example : Agrees (handle_all history new_dispatcher) (steps history empty)
handle_all-steps_example = handle_all-steps history

abbrev waits : Dispatcher
waits = record {
  requests = (3, 0) ∷ [];
  next = 2;
  sent = small ∷ record small { req_id = 4 } ∷ [];
  values = (1, record small { req_id = 4 }) ∷ [];
}

waits-handle_all : handle_all history new_dispatcher ≡ some waits
unfolding handle_all new_dispatcher lookup insert erase
waits-handle_all = refl

waits-expired :
    handle_all (expires 3 ∷ []) (interrupt 3 waits) ≡ some (record waits { requests = [] })
unfolding handle_all interrupt erase
waits-expired = refl

late-read_example : Dispatcher.read small (record waits { requests = [] }) ≡ none
late-read_example =
    late-read history (expires 3 ∷ []) small waits (record waits { requests = [] }) waits-handle_all
      waits-expired (tt, tt)

abbrev round_of : ℕ → ℕ → Option Reply
round_of id current = some (record { req_id = id; client_send = 100; current = current })

averages_two :
    averages 0 0 ((0, round_of 1 110 ∷ none ∷ round_of 3 130 ∷ []) ∷ (64, round_of 4 160 ∷ []) ∷ [])
    ≡ (0, 20) ∷ (64, 33) ∷ []
averages_two = refl
