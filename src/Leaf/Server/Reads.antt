-- ===== src/Leaf/Server/Reads.antt =====
-- What the answer to a read holds.
use thrift_bench.Prelude.{
  ℕ, ◌≤◌, ◌≡◌, refl, sym, ap, true, some, List, [], ◌∷◌, ◌++◌, length, take, drop, length-append,
  take_whole, ◌==◌, length-drop, arith, sub64,
}
use thrift_bench.Leaf.Aio.{Io, IoType}
use thrift_bench.Leaf.Server.{
  Os, Callback, Pending, after_read, init_asyncio, Reply, data_read, LeafHandler, new_handler,
  filename_to_path, read_flags, async_tm_read, submit, close_fd,
}
use thrift_bench.Leaf.Server.Requests.{new_io-made}
use thrift_bench.Leaf.Server.Steps.{
  asks_read, completes, works, runs, pick_at, complete, continue, work, reply, run_task, handle,
  handle_all,
}

-- The handler that waits for one read.
abbrev with_read : (path : List ℕ) → Callback → (fd : ℕ) → Pending → LeafHandler
with_read path cb fd p = record (new_handler path) {
  asyncio_base = some cb.base;
  fds = fd ∷ [];
  running = p ∷ [];
}

async_tm_read-submits :
    (os : Os) (path : List ℕ) (address ios fd bufp : ℕ) (stale : List ℕ) (cb : Callback)
    (filename : List ℕ) (size : ℕ)
    → os.open_at [] (filename_to_path (new_handler path) filename) read_flags ≡ some fd
    → os.accepts 0 (some fd) ≡ true
    → os.memalign size ≡ some bufp
    → (io : Io) × (async_tm_read os address ios stale cb filename size (new_handler path)
        ≡ some (
            with_read path cb fd (record {
              fd = some fd;
              io = io;
              buffer = stale;
              continuation = after_read cb size ios;
            })))
unfolding async_tm_read submit new_handler init_asyncio
async_tm_read-submits os path address ios fd bufp stale cb filename size opens accepts allocates =
    let (io, makes) = new_io-made os.memalign address fd size 0 IoType.read bufp allocates in
    (io, rw opens (rw makes (rw accepts refl)))

-- A read of a file that opens with `fd`, in a new handler, whose I/O is accepted. The answer has the
-- size asked for, whatever the kernel has read: its bytes, and after them what the buffer held
-- before. So a read of an empty file, which any file is after it is opened with `O_TRUNC`, answers
-- with the stale bytes alone. The callback is answered once, and the file is closed.
pub handle_all-stale :
    (os : Os) (path : List ℕ) (address ios ioe cs ce fd bufp : ℕ) (stale bytes : List ℕ)
    (cb : Callback) (filename : List ℕ) (size : ℕ)
    → os.open_at [] (filename_to_path (new_handler path) filename) read_flags ≡ some fd
    → os.accepts 0 (some fd) ≡ true
    → os.memalign size ≡ some bufp
    → length stale ≡ size
    → length bytes ≤ size
    → (h : LeafHandler) × (handle_all os
          (asks_read address ios stale cb filename size
            ∷ completes 0 ioe bytes
            ∷ works 0 cs ce
            ∷ runs 0
            ∷ [])
          (new_handler path)
        ≡ some h)
      × (h.results
          ≡ (
            cb,
            data_read (record {
              io_latency = sub64 ioe ios;
              contents = bytes ++ drop (length bytes) stale;
              cpu_consumed = sub64 ce cs;
            }),
          )
            ∷ [])
      × (length (bytes ++ drop (length bytes) stale) ≡ size)
      × (h.fds ≡ [])
unfolding handle_all handle new_handler pick_at complete continue work run_task reply close_fd
handle_all-stale os path address ios ioe cs ce fd bufp stale bytes cb filename size opens accepts
      allocates held few =
    let (io, submits) =
      async_tm_read-submits os path address ios fd bufp stale cb filename size opens accepts
        allocates in
    let self : fd == fd ≡ true = ground arith in
    let whole : length (bytes ++ drop (length bytes) stale) ≡ size = omega (
      arith,
      length-append bytes (drop (length bytes) stale),
      length-drop (length bytes) stale,
      held,
      few,
    ) in
    let answer : List ℕ → List (Callback × Reply) = λ contents.
      (
        cb,
        data_read (record {
          io_latency = sub64 ioe ios;
          contents = contents;
          cpu_consumed = sub64 ce cs;
        }),
      )
      ∷ [] in
    (
      record (new_handler path) {
        asyncio_base = some cb.base;
        results = answer (take size (bytes ++ drop (length bytes) stale));
      },
      rw submits (rw self refl),
      ap answer (take_whole size (bytes ++ drop (length bytes) stale) (sym whole)),
      whole,
      refl,
    )
