-- ===== src/AsyncIo/Request/Framing.antt =====
-- The socket drives the read callback: whatever the sizes in which the kernel hands out the bytes,
-- the callback delivers the stream in requests of the fixed size.
use thrift_bench.Prelude.{
  ℕ, ◌+◌, ◌-◌, ◌≤◌, ◌<◌, min, ◌≡◌, refl, ◌∙◌, inl, inr, Option, none, some, List, [], ◌∷◌, ◌++◌,
  append-nil, append_assoc, ◌==◌, ◌>>=◌, length, take, drop, length-take, take-append-drop,
  concat-append, All-append, arith, Bool-cases,
}
use mathlib.Core.List.{map-append}
use thrift_bench.AsyncIo.Request.{
  ReadCallback, request_size, new_callback, register_read_callback, read_data_available,
}
use thrift_bench.AsyncIo.Request.Chunks.{
  write_at, pending, IsReady, on_readable, receive, take-write_at, length-write_at, Allocates,
  Framed, get_read_buffer_lem, read_data_available_lem, write_at_full, regroup,
}

-- What `read_data_available` makes of a chunk that fits the room.
chunk-Framed :
    (rc : ReadCallback) (xs : List ℕ) (off : ℕ) (chunk rest stream : List ℕ)
    → IsReady rc
    → length xs ≡ rc.req_size
    → off < rc.req_size
    → take off xs ≡ pending rc
    → length chunk ≤ rc.req_size - off
    → chunk ++ rest ≡ stream
    → Framed rc stream (do
      (rc2, out) ←
          read_data_available
            (length chunk)
            (record rc { raw_bufp = some (write_at xs off chunk); bytes_read = off })
      some (rc2, out, rest))
chunk-Framed rc xs off chunk rest stream v l h p fits e =
    elim (Bool-cases (off + length chunk == rc.req_size)) [
      | inl full ↦ record {
        after = record rc { raw_bufp = none; bytes_read = 0 };
        rest = rest;
        frames = write_at xs off chunk ∷ [];
        returns =
            rw
              (read_data_available_lem rc (write_at xs off chunk) off (length chunk) v h fits, full)
              refl;
        ready = record {
          connected = v.connected;
          room = omega arith;
          small = v.small;
          block = refl;
        };
        same_size = refl;
        whole_size = (length-write_at xs chunk off (omega arith) ∙ l, tt);
        in_order =
            rw (append-nil, write_at_full xs chunk off (ground arith), p)
              (regroup (pending rc) chunk rest stream e);
      }
      | inr more ↦ record {
        after = record rc {
          raw_bufp = some (write_at xs off chunk);
          bytes_read = off + length chunk;
        };
        rest = rest;
        frames = [];
        returns =
            rw
              (read_data_available_lem rc (write_at xs off chunk) off (length chunk) v h fits, more)
              refl;
        ready = record {
          connected = v.connected;
          room = ground arith;
          small = v.small;
          block = length-write_at xs chunk off (omega arith) ∙ l;
        };
        same_size = refl;
        whole_size = tt;
        in_order =
            rw (take-write_at xs chunk off (omega arith), p)
              (regroup (pending rc) chunk rest stream e);
      }
    ]

module _ (malloc : ℕ → Option (List ℕ)) (allocates : Allocates malloc) where
  pub on_readable-Framed :
      (k : ℕ) (stream : List ℕ) (rc : ReadCallback)
      → IsReady rc
      → Framed rc stream (on_readable malloc k stream rc)
  unfolding on_readable
  on_readable-Framed k stream rc v =
      let (off, xs, got, l, h, p) = get_read_buffer_lem malloc allocates rc rc.raw_bufp refl v in
      let n = min k (rc.req_size - off) in
      rw got (
        chunk-Framed rc xs off (take n stream) (drop n stream) stream v l h p
          (omega (arith, length-take n stream)) (take-append-drop n stream))

  glue :
      (k : ℕ) (ks stream : List ℕ) (rc : ReadCallback)
      (first : Framed rc stream (on_readable malloc k stream rc))
      → Framed first.after first.rest (receive malloc ks first.rest first.after)
      → Framed rc stream (receive malloc (k ∷ ks) stream rc)
  unfolding receive
  glue k ks stream rc first more = record {
    after = more.after;
    rest = more.rest;
    frames = first.frames ++ more.frames;
    returns = rw (first.returns, more.returns, map-append, first.same_size) refl;
    ready = more.ready;
    same_size = more.same_size ∙ first.same_size;
    whole_size =
        All-append _ first.frames more.frames first.whole_size
          (rw first.same_size at more.whole_size);
    in_order =
        rw (concat-append first.frames more.frames, append_assoc, more.in_order) first.in_order;
  }

  -- Whatever sizes `ks` the kernel hands the bytes out in, no assertion fails, the deliveries are
  -- whole requests, and in order they are the stream but for what is pending or not yet received.
  pub receive-Framed :
      (ks stream : List ℕ) (rc : ReadCallback)
      → IsReady rc
      → Framed rc stream (receive malloc ks stream rc)
  unfolding receive
  receive-Framed [] stream rc v = record {
    after = rc;
    rest = stream;
    frames = [];
    returns = refl;
    ready = v;
    same_size = refl;
    whole_size = tt;
    in_order = refl;
  }
  receive-Framed (k ∷ ks) stream rc v =
      let first = on_readable-Framed k stream rc v in
      glue k ks stream rc first (receive-Framed ks first.rest first.after first.ready)

-- A callback that the constructor accepts and that is registered delivers any stream, received in
-- pieces of any sizes, as its requests of 4096 bytes in order: no assertion fails, what has been
-- delivered, what is still pending and what is not yet received make up the stream, and the
-- callback is ready for more, with less than one request pending. `malloc` is taken to have memory.
pub new_callback-Framed :
    (malloc : ℕ → Option (List ℕ))
    → Allocates malloc
    → (ks stream : List ℕ) (n : ℕ) (rc : ReadCallback) → new_callback n ≡ some rc
    → let rc0 = register_read_callback rc in
      Framed rc0 stream (receive malloc ks stream rc0)
      × (rc0.req_size ≡ request_size)
      × (pending rc0 ≡ [])
unfolding new_callback register_read_callback
new_callback-Framed malloc allocates ks stream n rc e =
    let null : rc.raw_bufp ≡ none = ground arith in
    let unread : rc.bytes_read ≡ 0 = ground arith in
    (
      receive-Framed malloc allocates ks stream (register_read_callback rc) (record {
        connected = refl;
        room = ground arith;
        small = ground arith;
        block = rw null unread;
      }),
      ground arith,
      rw null refl,
    )
