-- ===== src/Cactus/Buffered/Stream/Tests.antt =====
-- tools/cactus: each theorem at a reader that meets its conditions.
use cpp_many_tasks.Prelude.{ℕ, ◌<◌, ◌≡◌, ◌⊎◌, none, some, List, [], ◌∷◌, ◌++◌, arith, length, drop}
use cpp_many_tasks.Cactus.Reader.{IsStream, read_full}
use cpp_many_tasks.Cactus.Reader.Full.{read_full_lem}
use cpp_many_tasks.Cactus.Buffered.{View, Buffer, view_reader, as_reader, buffered_reader}
use cpp_many_tasks.Cactus.Buffered.Stream.{
  buffered-IsStream, view_reader-IsBuffered, read_full-buffered,
}

abbrev view : View
view = record { buf = 10 ∷ 11 ∷ 12 ∷ []; pos = 1 }

abbrev view_stream : IsStream (as_reader view_reader)
view_stream = buffered-IsStream view_reader-IsBuffered

read_full_lem_example :
    ((bytes : List ℕ) × (t : View) × (read_full (as_reader view_reader) 2 view ≡ (some bytes, t))
      × view_stream.valid t
      × (view_stream.pending view ≡ bytes ++ view_stream.pending t)
      × (length bytes ≡ 2))
    ⊎ ((t : View) × (read_full (as_reader view_reader) 2 view ≡ (none, t))
        × view_stream.valid t
        × (view_stream.pending t ≡ [])
        × (length (view_stream.pending view) < 2))
unfolding buffered-IsStream view_reader-IsBuffered
read_full_lem_example = read_full_lem view_stream 2 view (omega arith)

abbrev buffer : Buffer View
buffer = record { underlying = view; bytes = 8 ∷ 9 ∷ []; pos = 1; cap = 2 }

abbrev left : List ℕ
left = 9 ∷ 11 ∷ 12 ∷ []

read_full-buffered_example :
    ((bytes : List ℕ) × (c : Buffer View) × (read_full
          (as_reader (buffered_reader (as_reader view_reader)))
          3
          buffer
        ≡ (some bytes, c))
      × (left ≡ bytes ++ (drop c.pos c.bytes ++ view_stream.pending c.underlying))
      × (length bytes ≡ 3))
    ⊎ ((c : Buffer View) × (read_full (as_reader (buffered_reader (as_reader view_reader))) 3 buffer
          ≡ (none, c))
        × (drop c.pos c.bytes ++ view_stream.pending c.underlying ≡ [])
        × (length (left) < 3))
unfolding buffered-IsStream view_reader-IsBuffered
read_full-buffered_example =
    read_full-buffered view_stream 3 buffer (omega arith) (omega arith) (omega arith)
