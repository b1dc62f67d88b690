-- ===== src/Tests/Lines.antt =====
-- Runs of the input side: buffers, chunks and lines.
use squid_helper.Text.Truncate.{keeps_head_and_tail}
use squid_helper.Text.Case.{strtoupper_ascii}
use squid_helper.Buffer.Holds.{Pending, stored}
use squid_helper.Text.{truncate_string, strtolower, strtoupper}
use squid_helper.Input.Chunk.{on_bytes_lem, IsChunk, Consumed}
use squid_helper.Buffer.Grow.{buffer_prepare_append_lem, Extended}
use squid_helper.Buffer.Copy.{buffer_init_buffer_lem, Made}
use squid_helper.Buffer.Append.{buffer_append_string_len_lem, Appended}
use squid_helper.Buffer.{
  buffer_prepare_append, buffer_init_buffer, buffer_append_string_len, Buffer,
}
use squid_helper.Memory.{Mem, ◌>>=◌, ok, codes, Bytes}
use squid_helper.Input.Stream.{serve_lem, Served, IsClean}
use squid_helper.Input.{on_bytes, bytes, serve, Input}
use squid_helper.Base.{inl, map, List, true, some, [], ◌∷◌, ◌++◌, refl, ◌≡◌, arith}
use squid_helper.Tests.{piece, partial_line, piece-Holds}

abbrev keep_all : List Buffer → Buffer → List Buffer
keep_all q b = q ++ b ∷ []

abbrev waiting : Input (List Buffer)
waiting = record { tmp_line_buf = piece partial_line; jobs = []; watching = true; stdout = [] }

abbrev first_chunk : Bytes
first_chunk = codes ".0.1\n8 "

abbrev second_chunk : Bytes
second_chunk = codes "::1\n"

waiting-Pending : Pending (piece partial_line) (some partial_line)
waiting-Pending = record { holds = piece-Holds; tight = omega arith }

first_chunk-IsClean : IsClean first_chunk
first_chunk-IsClean = record {
  chunked = record { some_bytes = λ e. cc; fits = omega arith; free = ground arith };
  spaced = ground arith;
}

second_chunk-IsClean : IsClean second_chunk
second_chunk-IsClean = record {
  chunked = record { some_bytes = λ e. cc; fits = omega arith; free = ground arith };
  spaced = ground arith;
}

serve_two_chunks :
    Served keep_all waiting
      (codes "7 10.0.0.1" ∷ codes "8 ::1" ∷ [], [])
      (serve keep_all 3 waiting (bytes first_chunk ∷ bytes second_chunk ∷ []))
serve_two_chunks =
    serve_lem keep_all (first_chunk ∷ second_chunk ∷ []) 3 waiting (some partial_line) (omega arith)
      refl (first_chunk-IsClean, (second_chunk-IsClean, tt)) waiting-Pending (omega arith)

-- A chunk with an empty line inside.
abbrev gap_chunk : Bytes
gap_chunk = codes "1\n\n2"

gap_chunk-IsChunk : IsChunk gap_chunk
gap_chunk-IsChunk = record { some_bytes = λ e. cc; fits = omega arith; free = ground arith }

on_gap_chunk :
    Consumed keep_all waiting
      (codes "7 10.01" ∷ [], codes "\n2")
      (on_bytes keep_all waiting gap_chunk)
on_gap_chunk =
    on_bytes_lem keep_all waiting gap_chunk (some partial_line) gap_chunk-IsChunk waiting-Pending
      (omega arith)

append_two :
    Appended
      (buffer_append_string_len (some (piece partial_line)) (some (map some (codes ".0") ++ [])) 2)
      (some (codes "7 10.0.0"))
append_two =
    buffer_append_string_len_lem (piece partial_line) (some partial_line) (codes ".0") piece-Holds
      (omega arith) (omega arith, omega arith) [] (λ e. cc)

init_copy : Made (buffer_init_buffer (some (piece partial_line))) (some partial_line)
init_copy =
    buffer_init_buffer_lem (piece partial_line) (some partial_line) piece-Holds (omega arith)

append_room :
    Extended (piece partial_line) 60 (buffer_prepare_append (some (piece partial_line)) 60)
append_room =
    buffer_prepare_append_lem (piece partial_line) 60 piece-Holds.valid (omega arith) (omega arith)

capital_letters :
    (strtoupper (stored (codes "allow") []) ≡ ok (stored (codes "ALLOW") []))
    × ((strtolower (stored (codes "allow") []) >>= strtoupper)
        ≡ strtoupper (stored (codes "allow") []))
    × ((strtoupper (stored (codes "allow") []) >>= strtoupper)
        ≡ strtoupper (stored (codes "allow") []))
capital_letters = strtoupper_ascii (codes "allow") [] (ground arith)

shorten :
    (m : Mem) × (truncate_string (stored (codes "webcontrol") []) 6 (stored (codes "..") [])
      ≡ ok (stored (codes "we..ol") m))
shorten =
    keeps_head_and_tail (codes "we") (codes "bcontr") (codes "ol") (codes "..") [] [] (ground arith)
      (ground arith) refl (inl refl) (omega arith)
