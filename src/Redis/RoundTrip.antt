-- ===== src/Redis/RoundTrip.antt =====
-- What `RespWriter` writes, `RespReader` reads back.
use cpp_many_tasks.Prelude.{
  ℕ, ◌^◌, ◌<◌, ◌≡◌, none, some, List, [], ◌∷◌, ◌++◌, length, append_assoc, All,
}
use cpp_many_tasks.Prelude.Int.{ℤ, pos}
use cpp_many_tasks.Std.Decimal.{to_string, to_string_nat, IsInt64}
use cpp_many_tasks.Redis.Types.{
  ERespType, simple_string, int, error, bulk_string, array, resp_type_to_char, ok,
}
use cpp_many_tasks.Redis.Reader.{
  Reading, read_type, read_simple_string, read_error, read_int, read_bulk_string, read_array_length,
}
use cpp_many_tasks.Redis.Writer.{
  end_string, write_simple_string, write_error, write_int, write_bulk_string,
  write_null_bulk_string, start_array,
}
use cpp_many_tasks.Redis.Lines.{
  IsPlain, line_limit, read_basic_string_to_buf-IsPlain, number_line, read_length-to_string_nat,
  null_line, read_bulk_body-append, read_type_of, head-to_string,
}

-- From the bytes of a message, before `rest`, `read_type` takes the type `t` and `read` the value `a`.
abbrev pub IsMessage : {A : Type 0} → ERespType → Reading A → A → List ℕ → List ℕ → Type 0
IsMessage t read a bytes rest =
    (line : List ℕ) × (read_type (bytes ++ rest) ≡ (ok t, line)) × (read line ≡ (ok a, rest))

-- A message from its type and its lines.
from_lines :
    {A : Type 0} (t : ERespType) (read : Reading A) (a : A) (lines : List ℕ)
    → ((rest : List ℕ) → read (lines ++ rest) ≡ (ok a, rest))
    → (rest : List ℕ) → IsMessage t read a (resp_type_to_char t ∷ lines) rest
from_lines t read a lines h rest = (lines ++ rest, read_type_of t (lines ++ rest), h rest)

line_of :
    {A : Type 0} (read : Reading A) (a : A) (s : List ℕ)
    → ((rest : List ℕ) → read (s ++ 13 ∷ 10 ∷ rest) ≡ (ok a, rest))
    → (rest : List ℕ) → read ((s ++ end_string) ++ rest) ≡ (ok a, rest)
line_of read a s h rest = rw (append_assoc s end_string rest) (h rest)

-- A 64-bit integer is read back from its message, and what follows the message is left.
pub read_int-write_int :
    (n : ℤ) → IsInt64 n → (rest : List ℕ) → IsMessage int read_int n (write_int n []) rest
unfolding write_int read_int
read_int-write_int n h = from_lines int read_int n (to_string n ++ end_string) (
    line_of read_int n (to_string n)
      (λ rest. rw ((number_line n rest h).0, (number_line n rest h).1, head-to_string n)))

-- A simple string of fewer than 65472 bytes, none of them a line end, is read back from its message,
-- and what follows the message is left.
pub read_simple_string-write_simple_string :
    (s : List ℕ)
    → All IsPlain s
    → length s < line_limit
    → (rest : List ℕ) → IsMessage simple_string read_simple_string s (write_simple_string s []) rest
unfolding write_simple_string read_simple_string
read_simple_string-write_simple_string s plain short =
    from_lines simple_string read_simple_string s (s ++ end_string) (
      line_of read_simple_string s s
        (λ rest. rw (read_basic_string_to_buf-IsPlain s rest plain short)))

-- So is the text of an error.
pub read_error-write_error :
    (s : List ℕ)
    → All IsPlain s
    → length s < line_limit
    → (rest : List ℕ) → IsMessage error read_error s (write_error s []) rest
unfolding write_error read_error
read_error-write_error s plain short =
    from_lines error read_error s (s ++ end_string)
      (line_of read_error s s (λ rest. rw (read_basic_string_to_buf-IsPlain s rest plain short)))

-- A bulk string of fewer than 2^63 bytes, whatever they are, is read back from its message, and what
-- follows the message is left.
pub read_bulk_string-write_bulk_string :
    (s : List ℕ)
    → length s < 2 ^ 63
    → (rest : List ℕ)
    → IsMessage bulk_string read_bulk_string (some s) (write_bulk_string s []) rest
unfolding write_bulk_string read_bulk_string
read_bulk_string-write_bulk_string s small =
    from_lines bulk_string read_bulk_string (some s)
      (to_string_nat (length s) ++ end_string ++ s ++ end_string)
      λ rest. rw (
        append_assoc (to_string_nat (length s) ++ end_string ++ s) end_string rest,
        append_assoc (to_string_nat (length s) ++ end_string) s (end_string ++ rest),
        append_assoc (to_string_nat (length s)) end_string (s ++ (end_string ++ rest)),
        read_length-to_string_nat (length s) (s ++ 13 ∷ 10 ∷ rest) small,
        read_bulk_body-append s rest,
      )

pub read_bulk_string-write_null_bulk_string :
    (rest : List ℕ) → IsMessage bulk_string read_bulk_string none (write_null_bulk_string []) rest
unfolding write_null_bulk_string read_bulk_string
read_bulk_string-write_null_bulk_string =
    from_lines bulk_string read_bulk_string none (b'-' ∷ b'1' ∷ 13 ∷ 10 ∷ [])
      (λ rest. rw (null_line rest))

pub read_array_length-start_array :
    (n : ℕ)
    → n < 2 ^ 63
    → (rest : List ℕ) → IsMessage array read_array_length (pos n) (start_array n []) rest
unfolding start_array read_array_length
read_array_length-start_array n small =
    from_lines array read_array_length (pos n) (to_string_nat n ++ end_string) (
      line_of read_array_length (pos n) (to_string_nat n)
        (λ rest. rw (read_length-to_string_nat n rest small)))
