-- ===== src/Redis/Reader.antt =====
-- redis/resp-reader: `RespReader` over the bytes that its connection has yet to deliver.
-- An operation returns its result or exception with the bytes that it leaves. A blocking read is one
-- that gets its bytes later: the list holds all that the peer sends before it closes. `buf_` is
-- written before it is read in every operation, so what a `string_view` into it shows is returned.
use Prim.Native.String.{String}
use cpp_many_tasks.Prelude.{
  ℕ, suc, ◌+◌, ◌*◌, ◌^◌, Bool, true, false, ◌&&◌, not, Option, none, some, List, [], ◌∷◌, ◌++◌, ltb,
  leb, ◌==◌, if◌then◌else◌, length, take, drop, get_or,
}
use cpp_many_tasks.Prelude.Int.{ℤ, pos, negsuc}
use cpp_many_tasks.Std.Decimal.{stoll_all}
use cpp_many_tasks.Redis.Types.{
  ERespType, Exception, redis_error, eof, bad_number, Result, ok, err, char_to_resp_type,
}

abbrev pub Reading : Type 0 → Type 0
Reading A = List ℕ → Result A × List ℕ

-- A step after another, and a handler.
abbrev pub next : {A B : Type 0} → (A → Reading B) → Result A × List ℕ → Result B × List ℕ
next f (ok a, rest) = f a rest
next f (err e, rest) = (err e, rest)

abbrev pub caught : {A : Type 0} → String → Result A × List ℕ → Result A × List ℕ
caught text (ok a, rest) = (ok a, rest)
caught text (err e, rest) = (err (redis_error text), rest)

infixl 5 ◌>>=◌ ◌>>◌
abbrev pub ◌>>=◌ : {A B : Type 0} → Reading A → (A → Reading B) → Reading B
◌>>=◌ m f input = next f (m input)

abbrev pub ◌>>◌ : {B : Type 0} → Reading (Unit {0}) → Reading B → Reading B
m >> k = m >>= λ _. k

abbrev pub pure : {A : Type 0} → A → Reading A
pure a input = (ok a, input)

abbrev pub throw : {A : Type 0} → Exception → Reading A
throw e input = (err e, input)

abbrev pub lift : {A : Type 0} → Result A → Reading A
lift r input = (r, input)

abbrev pub require : Bool → Exception → Reading (Unit {0})
require true e = pure tt
require false e = throw e

-- `catch (...) { throw RedisError(text); }`
abbrev pub catch_all : {A : Type 0} → String → Reading A → Reading A
catch_all text m input = caught text (m input)

-- `IReader::ReadFull` on `n` bytes: all of them, or an exception at the end of the stream.
unfoldable pub read_full : ℕ → Reading (List ℕ)
read_full n input =
    if leb n (length input) then (ok (take n input), drop n input) else (err eof, [])

unfoldable pub read_char : Reading ℕ
read_char = do bytes ← read_full 1; pure (get_or bytes 0 0)

unfoldable pub read_type : Reading ERespType
read_type = catch_all "Error parsing simple string" (do c ← read_char; lift (char_to_resp_type c))

abbrev pub wrong_ending : Exception
wrong_ending = redis_error "Wrong string ending symbol"

-- The bytes up to `\r`, of which `found` are read, with `cap` the size of `buf_` and `size` the
-- place of the next byte in it.
unfoldable pub read_line : List ℕ → ℕ → ℕ → Reading (List ℕ)
read_line found size cap [] = (err eof, [])
read_line found size cap (c ∷ input) =
    let full = suc size == cap in
    let more = read_line (found ++ c ∷ []) (suc size) (if full then suc size * 2 else cap) input in
    if c == 13
    then (ok found, input)
    else if c == 10
    then (err wrong_ending, input)
    else if full && ltb (2 ^ 16) (suc size * 2)
    then (err wrong_ending, input)
    else more

unfoldable pub read_basic_string_to_buf : Reading (List ℕ)
read_basic_string_to_buf = do
  found ← read_line [] 0 1023
  last ← read_char
  require (last == 10) wrong_ending
  pure found

unfoldable pub read_simple_string : Reading (List ℕ)
read_simple_string = catch_all "Error parsing simple string" read_basic_string_to_buf

unfoldable pub read_error : Reading (List ℕ)
read_error = catch_all "Error parsing error" read_basic_string_to_buf

-- `std::stoll` on the whole of `buf_`.
abbrev pub number_in : List ℕ → Result ℤ
number_in s = elim (stoll_all s) [ none ↦ err bad_number | some z ↦ ok z ]

unfoldable pub read_int : Reading ℤ
read_int = catch_all "Error parsing integer" (do
  s ← read_basic_string_to_buf
  z ← lift (number_in s)
  require (not (get_or s 0 0 == b' ')) (redis_error "Wrong integer string format")
  pure z)

abbrev pub at_least_minus_one : ℤ → Bool
at_least_minus_one (pos n) = true
at_least_minus_one (negsuc n) = n == 0

-- A length line, at least -1.
unfoldable pub read_length : Reading ℤ
read_length = do
  s ← read_basic_string_to_buf
  z ← lift (number_in s)
  require (at_least_minus_one z) (redis_error "Wrong unsigned integer string format")
  pure z

-- The `length` bytes of a bulk string and its line end.
unfoldable pub read_bulk_body : ℕ → Reading (List ℕ)
read_bulk_body n = do
  bytes ← read_full (n + 2)
  require (get_or bytes n 0 == 13 && get_or bytes (n + 1) 0 == 10) wrong_ending
  pure (take n bytes)

abbrev pub bulk_of : ℤ → Reading (Option (List ℕ))
bulk_of (negsuc n) = pure none
bulk_of (pos n) = do s ← read_bulk_body n; pure (some s)

-- `none` is the null bulk string.
unfoldable pub read_bulk_string : Reading (Option (List ℕ))
read_bulk_string = catch_all "Error parsing bulk string" (do z ← read_length; bulk_of z)

unfoldable pub read_array_length : Reading ℤ
read_array_length = catch_all "Error parsing array legth" read_length
