-- ===== src/Redis/Types.antt =====
-- redis/resp_types.h and redis/error.h: message types, and the exceptions of the redis code.
use Prim.Native.String.{String}
use cpp_many_tasks.Prelude.{ℕ, ◌≡◌, refl, Bool, List, ◌==◌, if◌then◌else◌}

pub data ERespType : Type 0 where
  simple_string int error bulk_string array : ERespType

-- What is thrown: `RedisError` with a fixed text, with the unknown type byte or with the server's
-- own text; `EOFException` of the connection; and the errors of the standard library.
pub data Exception : Type 0 where
  redis_error : String → Exception
  unknown_type_byte : ℕ → Exception
  error_reply : List ℕ → Exception
  eof : Exception
  bad_number : Exception
  bad_typeid : Exception
  out_of_range : Exception

pub data Result {ℓ} (A : Type ℓ) : Type ℓ where
  ok : A → Result A
  err : Exception → Result A

unfoldable pub char_to_resp_type : ℕ → Result ERespType
char_to_resp_type c =
    if c == b'+'
    then ok simple_string
    else if c == b':'
    then ok int
    else if c == b'-'
    then ok error
    else if c == b'$'
    then ok bulk_string
    else if c == b'*'
    then ok array
    else err (unknown_type_byte c)

unfoldable pub resp_type_to_char : ERespType → ℕ
resp_type_to_char simple_string = b'+'
resp_type_to_char int = b':'
resp_type_to_char error = b'-'
resp_type_to_char bulk_string = b'$'
resp_type_to_char array = b'*'

unfoldable pub type_name : ERespType → String
type_name simple_string = "SimpleString"
type_name int = "Int"
type_name error = "Error"
type_name bulk_string = "BulkString"
type_name array = "Array"

abbrev pub is_type : ERespType → ERespType → Bool
is_type s t = resp_type_to_char s == resp_type_to_char t

-- The type byte of a message identifies its type.
pub char_to_resp_type-resp_type_to_char :
    (t : ERespType) → char_to_resp_type (resp_type_to_char t) ≡ ok t
unfolding char_to_resp_type resp_type_to_char
char_to_resp_type-resp_type_to_char simple_string = refl
char_to_resp_type-resp_type_to_char int = refl
char_to_resp_type-resp_type_to_char error = refl
char_to_resp_type-resp_type_to_char bulk_string = refl
char_to_resp_type-resp_type_to_char array = refl
