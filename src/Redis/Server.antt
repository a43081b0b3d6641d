-- ===== src/Redis/Server.antt =====
-- redis/redis-server/server: `Server`, one connection at a time.
pub mod Progress
use cpp_many_tasks.Prelude.{
  ℕ, zero, suc, ◌+◌, ◌-◌, ◌^◌, Bool, true, false, not, ◌&&◌, ◌||◌, Option, none, some, List, [],
  ◌∷◌, ◌++◌, ◌==◌, ltb, if◌then◌else◌, map,
}
use cpp_many_tasks.Prelude.Int.{ℤ, pos, negsuc}
use cpp_many_tasks.Redis.Types.{
  ERespType, array, bulk_string, is_type, Exception, redis_error, Result, ok, err,
}
use cpp_many_tasks.Redis.Reader.{
  Reading, ◌>>=◌, ◌>>◌, pure, throw, require, read_type, read_bulk_string, read_array_length,
}
use cpp_many_tasks.Redis.Writer.{Output, write_bulk_string, write_null_bulk_string, write_int}
use cpp_many_tasks.Redis.Storage.{Storage, same_key, get, set_key, change}

pub data ECommands : Type 0 where
  get_type set_type incr_type decr_type : ECommands

-- `Command` and its subclasses.
pub data Command : Type 0 where
  command_get : List ℕ → Command
  command_set : List ℕ → List ℕ → Command
  command_incr : List ℕ → Command
  command_decr : List ℕ → Command

abbrev pub get_name : List ℕ
get_name = b'G' ∷ b'E' ∷ b'T' ∷ []

abbrev pub set_name : List ℕ
set_name = b'S' ∷ b'E' ∷ b'T' ∷ []

abbrev pub incr_name : List ℕ
incr_name = b'I' ∷ b'N' ∷ b'C' ∷ b'R' ∷ []

abbrev pub decr_name : List ℕ
decr_name = b'D' ∷ b'E' ∷ b'C' ∷ b'R' ∷ []

-- `commands_`.
unfoldable pub commands : List ℕ → Option ECommands
commands name =
    if same_key name get_name
    then some get_type
    else if same_key name set_name
    then some set_type
    else if same_key name incr_name
    then some incr_type
    else if same_key name decr_name
    then some decr_type
    else none

-- The conversion of an `int64_t` to `size_t`.
abbrev pub to_size : ℤ → ℕ
to_size (pos n) = n
to_size (negsuc n) = 2 ^ 64 - 1 - n

abbrev pub or_throw {ℓ} : {A : Type ℓ} → Option A → Exception → Result A
or_throw none e = err e
or_throw (some a) e = ok a

abbrev pub wrong_format : Exception
wrong_format = redis_error "Wrong command format"

-- One element of the array of a command: a bulk string that is not null.
unfoldable pub read_part : Exception → Reading (List ℕ)
read_part missing = do
  t ← read_type
  require (is_type t bulk_string) wrong_format
  s ← read_bulk_string
  λ input. (or_throw s missing, input)

abbrev pub length_fits : ECommands → ℕ → Bool
length_fits set_type n = n == 3
length_fits _ n = n == 2

-- A third element, if the array has one.
abbrev pub read_value : ℕ → Reading (List ℕ)
read_value n = if n == 3 then read_part (redis_error "Command null key") else pure []

abbrev pub make_command : ECommands → List ℕ → List ℕ → Command
make_command get_type k v = command_get k
make_command set_type k v = command_set k v
make_command incr_type k v = command_incr k
make_command decr_type k v = command_decr k

-- The name, the key and the value of an array of `n` elements.
unfoldable pub read_parts : ℕ → Reading Command
read_parts n = do
  name ← read_part (redis_error "Wrong command name")
  type ← (λ input. (or_throw (commands name) (redis_error "Wrong command name"), input))
  require (length_fits type n) wrong_format
  key ← read_part (redis_error "Command null key")
  value ← read_value n
  pure (make_command type key value)

unfoldable pub read_command : Reading Command
read_command = do
  t ← read_type
  require (is_type t array) wrong_format
  z ← read_array_length
  require (not (ltb (to_size z) 2 || ltb 3 (to_size z))) (redis_error "Unknown command")
  read_parts (to_size z)

abbrev pub reply_get : Option (List ℕ) → Output → Output
reply_get (some s) out = write_bulk_string s out
reply_get none out = write_null_bulk_string out

abbrev pub ok_text : List ℕ
ok_text = b'O' ∷ b'K' ∷ []

-- The reply to a change, or its exception.
abbrev pub reply_change : Result ℤ × Storage → Output → Result (Unit {0}) × Storage × Output
reply_change (ok n, m) out = (ok tt, m, write_int n out)
reply_change (err e, m) out = (err e, m, out)

-- The storage and the bytes written after a command, with the exception if it threw one.
unfoldable pub process_command : Command → Storage → Output → Result (Unit {0}) × Storage × Output
process_command (command_get k) m out = (ok tt, m, reply_get (get k m) out)
process_command (command_set k v) m out = (ok tt, set_key k v m, write_bulk_string ok_text out)
process_command (command_incr k) m out = reply_change (change k (pos 1) m) out
process_command (command_decr k) m out = reply_change (change k (negsuc 0) m) out

-- What a connection has left when its loop ends: the storage and all that was written to it.
abbrev pub Served : Type 0
Served = Option (Storage × Output)

-- A round of the loop of a connection, `again` being the rounds after it. Any exception ends it.
abbrev pub after_reply :
    (List ℕ → Storage → Output → Served) → List ℕ → Result (Unit {0}) × Storage × Output → Served
after_reply again input (ok _, m, out) = again input m out
after_reply again input (err e, m, out) = some (m, out)

abbrev pub after_command :
    (List ℕ → Storage → Output → Served) → Result Command × List ℕ → Storage → Output → Served
after_command again (ok c, input) m out = after_reply again input (process_command c m out)
after_command again (err e, input) m out = some (m, out)

-- The fibre of a connection in `Listen`, `none` if the fuel runs out.
unfoldable pub serve : ℕ → List ℕ → Storage → Output → Served
serve zero input m out = none
serve (suc fuel) input m out =
    after_command (λ rest m' out'. serve fuel rest m' out') (read_command input) m out
