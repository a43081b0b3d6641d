-- ===== src/Redis/Client.antt =====
-- redis/redis-client: `Client`. An operation writes its request and reads the reply from what the
-- server sends back.
pub mod Requests
pub mod Session
use cpp_many_tasks.Prelude.{ℕ, Bool, true, false, Option, none, some, List, [], ◌∷◌, if◌then◌else◌}
use cpp_many_tasks.Prelude.Int.{ℤ}
use cpp_many_tasks.Redis.Types.{
  ERespType, bulk_string, int, error, is_type, Exception, redis_error, error_reply, Result, ok, err,
}
use cpp_many_tasks.Redis.Reader.{
  Reading, ◌>>=◌, ◌>>◌, pure, throw, require, read_type, read_bulk_string, read_error, read_int,
}
use cpp_many_tasks.Redis.Writer.{Output, write_bulk_string, start_array}
use cpp_many_tasks.Redis.Storage.{same_key}
use cpp_many_tasks.Redis.Server.{get_name, set_name, incr_name, decr_name, ok_text}

unfoldable pub request_get : List ℕ → Output → Output
request_get k out = write_bulk_string k (write_bulk_string get_name (start_array 2 out))

unfoldable pub request_set : List ℕ → List ℕ → Output → Output
request_set k v out =
    write_bulk_string v (write_bulk_string k (write_bulk_string set_name (start_array 3 out)))

unfoldable pub request_increment : List ℕ → Output → Output
request_increment k out = write_bulk_string k (write_bulk_string incr_name (start_array 2 out))

unfoldable pub request_decrement : List ℕ → Output → Output
request_decrement k out = write_bulk_string k (write_bulk_string decr_name (start_array 2 out))

-- A reply of another type than the one awaited: an error of the server, or nonsense.
abbrev pub other_reply : {A : Type 0} → ERespType → Reading A
other_reply t =
    if is_type t error
    then (do text ← read_error; throw (error_reply text))
    else throw (redis_error "Wrong answer type")

unfoldable pub receive_get : Reading (Option (List ℕ))
receive_get = do t ← read_type; if is_type t bulk_string then read_bulk_string else other_reply t

abbrev pub is_ok : Option (List ℕ) → Bool
is_ok none = false
is_ok (some s) = same_key s ok_text

abbrev pub confirm : Reading (Unit {0})
confirm = do s ← read_bulk_string; require (is_ok s) (redis_error "Unsuccessful SET")

unfoldable pub receive_set : Reading (Unit {0})
receive_set = do t ← read_type; if is_type t bulk_string then confirm else other_reply t

-- The reply to `Increment` and to `Decrement`.
unfoldable pub receive_int : Reading ℤ
receive_int = do t ← read_type; if is_type t int then read_int else other_reply t
