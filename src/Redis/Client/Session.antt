-- ===== src/Redis/Client/Session.antt =====
-- A client and a server over one connection.
use cpp_many_tasks.Prelude.{
  ℕ, zero, suc, ◌<◌, ◌^◌, ◌≡◌, refl, Option, none, some, List, [], ◌∷◌, ◌++◌, arith, length, All,
}
use cpp_many_tasks.Prelude.Int.{ℤ}
use cpp_many_tasks.Std.Decimal.{IsInt64}
use cpp_many_tasks.Redis.Types.{redis_error, Result, ok, err, resp_type_to_char}
use cpp_many_tasks.Redis.Reader.{read_type, read_full, read_char}
use cpp_many_tasks.Redis.Writer.{Output}
use cpp_many_tasks.Redis.RoundTrip.{
  read_bulk_string-write_bulk_string, read_bulk_string-write_null_bulk_string, read_int-write_int,
}
use cpp_many_tasks.Redis.Storage.{Storage, same_key, get}
use cpp_many_tasks.Redis.Server.{
  Command, command_get, command_set, read_command, process_command, reply_get, ok_text,
  reply_change, serve, after_reply,
}
use cpp_many_tasks.Redis.Client.{receive_get, receive_set, receive_int}
use cpp_many_tasks.Redis.Client.Requests.{request, IsSendable, read_command-request}

-- All requests of a client, in order.
pub requests : List Command → List ℕ
requests [] = []
requests (c ∷ cs) = request c [] ++ requests cs

abbrev then_run :
    (Storage → Output → Storage × Output) → Result (Unit {0}) × Storage × Output → Storage × Output
then_run more (ok _, m, out) = more m out
then_run more (err e, m, out) = (m, out)

-- What the server is to make of a list of commands: each is processed on the storage that those
-- before it leave, up to the first that throws.
pub run : List Command → Storage → Output → Storage × Output
run [] m out = (m, out)
run (c ∷ cs) m out = then_run (λ m' out'. run cs m' out') (process_command c m out)

read_command_end : read_command [] ≡ (err (redis_error "Error parsing simple string"), [])
unfolding read_command read_type read_char read_full
read_command_end = refl

-- A connection that carries the requests of a list of commands, with arguments shorter than 2^63
-- bytes, and then closes is served as the list says: every command in order, up to the first that
-- throws, with no other effect. Fuel for one round more than there are commands is enough.
pub serve-requests :
    (cs : List Command) (fuel : ℕ) (m : Storage) (out : Output)
    → All IsSendable cs
    → length cs < fuel
    → serve fuel (requests cs) m out ≡ some (run cs m out)
unfolding serve requests run
serve-requests cs zero m out h enough = absurd (omega arith)
serve-requests [] (suc fuel) m out h enough = rw read_command_end
serve-requests (c ∷ cs) (suc fuel) m out (hc, hs) enough =
    rw (read_command-request c (requests cs) hc)
      (go (λ m' out'. serve-requests cs fuel m' out' hs (omega arith)) (process_command c m out))
  where
    go :
        ((m' : Storage) (out' : Output) → serve fuel (requests cs) m' out' ≡ some (run cs m' out'))
        → (r : Result (Unit {0}) × Storage × Output)
        → after_reply (λ rest m' out'. serve fuel rest m' out') (requests cs) r
          ≡ some (then_run (λ m' out'. run cs m' out') r)
    go ih (ok u, m', out') = ih m' out'
    go ih (err e, m', out') = refl

-- From the reply of the server `Client::Get` reads what the storage shows for the key, if that is
-- shorter than 2^63 bytes, and leaves what follows.
pub receive_get-process_command :
    (k rest : List ℕ) (m : Storage)
    → ((s : List ℕ) → get k m ≡ some s → length s < 2 ^ 63)
    → receive_get ((process_command (command_get k) m []).2 ++ rest) ≡ (ok (get k m), rest)
unfolding receive_get process_command resp_type_to_char
receive_get-process_command k rest m small = go (get k m) small
  where
    go :
        (v : Option (List ℕ))
        → ((s : List ℕ) → v ≡ some s → length s < 2 ^ 63)
        → receive_get (reply_get v [] ++ rest) ≡ (ok v, rest)
    go none h =
        let (line, type_read, body_read) = read_bulk_string-write_null_bulk_string rest in
        rw (type_read, body_read)
    go (some s) h =
        let (line, type_read, body_read) = read_bulk_string-write_bulk_string s (h s refl) rest in
        rw (type_read, body_read)

-- `Client::Set` succeeds.
pub receive_set-process_command :
    (k v rest : List ℕ) (m : Storage)
    → receive_set ((process_command (command_set k v) m []).2 ++ rest) ≡ (ok tt, rest)
unfolding receive_set process_command resp_type_to_char same_key
receive_set-process_command k v rest m =
    let (line, type_read, body_read) =
      read_bulk_string-write_bulk_string ok_text (omega arith) rest in
    rw (type_read, body_read)

-- `Client::Increment` and `Client::Decrement` read the 64-bit number that the server replies with, and
-- leave what follows.
pub receive_int-reply_change :
    (n : ℤ) (rest : List ℕ) (m : Storage)
    → IsInt64 n
    → receive_int ((reply_change (ok n, m) []).2 ++ rest) ≡ (ok n, rest)
unfolding receive_int resp_type_to_char
receive_int-reply_change n rest m h =
    let (line, type_read, body_read) = read_int-write_int n h rest in rw (type_read, body_read)
