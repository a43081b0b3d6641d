-- ===== src/Redis/Server/Progress.antt =====
-- Every operation of the reader moves forward, so the loop of a connection ends.
use Prim.Native.String.{String}
use cpp_many_tasks.Prelude.{
  ℕ, zero, suc, ◌+◌, ◌≤◌, ◌<◌, ◌≡◌, refl, Bool, true, false, some, List, [], ◌∷◌, ◌++◌, arith,
  length, length-drop, ◌==◌, get_or, if◌then◌else◌, ◌*◌, ◌&&◌, ◌||◌, not, ltb,
}
use cpp_many_tasks.Prelude.Int.{ℤ, pos, negsuc}
use cpp_many_tasks.Redis.Types.{
  ERespType, Exception, redis_error, Result, ok, err, array, bulk_string, is_type,
  char_to_resp_type,
}
use cpp_many_tasks.Redis.Reader.{
  Reading, next, caught, ◌>>=◌, ◌>>◌, pure, lift, require, catch_all, read_full, read_char,
  read_type, read_line, read_basic_string_to_buf, read_length, read_bulk_body, bulk_of,
  read_bulk_string, read_array_length, wrong_ending, number_in, at_least_minus_one,
}
use cpp_many_tasks.Redis.Writer.{Output}
use cpp_many_tasks.Redis.Storage.{Storage}
use cpp_many_tasks.Redis.Server.{
  Command, read_part, read_value, wrong_format, or_throw, commands, length_fits, read_parts,
  read_command, process_command, serve, to_size, after_command, after_reply,
}

-- No bytes are given back.
abbrev IsForward : {A : Type 0} → Reading A → Type 0
IsForward m = (input : List ℕ) → length (m input).1 ≤ length input

module _ {A B : Type 0} where
  next_forward :
      (f : A → Reading B) (r : Result A × List ℕ) (n : ℕ)
      → ((a : A) → IsForward (f a))
      → length r.1 ≤ n
      → length (next f r).1 ≤ n
  next_forward f (ok a, rest) n hf h = omega (arith, hf a rest)
  next_forward f (err e, rest) n hf h = h

  >>=-IsForward :
      (m : Reading A) (f : A → Reading B)
      → IsForward m
      → ((a : A) → IsForward (f a))
      → IsForward (m >>= f)
  >>=-IsForward m f hm hf input = next_forward f (m input) (length input) hf (hm input)

catch_all-IsForward :
    {A : Type 0} (text : String) (m : Reading A) → IsForward m → IsForward (catch_all text m)
catch_all-IsForward {A} text m hm input = go (m input) (hm input)
  where
    go :
        (r : Result A × List ℕ)
        → length r.1 ≤ length input
        → length (caught text r).1 ≤ length input
    go (ok a, rest) h = h
    go (err e, rest) h = h

require-IsForward : (b : Bool) (e : Exception) → IsForward (require b e)
require-IsForward true e input = omega arith
require-IsForward false e input = omega arith

read_full-IsForward : (n : ℕ) → IsForward (read_full n)
unfolding read_full
read_full-IsForward n input = ground (arith, length-drop n input)

read_char-IsForward : IsForward read_char
unfolding read_char
read_char-IsForward = >>=-IsForward (read_full 1) _ (read_full-IsForward 1) (λ a input. omega arith)

read_line-IsForward : (found : List ℕ) (size cap : ℕ) → IsForward (read_line found size cap)
unfolding read_line
read_line-IsForward found size cap [] = omega arith
read_line-IsForward found size cap (c ∷ input) =
    let full = suc size == cap in
    ground (
      arith,
      read_line-IsForward (found ++ c ∷ []) (suc size) (if full then suc size * 2 else cap) input,
    )

read_basic-IsForward : IsForward read_basic_string_to_buf
unfolding read_basic_string_to_buf
read_basic-IsForward =
    >>=-IsForward (read_line [] 0 1023) _ (read_line-IsForward [] 0 1023) λ found.
      >>=-IsForward read_char _ read_char-IsForward λ last.
        >>=-IsForward (require (last == 10) wrong_ending) _ (require-IsForward _ _)
          (λ a input. omega arith)

read_length-IsForward : IsForward read_length
unfolding read_length
read_length-IsForward = >>=-IsForward read_basic_string_to_buf _ read_basic-IsForward λ s.
    >>=-IsForward (lift (number_in s)) _ (λ input. omega arith)
      λ z.
        >>=-IsForward (require (at_least_minus_one z) _) _ (require-IsForward _ _)
          (λ a input. omega arith)

pure_or_throw-IsForward : {A : Type 0} (r : Result A) → IsForward (lift r)
pure_or_throw-IsForward r input = omega arith

read_bulk_body-IsForward : (n : ℕ) → IsForward (read_bulk_body n)
unfolding read_bulk_body
read_bulk_body-IsForward n =
    >>=-IsForward (read_full (n + 2)) _ (read_full-IsForward (n + 2)) λ bytes.
      >>=-IsForward (require (get_or bytes n 0 == 13 && get_or bytes (n + 1) 0 == 10) wrong_ending)
        _ (require-IsForward _ _) (λ a input. omega arith)

bulk_of-IsForward : (z : ℤ) → IsForward (bulk_of z)
bulk_of-IsForward (negsuc n) input = omega arith
bulk_of-IsForward (pos n) input =
    >>=-IsForward (read_bulk_body n) _ (read_bulk_body-IsForward n) (λ a rest. omega arith) input

read_bulk_string-IsForward : IsForward read_bulk_string
unfolding read_bulk_string
read_bulk_string-IsForward =
    catch_all-IsForward _ (read_length >>= bulk_of)
      (>>=-IsForward read_length bulk_of read_length-IsForward bulk_of-IsForward)

read_array_length-IsForward : IsForward read_array_length
unfolding read_array_length
read_array_length-IsForward = catch_all-IsForward _ read_length read_length-IsForward

read_type-IsForward : IsForward read_type
unfolding read_type
read_type-IsForward =
    catch_all-IsForward _ (read_char >>= λ c. lift (char_to_resp_type c))
      (>>=-IsForward read_char _ read_char-IsForward (λ a input. omega arith))

read_part-IsForward : (e : Exception) → IsForward (read_part e)
unfolding read_part
read_part-IsForward e = >>=-IsForward read_type _ read_type-IsForward λ t.
    >>=-IsForward (require (is_type t bulk_string) wrong_format) _ (require-IsForward _ _)
      λ _. >>=-IsForward read_bulk_string _ read_bulk_string-IsForward (λ a input. omega arith)

read_value-IsForward : (n : ℕ) → IsForward (read_value n)
read_value-IsForward n = go (n == 3)
  where
    go : (b : Bool) → IsForward (if b then read_part (redis_error "Command null key") else pure [])
    go true input = read_part-IsForward _ input
    go false input = omega arith

read_parts-IsForward : (n : ℕ) → IsForward (read_parts n)
unfolding read_parts
read_parts-IsForward n =
    >>=-IsForward (read_part (redis_error "Wrong command name")) _ (read_part-IsForward _) λ name.
      >>=-IsForward (lift (or_throw (commands name) (redis_error "Wrong command name"))) _
        (λ input. omega arith)
        λ type.
          >>=-IsForward (require (length_fits type n) wrong_format) _ (require-IsForward _ _) λ _.
            >>=-IsForward (read_part (redis_error "Command null key")) _ (read_part-IsForward _)
              λ key.
                >>=-IsForward (read_value n) _ (read_value-IsForward n) (λ a input. omega arith)

-- What follows the type byte of a command.
read_rest : ERespType → Reading Command
read_rest t = do
  require (is_type t array) wrong_format
  z ← read_array_length
  require (not (ltb (to_size z) 2 || ltb 3 (to_size z))) (redis_error "Unknown command")
  read_parts (to_size z)

read_rest-IsForward : (t : ERespType) → IsForward (read_rest t)
unfolding read_rest
read_rest-IsForward t =
    >>=-IsForward (require (is_type t array) wrong_format) _ (require-IsForward _ _) λ _.
      >>=-IsForward read_array_length _ read_array_length-IsForward λ z.
        >>=-IsForward (require (not (ltb (to_size z) 2 || ltb 3 (to_size z))) _) _
          (require-IsForward _ _) (λ _. read_parts-IsForward (to_size z))

read_type_cons : (c : ℕ) (input : List ℕ) → length (read_type (c ∷ input)).1 ≤ length input
unfolding read_type read_char read_full
read_type_cons c input = ground arith

-- A command takes at least its type byte.
read_command_progress :
    (c : ℕ) (input : List ℕ) → length (read_command (c ∷ input)).1 ≤ length input
unfolding read_command read_rest
read_command_progress c input =
    next_forward read_rest (read_type (c ∷ input)) (length input) read_rest-IsForward
      (read_type_cons c input)

read_command_end : read_command [] ≡ (err (redis_error "Error parsing simple string"), [])
unfolding read_command read_type read_char read_full
read_command_end = refl

-- The loop of a connection ends, whatever the peer sends: fuel for one round more than there are
-- bytes is enough.
pub serve_total :
    (fuel : ℕ) (input : List ℕ) (m : Storage) (out : Output)
    → length input < fuel
    → (r : Storage × Output) × (serve fuel input m out ≡ some r)
unfolding serve
serve_total zero input m out enough = absurd (omega arith)
serve_total (suc fuel) [] m out enough = ((m, out), rw read_command_end)
serve_total (suc fuel) (c ∷ input) m out enough =
    after (λ rest m' out' h. serve_total fuel rest m' out' (omega arith)) (read_command (c ∷ input))
      (read_command_progress c input)
  where
    More : Type 0
    More =
        (rest : List ℕ) (m' : Storage) (out' : Output)
        → length rest ≤ length input
        → (r : Storage × Output) × (serve fuel rest m' out' ≡ some r)

    reply :
        More
        → (rest : List ℕ) → length rest ≤ length input
        → (p : Result (Unit {0}) × Storage × Output)
        → (r : Storage × Output) × (after_reply (λ rest' m' out'. serve fuel rest' m' out') rest p
            ≡ some r)
    reply more rest h (ok _, m', out') = more rest m' out' h
    reply more rest h (err e, m', out') = ((m', out'), refl)

    after :
        More
        → (p : Result Command × List ℕ) → length p.1 ≤ length input
        → (r : Storage × Output) × (after_command
              (λ rest' m' out'. serve fuel rest' m' out')
              p
              m
              out
            ≡ some r)
    after more (ok cmd, rest) h = reply more rest h (process_command cmd m out)
    after more (err e, rest) h = ((m, out), refl)
