-- ===== src/Redis/Lines.antt =====
-- redis/resp-reader, line by line: what the reader makes of the lines that a writer makes.
use native.Mathlib.Numerals.{add-one}
use cpp_many_tasks.Prelude.{
  ℕ, suc, ◌+◌, ◌*◌, ◌^◌, ◌<◌, ◌≡◌, ◌≢◌, ◌⊎◌, inl, inr, refl, ap, ◌∙◌, true, false, List, [], ◌∷◌,
  ◌++◌, arith, length, get_or, length-append, append_assoc, append-nil, take-append, drop-append,
  get_or-append, get_or-append_next, All, Bool-cases, ◌==◌,
}
use cpp_many_tasks.Prelude.Int.{ℤ, pos, negsuc}
use cpp_many_tasks.Std.Decimal.{to_string, to_string_nat, IsInt64}
use cpp_many_tasks.Std.Decimal.RoundTrip.{
  IsDigit, to_string_nat-IsDigit, length-to_string_nat, stoll_all-to_string,
}
use cpp_many_tasks.Redis.Types.{
  ERespType, resp_type_to_char, char_to_resp_type-resp_type_to_char, ok,
}
use cpp_many_tasks.Redis.Reader.{
  read_line, read_basic_string_to_buf, read_type, read_length, at_least_minus_one, read_bulk_body,
  number_in, read_char, read_full,
}
use cpp_many_tasks.Redis.Writer.{end_string}

-- A byte that may stand in a line.
abbrev pub IsPlain : ℕ → Type 0
IsPlain c = (c ≢ 13) × (c ≢ 10)

-- The sizes that `buf_` takes.
abbrev IsCap : ℕ → Type 0
IsCap cap =
    (cap ≡ 1023)
    ⊎ (cap ≡ 2046)
    ⊎ (cap ≡ 4092)
    ⊎ (cap ≡ 8184)
    ⊎ (cap ≡ 16368)
    ⊎ (cap ≡ 32736)
    ⊎ (cap ≡ 65472)

-- The longest line has one byte less than this.
abbrev pub line_limit : ℕ
line_limit = 65472

read_line_step :
    (found : List ℕ) (size cap c : ℕ) (input : List ℕ)
    → IsPlain c
    → IsCap cap
    → size < cap
    → suc size < line_limit
    → (cap' : ℕ) × IsCap cap'
      × (suc size < cap')
      × (read_line found size cap (c ∷ input) ≡ read_line (found ++ c ∷ []) (suc size) cap' input)
unfolding read_line
read_line_step found size cap c input plain caps room short = elim (Bool-cases (suc size == cap)) [
  | inl full ↦ (suc size * 2, ground arith, ground arith, ground arith)
  | inr free ↦ (cap, caps, ground arith, ground arith)
]

read_line_end :
    (found : List ℕ) (size cap : ℕ) (rest : List ℕ)
    → read_line found size cap (13 ∷ rest) ≡ (ok found, rest)
unfolding read_line
read_line_end found size cap rest = refl

read_line-IsPlain :
    (s found : List ℕ) (size cap : ℕ) (rest : List ℕ)
    → All IsPlain s
    → IsCap cap
    → size < cap
    → size + length s < line_limit
    → read_line found size cap (s ++ 13 ∷ rest) ≡ (ok (found ++ s), rest)
read_line-IsPlain [] found size cap rest plain caps room short =
    rw append-nil (read_line_end found size cap rest)
read_line-IsPlain (c ∷ cs) found size cap rest (hc, hs) caps room short =
    let (cap', caps', room', step) =
      read_line_step found size cap c (cs ++ 13 ∷ rest) hc caps room (omega arith) in
    step
    ∙ read_line-IsPlain cs (found ++ c ∷ []) (suc size) cap' rest hs caps' room' (omega arith)
    ∙ ap (λ l. (ok l, rest)) (append_assoc found (c ∷ []) cs)

read_char_cons : (c : ℕ) (rest : List ℕ) → read_char (c ∷ rest) ≡ (ok c, rest)
unfolding read_char read_full
read_char_cons c rest = ground arith

-- A line without line ends in it is read back to its end.
pub read_basic_string_to_buf-IsPlain :
    (s rest : List ℕ)
    → All IsPlain s
    → length s < line_limit
    → read_basic_string_to_buf (s ++ 13 ∷ 10 ∷ rest) ≡ (ok s, rest)
unfolding read_basic_string_to_buf
read_basic_string_to_buf-IsPlain s rest plain short = rw (
  read_line-IsPlain s [] 0 1023 (10 ∷ rest) plain (inl refl) (omega arith) (omega arith),
  read_char_cons,
)

IsDigit-IsPlain : (s : List ℕ) → All IsDigit s → All IsPlain s
IsDigit-IsPlain [] h = tt
IsDigit-IsPlain (c ∷ cs) (hc, hs) = (omega arith, IsDigit-IsPlain cs hs)

to_string_nat-IsPlain : (n : ℕ) → All IsPlain (to_string_nat n)
to_string_nat-IsPlain n = IsDigit-IsPlain _ (to_string_nat-IsDigit n)

to_string-IsPlain : (z : ℤ) → All IsPlain (to_string z)
unfolding to_string
to_string-IsPlain (pos n) = to_string_nat-IsPlain n
to_string-IsPlain (negsuc n) = (omega arith, to_string_nat-IsPlain (suc n))

length-to_string : (z : ℤ) → length (to_string z) < line_limit
unfolding to_string
length-to_string (pos n) = omega (arith, length-to_string_nat n)
length-to_string (negsuc n) = omega (arith, length-to_string_nat (suc n))

read_number :
    (z : ℤ) (rest : List ℕ)
    → read_basic_string_to_buf (to_string z ++ 13 ∷ 10 ∷ rest) ≡ (ok (to_string z), rest)
read_number z rest =
    read_basic_string_to_buf-IsPlain (to_string z) rest (to_string-IsPlain z) (length-to_string z)

head-IsDigit : (s : List ℕ) → All IsDigit s → ((get_or s 0 0 == b' ') ≡ false)
head-IsDigit [] h = refl
head-IsDigit (c ∷ cs) (hc, hs) = ground arith

-- A printed number does not begin with a space.
pub head-to_string : (z : ℤ) → ((get_or (to_string z) 0 0 == b' ') ≡ false)
unfolding to_string
head-to_string (pos n) = head-IsDigit (to_string_nat n) (to_string_nat-IsDigit n)
head-to_string (negsuc n) = refl

pub number_line :
    (z : ℤ) (rest : List ℕ)
    → IsInt64 z
    → (read_basic_string_to_buf (to_string z ++ 13 ∷ 10 ∷ rest) ≡ (ok (to_string z), rest))
      × (number_in (to_string z) ≡ ok z)
number_line z rest h = (read_number z rest, rw (stoll_all-to_string z h, number_in))

pub read_length-to_string :
    (z : ℤ) (rest : List ℕ)
    → IsInt64 z
    → at_least_minus_one z ≡ true
    → read_length (to_string z ++ 13 ∷ 10 ∷ rest) ≡ (ok z, rest)
unfolding read_length
read_length-to_string z rest h small =
    rw ((number_line z rest h).0, (number_line z rest h).1, small)

pub read_length-to_string_nat :
    (n : ℕ) (rest : List ℕ)
    → n < 2 ^ 63
    → read_length (to_string_nat n ++ 13 ∷ 10 ∷ rest) ≡ (ok (pos n), rest)
unfolding to_string
read_length-to_string_nat n rest h = read_length-to_string (pos n) rest h refl

pub null_line : (rest : List ℕ) → read_length (b'-' ∷ b'1' ∷ 13 ∷ 10 ∷ rest) ≡ (ok (negsuc 0), rest)
unfolding to_string to_string_nat
null_line rest = read_length-to_string (negsuc 0) rest (omega arith) refl

read_full-append : (xs rest : List ℕ) → read_full (length xs) (xs ++ rest) ≡ (ok xs, rest)
unfolding read_full
read_full-append xs rest =
    ground (arith, length-append xs rest, take-append xs rest, drop-append xs rest)

-- A body without restriction on its bytes, and its line end.
pub read_bulk_body-append :
    (s rest : List ℕ) → read_bulk_body (length s) (s ++ 13 ∷ 10 ∷ rest) ≡ (ok s, rest)
unfolding read_bulk_body
read_bulk_body-append s rest = rw (
  ← append_assoc s end_string rest,
  whole,
  read_full-append (s ++ end_string) rest,
  get_or-append s end_string 0,
  add-one (length s),
  get_or-append_next s 13 (10 ∷ []) 0,
  take-append s end_string,
)
  where
    whole : length s + 2 ≡ length (s ++ end_string)
    whole = omega (arith, length-append s end_string)

-- The type byte of each message.
pub read_type_of :
    (t : ERespType) (rest : List ℕ) → read_type (resp_type_to_char t ∷ rest) ≡ (ok t, rest)
unfolding read_type
read_type_of t rest = rw (read_char_cons, char_to_resp_type-resp_type_to_char)
