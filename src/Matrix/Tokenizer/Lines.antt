-- ===== src/Matrix/Tokenizer/Lines.antt =====
-- matrix-3.0/tokenizer.h: the lines that `Tokenize` makes.
use cpp_many_tasks.Prelude.{
  ℕ, zero, suc, ◌+◌, ◌-◌, ◌*◌, ◌%◌, ◌^◌, ◌≤◌, ◌<◌, ◌≡◌, ◌≢◌, refl, inl, inr, Bool, true, false,
  Option, some, List, [], ◌∷◌, ◌++◌, arith, length, All, Bool-cases,
}
use cpp_many_tasks.Matrix.Tokenizer.{
  Token, number, symbol, var, for_token, eqv, tab, bad_token, new_line, end_token, read_number,
  read_name, consume_at, consume, may_indent, ends_in_new_line, Program, add_token, finish,
  after_token, tokenize_loop, tokenize,
}

abbrev pub is_inner : Token → Bool
is_inner new_line = false
is_inner end_token = false
is_inner t = true

abbrev pub IsInner : Token → Type 0
IsInner t = is_inner t ≡ true

-- A line has some tokens, and then one that ends it.
abbrev pub IsLine : List Token → Type 0
IsLine l =
    (t : Token) × (body : List Token) × (l ≡ t ∷ body ++ new_line ∷ []) × All IsInner (t ∷ body)

length-read_number : (n : ℕ) (l : List ℕ) → length (read_number n l).1 ≤ length l
unfolding read_number
length-read_number n [] = omega arith
length-read_number n (c ∷ l) = ground (arith, length-read_number ((n * 10 + (c - b'0')) % 2 ^ 64) l)

length-read_name : (s l : List ℕ) → length (read_name s l).1 ≤ length l
unfolding read_name
length-read_name s [] = omega arith
length-read_name s (c ∷ l) = ground (arith, length-read_name (s ++ c ∷ []) l)

length-consume_at : (c : ℕ) (l : List ℕ) → length (consume_at c l).1 ≤ length l
unfolding consume_at
length-consume_at c l = ground (arith, length-read_number (c - b'0') l, length-read_name (c ∷ []) l)

length-consume : (n c : ℕ) (l : List ℕ) → length (consume n (c ∷ l)).1 ≤ length l
unfolding consume
length-consume n c [] = ground (arith, length-consume_at c [])
length-consume n c (d ∷ l) = ground (arith, length-consume (suc n) d l, length-consume_at c (d ∷ l))

consume_end : (n : ℕ) → consume n [] ≡ (end_token, [])
unfolding consume
consume_end n = refl

inner-ends_in_new_line : (l : List Token) → All IsInner l → ends_in_new_line l ≡ false
unfolding ends_in_new_line
inner-ends_in_new_line [] h = refl
inner-ends_in_new_line (new_line ∷ []) (h, _) = cc
inner-ends_in_new_line (t ∷ []) (h, _) = ground arith
inner-ends_in_new_line (t ∷ u ∷ l) (h, hs) = inner-ends_in_new_line (u ∷ l) hs

-- The line that is being read has inner tokens only, and the lines before it are lines.
abbrev IsReading : List Token × Program → Type 0
IsReading p = All IsInner p.0 × All IsLine p.1

append-IsInner :
    (line : List Token) (t : Token) → IsInner t → All IsInner line → All IsInner (line ++ t ∷ [])
append-IsInner [] t h hs = (h, tt)
append-IsInner (u ∷ line) t h (hu, hs) = (hu, append-IsInner line t h hs)

append-IsLine :
    (program : Program) (l : List Token)
    → IsLine l
    → All IsLine program
    → All IsLine (program ++ l ∷ [])
append-IsLine [] l h hs = (h, tt)
append-IsLine (k ∷ program) l h (hk, hs) = (hk, append-IsLine program l h hs)

indented :
    (line : List Token) (program : Program)
    → IsReading (line, program)
    → IsReading (add_token tab line program)
unfolding add_token
indented line program (hl, hp) = elim (Bool-cases (may_indent line)) [
  | inl e ↦ rw e (append-IsInner line tab refl hl, hp)
  | inr e ↦ rw e (hl, hp)
]

add_token-IsReading :
    (t : Token) (line : List Token) (program : Program)
    → IsReading (line, program)
    → t ≢ end_token
    → IsReading (add_token t line program)
unfolding add_token
add_token-IsReading new_line [] program h n = h
add_token-IsReading new_line (t ∷ line) program (hl, hp) n =
    (tt, append-IsLine program (t ∷ line ++ new_line ∷ []) (t, line, refl, hl) hp)
add_token-IsReading tab line program h n = indented line program h
add_token-IsReading (number k) line program (hl, hp) n =
    (append-IsInner line (number k) refl hl, hp)
add_token-IsReading (symbol c) line program (hl, hp) n =
    (append-IsInner line (symbol c) refl hl, hp)
add_token-IsReading (var s) line program (hl, hp) n = (append-IsInner line (var s) refl hl, hp)
add_token-IsReading for_token line program (hl, hp) n = (append-IsInner line for_token refl hl, hp)
add_token-IsReading eqv line program (hl, hp) n = (append-IsInner line eqv refl hl, hp)
add_token-IsReading bad_token line program (hl, hp) n = (append-IsInner line bad_token refl hl, hp)
add_token-IsReading end_token line program h n = absurd (n refl)

finish-IsLine :
    (line : List Token) (program : Program)
    → IsReading (line, program)
    → All IsLine (finish line program)
unfolding finish
finish-IsLine [] program (hl, hp) = hp
finish-IsLine (t ∷ line) program (hl, hp) =
    rw (inner-ends_in_new_line (t ∷ line) hl)
      (append-IsLine program (t ∷ line ++ new_line ∷ []) (t, line, refl, hl) hp)

abbrev Tokenized : Option Program → Type 0
Tokenized r = (p : Program) × (r ≡ some p) × All IsLine p

tokenize_loop-IsLine :
    (fuel : ℕ) (input : List ℕ) (line : List Token) (program : Program)
    → length input < fuel
    → IsReading (line, program)
    → Tokenized (tokenize_loop fuel input line program)
unfolding tokenize_loop
tokenize_loop-IsLine zero input line program enough h = absurd (omega arith)
tokenize_loop-IsLine (suc fuel) [] line program enough h =
    rw (consume_end 0) (finish line program, refl, finish-IsLine line program h)
tokenize_loop-IsLine (suc fuel) (c ∷ input) line program enough h =
    go (λ rest q le hq. tokenize_loop-IsLine fuel rest q.0 q.1 (omega arith) hq)
      (consume 0 (c ∷ input)) (length-consume 0 c input)
  where
    More : Type 0
    More =
        (rest : List ℕ) (q : List Token × Program)
        → length rest ≤ length input
        → IsReading q
        → Tokenized (tokenize_loop fuel rest q.0 q.1)

    go :
        More
        → (p : Token × List ℕ) → length p.1 ≤ length input
        → Tokenized (
            after_token
              (λ rest line' program'. tokenize_loop fuel rest line' program')
              p
              line
              program)
    go more (end_token, rest) le = (finish line program, refl, finish-IsLine line program h)
    go more (new_line, rest) le =
        more rest _ le (add_token-IsReading new_line line program h (λ e. cc))
    go more (tab, rest) le = more rest _ le (add_token-IsReading tab line program h (λ e. cc))
    go more (number k, rest) le =
        more rest _ le (add_token-IsReading (number k) line program h (λ e. cc))
    go more (symbol k, rest) le =
        more rest _ le (add_token-IsReading (symbol k) line program h (λ e. cc))
    go more (var s, rest) le = more rest _ le (add_token-IsReading (var s) line program h (λ e. cc))
    go more (for_token, rest) le =
        more rest _ le (add_token-IsReading for_token line program h (λ e. cc))
    go more (eqv, rest) le = more rest _ le (add_token-IsReading eqv line program h (λ e. cc))
    go more (bad_token, rest) le =
        more rest _ le (add_token-IsReading bad_token line program h (λ e. cc))

-- Whatever the input is, `Tokenize` ends, given fuel for one round more than there are characters; each
-- line that it returns has at least one token before its end, none of which ends a line, and is ended
-- by a line end.
pub tokenize-IsLine :
    (fuel : ℕ) (input : List ℕ)
    → length input < fuel
    → (p : Program) × (tokenize fuel input ≡ some p) × All IsLine p
unfolding tokenize
tokenize-IsLine fuel input enough = tokenize_loop-IsLine fuel input [] [] enough (tt, tt)
