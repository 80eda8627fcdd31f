-- ===== src/SipParser/HeaderBlock.antt =====
-- The header section of a message, as the sockets hand it to the parser.
use sip_processing.Prelude.{
  ℕ, ◌+◌, ◌-◌, ◌<◌, ◌≡◌, ◌≢◌, ◌∙◌, refl, sym, inl, inr, ap, List, [], ◌∷◌, ◌++◌, some, length,
  replicate, arith, length-append, take-append, drop-append, ◌≤◌,
}
use mathlib.Core.List.{append_assoc}
use sip_processing.MessageBuffer.{MessageBuffer, pull_delimited}
use sip_processing.MessageBuffer.Valid.{IsValid, contents, length-contents}
use sip_processing.MessageBuffer.Search.{match_from, search_delimiter-found}
use sip_processing.MessageBuffer.Pull.{pull-takes, taken}
use sip_processing.MessageBuffer.Delimited.{pull_delimited-search}
use sip_processing.SipParser.{message_delimiter}

abbrev pub NoReturn : List ℕ → Type 0
NoReturn [] = Unit
NoReturn (c ∷ cs) = (c ≢ b'\r') × NoReturn cs

-- Header lines: none is empty or holds a carriage return.
abbrev pub AreLines : List (List ℕ) → Type 0
AreLines [] = Unit
AreLines (l ∷ ls) = NoReturn l × (l ≢ []) × AreLines ls

abbrev pub end_line : List ℕ → List ℕ
end_line rest = b'\r' ∷ b'\n' ∷ rest

-- The lines, each with its line end, and the empty line behind them.
abbrev pub header_block : List (List ℕ) → List ℕ → List ℕ
header_block [] rest = end_line rest
header_block (l ∷ ls) rest = l ++ end_line (header_block ls rest)

abbrev block_length : List (List ℕ) → ℕ
block_length [] = 2
block_length (l ∷ ls) = length l + 2 + block_length ls

block_length_ge : (ls : List (List ℕ)) → 2 ≤ block_length ls
block_length_ge [] = omega arith
block_length_ge (l ∷ ls) = omega arith

match-line :
    (l r : List ℕ) (n : ℕ)
    → NoReturn l
    → match_from message_delimiter 0 r ≡ some n
    → match_from message_delimiter 0 (l ++ r) ≡ some (length l + n)
unfolding match_from
match-line [] r n h e = e ∙ ap some (omega arith)
match-line (c ∷ l) r n h e = ground (arith, match-line l r n h.1 e)

match-next_line :
    (l r : List ℕ) (n : ℕ)
    → NoReturn l
    → l ≢ []
    → match_from message_delimiter 0 r ≡ some n
    → match_from message_delimiter 2 (l ++ r) ≡ some (length l + n)
unfolding match_from
match-next_line [] r n h k e = absurd (k refl)
match-next_line (c ∷ l) r n h k e = ground (arith, match-line l r n h.1 e)

match-line_end :
    (r : List ℕ) (n : ℕ)
    → match_from message_delimiter 2 r ≡ some n
    → match_from message_delimiter 0 (end_line r) ≡ some (2 + n)
unfolding match_from
match-line_end r n e = ground arith

match-last : (r : List ℕ) → match_from message_delimiter 2 (end_line r) ≡ some 2
unfolding match_from
match-last [] = refl
match-last (x ∷ r) = refl

match-lines :
    (ls : List (List ℕ)) (rest : List ℕ)
    → AreLines ls
    → match_from message_delimiter 2 (header_block ls rest) ≡ some (block_length ls)
match-lines [] rest h = match-last rest
match-lines (l ∷ ls) rest h =
    match-next_line l _ _ h.0 h.1 (match-line_end _ _ (match-lines ls rest h.2))
    ∙ ap some (omega arith)

match-block :
    (l : List ℕ) (ls : List (List ℕ)) (rest : List ℕ)
    → AreLines (l ∷ ls)
    → match_from message_delimiter 0 (header_block (l ∷ ls) rest) ≡ some (block_length (l ∷ ls))
match-block l ls rest h =
    match-line l _ _ h.0 (match-line_end _ _ (match-lines ls rest h.2)) ∙ ap some (omega arith)

length-header_block :
    (ls : List (List ℕ)) (rest : List ℕ)
    → length (header_block ls rest) ≡ block_length ls + length rest
length-header_block [] rest = omega arith
length-header_block (l ∷ ls) rest =
    omega (arith, length-append l (end_line (header_block ls rest)), length-header_block ls rest)

header_block-append :
    (ls : List (List ℕ)) (rest : List ℕ) → header_block ls [] ++ rest ≡ header_block ls rest
header_block-append [] rest = refl
header_block-append (l ∷ ls) rest =
    append_assoc l (end_line (header_block ls [])) rest
    ∙ ap (λ t. l ++ end_line t) (header_block-append ls rest)

-- However the socket split the data when it was pushed: once the header section is stored whole,
-- and the caller's buffer is larger, a `pull` up to the delimiter gives the header section exactly,
-- zeros behind it, and leaves what came after it.
pub pull-header_block :
    (m : MessageBuffer) (buf l : List ℕ) (ls : List (List ℕ)) (rest : List ℕ)
    → IsValid m
    → AreLines (l ∷ ls)
    → contents m ≡ header_block (l ∷ ls) rest
    → length (header_block (l ∷ ls) []) < length buf
    → (m' : MessageBuffer) × (pull_delimited m buf message_delimiter
        ≡ some (
          length (header_block (l ∷ ls) []),
          header_block (l ∷ ls) [] ++ replicate (length buf - length (header_block (l ∷ ls) [])) 0,
          m',
        ))
      × IsValid m'
      × (contents m' ≡ rest)
pull-header_block m buf l ls rest v h e k =
    let block = header_block (l ∷ ls) [] in
    let split = e ∙ sym (header_block-append (l ∷ ls) rest) in
    let stored = sym (length-contents m v) ∙ ap (length {A = ℕ}) split ∙ length-append block rest in
    let n = length block in
    let n_is = length-header_block (l ∷ ls) [] in
    let match : match_from message_delimiter 0 (contents m) ≡ some n =
      rw (← e) at (match-block l ls rest h) ∙ ap some (omega (arith, n_is)) in
    let found = search_delimiter-found m (length buf) message_delimiter n v match k in
    let step =
      pull_delimited-search m buf message_delimiter n (omega arith)
        (omega (arith, n_is, stored, block_length_ge ls)) found in
    let all : taken m n ≡ n = ground (arith, stored) in
    elim (pull-takes m buf n v) [
      | inr (over, _) ↦ absurd (omega (arith, all, over, k))
      | inl (fits, (m', q, w, c)) ↦ (
        m',
        step ∙ q ∙ rw (all, split, take-append block rest) refl,
        w,
        c ∙ rw (all, split, drop-append block rest) refl,
      )
    ]
