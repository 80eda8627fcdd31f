-- ===== src/MessageBuffer/Tests.antt =====
-- Runs of the buffer on small inputs, and the theorems at them.
use sip_processing.Prelude.{
  ℕ, ◌-◌, ◌<◌, ◌≤◌, ◌≡◌, ◌⊎◌, refl, List, [], ◌∷◌, ◌++◌, none, some, length, take, drop, replicate,
  arith,
}
use sip_processing.MessageBuffer.{
  MessageBuffer, write, is_at, copy_in, copy_out, fill, create, push, pull, getchar, putchar,
  pull_delimited, search_delimiter, flush, get_stored_byte_count, get_space_available_byte_count,
}
use sip_processing.MessageBuffer.Valid.{IsValid, contents}
use sip_processing.MessageBuffer.Push.{push-appends}
use sip_processing.MessageBuffer.Pull.{pull-takes, taken}
use sip_processing.MessageBuffer.Getchar.{Getchar, getchar-takes}
use sip_processing.MessageBuffer.Putchar.{Putchar, putchar-puts}
use sip_processing.MessageBuffer.Reset.{create-IsValid, flush-IsValid}
use sip_processing.MessageBuffer.Search.{ring, match_from}
use sip_processing.MessageBuffer.Delimited.{Ends, pull_delimited-Ends, pull_delimited-stale}

-- Three bytes, which go round the end of the array.
abbrev wrapped : MessageBuffer
wrapped = record {
  size = 5;
  max_capacity = 4;
  data_start_pos = 3;
  data_end_pos = 1;
  content = 7 ∷ 0 ∷ 0 ∷ 5 ∷ 6 ∷ [];
}

wrapped-IsValid : IsValid wrapped
unfolding get_stored_byte_count
wrapped-IsValid = omega arith

push-wrapped :
    push wrapped (8 ∷ [])
    ≡ some (1, record wrapped { content = 7 ∷ 8 ∷ 0 ∷ 5 ∷ 6 ∷ []; data_end_pos = 2 })
unfolding push write copy_in get_stored_byte_count get_space_available_byte_count
push-wrapped = refl

pull-wrapped :
    pull wrapped (1 ∷ 1 ∷ 1 ∷ 1 ∷ []) 3
    ≡ some (3, 5 ∷ 6 ∷ 7 ∷ 0 ∷ [], record wrapped { data_start_pos = 1 })
unfolding pull fill copy_out get_stored_byte_count
pull-wrapped = refl

abbrev one_byte : List ℕ
one_byte = 8 ∷ []

push-appends_example :
    ((length one_byte ≤ get_space_available_byte_count wrapped)
      × ((m' : MessageBuffer) × (push wrapped one_byte ≡ some (length one_byte, m'))
          × IsValid m'
          × (contents m' ≡ contents wrapped ++ one_byte)))
    ⊎ ((get_space_available_byte_count wrapped < length one_byte)
        × (push wrapped one_byte ≡ some (0, wrapped)))
push-appends_example = push-appends wrapped one_byte wrapped-IsValid

-- After `push` of three bytes into a new buffer of capacity 3, `pull` of them, and a `push` of one:
-- the byte stands at the end of the array.
abbrev at_end : MessageBuffer
at_end = record {
  size = 4;
  max_capacity = 3;
  data_start_pos = 3;
  data_end_pos = 4;
  content = 1 ∷ 2 ∷ 3 ∷ 4 ∷ [];
}

at_end-IsValid : IsValid at_end
unfolding get_stored_byte_count
at_end-IsValid = omega arith

-- An empty buffer that counts as four bytes, more than its capacity.
getchar-at_end :
    (getchar at_end ≡ some (4, record at_end { data_start_pos = 0 }))
    × (get_stored_byte_count (record at_end { data_start_pos = 0 }) ≡ 4)
unfolding getchar get_stored_byte_count
getchar-at_end = (refl, refl)

-- "\r\n\r\n" was pulled and the buffer flushed; then "BYE sip" was pushed over "INVITE ".
abbrev partial : MessageBuffer
partial = record {
  size = 12;
  max_capacity = 11;
  data_start_pos = 0;
  data_end_pos = 7;
  content = b'B' ∷ b'Y' ∷ b'E' ∷ b' ' ∷ b's' ∷ b'i' ∷ b'p' ∷ b'\r' ∷ b'\n' ∷ b'\r' ∷ b'\n' ∷ 0 ∷ [];
}

partial-IsValid : IsValid partial
unfolding get_stored_byte_count
partial-IsValid = omega arith

abbrev delimiter : List ℕ
delimiter = b'\r' ∷ b'\n' ∷ b'\r' ∷ b'\n' ∷ []

abbrev zeros : List ℕ
zeros = replicate 16 0

pull_partial :
    (length delimiter ≤ 7)
    × (pull_delimited partial zeros delimiter
        ≡ some (
          7,
          (b'B' ∷ b'Y' ∷ b'E' ∷ b' ' ∷ b's' ∷ b'i' ∷ b'p' ∷ []) ++ replicate 9 0,
          record partial { data_start_pos = 7 },
        ))
unfolding pull_delimited search_delimiter is_at pull fill copy_out get_stored_byte_count
pull_partial = (omega arith, refl)

pull-takes_example :
    ((taken wrapped 2 ≤ length zeros)
      × ((m' : MessageBuffer) × (pull wrapped zeros 2
            ≡ some (
              taken wrapped 2,
              take (taken wrapped 2) (contents wrapped)
                  ++ replicate (length zeros - taken wrapped 2) 0,
              m',
            ))
          × IsValid m'
          × (contents m' ≡ drop (taken wrapped 2) (contents wrapped))))
    ⊎ ((length zeros < taken wrapped 2) × (pull wrapped zeros 2 ≡ none))
pull-takes_example = pull-takes wrapped zeros 2 wrapped-IsValid

getchar-takes_example : Getchar at_end (getchar at_end)
getchar-takes_example = getchar-takes at_end at_end-IsValid

putchar-puts_example : Putchar wrapped 9 (putchar wrapped 9)
putchar-puts_example = putchar-puts wrapped 9 wrapped-IsValid

create-IsValid_example :
    IsValid (create 3 (1 ∷ 2 ∷ 3 ∷ 4 ∷ [])) × (contents (create 3 (1 ∷ 2 ∷ 3 ∷ 4 ∷ [])) ≡ [])
create-IsValid_example = create-IsValid 3 (1 ∷ 2 ∷ 3 ∷ 4 ∷ []) (omega arith) (omega arith) refl

pull_delimited-Ends_example :
    (n : ℕ) × (out : List ℕ) × (m' : MessageBuffer) × (pull_delimited partial zeros delimiter
      ≡ some (n, out, m'))
    × (n ≤ length zeros)
    × IsValid m'
    × (take n out ≡ take n (contents partial))
    × (contents m' ≡ drop n (contents partial))
    × Ends partial delimiter n
pull_delimited-Ends_example =
    pull_delimited-Ends partial zeros delimiter partial-IsValid (omega arith)

partial_match :
    match_from delimiter 0 (ring partial.content partial.size partial.data_start_pos 11) ≡ some 11
unfolding match_from ring
partial_match = refl

pull_delimited-stale_example :
    (out : List ℕ) × (m' : MessageBuffer) × (pull_delimited partial zeros delimiter
      ≡ some (get_stored_byte_count partial, out, m'))
    × (take (get_stored_byte_count partial) out ≡ contents partial)
    × (contents m' ≡ [])
unfolding get_stored_byte_count
pull_delimited-stale_example =
    pull_delimited-stale partial zeros delimiter 11 11 partial-IsValid (omega arith) (omega arith)
      partial_match (omega arith) (omega arith)

flush-IsValid_example :
    IsValid (flush wrapped).1
    × (contents (flush wrapped).1 ≡ [])
    × (get_space_available_byte_count (flush wrapped).1 ≡ (flush wrapped).0)
flush-IsValid_example = flush-IsValid wrapped wrapped-IsValid
