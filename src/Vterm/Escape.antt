-- ===== src/Vterm/Escape.antt =====
-- apps/vterm/escape.c: `vt_escape_decode`. `digits` is how many characters `strtoul` takes for a number.
use mein_os.Prelude.{
  ℕ, zero, suc, ◌+◌, ◌≡◌, refl, ◌⊎◌, inl, inr, Option, none, some, List, [], ◌∷◌, ◌==◌,
  if◌then◌else◌, ltb, length, get_elem?, drop,
}

-- How the text behind the escape character stands to one of the sequences: an access behind the end of
-- the sequence, the text or `argv` is a fault.
pub data Match : Type 0 where
  matched : Match
  differs : Match
  faults : Match

abbrev pub percent : ℕ
percent = 37

-- The loop over one sequence, at its character `j`. A `%` without a number leaves `j` where it is and
-- counts an argument, of which there are two; so the rounds are less than the characters and three.
unfoldable pub match_from : (digits : List ℕ → ℕ) → (seq text : List ℕ) → (fuel j argc : ℕ) → Match
match_from digits seq text zero j argc = faults
match_from digits seq text (suc n) j argc =
    let after_number = match_from digits seq text n (j + digits (drop j text)) (argc + 1) in
    let after_char = match_from digits seq text n (j + 1) argc in
    elim (get_elem? seq j) [
      | none ↦ if j == length seq then matched else faults
      | some c ↦
          if c == percent
          then if ltb argc 2 then after_number else faults
          else elim (get_elem? text j) [
            | none ↦ faults
            | some d ↦ if c == d then after_char else differs
          ]
    ]

-- `vt_escape_seq`
abbrev pub sequences : List (List ℕ)
sequences =
    (91 ∷ 99 ∷ [])
    ∷ (91 ∷ 53 ∷ 110 ∷ [])
    ∷ (91 ∷ 54 ∷ 110 ∷ [])
    ∷ (91 ∷ 37 ∷ 59 ∷ 37 ∷ 72 ∷ [])
    ∷ (91 ∷ 37 ∷ 65 ∷ [])
    ∷ (91 ∷ 37 ∷ 66 ∷ [])
    ∷ (91 ∷ 37 ∷ 67 ∷ [])
    ∷ (91 ∷ 37 ∷ 68 ∷ [])
    ∷ (91 ∷ 37 ∷ 59 ∷ 37 ∷ 102 ∷ [])
    ∷ (91 ∷ 115 ∷ [])
    ∷ (91 ∷ 117 ∷ [])
    ∷ (55 ∷ [])
    ∷ (56 ∷ [])
    ∷ (91 ∷ 68 ∷ [])
    ∷ (91 ∷ 77 ∷ [])
    ∷ (91 ∷ 75 ∷ [])
    ∷ (91 ∷ 49 ∷ 75 ∷ [])
    ∷ (91 ∷ 50 ∷ 75 ∷ [])
    ∷ (91 ∷ 74 ∷ [])
    ∷ (91 ∷ 74 ∷ [])
    ∷ (91 ∷ 74 ∷ [])
    ∷ []

-- The loop over the sequences
unfoldable pub decode_with : (digits : List ℕ → ℕ) → List (List ℕ) → (text : List ℕ) → Option ℕ
unfolding match_from
decode_with digits [] text = some 1
decode_with digits (seq ∷ seqs) text =
    let next = decode_with digits seqs text in
    elim (match_from digits seq text (length seq + 4) 0 0) [
      | matched ↦ some 1
      | differs ↦ next
      | faults ↦ none
    ]

-- `vt_escape_decode`, on the text behind the escape character. Nothing is done for any sequence, and
-- the answer is 1 where there is one.
unfoldable pub escape_decode : (digits : List ℕ → ℕ) → (text : List ℕ) → Option ℕ
unfolding decode_with
escape_decode digits text = decode_with digits sequences text

-- What a match of the first sequence comes to
after_match :
    (m : Match) (next : Option ℕ)
    → (next ≡ none) ⊎ (next ≡ some 1)
    → ((elim m as (λ x. Option ℕ) [ matched ↦ some 1 | differs ↦ next | faults ↦ none ]) ≡ none)
      ⊎ ((elim m as (λ x. Option ℕ) [ matched ↦ some 1 | differs ↦ next | faults ↦ none ]) ≡ some 1)
after_match matched next h = inr refl
after_match differs next h = h
after_match faults next h = inl refl

decode_with-one :
    (digits : List ℕ → ℕ) (seqs : List (List ℕ)) (text : List ℕ)
    → (decode_with digits seqs text ≡ none) ⊎ (decode_with digits seqs text ≡ some 1)
unfolding decode_with
decode_with-one digits [] text = inr refl
decode_with-one digits (seq ∷ seqs) text =
    after_match (match_from digits seq text (length seq + 4) 0 0) (decode_with digits seqs text)
      (decode_with-one digits seqs text)

-- No sequence is ever acted on: where there is an answer it is 1.
pub escape_decode-one :
    (digits : List ℕ → ℕ) (text : List ℕ)
    → (escape_decode digits text ≡ none) ⊎ (escape_decode digits text ≡ some 1)
unfolding escape_decode
escape_decode-one digits text = decode_with-one digits sequences text
